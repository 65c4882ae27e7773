-- ===== src/Interpreter/Channel/Waiting.antt =====
-- The receivers and the selects that wait on a channel: what is counted of a thread.
pub mod Rounds
pub mod Selects
pub mod Guards
pub mod Threads
pub mod Schedule
use gof_lang.Prelude.{
  ℕ, zero, suc, ltb, ◌==◌, length, ◌+◌, ◌-◌, ◌≤◌, ◌≡◌, refl, ap, ◌∙◌, sym, subst, ◌⊎◌, inl, inr,
  Bool, true, false, ◌&&◌, not, List, [], ◌∷◌, Option, none, some, All, All-weaken, if◌then◌else◌,
  if_cases, Bool-cases, arith,
}
use gof_lang.Interpreter.Channel.State.{
  is_none, ChannelReceiveState, value, closed, cancelled, ChannelState, is_rendezvous, can_send,
  has_waiting_receiver, close, new,
}
use gof_lang.Interpreter.Channel.Rounds.{
  Round, again, returned, panicked, SendLocals, SendRound, RecvRound, send_round, send_pending,
  withdraw, leave, place_pending, enqueue_pending, recv_round, recv_queue, recv_slot, recv_empty,
  try_select_send, try_send_internal, try_send_to, try_recv, try_recv_queue, try_recv_slot,
}
use gof_lang.Interpreter.Channel.System.{
  Thread, calling, sending, receiving, selecting, sent, received, crashed, System, Action,
  run_thread, close_channel, select_send, select_recv, get_elem?, set, Holds, Holds-weaken,
  All-get_elem?, All-set, after_send, after_recv, finish_send, finish_recv, finish_select_send,
  finish_select_recv, entered, step_thread, step, run, start, IsStarting, HasNotPanicked,
}

abbrev pub count : Bool → ℕ
count w = if w then 1 else 0

-- What is counted under a wait id; a map has each id once.
abbrev pub counted : ℕ → List (ℕ × ℕ) → ℕ
counted id [] = 0
counted id ((j, n) ∷ ws) = (if j == id then n else 0) + counted id ws

-- No wait id stays in the map with a count of 0.
abbrev pub ArePositive : List (ℕ × ℕ) → Type 0
ArePositive ws = All (λ (w : ℕ × ℕ). 1 ≤ w.1) ws

module _ {V : Type 0} where
  -- How many of the threads are in a `recv` that is registered as waiting.
  abbrev pub waits : Thread V → ℕ
  waits (receiving waiting) = count waiting
  waits _ = 0

  abbrev pub sum_of : (Thread V → ℕ) → List (Thread V) → ℕ
  sum_of m [] = 0
  sum_of m (t ∷ ts) = m t + sum_of m ts

  abbrev pub waiting : List (Thread V) → ℕ
  waiting ts = sum_of waits ts

  -- How many active guards the selects with this wait id have.
  abbrev pub held : ℕ → Thread V → ℕ
  held id (selecting j n) = if j == id then n else 0
  held id _ = 0

  abbrev pub guards : ℕ → List (Thread V) → ℕ
  guards id ts = sum_of (held id) ts

  -- The value is at hand, or placed in a channel with no capacity; a guard is active only there.
  abbrev pub IsReady : Option ℕ → Thread V → Type 0
  IsReady c (sending v l) =
      (l.pending ≡ some v) ⊎ ((l.rendezvous_enqueued ≡ true) × (is_rendezvous c ≡ true))
  IsReady c (selecting id n) = (is_rendezvous c ≡ true) ⊎ (n ≡ 0)
  IsReady c crashed = ⊥
  IsReady c _ = Unit

  abbrev pub SendCounts : ChannelState V → V → SendRound V → Type 0
  SendCounts s v (r, s') =
      IsReady s.capacity (after_send v r)
      × (waits (after_send v r) ≡ 0)
      × (s'.blocking_receivers ≡ s.blocking_receivers)
      × (s'.capacity ≡ s.capacity)
      × (s'.select_waiting_receivers ≡ s.select_waiting_receivers)

  abbrev pub RecvCounts : ChannelState V → Bool → RecvRound V → Type 0
  RecvCounts s w (r, s') =
      IsReady s.capacity (after_recv r)
      × (s'.blocking_receivers + count w ≡ s.blocking_receivers + waits (after_recv r))
      × (s'.capacity ≡ s.capacity)
      × (s'.select_waiting_receivers ≡ s.select_waiting_receivers)

  abbrev pub IsCounted : Option ℕ → ℕ → List (Thread V) → Type 0
  IsCounted c n ts = All (IsReady c) ts × (n ≡ waiting ts)

  -- The map of waiting selects counts the guards, under each wait id.
  abbrev pub AreGuarded : List (ℕ × ℕ) → List (Thread V) → Type 0
  AreGuarded ws ts = ArePositive ws × ((id : ℕ) → counted id ws ≡ guards id ts)

  -- The invariant of a schedule.
  pub record IsConsistent (sys : System V) : Type 0 where
    pub receivers : IsCounted sys.channel.capacity sys.channel.blocking_receivers sys.threads
    pub selects : AreGuarded sys.channel.select_waiting_receivers sys.threads

  abbrev pub SelectKeeps : ChannelState V → Option (ChannelReceiveState V) × ChannelState V → Type 0
  SelectKeeps s (_, s') =
      (s'.capacity ≡ s.capacity)
      × (s'.blocking_receivers ≡ s.blocking_receivers)
      × (s'.select_waiting_receivers ≡ s.select_waiting_receivers)
