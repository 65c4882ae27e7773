-- ===== src/Interpreter/Channel/Buffered.antt =====
-- A channel that holds values: what a thread may do to it.
pub mod Rounds
pub mod Schedule
use gof_lang.Prelude.{
  ℕ, suc, ◌+◌, ◌≤◌, ◌≡◌, refl, ap, ◌∙◌, sym, subst, Bool, true, false, ◌&&◌, not, List, [], ◌∷◌,
  ◌++◌, Option, none, some, append_assoc, append-nil, length, length-append, All, All-weaken, ltb,
  ◌==◌, if◌then◌else◌, if_cases, arith,
}
use gof_lang.Interpreter.Channel.State.{
  is_none, ChannelReceiveState, value, closed, cancelled, ChannelState, is_rendezvous, can_send,
  has_room, close, new, enqueue,
}
use gof_lang.Interpreter.Channel.Rounds.{
  Round, again, returned, panicked, SendLocals, SendRound, RecvRound, send_round, send_pending,
  recv_round, recv_queue, recv_slot, recv_empty, try_select_send, try_send_internal, try_send_to,
  try_recv, try_recv_queue, try_recv_slot,
}
use gof_lang.Interpreter.Channel.System.{
  Thread, calling, sending, receiving, selecting, sent, received, crashed, System, Action,
  run_thread, close_channel, select_send, select_recv, get_elem?, set, Holds, All-get_elem?,
  All-set, after_send, after_recv, log_sent, log_received, finish_send, finish_recv,
  finish_select_send, finish_select_recv, entered, step_thread, step, run,
}

-- A queue of so many values is within the capacity.
abbrev pub Fits : Option ℕ → ℕ → Type 0
Fits none n = Unit
Fits (some c) n = n ≤ c

-- The capacity is not `Some(0)`.
abbrev pub IsQueue : Option ℕ → Type 0
IsQueue c = is_rendezvous c ≡ false

abbrev pub fresh : {V : Type 0} → V → SendLocals V
fresh v = record { pending = some v; rendezvous_enqueued = false }

module _ {V : Type 0} where
  -- A thread that has not placed its value, is not counted as waiting, and has not panicked.
  abbrev pub IsIdle : Thread V → Type 0
  IsIdle (sending v l) = l ≡ fresh v
  IsIdle (receiving waiting) = waiting ≡ false
  IsIdle (selecting id n) = n ≡ 0
  IsIdle crashed = ⊥
  IsIdle _ = Unit

module _ {V : Type 0} (c : Option ℕ) where
  abbrev pub IsBuffered : ChannelState V → Type 0
  IsBuffered s = (s.capacity ≡ c) × (s.rendezvous_slot ≡ none) × Fits c (length s.queue)

  abbrev pub SendKeeps : ChannelState V → V → SendRound V → Type 0
  SendKeeps s v (r, s') =
      IsBuffered s' × IsIdle (after_send v r) × (s'.queue ≡ log_sent v r s.queue)

  abbrev pub RecvKeeps : ChannelState V → RecvRound V → Type 0
  RecvKeeps s (r, s') =
      IsBuffered s' × IsIdle (after_recv r) × (s.queue ≡ log_received r [] ++ s'.queue)

  abbrev pub TrySendKeeps :
      ChannelState V → V → Option (ChannelReceiveState V) × ChannelState V → Type 0
  TrySendKeeps s v (none, s') = IsBuffered s' × (s'.queue ≡ s.queue)
  TrySendKeeps s v (some r, s') = IsBuffered s' × (s'.queue ≡ log_sent v (returned r) s.queue)

  abbrev pub TryRecvKeeps :
      ChannelState V → Option (ChannelReceiveState V) × ChannelState V → Type 0
  TryRecvKeeps s (none, s') = IsBuffered s' × (s.queue ≡ s'.queue)
  TryRecvKeeps s (some r, s') = IsBuffered s' × (s.queue ≡ log_received (returned r) [] ++ s'.queue)

  -- The invariant of a schedule.
  abbrev pub IsLossless : System V → Type 0
  IsLossless sys =
      IsBuffered sys.channel
      × All IsIdle sys.threads
      × (sys.sent_log ≡ sys.received_log ++ sys.channel.queue)
