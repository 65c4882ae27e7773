-- ===== src/Interpreter/Channel/System.antt =====
-- Threads that share a channel, under any schedule. One action is what one thread does while it
-- holds the mutex; a schedule is a list of actions, with the states of the tokens it meets.
use gof_lang.Prelude.{
  ℕ, zero, suc, ◌≡◌, Bool, true, false, List, [], ◌∷◌, ◌++◌, Option, none, some, All, if◌then◌else◌,
}
use gof_lang.Interpreter.Channel.State.{
  ChannelReceiveState, value, cancelled, ChannelState, close, new, begin_select_recv_wait,
  end_select_recv_wait,
}
use gof_lang.Interpreter.Channel.Rounds.{
  Round, again, returned, panicked, SendLocals, SendRound, RecvRound, send_round, recv_round,
  try_select_send, try_recv,
}

-- A call of `send` before its first look at the token, then in its loop; a call of `recv` in its
-- loop; a select with its wait id and the number of its active guards (`SelectRecvWaitGuard`) on
-- the channel; what they have returned; a thread that has panicked.
pub data Thread (V : Type 0) : Type 0 where
  calling : V → Thread V
  sending : V → SendLocals V → Thread V
  receiving : Bool → Thread V
  selecting : ℕ → ℕ → Thread V
  sent received : ChannelReceiveState V → Thread V
  crashed : Thread V

-- With the values of the sends that have returned with success, and the values that were received,
-- each in order.
pub record System (V : Type 0) : Type 0 where
  pub channel : ChannelState V
  pub threads : List (Thread V)
  pub sent_log : List V
  pub received_log : List V

-- A round of a thread; the beginning and the end of a wait of a thread's select on the channel, once
-- for each of its guards; a close; and a select that polls an operation, with its wait id.
pub data Action (V : Type 0) : Type 0 where
  run_thread : ℕ → Bool → Action V
  begin_wait end_wait : ℕ → Action V
  close_channel : Action V
  select_send : V → ℕ → Bool → Action V
  select_recv : Bool → Action V

module _ {A : Type 0} where
  abbrev pub get_elem? : List A → ℕ → Option A
  get_elem? [] i = none
  get_elem? (x ∷ xs) zero = some x
  get_elem? (x ∷ xs) (suc i) = get_elem? xs i

  abbrev pub set : List A → ℕ → A → List A
  set [] i v = []
  set (x ∷ xs) zero v = v ∷ xs
  set (x ∷ xs) (suc i) v = x ∷ set xs i v

  -- The predicate holds of the value, if there is one.
  abbrev pub Holds {κ} : (A → Type κ) → Option A → Type κ
  Holds P none = Unit
  Holds P (some x) = P x

  module _ {κ} (P : A → Type κ) where
    pub All-get_elem? : (xs : List A) (i : ℕ) → All P xs → Holds P (get_elem? xs i)
    All-get_elem? [] i h = tt
    All-get_elem? (x ∷ xs) zero h = h.0
    All-get_elem? (x ∷ xs) (suc i) h = All-get_elem? xs i h.1

    pub Holds-weaken {μ} :
        (Q : A → Type μ) (o : Option A) → ((x : A) → P x → Q x) → Holds P o → Holds Q o
    Holds-weaken Q none w h = tt
    Holds-weaken Q (some x) w h = w x h

    pub All-set : (xs : List A) (i : ℕ) (x : A) → All P xs → P x → All P (set xs i x)
    All-set [] i x h p = tt
    All-set (y ∷ xs) zero x h p = (p, h.1)
    All-set (y ∷ xs) (suc i) x h p = (h.0, All-set xs i x h.1 p)

module _ {V : Type 0} where
  -- What a round makes of the thread, and of the logs.
  abbrev pub after_send : V → Round (SendLocals V) (ChannelReceiveState V) → Thread V
  after_send v (again l) = sending v l
  after_send v (returned r) = sent r
  after_send v panicked = crashed

  abbrev pub after_recv : Round Bool (ChannelReceiveState V) → Thread V
  after_recv (again waiting) = receiving waiting
  after_recv (returned r) = received r
  after_recv panicked = crashed

  abbrev pub is_value : ChannelReceiveState V → Bool
  is_value (value _) = true
  is_value _ = false

  abbrev pub log_sent : V → Round (SendLocals V) (ChannelReceiveState V) → List V → List V
  log_sent v (returned (value _)) log = log ++ v ∷ []
  log_sent v _ log = log

  abbrev pub log_received : Round Bool (ChannelReceiveState V) → List V → List V
  log_received (returned (value v)) log = log ++ v ∷ []
  log_received _ log = log

  abbrev pub finish_send : System V → ℕ → V → SendRound V → System V
  finish_send sys i v (r, s) = record sys {
    channel = s;
    threads = set sys.threads i (after_send v r);
    sent_log = log_sent v r sys.sent_log;
  }

  abbrev pub finish_recv : System V → ℕ → RecvRound V → System V
  finish_recv sys i (r, s) = record sys {
    channel = s;
    threads = set sys.threads i (after_recv r);
    received_log = log_received r sys.received_log;
  }

  -- A select that tries an operation; if it cannot be done yet, nothing has happened.
  abbrev pub finish_select_send :
      System V → V → Option (ChannelReceiveState V) × ChannelState V → System V
  finish_select_send sys v (some r, s) = record sys {
    channel = s;
    sent_log = log_sent v (returned r) sys.sent_log;
  }
  finish_select_send sys v (none, s) = record sys { channel = s }

  abbrev pub finish_select_recv :
      System V → Option (ChannelReceiveState V) × ChannelState V → System V
  finish_select_recv sys (some r, s) = record sys {
    channel = s;
    received_log = log_received (returned r) sys.received_log;
  }
  finish_select_recv sys (none, s) = record sys { channel = s }

  -- `SelectRecvWaitGuard::new`; the guard is active if a wait has begun.
  abbrev pub begun : System V → ℕ → ℕ → ℕ → Bool × ChannelState V → System V
  begun sys i id n (active, s) = record sys {
    channel = s;
    threads = set sys.threads i (selecting id (if active then suc n else n));
  }

  -- The drop of a guard that is active.
  abbrev pub ended : System V → ℕ → ℕ → ℕ → Option (ChannelState V) → System V
  ended sys i id n (some s) = record sys {
    channel = s;
    threads = set sys.threads i (selecting id n);
  }
  ended sys i id n none = record sys { threads = set sys.threads i crashed }

  unfoldable pub begin_guard : System V → ℕ → Option (Thread V) → System V
  begin_guard sys i (some (selecting id n)) =
      begun sys i id n (begin_select_recv_wait id sys.channel)
  begin_guard sys i _ = sys

  unfoldable pub end_guard : System V → ℕ → Option (Thread V) → System V
  end_guard sys i (some (selecting id (suc n))) =
      ended sys i id n (end_select_recv_wait id sys.channel)
  end_guard sys i _ = sys

module _ {V : Type 0} (unit : V) where
  -- `send` begins with a look at its token, before it takes the mutex.
  abbrev pub entered : Bool → V → Thread V
  entered is_cancelled v =
      if is_cancelled
      then sent cancelled
      else sending v (record { pending = some v; rendezvous_enqueued = false })

  unfoldable pub step_thread : System V → ℕ → Bool → Option (Thread V) → System V
  step_thread sys i is_cancelled (some (calling v)) = record sys {
    threads = set sys.threads i (entered is_cancelled v);
  }
  step_thread sys i is_cancelled (some (sending v l)) =
      finish_send sys i v (send_round unit is_cancelled l sys.channel)
  step_thread sys i is_cancelled (some (receiving waiting)) =
      finish_recv sys i (recv_round is_cancelled waiting sys.channel)
  step_thread sys i is_cancelled _ = sys

  unfoldable pub step : System V → Action V → System V
  step sys (run_thread i is_cancelled) = step_thread sys i is_cancelled (get_elem? sys.threads i)
  step sys (begin_wait i) = begin_guard sys i (get_elem? sys.threads i)
  step sys (end_wait i) = end_guard sys i (get_elem? sys.threads i)
  step sys close_channel = record sys { channel = close sys.channel }
  step sys (select_send v id is_cancelled) =
      finish_select_send sys v (try_select_send unit is_cancelled v id sys.channel)
  step sys (select_recv is_cancelled) = finish_select_recv sys (try_recv is_cancelled sys.channel)

  unfoldable pub run : System V → List (Action V) → System V
  run sys [] = sys
  run sys (a ∷ as_) = run (step sys a) as_

module _ {V : Type 0} where
  -- A new channel, and threads that share it.
  abbrev pub start : Option ℕ → List (Thread V) → System V
  start capacity threads = record {
    channel = new capacity;
    threads = threads;
    sent_log = [];
    received_log = [];
  }

  -- The thread is about to call `send` or `recv`, or is in a select that does not wait yet.
  abbrev pub IsStarting : Thread V → Type 0
  IsStarting (calling v) = Unit
  IsStarting (receiving waiting) = waiting ≡ false
  IsStarting (selecting id n) = n ≡ 0
  IsStarting _ = ⊥

  abbrev pub HasNotPanicked : Thread V → Type 0
  HasNotPanicked crashed = ⊥
  HasNotPanicked _ = Unit
