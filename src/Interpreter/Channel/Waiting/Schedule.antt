-- ===== src/Interpreter/Channel/Waiting/Schedule.antt =====
-- The counts of waiting receivers and selects, and the panics that cannot happen, under any
-- schedule.
use gof_lang.Prelude.{
  ℕ, ◌≡◌, refl, ap, inr, List, [], ◌∷◌, Option, none, some, All, All-weaken, arith,
}
use gof_lang.Interpreter.Channel.State.{ChannelReceiveState, ChannelState, close, new}
use gof_lang.Interpreter.Channel.Rounds.{returned, try_select_send, try_recv}
use gof_lang.Interpreter.Channel.System.{
  Thread, calling, sending, receiving, selecting, sent, received, crashed, System, Action,
  run_thread, begin_wait, end_wait, close_channel, select_send, select_recv, get_elem?,
  finish_select_send, finish_select_recv, log_sent, log_received, step, run, start, IsStarting,
  HasNotPanicked,
}
use gof_lang.Interpreter.Channel.Waiting.{
  count, waits, waiting, held, guards, counted, IsReady, IsCounted, IsConsistent, SelectKeeps,
}
use gof_lang.Interpreter.Channel.Waiting.Selects.{
  try_select_send-SelectKeeps, try_recv-SelectKeeps, select-IsConsistent,
}
use gof_lang.Interpreter.Channel.Waiting.Threads.{
  step_thread-IsConsistent, begin_guard-IsConsistent, end_guard-IsConsistent,
}

module _ {V : Type 0} (unit : V) where
  step-IsConsistent :
      (sys : System V) (a : Action V) → IsConsistent sys → IsConsistent (step unit sys a)
  unfolding step close
  step-IsConsistent sys (run_thread i k) h =
      step_thread-IsConsistent unit sys i k (get_elem? sys.threads i) refl h
  step-IsConsistent sys (begin_wait i) h =
      begin_guard-IsConsistent sys i (get_elem? sys.threads i) refl h
  step-IsConsistent sys (end_wait i) h =
      end_guard-IsConsistent sys i (get_elem? sys.threads i) refl h
  step-IsConsistent sys close_channel h = record { receivers = h.receivers; selects = h.selects }
  step-IsConsistent sys (select_send v id k) h =
      polled (try_select_send unit k v id sys.channel)
        (try_select_send-SelectKeeps unit k v id sys.channel)
    where
      polled :
          (o : Option (ChannelReceiveState V) × ChannelState V)
          → SelectKeeps sys.channel o
          → IsConsistent (finish_select_send sys v o)
      polled (none, s) k = select-IsConsistent s sys none k h sys.sent_log sys.received_log
      polled (some r, s) k =
          select-IsConsistent s sys (some r) k h (log_sent v (returned r) sys.sent_log)
            sys.received_log
  step-IsConsistent sys (select_recv k) h =
      polled (try_recv k sys.channel) (try_recv-SelectKeeps k sys.channel)
    where
      polled :
          (o : Option (ChannelReceiveState V) × ChannelState V)
          → SelectKeeps sys.channel o
          → IsConsistent (finish_select_recv sys o)
      polled (none, s) k = select-IsConsistent s sys none k h sys.sent_log sys.received_log
      polled (some r, s) k =
          select-IsConsistent s sys (some r) k h sys.sent_log
            (log_received (returned r) sys.received_log)

  run-IsConsistent :
      (sys : System V) (as_ : List (Action V)) → IsConsistent sys → IsConsistent (run unit sys as_)
  unfolding run
  run-IsConsistent sys [] h = h
  run-IsConsistent sys (a ∷ as_) h =
      run-IsConsistent (step unit sys a) as_ (step-IsConsistent sys a h)

  starting-IsReady :
      (c : Option ℕ) (t : Thread V)
      → IsStarting t
      → IsReady c t × (waits t ≡ 0) × ((id : ℕ) → held id t ≡ 0)
  starting-IsReady c (calling v) h = (tt, refl, λ id. refl)
  starting-IsReady c (receiving w) h = (tt, ap count h, λ id. refl)
  starting-IsReady c (selecting j n) h = (inr h, refl, λ id. ground (arith, h))
  starting-IsReady c (sending v l) h = absurd h
  starting-IsReady c (sent r) h = absurd h
  starting-IsReady c (received r) h = absurd h
  starting-IsReady c crashed h = absurd h

  starting-IsCounted :
      (c : Option ℕ) (ts : List (Thread V))
      → All IsStarting ts
      → IsCounted c 0 ts × ((id : ℕ) → 0 ≡ guards id ts)
  starting-IsCounted c [] h = ((tt, refl), λ id. refl)
  starting-IsCounted c (t ∷ ts) h =
      let rest = starting-IsCounted c ts h.1 in
      let first = starting-IsReady c t h.0 in
      (
        ((first.0, rest.0.0), omega (arith, first.1, rest.0.1)),
        λ id. (let e = first.2 id in let f = rest.1 id in omega (arith, e, f)),
      )

  ready-HasNotPanicked : (c : Option ℕ) (t : Thread V) → IsReady c t → HasNotPanicked t
  ready-HasNotPanicked c (calling v) h = tt
  ready-HasNotPanicked c (sending v l) h = tt
  ready-HasNotPanicked c (receiving w) h = tt
  ready-HasNotPanicked c (selecting id n) h = tt
  ready-HasNotPanicked c (sent r) h = tt
  ready-HasNotPanicked c (received r) h = tt
  ready-HasNotPanicked c crashed h = h

  -- For any capacity, and threads that are about to call `send` or `recv` or to wait in a select:
  -- after any schedule, `blocking_receivers` is the number of the threads that are in a `recv` and
  -- registered as waiting; the count of waiting selects under each wait id is the number of the
  -- active guards of the selects with that id; and no thread has panicked, so that the guards end
  -- each wait that they have begun.
  pub run-counts :
      (capacity : Option ℕ) (threads : List (Thread V)) (schedule : List (Action V))
      → All IsStarting threads
      → let end = run unit (start capacity threads) schedule in
        (end.channel.blocking_receivers ≡ waiting end.threads)
        × ((id : ℕ) → counted id end.channel.select_waiting_receivers ≡ guards id end.threads)
        × All HasNotPanicked end.threads
  unfolding new
  run-counts capacity threads schedule h =
      let end = run unit (start capacity threads) schedule in
      let (receivers, guards_none) = starting-IsCounted capacity threads h in
      let k =
        run-IsConsistent (start capacity threads) schedule
          (record { receivers = receivers; selects = (tt, guards_none) }) in
      (
        k.receivers.1,
        k.selects.1,
        All-weaken (IsReady end.channel.capacity) HasNotPanicked end.threads
            (ready-HasNotPanicked end.channel.capacity) k.receivers.0,
      )
