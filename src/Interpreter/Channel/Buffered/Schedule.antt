-- ===== src/Interpreter/Channel/Buffered/Schedule.antt =====
-- What is sent to a channel that holds values is received, in order, under any schedule.
use gof_lang.Prelude.{
  ℕ, zero, suc, ◌≡◌, refl, ap, ◌∙◌, sym, subst, not, Bool, List, [], ◌∷◌, ◌++◌, Option, none, some,
  append_assoc, length, All, All-weaken, if_cases, arith,
}
use gof_lang.Interpreter.Channel.State.{
  ChannelReceiveState, value, closed, cancelled, ChannelState, close, new, begin_select_recv_wait,
  is_rendezvous,
}
use gof_lang.Interpreter.Channel.Rounds.{
  Round, again, returned, panicked, SendLocals, SendRound, RecvRound, send_round, recv_round,
  try_select_send, try_recv,
}
use gof_lang.Interpreter.Channel.System.{
  start, IsStarting, HasNotPanicked, Thread, calling, sending, receiving, selecting, sent, received,
  crashed, System, Action, run_thread, begin_wait, end_wait, begun, begin_guard, end_guard,
  close_channel, select_send, select_recv, get_elem?, Holds, All-get_elem?, All-set, after_send,
  after_recv, log_sent, log_received, finish_send, finish_recv, finish_select_send,
  finish_select_recv, entered, step_thread, step, run,
}
use gof_lang.Interpreter.Channel.Buffered.{
  Fits, IsQueue, IsIdle, SendKeeps, RecvKeeps, TrySendKeeps, TryRecvKeeps, IsLossless,
}
use gof_lang.Interpreter.Channel.Buffered.Rounds.{
  send_round-keeps, recv_round-keeps, try_select_send-keeps, try_recv-keeps,
}

module _ {V : Type 0} where
  log_sent-append :
      (v : V) (r : Round (SendLocals V) (ChannelReceiveState V)) (xs ys : List V)
      → log_sent v r (xs ++ ys) ≡ xs ++ log_sent v r ys
  log_sent-append v (again l) xs ys = refl
  log_sent-append v (returned (value w)) xs ys = append_assoc xs ys (v ∷ [])
  log_sent-append v (returned closed) xs ys = refl
  log_sent-append v (returned cancelled) xs ys = refl
  log_sent-append v panicked xs ys = refl

  log_received-append :
      (r : Round Bool (ChannelReceiveState V)) (xs ys : List V)
      → log_received r xs ++ ys ≡ xs ++ (log_received r [] ++ ys)
  log_received-append (again l) xs ys = refl
  log_received-append (returned (value w)) xs ys = append_assoc xs (w ∷ []) ys
  log_received-append (returned closed) xs ys = refl
  log_received-append (returned cancelled) xs ys = refl
  log_received-append panicked xs ys = refl

  starting-IsIdle : (t : Thread V) → IsStarting t → IsIdle t
  starting-IsIdle (calling v) h = tt
  starting-IsIdle (sending v l) h = absurd h
  starting-IsIdle (receiving w) h = h
  starting-IsIdle (selecting id n) h = h
  starting-IsIdle (sent r) h = tt
  starting-IsIdle (received r) h = tt
  starting-IsIdle crashed h = h

  idle-HasNotPanicked : (t : Thread V) → IsIdle t → HasNotPanicked t
  idle-HasNotPanicked (calling v) h = tt
  idle-HasNotPanicked (sending v l) h = tt
  idle-HasNotPanicked (receiving w) h = tt
  idle-HasNotPanicked (selecting id n) h = tt
  idle-HasNotPanicked (sent r) h = tt
  idle-HasNotPanicked (received r) h = tt
  idle-HasNotPanicked crashed h = h

empty-Fits : (c : Option ℕ) → Fits c 0
empty-Fits none = tt
empty-Fits (some c) = omega arith

module _ {V : Type 0} (unit : V) (c : Option ℕ) (capacity : IsQueue c) where
  finish_send-IsLossless :
      (sys : System V) (i : ℕ) (v : V) (o : SendRound V)
      → IsLossless c sys
      → SendKeeps c sys.channel v o
      → IsLossless c (finish_send sys i v o)
  finish_send-IsLossless sys i v (r, s) h k = (
    k.0,
    All-set IsIdle sys.threads i (after_send v r) h.1 k.1,
    ap (log_sent v r) h.2
        ∙ log_sent-append v r sys.received_log sys.channel.queue
        ∙ ap (λ q. sys.received_log ++ q) (sym k.2),
  )

  finish_recv-IsLossless :
      (sys : System V) (i : ℕ) (o : RecvRound V)
      → IsLossless c sys
      → RecvKeeps c sys.channel o
      → IsLossless c (finish_recv sys i o)
  finish_recv-IsLossless sys i (r, s) h k = (
    k.0,
    All-set IsIdle sys.threads i (after_recv r) h.1 k.1,
    h.2
        ∙ ap (λ q. sys.received_log ++ q) k.2
        ∙ sym (log_received-append r sys.received_log s.queue),
  )

  finish_select_send-IsLossless :
      (sys : System V) (v : V) (o : Option (ChannelReceiveState V) × ChannelState V)
      → IsLossless c sys
      → TrySendKeeps c sys.channel v o
      → IsLossless c (finish_select_send sys v o)
  finish_select_send-IsLossless sys v (none, s) h k =
      (k.0, h.1, h.2 ∙ ap (λ q. sys.received_log ++ q) (sym k.1))
  finish_select_send-IsLossless sys v (some r, s) h k = (
    k.0,
    h.1,
    ap (log_sent v (returned r)) h.2
        ∙ log_sent-append v (returned r) sys.received_log sys.channel.queue
        ∙ ap (λ q. sys.received_log ++ q) (sym k.1),
  )

  finish_select_recv-IsLossless :
      (sys : System V) (o : Option (ChannelReceiveState V) × ChannelState V)
      → IsLossless c sys
      → TryRecvKeeps c sys.channel o
      → IsLossless c (finish_select_recv sys o)
  finish_select_recv-IsLossless sys (none, s) h k =
      (k.0, h.1, h.2 ∙ ap (λ q. sys.received_log ++ q) k.1)
  finish_select_recv-IsLossless sys (some r, s) h k = (
    k.0,
    h.1,
    h.2
        ∙ ap (λ q. sys.received_log ++ q) k.1
        ∙ sym (log_received-append (returned r) sys.received_log s.queue),
  )

  step_thread-IsLossless :
      (sys : System V) (i : ℕ) (k : Bool) (thread : Option (Thread V))
      → Holds IsIdle thread
      → IsLossless c sys
      → IsLossless c (step_thread unit sys i k thread)
  unfolding step_thread
  step_thread-IsLossless sys i k none p h = h
  step_thread-IsLossless sys i k (some (calling v)) p h =
      let entered-IsIdle = if_cases IsIdle k (λ _. tt) (λ _. refl) in
      (h.0, All-set IsIdle sys.threads i (entered unit k v) h.1 entered-IsIdle, h.2)
  step_thread-IsLossless sys i k (some (sending v l)) p h =
      finish_send-IsLossless sys i v (send_round unit k l sys.channel) h (
        subst (λ l. SendKeeps c sys.channel v (send_round unit k l sys.channel)) (sym p)
          (send_round-keeps unit c capacity k sys.channel v h.0))
  step_thread-IsLossless sys i k (some (receiving w)) p h =
      finish_recv-IsLossless sys i (recv_round k w sys.channel) h (
        subst (λ w. RecvKeeps c sys.channel (recv_round k w sys.channel)) (sym p)
          (recv_round-keeps unit c capacity k sys.channel h.0))
  step_thread-IsLossless sys i k (some (selecting id n)) p h = h
  step_thread-IsLossless sys i k (some (sent r)) p h = h
  step_thread-IsLossless sys i k (some (received r)) p h = h
  step_thread-IsLossless sys i k (some crashed) p h = h

  -- No wait begins, so no guard is active.
  begin_guard-IsLossless :
      (sys : System V) (i : ℕ) (thread : Option (Thread V))
      → Holds IsIdle thread
      → IsLossless c sys
      → IsLossless c (begin_guard sys i thread)
  unfolding begin_guard begin_select_recv_wait
  begin_guard-IsLossless sys i none p h = h
  begin_guard-IsLossless sys i (some (selecting id n)) p h =
      if_cases (λ o. IsLossless c (begun sys i id n o)) (not (is_rendezvous sys.channel.capacity))
        (λ _. (h.0, All-set IsIdle sys.threads i (selecting id n) h.1 p, h.2))
        (λ e. let q = ap is_rendezvous h.0.0 ∙ capacity in cc)
  begin_guard-IsLossless sys i (some (calling v)) p h = h
  begin_guard-IsLossless sys i (some (sending v l)) p h = h
  begin_guard-IsLossless sys i (some (receiving w)) p h = h
  begin_guard-IsLossless sys i (some (sent r)) p h = h
  begin_guard-IsLossless sys i (some (received r)) p h = h
  begin_guard-IsLossless sys i (some crashed) p h = h

  end_guard-IsLossless :
      (sys : System V) (i : ℕ) (thread : Option (Thread V))
      → Holds IsIdle thread
      → IsLossless c sys
      → IsLossless c (end_guard sys i thread)
  unfolding end_guard
  end_guard-IsLossless sys i none p h = h
  end_guard-IsLossless sys i (some (selecting id zero)) p h = h
  end_guard-IsLossless sys i (some (selecting id (suc n))) p h = absurd (omega (arith, p))
  end_guard-IsLossless sys i (some (calling v)) p h = h
  end_guard-IsLossless sys i (some (sending v l)) p h = h
  end_guard-IsLossless sys i (some (receiving w)) p h = h
  end_guard-IsLossless sys i (some (sent r)) p h = h
  end_guard-IsLossless sys i (some (received r)) p h = h
  end_guard-IsLossless sys i (some crashed) p h = h

  step-IsLossless :
      (sys : System V) (a : Action V) → IsLossless c sys → IsLossless c (step unit sys a)
  unfolding step close
  step-IsLossless sys (run_thread i k) h =
      step_thread-IsLossless sys i k (get_elem? sys.threads i)
        (All-get_elem? IsIdle sys.threads i h.1) h
  step-IsLossless sys (begin_wait i) h =
      begin_guard-IsLossless sys i (get_elem? sys.threads i)
        (All-get_elem? IsIdle sys.threads i h.1) h
  step-IsLossless sys (end_wait i) h =
      end_guard-IsLossless sys i (get_elem? sys.threads i) (All-get_elem? IsIdle sys.threads i h.1)
        h
  step-IsLossless sys close_channel h = h
  step-IsLossless sys (select_send v id k) h =
      finish_select_send-IsLossless sys v (try_select_send unit k v id sys.channel) h
        (try_select_send-keeps unit c capacity k sys.channel v id h.0)
  step-IsLossless sys (select_recv k) h =
      finish_select_recv-IsLossless sys (try_recv k sys.channel) h
        (try_recv-keeps unit c capacity k sys.channel h.0)

  run-IsLossless :
      (sys : System V) (as_ : List (Action V)) → IsLossless c sys → IsLossless c (run unit sys as_)
  unfolding run
  run-IsLossless sys [] h = h
  run-IsLossless sys (a ∷ as_) h = run-IsLossless (step unit sys a) as_ (step-IsLossless sys a h)

  -- For a capacity other than 0, or none, and threads that are about to call `send` or `recv` or to
  -- wait in a select: after any schedule, the values whose sends have returned with success are, in order, those
  -- that were received followed by those in the queue. The queue is within the capacity, and no
  -- thread has panicked.
  pub run-delivers :
      (threads : List (Thread V)) (schedule : List (Action V))
      → All IsStarting threads
      → let end = run unit (start c threads) schedule in
        (end.sent_log ≡ end.received_log ++ end.channel.queue)
        × Fits c (length end.channel.queue)
        × All HasNotPanicked end.threads
  unfolding new
  run-delivers threads schedule h =
      let k = run-IsLossless (start c threads) schedule (
        (refl, refl, empty-Fits c),
        All-weaken IsStarting IsIdle threads starting-IsIdle h,
        refl,
      ) in
      (k.2, k.0.2, All-weaken IsIdle HasNotPanicked _ idle-HasNotPanicked k.1)
