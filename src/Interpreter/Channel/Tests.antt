-- ===== src/Interpreter/Channel/Tests.antt =====
-- Schedules of threads that share a channel of numbers, and the theorems at them.
use gof_lang.Prelude.{ℕ, ◌≡◌, refl, false, List, [], ◌∷◌, ◌++◌, none, some, All, length}
use gof_lang.Interpreter.Channel.State.{
  value, closed, new, close, can_send, add_wait, remove_wait, begin_select_recv_wait,
  end_select_recv_wait,
}
use gof_lang.Interpreter.Channel.Rounds.{
  send_round, send_pending, recv_round, try_send_internal, try_recv,
}
use gof_lang.Interpreter.Channel.System.{
  Thread, calling, receiving, selecting, sent, received, Action, run_thread, begin_wait, end_wait,
  close_channel, select_send, select_recv, begin_guard, end_guard, step_thread, step, run, start,
  HasNotPanicked,
}
use gof_lang.Interpreter.Channel.Buffered.{Fits}
use gof_lang.Interpreter.Channel.Buffered.Schedule.{run-delivers}
use gof_lang.Interpreter.Channel.Waiting.{waiting, counted, guards}
use gof_lang.Interpreter.Channel.Waiting.Schedule.{run-counts}
use gof_lang.Interpreter.Channel.Lost.{send-loses, two_senders, losing_schedule}

abbrev threads : List (Thread ℕ)
threads = calling 10 ∷ calling 11 ∷ receiving false ∷ []

-- The first send fills the queue, the second has to wait until the value is received.
abbrev schedule : List (Action ℕ)
schedule =
    run_thread 0 false
    ∷ run_thread 0 false
    ∷ run_thread 1 false
    ∷ run_thread 1 false
    ∷ run_thread 2 false
    ∷ run_thread 1 false
    ∷ select_send 12 0 false
    ∷ close_channel
    ∷ select_recv false
    ∷ []

waits_for_room :
    (run 0 (start (some 1) threads) schedule).threads
    ≡ sent (value 0) ∷ sent (value 0) ∷ received (value 10) ∷ []
unfolding run step step_thread send_round send_pending recv_round try_send_internal try_recv
    can_send close new
waits_for_room = refl

waits_balanced :
    end_select_recv_wait {V = ℕ} 3 (begin_select_recv_wait 3 (new (some 0))).1 ≡ some (new (some 0))
unfolding end_select_recv_wait begin_select_recv_wait add_wait remove_wait new
waits_balanced = refl

run-delivers_example :
    let end = run 0 (start (some 1) threads) schedule in
    (end.sent_log ≡ end.received_log ++ end.channel.queue)
    × Fits (some 1) (length end.channel.queue)
    × All HasNotPanicked end.threads
run-delivers_example = run-delivers 0 (some 1) refl threads schedule (tt, (tt, (refl, tt)))

-- A receiver waits, a select with two arms that receive waits with id 7, another polls a send.
abbrev waiting_threads : List (Thread ℕ)
waiting_threads = calling 10 ∷ selecting 7 0 ∷ receiving false ∷ []

abbrev waiting_schedule : List (Action ℕ)
waiting_schedule =
    run_thread 2 false
    ∷ begin_wait 1
    ∷ begin_wait 1
    ∷ select_send 12 8 false
    ∷ select_recv false
    ∷ end_wait 1
    ∷ []

waits_counted :
    (run 0 (start (some 0) waiting_threads) waiting_schedule).channel.select_waiting_receivers
    ≡ (7, 1) ∷ []
unfolding run step step_thread begin_guard end_guard recv_round try_send_internal try_recv
    begin_select_recv_wait end_select_recv_wait add_wait remove_wait new
waits_counted = refl

run-counts_example :
    let end = run 0 (start (some 0) waiting_threads) waiting_schedule in
    (end.channel.blocking_receivers ≡ waiting end.threads)
    × ((id : ℕ) → counted id end.channel.select_waiting_receivers ≡ guards id end.threads)
    × All HasNotPanicked end.threads
run-counts_example = run-counts 0 (some 0) waiting_threads waiting_schedule (tt, (refl, (refl, tt)))

send-loses_example :
    let end = run {V = ℕ} 0 (two_senders 0 1 2) (losing_schedule 0) in
    (end.threads ≡ sent closed ∷ sent (value 0) ∷ received (value 1) ∷ [])
    × (end.sent_log ≡ 2 ∷ [])
    × (end.received_log ≡ 1 ∷ [])
    × (end.channel.queue ≡ [])
    × (end.channel.rendezvous_slot ≡ none)
send-loses_example = send-loses 0 1 2
