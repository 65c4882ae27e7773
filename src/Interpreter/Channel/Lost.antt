-- ===== src/Interpreter/Channel/Lost.antt =====
-- A value that is lost in a channel with no capacity.
use gof_lang.Prelude.{◌≡◌, refl, false, List, [], ◌∷◌, none, some}
use gof_lang.Interpreter.Channel.State.{value, closed, can_send, close, new}
use gof_lang.Interpreter.Channel.Rounds.{send_round, send_pending, recv_round}
use gof_lang.Interpreter.Channel.System.{
  start, calling, receiving, sent, received, System, Action, run_thread, close_channel, step_thread,
  step, run,
}

module _ {V : Type 0} (unit : V) where
  -- Two senders and a receiver, on a channel with no capacity.
  abbrev pub two_senders : V → V → System V
  two_senders a b = start (some 0) (calling a ∷ calling b ∷ receiving false ∷ [])

  -- The first value is placed and received; before its sender looks again, the second value is
  -- placed; then the channel is closed, and the first sender looks before the second.
  abbrev pub losing_schedule : List (Action V)
  losing_schedule =
      run_thread 0 false
      ∷ run_thread 0 false
      ∷ run_thread 2 false
      ∷ run_thread 1 false
      ∷ run_thread 1 false
      ∷ close_channel
      ∷ run_thread 0 false
      ∷ run_thread 1 false
      ∷ []

  -- For any two values there is a schedule after which the send of the value that was received has
  -- returned `closed`, and the send of the other, which nobody has received and which the channel
  -- no longer holds, has returned with success.
  pub send-loses :
      (a b : V)
      → let end = run unit (two_senders a b) losing_schedule in
        (end.threads ≡ sent closed ∷ sent (value unit) ∷ received (value a) ∷ [])
        × (end.sent_log ≡ b ∷ [])
        × (end.received_log ≡ a ∷ [])
        × (end.channel.queue ≡ [])
        × (end.channel.rendezvous_slot ≡ none)
  unfolding run step step_thread send_round send_pending recv_round can_send close new
  send-loses a b = (refl, refl, refl, refl, refl)
