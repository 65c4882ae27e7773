-- ===== src/Interpreter/Channel/Rounds.antt =====
-- compiler/gof-compiler/src/interpreter.rs: sending to and receiving from a channel. A loop that
-- waits is a function for one round, between which the mutex is free: `again` holds the loop's
-- variables for the next round. Registering the wake-up signal changes nothing else and is such
-- a round too. The flag `is_cancelled` says that the thread's token is cancelled by now.
use gof_lang.Prelude.{
  ℕ, ◌+◌, ◌-◌, Bool, true, not, ◌&&◌, List, [], ◌∷◌, Option, none, some, length, ltb, ◌==◌,
  if◌then◌else◌,
}
use gof_lang.Interpreter.Channel.State.{
  is_none, ChannelReceiveState, value, closed, cancelled, ChannelState, is_rendezvous, can_send,
  has_waiting_receiver, enqueue, place,
}

-- How a round of a loop ends: with the loop's variables for the next one, with a result, or with
-- the panic of an `expect`.
pub data Round (L R : Type 0) : Type 0 where
  again : L → Round L R
  returned : R → Round L R
  panicked : Round L R

-- The variables of the loop of `send`.
pub record SendLocals (V : Type 0) : Type 0 where
  pub pending : Option V
  pub rendezvous_enqueued : Bool

abbrev pub SendRound : Type 0 → Type 0
SendRound V = Round (SendLocals V) (ChannelReceiveState V) × ChannelState V

-- The variable of the loop of `recv` says that the thread is registered as waiting.
abbrev pub RecvRound : Type 0 → Type 0
RecvRound V = Round Bool (ChannelReceiveState V) × ChannelState V

module _ {V : Type 0} (unit : V) where
  -- `try_send_internal`; the flag says that the token is cancelled.
  abbrev pub try_send_to :
      Option ℕ → V → Option ℕ → ChannelState V → Option (ChannelReceiveState V) × ChannelState V
  try_send_to none v excluded s = (some (value unit), enqueue v s)
  try_send_to (some c) v excluded s =
      if c == 0
      then if has_waiting_receiver s excluded && is_none s.rendezvous_slot
        then (some (value unit), place v s)
        else (none, s)
      else if ltb (length s.queue) c
      then (some (value unit), enqueue v s)
      else (none, s)

  unfoldable pub try_send_internal :
      Bool → V → Option ℕ → ChannelState V → Option (ChannelReceiveState V) × ChannelState V
  try_send_internal is_cancelled v excluded s =
      if is_cancelled
      then (some cancelled, s)
      else if s.is_closed
      then (some closed, s)
      else try_send_to s.capacity v excluded s

  abbrev pub try_select_send :
      Bool → V → ℕ → ChannelState V → Option (ChannelReceiveState V) × ChannelState V
  try_select_send is_cancelled v id s = try_send_internal is_cancelled v (some id) s

  -- A value that stands in the slot is taken back.
  abbrev pub withdraw : SendLocals V → ChannelState V → ChannelState V
  withdraw l s =
      if l.rendezvous_enqueued && not (is_none s.rendezvous_slot)
      then record s { rendezvous_slot = none }
      else s

  -- The `match state.capacity` of `send`: both arms take the pending value.
  abbrev pub place_pending : Option V → ChannelState V → SendRound V
  place_pending none s = (panicked, s)
  place_pending (some v) s =
      (again (record { pending = none; rendezvous_enqueued = true }), place v s)

  abbrev pub enqueue_pending : Option V → ChannelState V → SendRound V
  enqueue_pending none s = (panicked, s)
  enqueue_pending (some v) s = (returned (value unit), enqueue v s)

  unfoldable pub send_pending : SendLocals V → ChannelState V → SendRound V
  send_pending l s =
      if is_rendezvous s.capacity
      then if not l.rendezvous_enqueued && can_send s
        then place_pending l.pending s
        else (again l, s)
      else if can_send s
      then enqueue_pending l.pending s
      else (again l, s)

  unfoldable pub send_round : Bool → SendLocals V → ChannelState V → SendRound V
  send_round is_cancelled l s =
      if l.rendezvous_enqueued && is_none s.rendezvous_slot
      then (returned (value unit), s)
      else if s.is_closed
      then (returned closed, withdraw l s)
      else if is_cancelled
      then (returned cancelled, withdraw l s)
      else send_pending l s

module _ {V : Type 0} where
  -- A receiver that is registered as waiting is so no more.
  abbrev pub leave : Bool → ChannelState V → ChannelState V
  leave waiting s =
      if waiting then record s { blocking_receivers = s.blocking_receivers - 1 } else s

  abbrev pub recv_empty : Bool → Bool → ChannelState V → RecvRound V
  recv_empty is_cancelled waiting s =
      if s.is_closed
      then (returned closed, leave waiting s)
      else if is_cancelled
      then (returned cancelled, leave waiting s)
      else if is_rendezvous s.capacity && not waiting
      then (again true, record s { blocking_receivers = s.blocking_receivers + 1 })
      else (again waiting, s)

  abbrev pub recv_slot : Bool → Bool → Option V → ChannelState V → RecvRound V
  recv_slot is_cancelled waiting (some v) s =
      (returned (value v), leave waiting (record s { rendezvous_slot = none }))
  recv_slot is_cancelled waiting none s = recv_empty is_cancelled waiting s

  abbrev pub recv_queue : Bool → Bool → List V → ChannelState V → RecvRound V
  recv_queue is_cancelled waiting (v ∷ rest) s =
      (returned (value v), leave waiting (record s { queue = rest }))
  recv_queue is_cancelled waiting [] s = recv_slot is_cancelled waiting s.rendezvous_slot s

  unfoldable pub recv_round : Bool → Bool → ChannelState V → RecvRound V
  recv_round is_cancelled waiting s = recv_queue is_cancelled waiting s.queue s

  abbrev pub try_recv_slot :
      Bool → Option V → ChannelState V → Option (ChannelReceiveState V) × ChannelState V
  try_recv_slot is_cancelled (some v) s = (some (value v), record s { rendezvous_slot = none })
  try_recv_slot is_cancelled none s =
      if s.is_closed
      then (some closed, s)
      else if is_cancelled
      then (some cancelled, s)
      else (none, s)

  abbrev pub try_recv_queue :
      Bool → List V → ChannelState V → Option (ChannelReceiveState V) × ChannelState V
  try_recv_queue is_cancelled (v ∷ rest) s = (some (value v), record s { queue = rest })
  try_recv_queue is_cancelled [] s = try_recv_slot is_cancelled s.rendezvous_slot s

  unfoldable pub try_recv : Bool → ChannelState V → Option (ChannelReceiveState V) × ChannelState V
  try_recv is_cancelled s = try_recv_queue is_cancelled s.queue s
