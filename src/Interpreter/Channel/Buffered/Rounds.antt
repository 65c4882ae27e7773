-- ===== src/Interpreter/Channel/Buffered/Rounds.antt =====
-- Each round of an operation keeps a channel that holds values as it should be.
use gof_lang.Prelude.{
  ℕ, suc, ◌≡◌, refl, ap, ◌∙◌, subst, Bool, true, false, ◌&&◌, List, [], ◌∷◌, ◌++◌, Option, none,
  some, length, length-append, ltb, ◌==◌, if_cases, arith,
}
use gof_lang.Interpreter.Channel.State.{ChannelState, is_rendezvous, can_send, has_room, enqueue}
use gof_lang.Interpreter.Channel.Rounds.{
  send_round, send_pending, recv_round, recv_queue, recv_slot, recv_empty, try_select_send,
  try_send_internal, try_send_to, try_recv, try_recv_queue, try_recv_slot,
}
use gof_lang.Interpreter.Channel.Buffered.{
  Fits, IsQueue, fresh, IsBuffered, SendKeeps, RecvKeeps, TrySendKeeps, TryRecvKeeps,
}

module _ {V : Type 0} (unit : V) (c : Option ℕ) (capacity : IsQueue c) where
  has_room-Fits :
      (d : Option ℕ) (s : ChannelState V)
      → IsQueue d
      → has_room d s ≡ true
      → (v : V) → Fits d (length (s.queue ++ v ∷ []))
  has_room-Fits none s q h v = tt
  has_room-Fits (some d) s q h v = let e = length-append s.queue (v ∷ []) in ground arith

  capacity-IsQueue : (s : ChannelState V) → IsBuffered c s → IsQueue s.capacity
  capacity-IsQueue s h = ap is_rendezvous h.0 ∙ capacity

  enqueue-IsBuffered :
      (s : ChannelState V) (v : V)
      → IsBuffered c s
      → has_room s.capacity s ≡ true
      → IsBuffered c (enqueue v s)
  enqueue-IsBuffered s v h e = (
    h.0,
    h.1,
    subst (λ d. Fits d (length (s.queue ++ v ∷ []))) h.0
        (has_room-Fits s.capacity s (capacity-IsQueue s h) e v),
  )

  pub send_round-keeps :
      (k : Bool) (s : ChannelState V) (v : V)
      → IsBuffered c s
      → SendKeeps c s v (send_round unit k (fresh v) s)
  unfolding send_round send_pending can_send
  send_round-keeps k s v h =
      if_cases (SendKeeps c s v) s.is_closed (λ _. (h, tt, refl))
        (λ _.
          if_cases (SendKeeps c s v) k (λ _. (h, tt, refl))
            (λ _.
              if_cases (SendKeeps c s v) (is_rendezvous s.capacity)
                (λ e. let q = capacity-IsQueue s h in cc)
                (λ _.
                  if_cases (SendKeeps c s v) (has_room s.capacity s)
                    (λ e. (enqueue-IsBuffered s v h e, tt, refl)) (λ _. (h, refl, refl)))))

  recv_empty-keeps :
      (k : Bool) (s : ChannelState V)
      → s.queue ≡ []
      → IsBuffered c s
      → RecvKeeps c s (recv_empty k false s)
  recv_empty-keeps k s e h =
      if_cases (RecvKeeps c s) s.is_closed (λ _. (h, tt, refl))
        (λ _.
          if_cases (RecvKeeps c s) k (λ _. (h, tt, refl))
            (λ _.
              if_cases (RecvKeeps c s) (is_rendezvous s.capacity && true)
                (λ both. let q = capacity-IsQueue s h in cc) (λ _. (h, refl, refl))))

  recv_slot-keeps :
      (k : Bool) (s : ChannelState V) (slot : Option V)
      → s.rendezvous_slot ≡ slot
      → s.queue ≡ []
      → IsBuffered c s
      → RecvKeeps c s (recv_slot k false slot s)
  recv_slot-keeps k s none o e h = recv_empty-keeps k s e h
  recv_slot-keeps k s (some v) o e h = let absent = h.1 in cc

  Fits-rest : (d : Option ℕ) (n : ℕ) → Fits d (suc n) → Fits d n
  Fits-rest none n h = tt
  Fits-rest (some d) n h = omega arith

  recv_queue-keeps :
      (k : Bool) (s : ChannelState V) (xs : List V)
      → s.queue ≡ xs
      → IsBuffered c s
      → RecvKeeps c s (recv_queue k false xs s)
  recv_queue-keeps k s [] e h = recv_slot-keeps k s s.rendezvous_slot refl e h
  recv_queue-keeps k s (x ∷ xs) e h =
      ((h.0, h.1, Fits-rest c (length xs) (subst (λ q. Fits c (length q)) e h.2)), tt, e)

  pub recv_round-keeps :
      (k : Bool) (s : ChannelState V) → IsBuffered c s → RecvKeeps c s (recv_round k false s)
  unfolding recv_round
  recv_round-keeps k s h = recv_queue-keeps k s s.queue refl h

  try_send_to-keeps :
      (s : ChannelState V) (v : V) (excluded d : Option ℕ)
      → s.capacity ≡ d
      → IsBuffered c s
      → TrySendKeeps c s v (try_send_to unit d v excluded s)
  try_send_to-keeps s v excluded none e h =
      (enqueue-IsBuffered s v h (ap (λ d. has_room d s) e), refl)
  try_send_to-keeps s v excluded (some d) e h =
      let q = subst IsQueue e (capacity-IsQueue s h) in
      if_cases (TrySendKeeps c s v) (d == 0) (λ zero_capacity. cc)
        (λ _.
          if_cases (TrySendKeeps c s v) (ltb (length s.queue) d)
            (λ room. (enqueue-IsBuffered s v h (ap (λ d. has_room d s) e ∙ cc), refl))
            (λ _. (h, refl)))

  pub try_select_send-keeps :
      (k : Bool) (s : ChannelState V) (v : V) (id : ℕ)
      → IsBuffered c s
      → TrySendKeeps c s v (try_select_send unit k v id s)
  unfolding try_send_internal
  try_select_send-keeps k s v id h =
      if_cases (TrySendKeeps c s v) k (λ _. (h, refl))
        (λ _.
          if_cases (TrySendKeeps c s v) s.is_closed (λ _. (h, refl))
            (λ _. try_send_to-keeps s v (some id) s.capacity refl h))

  try_recv_slot-keeps :
      (k : Bool) (s : ChannelState V) (slot : Option V)
      → s.rendezvous_slot ≡ slot
      → IsBuffered c s
      → s.queue ≡ []
      → TryRecvKeeps c s (try_recv_slot k slot s)
  try_recv_slot-keeps k s none o h e =
      if_cases (TryRecvKeeps c s) s.is_closed (λ _. (h, refl))
        (λ _. if_cases (TryRecvKeeps c s) k (λ _. (h, refl)) (λ _. (h, refl)))
  try_recv_slot-keeps k s (some v) o h e = let absent = h.1 in cc

  try_recv_queue-keeps :
      (k : Bool) (s : ChannelState V) (xs : List V)
      → s.queue ≡ xs
      → IsBuffered c s
      → TryRecvKeeps c s (try_recv_queue k xs s)
  try_recv_queue-keeps k s [] e h = try_recv_slot-keeps k s s.rendezvous_slot refl h e
  try_recv_queue-keeps k s (x ∷ xs) e h =
      ((h.0, h.1, Fits-rest c (length xs) (subst (λ q. Fits c (length q)) e h.2)), e)

  pub try_recv-keeps :
      (k : Bool) (s : ChannelState V) → IsBuffered c s → TryRecvKeeps c s (try_recv k s)
  unfolding try_recv
  try_recv-keeps k s h = try_recv_queue-keeps k s s.queue refl h
