-- ===== src/Interpreter/Channel/Waiting/Rounds.antt =====
-- Each round of `send` and `recv` keeps the count of waiting receivers.
use gof_lang.Prelude.{
  ℕ, ◌+◌, ◌≤◌, ◌≡◌, refl, inl, inr, Bool, true, false, ◌&&◌, not, List, [], ◌∷◌, Option, none, some,
  if◌then◌else◌, if_cases, arith,
}
use gof_lang.Interpreter.Channel.State.{
  is_none, closed, cancelled, ChannelState, is_rendezvous, can_send,
}
use gof_lang.Interpreter.Channel.Rounds.{
  returned, SendLocals, SendRound, send_round, send_pending, withdraw, leave, place_pending,
  enqueue_pending, recv_round, recv_queue, recv_slot, recv_empty,
}
use gof_lang.Interpreter.Channel.System.{sending}
use gof_lang.Interpreter.Channel.Waiting.{count, IsReady, SendCounts, RecvCounts}

module _ {V : Type 0} where
  leave-counts :
      (s : ChannelState V) (w : Bool)
      → count w ≤ s.blocking_receivers
      → ((leave w s).blocking_receivers + count w ≡ s.blocking_receivers + 0)
        × ((leave w s).capacity ≡ s.capacity)
        × ((leave w s).select_waiting_receivers ≡ s.select_waiting_receivers)
  leave-counts s true h = (omega arith, refl, refl)
  leave-counts s false h = (omega arith, refl, refl)

module _ {V : Type 0} (unit : V) where
  withdraw-counts :
      (l : SendLocals V) (s : ChannelState V)
      → ((withdraw unit l s).blocking_receivers ≡ s.blocking_receivers)
        × ((withdraw unit l s).capacity ≡ s.capacity)
        × ((withdraw unit l s).select_waiting_receivers ≡ s.select_waiting_receivers)
  withdraw-counts l s =
      if_cases
        (λ (t : ChannelState V).
          (t.blocking_receivers ≡ s.blocking_receivers)
          × (t.capacity ≡ s.capacity)
          × (t.select_waiting_receivers ≡ s.select_waiting_receivers))
        (l.rendezvous_enqueued && not (is_none s.rendezvous_slot)) (λ _. (refl, refl, refl))
        (λ _. (refl, refl, refl))

  ended-counts :
      (k : Bool) (s : ChannelState V) (v : V) (l : SendLocals V) (rest : SendRound V)
      → SendCounts s v rest
      → SendCounts s v (
          if s.is_closed
          then (returned closed, withdraw unit l s)
          else if k
          then (returned cancelled, withdraw unit l s)
          else rest)
  ended-counts k s v l rest h =
      let w = withdraw-counts l s in
      if_cases (SendCounts s v) s.is_closed (λ _. (tt, refl, w.0, w.1, w.2))
        (λ _. if_cases (SendCounts s v) k (λ _. (tt, refl, w.0, w.1, w.2)) (λ _. h))

  placed-counts :
      (k : Bool) (s : ChannelState V) (v : V) (l : SendLocals V)
      → l.rendezvous_enqueued ≡ true
      → is_rendezvous s.capacity ≡ true
      → SendCounts s v (send_round unit k l s)
  unfolding send_round send_pending can_send
  placed-counts k s v l p q =
      if_cases (SendCounts s v) (l.rendezvous_enqueued && is_none s.rendezvous_slot)
        (λ _. (tt, refl, refl, refl, refl))
        (λ _. ended-counts k s v l _ (
          if_cases (SendCounts s v) (is_rendezvous s.capacity)
            (λ _.
              if_cases (SendCounts s v) (not l.rendezvous_enqueued && can_send s) (λ both. cc)
                (λ _. (inr (p, q), refl, refl, refl, refl)))
            (λ no. cc)))

  place_pending-counts :
      (s : ChannelState V) (v : V) (o : Option V)
      → o ≡ some v
      → is_rendezvous s.capacity ≡ true
      → SendCounts s v (place_pending unit o s)
  place_pending-counts s v none p q = cc
  place_pending-counts s v (some w) p q = (inr (refl, q), refl, refl, refl, refl)

  enqueue_pending-counts :
      (s : ChannelState V) (v : V) (o : Option V)
      → o ≡ some v
      → SendCounts s v (enqueue_pending unit o s)
  enqueue_pending-counts s v none p = cc
  enqueue_pending-counts s v (some w) p = (tt, refl, refl, refl, refl)

  ready-counts :
      (k : Bool) (s : ChannelState V) (v : V) (l : SendLocals V)
      → l.pending ≡ some v
      → SendCounts s v (send_round unit k l s)
  unfolding send_round send_pending can_send
  ready-counts k s v l p =
      if_cases (SendCounts s v) (l.rendezvous_enqueued && is_none s.rendezvous_slot)
        (λ _. (tt, refl, refl, refl, refl))
        (λ _. ended-counts k s v l _ (
          if_cases (SendCounts s v) (is_rendezvous s.capacity)
            (λ q.
              if_cases (SendCounts s v) (not l.rendezvous_enqueued && can_send s)
                (λ _. place_pending-counts s v l.pending p q)
                (λ _. (inl p, refl, refl, refl, refl)))
            (λ _.
              if_cases (SendCounts s v) (can_send s) (λ _. enqueue_pending-counts s v l.pending p)
                (λ _. (inl p, refl, refl, refl, refl)))))

  pub send_round-counts :
      (k : Bool) (s : ChannelState V) (v : V) (l : SendLocals V)
      → IsReady s.capacity (sending v l)
      → SendCounts s v (send_round unit k l s)
  send_round-counts k s v l (inl p) = ready-counts k s v l p
  send_round-counts k s v l (inr (p, q)) = placed-counts k s v l p q

registered : (b : Bool) (n : ℕ) (w : Bool) → (b && not w) ≡ true → n + 1 + count w ≡ n + 1
registered b n true h = ground arith
registered b n false h = omega arith

module _ {V : Type 0} where
  recv_empty-counts :
      (k w : Bool) (s : ChannelState V)
      → count w ≤ s.blocking_receivers
      → RecvCounts s w (recv_empty k w s)
  recv_empty-counts k w s h =
      if_cases (RecvCounts s w) s.is_closed
        (λ _. (let l = leave-counts s w h in (tt, l.0, l.1, l.2)))
        (λ _.
          if_cases (RecvCounts s w) k (λ _. (let l = leave-counts s w h in (tt, l.0, l.1, l.2)))
            (λ _.
              if_cases (RecvCounts s w) (is_rendezvous s.capacity && not w)
                (λ both. (
                  tt,
                  registered (is_rendezvous s.capacity) s.blocking_receivers w both,
                  refl,
                  refl,
                ))
                (λ _. (tt, refl, refl, refl))))

  recv_slot-counts :
      (k w : Bool) (o : Option V) (s : ChannelState V)
      → count w ≤ s.blocking_receivers
      → RecvCounts s w (recv_slot k w o s)
  recv_slot-counts k w none s h = recv_empty-counts k w s h
  recv_slot-counts k w (some v) s h =
      let l = leave-counts (record s { rendezvous_slot = none }) w h in (tt, l.0, l.1, l.2)

  recv_queue-counts :
      (k w : Bool) (xs : List V) (s : ChannelState V)
      → count w ≤ s.blocking_receivers
      → RecvCounts s w (recv_queue k w xs s)
  recv_queue-counts k w [] s h = recv_slot-counts k w s.rendezvous_slot s h
  recv_queue-counts k w (x ∷ xs) s h =
      let l = leave-counts (record s { queue = xs }) w h in (tt, l.0, l.1, l.2)

  pub recv_round-counts :
      (k w : Bool) (s : ChannelState V)
      → count w ≤ s.blocking_receivers
      → RecvCounts s w (recv_round k w s)
  unfolding recv_round
  recv_round-counts k w s h = recv_queue-counts k w s.queue s h
