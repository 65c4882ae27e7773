-- ===== src/Interpreter/Channel/Waiting/Selects.antt =====
-- A poll of a select does not change the counts of waiting receivers.
use gof_lang.Prelude.{
  ℕ, ltb, ◌==◌, length, refl, ◌∙◌, sym, subst, Bool, ◌&&◌, List, [], ◌∷◌, Option, none, some, All,
  if_cases,
}
use gof_lang.Interpreter.Channel.State.{
  is_none, ChannelReceiveState, ChannelState, has_waiting_receiver,
}
use gof_lang.Interpreter.Channel.Rounds.{
  try_select_send, try_send_internal, try_send_to, try_recv, try_recv_queue, try_recv_slot,
}
use gof_lang.Interpreter.Channel.System.{System}
use gof_lang.Interpreter.Channel.Waiting.{IsReady, AreGuarded, IsConsistent, SelectKeeps}

module _ {V : Type 0} (unit : V) where
  pub try_select_send-SelectKeeps :
      (k : Bool) (v : V) (id : ℕ) (s : ChannelState V)
      → SelectKeeps s (try_select_send unit k v id s)
  unfolding try_send_internal
  try_select_send-SelectKeeps k v id s =
      if_cases (SelectKeeps s) k (λ _. (refl, refl, refl))
        (λ _. if_cases (SelectKeeps s) s.is_closed (λ _. (refl, refl, refl)) (λ _. to s.capacity))
    where
      to : (c : Option ℕ) → SelectKeeps s (try_send_to unit c v (some id) s)
      to none = (refl, refl, refl)
      to (some c) =
          if_cases (SelectKeeps s) (c == 0)
            (λ _.
              if_cases (SelectKeeps s)
                (has_waiting_receiver s (some id) && is_none s.rendezvous_slot)
                (λ _. (refl, refl, refl)) (λ _. (refl, refl, refl)))
            (λ _.
              if_cases (SelectKeeps s) (ltb (length s.queue) c) (λ _. (refl, refl, refl))
                (λ _. (refl, refl, refl)))

module _ {V : Type 0} where
  pub try_recv-SelectKeeps : (k : Bool) (s : ChannelState V) → SelectKeeps s (try_recv k s)
  unfolding try_recv
  try_recv-SelectKeeps k s = from_queue s.queue
    where
      from_slot : (o : Option V) → SelectKeeps s (try_recv_slot k o s)
      from_slot none =
          if_cases (SelectKeeps s) s.is_closed (λ _. (refl, refl, refl))
            (λ _. if_cases (SelectKeeps s) k (λ _. (refl, refl, refl)) (λ _. (refl, refl, refl)))
      from_slot (some v) = (refl, refl, refl)

      from_queue : (xs : List V) → SelectKeeps s (try_recv_queue k xs s)
      from_queue [] = from_slot s.rendezvous_slot
      from_queue (x ∷ xs) = (refl, refl, refl)

  pub select-IsConsistent :
      (s : ChannelState V) (sys : System V) (r : Option (ChannelReceiveState V))
      → SelectKeeps sys.channel (r, s)
      → IsConsistent sys
      → (log log' : List V)
      → IsConsistent (record sys { channel = s; sent_log = log; received_log = log' })
  select-IsConsistent s sys r k h log log' = record {
    receivers =
        (subst (λ c. All (IsReady c) sys.threads) (sym k.0) h.receivers.0, k.1 ∙ h.receivers.1);
    selects = subst (λ ws. AreGuarded ws sys.threads) (sym k.2) h.selects;
  }
