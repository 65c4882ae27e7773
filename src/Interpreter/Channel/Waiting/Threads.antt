-- ===== src/Interpreter/Channel/Waiting/Threads.antt =====
-- A step of one thread keeps the counts of waiting receivers and of waiting selects.
use gof_lang.Prelude.{
  ℕ, zero, suc, ◌+◌, ◌≤◌, ◌≡◌, refl, ap, sym, subst, ◌∙◌, inl, inr, Bool, true, false, not, List,
  [], ◌∷◌, Option, none, some, All, if_cases, if◌then◌else◌, ◌==◌, ◌>>=◌, ◌⊎◌, arith,
}
use gof_lang.Interpreter.Channel.State.{
  ChannelReceiveState, cancelled, is_rendezvous, begin_select_recv_wait, end_select_recv_wait,
  add_wait,
}
use gof_lang.Interpreter.Channel.Rounds.{
  Round, again, returned, panicked, SendLocals, send_round, recv_round,
}
use gof_lang.Interpreter.Channel.System.{
  Thread, calling, sending, receiving, selecting, sent, received, crashed, System, get_elem?, set,
  Holds, Holds-weaken, All-get_elem?, All-set, after_send, after_recv, finish_send, finish_recv,
  begun, ended, begin_guard, end_guard, step_thread,
}
use gof_lang.Interpreter.Channel.Waiting.{
  waits, sum_of, waiting, held, guards, counted, ArePositive, IsReady, IsConsistent,
}
use gof_lang.Interpreter.Channel.Waiting.Rounds.{send_round-counts, recv_round-counts}
use gof_lang.Interpreter.Channel.Waiting.Guards.{
  one, add_wait-counted, add_wait-ArePositive, remove_wait-Removed,
}

not-false : (b : Bool) → not b ≡ false → b ≡ true
not-false true e = refl
not-false false e = cc

held-suc :
    (id other n : ℕ)
    → (if id == other then suc n else 0) ≡ (if id == other then n else 0) + one id other
held-suc id other n = ground arith

held-own : (id n : ℕ) → (if id == id then n else 0) ≡ n
held-own id n = ground arith

module _ {V : Type 0} where
  set-sum :
      (m : Thread V → ℕ) (ts : List (Thread V)) (i : ℕ) (t : Thread V)
      → Holds (λ old. sum_of m (set ts i t) + m old ≡ sum_of m ts + m t) (get_elem? ts i)
  set-sum m [] i t = tt
  set-sum m (u ∷ ts) zero t = omega arith
  set-sum m (u ∷ ts) (suc i) t =
      Holds-weaken (λ old. sum_of m (set ts i t) + m old ≡ sum_of m ts + m t) _ (get_elem? ts i)
        (λ old h. omega (arith, h)) (set-sum m ts i t)

  le-sum :
      (m : Thread V → ℕ) (ts : List (Thread V)) (i : ℕ)
      → Holds (λ t. m t ≤ sum_of m ts) (get_elem? ts i)
  le-sum m [] i = tt
  le-sum m (t ∷ ts) zero = omega arith
  le-sum m (t ∷ ts) (suc i) =
      Holds-weaken (λ u. m u ≤ sum_of m ts) _ (get_elem? ts i) (λ u h. omega (arith, h))
        (le-sum m ts i)

  -- One thread has gone on, and the channel with it.
  set-IsConsistent :
      (sys next : System V) (i : ℕ) (old t : Thread V)
      → get_elem? sys.threads i ≡ some old
      → next.threads ≡ set sys.threads i t
      → IsConsistent sys
      → IsReady sys.channel.capacity t
      → next.channel.blocking_receivers + waits old ≡ sys.channel.blocking_receivers + waits t
      → next.channel.capacity ≡ sys.channel.capacity
      → ArePositive next.channel.select_waiting_receivers
      → ((id : ℕ)
          → counted id next.channel.select_waiting_receivers + held id old
            ≡ counted id sys.channel.select_waiting_receivers + held id t)
      → IsConsistent next
  set-IsConsistent sys next i old t found e h ready sum same positive counts =
      let ts = sys.threads in
      let total = (λ (m : Thread V → ℕ).
        subst (Holds (λ u. sum_of m (set ts i t) + m u ≡ sum_of m ts + m t)) found
          (set-sum m ts i t)) in
      record {
        receivers = (
          subst (λ d. All (IsReady d) next.threads) (sym same)
              (subst (All (IsReady sys.channel.capacity)) (sym e)
                (All-set (IsReady sys.channel.capacity) ts i t h.receivers.0 ready)),
          (let w = total waits in omega (arith, w, sum, h.receivers.1)) ∙ ap waiting (sym e),
        );
        selects = (
          positive,
          λ id.
              (let w = total (held id) in
                let c = h.selects.1 id in let d = counts id in omega (arith, w, c, d))
              ∙ ap (guards id) (sym e),
        );
      }

  -- A round of `send` or `recv` leaves the map of waiting selects as it is.
  same-counted :
      (ws ws' : List (ℕ × ℕ)) (old t : Thread V)
      → ws' ≡ ws
      → ((id : ℕ) → held id old ≡ held id t)
      → (id : ℕ) → counted id ws' + held id old ≡ counted id ws + held id t
  same-counted ws ws' old t e h id = let k = h id in omega (arith, ap (counted id) e, k)

  after_send-held :
      (id : ℕ) (v : V) (r : Round (SendLocals V) (ChannelReceiveState V))
      → 0 ≡ held id (after_send v r)
  after_send-held id v (again l) = refl
  after_send-held id v (returned r) = refl
  after_send-held id v panicked = refl

  after_recv-held : (id : ℕ) (r : Round Bool (ChannelReceiveState V)) → 0 ≡ held id (after_recv r)
  after_recv-held id (again w) = refl
  after_recv-held id (returned r) = refl
  after_recv-held id panicked = refl

module _ {V : Type 0} (unit : V) where
  pub step_thread-IsConsistent :
      (sys : System V) (i : ℕ) (k : Bool) (thread : Option (Thread V))
      → get_elem? sys.threads i ≡ thread
      → IsConsistent sys
      → IsConsistent (step_thread unit sys i k thread)
  unfolding step_thread
  step_thread-IsConsistent sys i k none p h = h
  step_thread-IsConsistent sys i k (some (calling v)) p h =
      if_cases (λ (t : Thread V). IsConsistent (record sys { threads = set sys.threads i t })) k
        (λ _.
          set-IsConsistent sys (record sys { threads = set sys.threads i (sent cancelled) }) i
            (calling v) (sent cancelled) p refl h tt refl refl h.selects.0 (λ id. refl))
        (λ _.
          (let t = sending v (record { pending = some v; rendezvous_enqueued = false }) in
            set-IsConsistent sys (record sys { threads = set sys.threads i t }) i (calling v) t p
              refl h (inl refl) refl refl h.selects.0 (λ id. refl)))
  step_thread-IsConsistent sys i k (some (sending v l)) p h =
      let ready =
        subst (Holds (IsReady sys.channel.capacity)) p
          (All-get_elem? (IsReady sys.channel.capacity) sys.threads i h.receivers.0) in
      let (ready', idle, same, e, ws) = send_round-counts unit k sys.channel v l ready in
      let o = send_round unit k l sys.channel in
      set-IsConsistent sys (finish_send sys i v o) i (sending v l) (after_send v o.0) p refl h
        ready' (omega (arith, idle, same)) e (subst ArePositive (sym ws) h.selects.0)
        (same-counted sys.channel.select_waiting_receivers o.1.select_waiting_receivers
          (sending v l) (after_send v o.0) ws (λ id. after_send-held id v o.0))
  step_thread-IsConsistent sys i k (some (receiving w)) p h =
      let bound =
        subst (Holds (λ t. waits t ≤ waiting sys.threads)) p (le-sum waits sys.threads i) in
      let (ready', sum, e, ws) =
        recv_round-counts k w sys.channel (omega (arith, bound, h.receivers.1)) in
      let o = recv_round k w sys.channel in
      set-IsConsistent sys (finish_recv sys i o) i (receiving w) (after_recv o.0) p refl h ready'
        sum e (subst ArePositive (sym ws) h.selects.0)
        (same-counted sys.channel.select_waiting_receivers o.1.select_waiting_receivers
          (receiving w) (after_recv o.0) ws (λ id. after_recv-held id o.0))
  step_thread-IsConsistent sys i k (some (selecting id n)) p h = h
  step_thread-IsConsistent sys i k (some (sent r)) p h = h
  step_thread-IsConsistent sys i k (some (received r)) p h = h
  step_thread-IsConsistent sys i k (some crashed) p h = h

module _ {V : Type 0} where
  pub begin_guard-IsConsistent :
      (sys : System V) (i : ℕ) (thread : Option (Thread V))
      → get_elem? sys.threads i ≡ thread
      → IsConsistent sys
      → IsConsistent (begin_guard sys i thread)
  unfolding begin_guard begin_select_recv_wait
  begin_guard-IsConsistent sys i none p h = h
  begin_guard-IsConsistent sys i (some (selecting id n)) p h =
      let s = sys.channel in
      let ready =
        subst (Holds (IsReady s.capacity)) p
          (All-get_elem? (IsReady s.capacity) sys.threads i h.receivers.0) in
      if_cases (λ o. IsConsistent (begun sys i id n o)) (not (is_rendezvous s.capacity))
        (λ _.
          set-IsConsistent sys (begun sys i id n (false, s)) i (selecting id n) (selecting id n) p
            refl h ready refl refl h.selects.0 (λ other. refl))
        (λ e.
          (let ws = add_wait id s.select_waiting_receivers in
            set-IsConsistent sys
              (begun sys i id n (true, record s { select_waiting_receivers = ws })) i
              (selecting id n) (selecting id (suc n)) p refl h
              (inl (not-false (is_rendezvous s.capacity) e)) refl refl
              (add_wait-ArePositive id s.select_waiting_receivers h.selects.0)
              (λ other.
                (let c = add_wait-counted id other s.select_waiting_receivers in
                  let d = held-suc id other n in omega (arith, c, d)))))
  begin_guard-IsConsistent sys i (some (calling v)) p h = h
  begin_guard-IsConsistent sys i (some (sending v l)) p h = h
  begin_guard-IsConsistent sys i (some (receiving w)) p h = h
  begin_guard-IsConsistent sys i (some (sent r)) p h = h
  begin_guard-IsConsistent sys i (some (received r)) p h = h
  begin_guard-IsConsistent sys i (some crashed) p h = h

  pub end_guard-IsConsistent :
      (sys : System V) (i : ℕ) (thread : Option (Thread V))
      → get_elem? sys.threads i ≡ thread
      → IsConsistent sys
      → IsConsistent (end_guard sys i thread)
  unfolding end_guard end_select_recv_wait
  end_guard-IsConsistent sys i none p h = h
  end_guard-IsConsistent sys i (some (selecting id zero)) p h = h
  end_guard-IsConsistent sys i (some (selecting id (suc n))) p h =
      let s = sys.channel in
      let ready =
        subst (Holds (IsReady s.capacity)) p
          (All-get_elem? (IsReady s.capacity) sys.threads i h.receivers.0) in
      let bound =
        subst (Holds (λ t. held id t ≤ guards id sys.threads)) p (le-sum (held id) sys.threads i) in
      let at_id = h.selects.1 id in
      let own = held-own id (suc n) in
      let r =
        remove_wait-Removed id s.select_waiting_receivers h.selects.0
          (omega (arith, bound, at_id, own)) in
      if_cases (λ o. IsConsistent (ended sys i id n o)) (not (is_rendezvous s.capacity))
        (λ e. absurd (active ready e))
        (λ e.
          subst
            (λ o.
              IsConsistent
                (ended sys i id n (o >>= λ ws. some (record s { select_waiting_receivers = ws }))))
            (sym r.is_left)
            (set-IsConsistent sys
              (ended sys i id n (some (record s { select_waiting_receivers = r.left }))) i
              (selecting id (suc n)) (selecting id n) p refl h
              (inl (not-false (is_rendezvous s.capacity) e)) refl refl r.positive
              (λ other.
                (let c = r.counts other in let d = held-suc id other n in omega (arith, c, d)))))
    where
      active : {c : Bool} {m : ℕ} → (c ≡ true) ⊎ (suc m ≡ 0) → not c ≡ true → ⊥
      active (inl e) q = cc
      active (inr e) q = omega (arith, e)
  end_guard-IsConsistent sys i (some (calling v)) p h = h
  end_guard-IsConsistent sys i (some (sending v l)) p h = h
  end_guard-IsConsistent sys i (some (receiving w)) p h = h
  end_guard-IsConsistent sys i (some (sent r)) p h = h
  end_guard-IsConsistent sys i (some (received r)) p h = h
  end_guard-IsConsistent sys i (some crashed) p h = h
