-- ===== src/Interpreter/Channel/State.antt =====
-- compiler/gof-compiler/src/interpreter.rs: `ChannelState` and the methods of `ChannelHandle`.
-- Each function is what one thread does while it holds the mutex. The values are a parameter. The
-- listeners, who are only woken up, are left out: a thread that waits may go on at any time.
use gof_lang.Prelude.{
  ℕ, ◌+◌, ◌-◌, Bool, true, false, not, ◌&&◌, ◌||◌, List, [], ◌∷◌, ◌++◌, Option, none, some, length,
  ltb, ◌==◌, if◌then◌else◌, ◌>>=◌,
}

abbrev pub is_none {ℓ} : {A : Type ℓ} → Option A → Bool
is_none none = true
is_none (some _) = false

pub data ChannelReceiveState (V : Type 0) : Type 0 where
  value : V → ChannelReceiveState V
  closed cancelled : ChannelReceiveState V

pub record ChannelState (V : Type 0) : Type 0 where
  pub queue : List V
  pub rendezvous_slot : Option V
  pub is_closed : Bool
  pub capacity : Option ℕ
  pub blocking_receivers : ℕ
  pub select_waiting_receivers : List (ℕ × ℕ)

-- `matches!(capacity, Some(0))`
abbrev pub is_rendezvous : Option ℕ → Bool
is_rendezvous none = false
is_rendezvous (some n) = n == 0

-- `*state.select_waiting_receivers.entry(id).or_insert(0) += 1`, and its undoing, which panics
-- where there is no such wait.
unfoldable pub add_wait : ℕ → List (ℕ × ℕ) → List (ℕ × ℕ)
add_wait id [] = (id, 1) ∷ []
add_wait id ((j, n) ∷ ws) = if j == id then (j, n + 1) ∷ ws else (j, n) ∷ add_wait id ws

unfoldable pub remove_wait : ℕ → List (ℕ × ℕ) → Option (List (ℕ × ℕ))
remove_wait id [] = none
remove_wait id ((j, n) ∷ ws) =
    let rest = remove_wait id ws in
    if j == id
    then if n == 0 then none else some (if n == 1 then ws else (j, n - 1) ∷ ws)
    else elim rest [ none ↦ none | some ws' ↦ some ((j, n) ∷ ws') ]

-- A select of another group waits to receive.
abbrev pub other_waits : Option ℕ → List (ℕ × ℕ) → Bool
other_waits excluded [] = false
other_waits none ((j, n) ∷ ws) = ltb 0 n || other_waits none ws
other_waits (some id) ((j, n) ∷ ws) = ltb 0 n && not (j == id) || other_waits (some id) ws

module _ {V : Type 0} where
  unfoldable pub new : Option ℕ → ChannelState V
  new capacity = record {
    queue = [];
    rendezvous_slot = none;
    is_closed = false;
    capacity = capacity;
    blocking_receivers = 0;
    select_waiting_receivers = [];
  }

  abbrev pub has_room : Option ℕ → ChannelState V → Bool
  has_room none s = true
  has_room (some c) s = if c == 0 then is_none s.rendezvous_slot else ltb (length s.queue) c

  unfoldable pub can_send : ChannelState V → Bool
  can_send s = has_room s.capacity s

  unfoldable pub close : ChannelState V → ChannelState V
  close s = record s { is_closed = true }

  abbrev pub has_waiting_receiver : ChannelState V → Option ℕ → Bool
  has_waiting_receiver s excluded =
      ltb 0 s.blocking_receivers || other_waits excluded s.select_waiting_receivers

  unfoldable pub begin_select_recv_wait : ℕ → ChannelState V → Bool × ChannelState V
  begin_select_recv_wait id s =
      if not (is_rendezvous s.capacity)
      then (false, s)
      else (true, record s { select_waiting_receivers = add_wait id s.select_waiting_receivers })

  unfoldable pub end_select_recv_wait : ℕ → ChannelState V → Option (ChannelState V)
  end_select_recv_wait id s =
      if not (is_rendezvous s.capacity)
      then some s
      else (remove_wait id s.select_waiting_receivers >>= λ ws.
          some (record s { select_waiting_receivers = ws }))

  abbrev pub enqueue : V → ChannelState V → ChannelState V
  enqueue v s = record s { queue = s.queue ++ v ∷ [] }

  abbrev pub place : V → ChannelState V → ChannelState V
  place v s = record s { rendezvous_slot = some v }
