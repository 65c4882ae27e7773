-- ===== src/Interpreter/Channel/Waiting/Guards.antt =====
-- Where a select begins to wait, and where it ends.
use gof_lang.Prelude.{
  ℕ, ◌+◌, ◌-◌, ◌≤◌, ◌≡◌, refl, ◌==◌, List, [], ◌∷◌, Option, none, some, if◌then◌else◌, if_cases,
  arith,
}
use gof_lang.Interpreter.Channel.State.{add_wait, remove_wait}
use gof_lang.Interpreter.Channel.Waiting.{counted, ArePositive}

-- One wait under an id, as another id counts it.
abbrev pub one : ℕ → ℕ → ℕ
one id other = if id == other then 1 else 0

pub add_wait-counted :
    (id other : ℕ) (ws : List (ℕ × ℕ))
    → counted other (add_wait id ws) ≡ counted other ws + one id other
unfolding add_wait
add_wait-counted id other [] = omega arith
add_wait-counted id other ((j, n) ∷ ws) =
    let rest = add_wait-counted id other ws in ground (arith, rest)

pub add_wait-ArePositive :
    (id : ℕ) (ws : List (ℕ × ℕ)) → ArePositive ws → ArePositive (add_wait id ws)
unfolding add_wait
add_wait-ArePositive id [] h = (omega arith, tt)
add_wait-ArePositive id ((j, n) ∷ ws) h =
    if_cases ArePositive (j == id) (λ _. (omega arith, h.1))
      (λ _. (h.0, add_wait-ArePositive id ws h.1))

-- The wait is found, and one is taken off its count.
pub record Removed (id : ℕ) (ws : List (ℕ × ℕ)) (o : Option (List (ℕ × ℕ))) : Type 0 where
  pub left : List (ℕ × ℕ)
  pub is_left : o ≡ some left
  pub positive : ArePositive left
  pub counts : (other : ℕ) → counted other left + one id other ≡ counted other ws

take_one :
    (id j n : ℕ) (ws : List (ℕ × ℕ))
    → j ≡ id
    → 1 ≤ n
    → ArePositive ws
    → Removed id
        ((j, n) ∷ ws)
        (if n == 0 then none else some (if n == 1 then ws else (j, n - 1) ∷ ws))
take_one id j n ws e h p =
    if_cases (Removed id ((j, n) ∷ ws)) (n == 0) (λ z. absurd (ground (arith, z, h)))
      (λ _. record {
        left = if n == 1 then ws else (j, n - 1) ∷ ws;
        is_left = refl;
        positive = if_cases ArePositive (n == 1) (λ _. p) (λ many. (ground (arith, many, h), p));
        counts = λ other. ground (arith, e, h);
      })

pub remove_wait-Removed :
    (id : ℕ) (ws : List (ℕ × ℕ))
    → ArePositive ws
    → 1 ≤ counted id ws
    → Removed id ws (remove_wait id ws)
unfolding remove_wait
remove_wait-Removed id [] p h = absurd (omega (arith, h))
remove_wait-Removed id ((j, n) ∷ ws) p h =
    if_cases (Removed id ((j, n) ∷ ws)) (j == id)
      (λ e. take_one id j n ws (ground (arith, e)) p.0 p.1)
      (λ ne.
        let r = remove_wait-Removed id ws p.1 (ground (arith, ne, h)) in
        record {
          left = (j, n) ∷ r.left;
          is_left = rw r.is_left refl;
          positive = (p.0, r.positive);
          counts = λ other. (let c = r.counts other in omega (arith, c));
        })
