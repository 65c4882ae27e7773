-- ===== src/Parser/Print/Yields.antt =====
-- What a parser gives with enough fuel, and how its loops go on.
use gof_lang.Prelude.{ℕ, zero, suc, ◌+◌, ◌≤◌, ◌≡◌, ap, ◌∙◌, Option, some, ◌>>=◌, arith}
use gof_lang.Parser.State.{Parser}

module _ {A : Type 0} where
  -- With enough fuel the result is a good one, and the parser is then `q`.
  abbrev pub Yields : (ℕ → Option (A × Parser)) → (A → Type 0) → Parser → Type 0
  Yields f good q = (a : A) × good a × (N : ℕ) × ((n : ℕ) → N ≤ n → f n ≡ some (a, q))

  -- With enough fuel the parser comes to its loop, with a good value, at `q`, and `K` of the fuel
  -- is used.
  abbrev pub Chains :
      (ℕ → Option (A × Parser))
      → (ℕ → A → Parser → Option (A × Parser))
      → (A → Type 0)
      → Parser
      → Type 0
  Chains f loop good q =
      (a : A) × good a
      × (K : ℕ) × (N : ℕ) × ((n : ℕ) → N ≤ n → (m : ℕ) × (n ≤ m + K) × (f n ≡ loop m a q))

  pub Yields-same :
      {good : A → Type 0} {q : Parser} (f g : ℕ → Option (A × Parser))
      → ((n : ℕ) → g n ≡ f n)
      → Yields f good q
      → Yields g good q
  Yields-same f g e (a, h, N, k) = (a, h, N, λ n b. e n ∙ k n b)

  pub Yields-suc :
      {good : A → Type 0} {q : Parser} (f g : ℕ → Option (A × Parser))
      → ((n : ℕ) → g (suc n) ≡ f n)
      → Yields f good q
      → Yields g good q
  Yields-suc {q = q} f g e (a, h, N, k) = (a, h, suc N, from)
    where
      from : (n : ℕ) → suc N ≤ n → g n ≡ some (a, q)
      from zero b = absurd (omega (arith, b))
      from (suc n) b = e n ∙ k n (omega (arith, b))

  pub Chains-end :
      {good : A → Type 0} {q : Parser} (f : ℕ → Option (A × Parser))
      (loop : ℕ → A → Parser → Option (A × Parser))
      → ((m : ℕ) (a : A) → loop (suc m) a q ≡ some (a, q))
      → Chains f loop good q
      → Yields f good q
  Chains-end {q = q} f loop e (a, h, K, N, k) = (
    a,
    h,
    suc (N + K),
    λ n b. let (m, used, eq) = k n (omega (arith, b)) in eq ∙ ends m (omega (arith, b, used)),
  )
    where
      ends : (m : ℕ) → 1 ≤ m → loop m a q ≡ some (a, q)
      ends zero b = absurd (omega (arith, b))
      ends (suc m) b = e m a

  -- One more turn of the loop, that uses two units of fuel at most.
  pub Chains-step :
      {good good' : A → Type 0} {q q' : Parser} (f : ℕ → Option (A × Parser))
      (loop : ℕ → A → Parser → Option (A × Parser)) (M : ℕ) (turn : A → A)
      → ((a : A) → good a → good' (turn a))
      → ((m : ℕ) (a : A)
          → good a
          → M ≤ m
          → (m' : ℕ) × (m ≤ m' + 3) × (loop m a q ≡ loop m' (turn a) q'))
      → Chains f loop good q
      → Chains f loop good' q'
  Chains-step f loop M turn g e (a, h, K, N, k) = (
    turn a,
    g a h,
    K + 3,
    N + K + M,
    λ n b.
        let (m, used, eq) = k n (omega (arith, b)) in
        let (m', used', eq') = e m a h (omega (arith, b, used)) in
        (m', omega (arith, used, used'), eq ∙ eq'),
  )

  -- Such a turn, by how it counts its fuel.
  pub Chains-turn :
      {good good' : A → Type 0} {q q' : Parser} (f : ℕ → Option (A × Parser))
      (loop : ℕ → A → Parser → Option (A × Parser)) (N : ℕ) (turn : A → A)
      → ((a : A) → good a → good' (turn a))
      → ((m : ℕ) (a : A) → good a → N ≤ m → loop (suc m) a q ≡ loop m (turn a) q')
      → Chains f loop good q
      → Chains f loop good' q'
  Chains-turn {good = good} {q = q} {q' = q'} f loop N turn g e c =
      Chains-step f loop (suc N) turn g from c
    where
      from :
          (m : ℕ) (a : A)
          → good a
          → suc N ≤ m
          → (m' : ℕ) × (m ≤ m' + 3) × (loop m a q ≡ loop m' (turn a) q')
      from zero a h b = absurd (omega (arith, b))
      from (suc m) a h b = (m, omega arith, e m a h (omega (arith, b)))

  pub Chains-turn_two :
      {good good' : A → Type 0} {q q' : Parser} (f : ℕ → Option (A × Parser))
      (loop : ℕ → A → Parser → Option (A × Parser)) (N : ℕ) (turn : A → A)
      → ((a : A) → good a → good' (turn a))
      → ((m : ℕ) (a : A) → good a → N ≤ m → loop (suc (suc m)) a q ≡ loop m (turn a) q')
      → Chains f loop good q
      → Chains f loop good' q'
  Chains-turn_two {good = good} {q = q} {q' = q'} f loop N turn g e c =
      Chains-step f loop (N + 2) turn g from c
    where
      from :
          (m : ℕ) (a : A)
          → good a
          → N + 2 ≤ m
          → (m' : ℕ) × (m ≤ m' + 3) × (loop m a q ≡ loop m' (turn a) q')
      from zero a h b = absurd (omega (arith, b))
      from (suc zero) a h b = absurd (omega (arith, b))
      from (suc (suc m)) a h b = (m, omega arith, e m a h (omega (arith, b)))

  -- The loop begins after an operand.
  pub Chains-start :
      {good : A → Type 0} {q : Parser} (f g : ℕ → Option (A × Parser))
      (loop : ℕ → A → Parser → Option (A × Parser))
      → ((n : ℕ) → g (suc n) ≡ (f n >>= λ r. loop n r.0 r.1))
      → Yields f good q
      → Chains g loop good q
  Chains-start {q = q} f g loop e (a, h, N, k) = (a, h, 1, suc N, from)
    where
      from : (n : ℕ) → suc N ≤ n → (m : ℕ) × (n ≤ m + 1) × (g n ≡ loop m a q)
      from zero b = absurd (omega (arith, b))
      from (suc n) b =
          (n, omega arith, e n ∙ ap (λ o. o >>= λ r. loop n r.0 r.1) (k n (omega (arith, b))))

-- A step whose result is used at once.
pub Yields-map :
    {A B : Type 0} {good : A → Type 0} {good' : B → Type 0} {q q' : Parser}
    (f : ℕ → Option (A × Parser)) (g : ℕ → Option (B × Parser))
    (k : A × Parser → Option (B × Parser)) (use_it : A → B)
    → ((a : A) → good a → good' (use_it a))
    → ((a : A) → k (a, q) ≡ some (use_it a, q'))
    → ((n : ℕ) → g (suc n) ≡ (f n >>= k))
    → Yields f good q
    → Yields g good' q'
Yields-map {q' = q'} f g k use_it u e s (a, h, N, y) = (use_it a, u a h, suc N, from)
  where
    from : (n : ℕ) → suc N ≤ n → g n ≡ some (use_it a, q')
    from zero b = absurd (omega (arith, b))
    from (suc n) b = s n ∙ (ap (λ o. o >>= k) (y n (omega (arith, b))) ∙ e a)

-- A step whose result another goes on with.
pub Yields-bind :
    {A B : Type 0} {good : A → Type 0} {good' : B → Type 0} {q q' : Parser}
    (f : ℕ → Option (A × Parser)) (g : ℕ → Option (B × Parser))
    (k : ℕ → A × Parser → Option (B × Parser))
    → ((n : ℕ) → g (suc n) ≡ (f n >>= k n))
    → ((a : A) → good a → Yields (λ n. k n (a, q)) good' q')
    → Yields f good q
    → Yields g good' q'
Yields-bind {B = B} {q = q} {q' = q'} f g k s w (a, h, N, y) =
    let (b, h', M, z) = w a h in (b, h', suc (N + M), from b M z)
  where
    from :
        (b : B) (M : ℕ)
        → ((n : ℕ) → M ≤ n → k n (a, q) ≡ some (b, q'))
        → (n : ℕ) → suc (N + M) ≤ n
        → g n ≡ some (b, q')
    from b M z zero c = absurd (omega (arith, c))
    from b M z (suc n) c =
        s n ∙ (ap (λ o. o >>= k n) (y n (omega (arith, c))) ∙ z n (omega (arith, c)))

pub Yields-then :
    {A B : Type 0} {good : A → Type 0} {good' : B → Type 0} {q : Parser}
    (f : ℕ → Option (A × Parser)) (use_it : A → B)
    → ((a : A) → good a → good' (use_it a))
    → Yields f good q
    → Yields (λ n. f n >>= λ r. some (use_it r.0, r.1)) good' q
Yields-then f use_it u (a, h, N, y) =
    (use_it a, u a h, N, λ n b. ap (λ o. o >>= λ r. some (use_it r.0, r.1)) (y n b))

pub Yields-seq :
    {A B : Type 0} {good : A → Type 0} {good' : B → Type 0} {q q' : Parser}
    (f : ℕ → Option (A × Parser)) (k : ℕ → A × Parser → Option (B × Parser))
    → ((a : A) → good a → Yields (λ n. k n (a, q)) good' q')
    → Yields f good q
    → Yields (λ n. f n >>= k n) good' q'
Yields-seq f k w (a, h, N, y) =
    let (b, h', M, z) = w a h in
    (b, h', N + M, λ n c. ap (λ o. o >>= k n) (y n (omega (arith, c))) ∙ z n (omega (arith, c)))
