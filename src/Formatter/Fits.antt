-- ===== src/Formatter/Fits.antt =====
-- Lines that fit into a block, and texts of such lines.
use gof_lang.Prelude.{
  ℕ, suc, ◌+◌, ◌≤◌, ◌≡◌, refl, sym, ap, ◌∙◌, List, [], ◌∷◌, ◌++◌, Text, codes, append_assoc, arith,
}
use gof_lang.Formatter.Statement.{indentation}
use gof_lang.Formatter.Layout.{Line, blank, line, unlines}

-- The indentation grows by at most one level from a line to the next, and does not fall below the
-- level of the block.
abbrev pub Grows : ℕ → List Line → Type 0
Grows previous [] = Unit
Grows previous (blank ∷ ls) = Grows previous ls
Grows previous (line k _ ∷ ls) = (k ≤ previous + 1) × Grows k ls

abbrev pub AreWithin : ℕ → List Line → Type 0
AreWithin k [] = Unit
AreWithin k (blank ∷ ls) = AreWithin k ls
AreWithin k (line j _ ∷ ls) = (k ≤ j) × AreWithin k ls

abbrev pub Fits : ℕ → List Line → Type 0
Fits k ls = ((previous : ℕ) → k ≤ previous + 1 → Grows previous ls) × AreWithin k ls

-- A text is that of the lines, and they fit.
abbrev pub Prints : ℕ → Text → List Line → Type 0
Prints k text ls = (text ++ codes "\n" ≡ unlines ls) × Fits k ls

-- The same for what follows other lines.
abbrev pub Follows : ℕ → Text → List Line → Type 0
Follows k text ls = (text ++ codes "\n" ≡ codes "\n" ++ unlines ls) × Fits k ls

unlines-append : (xs ys : List Line) → unlines (xs ++ ys) ≡ unlines xs ++ unlines ys
unlines-append [] ys = refl
unlines-append (blank ∷ xs) ys = ap (◌++◌ (codes "\n")) (unlines-append xs ys)
unlines-append (line k text ∷ xs) ys =
    ap (λ t. (indentation k ++ text) ++ (codes "\n" ++ t)) (unlines-append xs ys)
    ∙ sym (append_assoc (indentation k ++ text) (codes "\n" ++ unlines xs) (unlines ys))

append-Fits : (k : ℕ) (xs ys : List Line) → Fits k xs → Fits k ys → Fits k (xs ++ ys)
append-Fits k xs ys h g = (λ previous b. grow xs previous b (h.0 previous b) h.1, within xs h.1)
  where
    grow :
        (xs : List Line) (previous : ℕ)
        → k ≤ previous + 1
        → Grows previous xs
        → AreWithin k xs
        → Grows previous (xs ++ ys)
    grow [] previous b a w = g.0 previous b
    grow (blank ∷ xs) previous b a w = grow xs previous b a w
    grow (line j _ ∷ xs) previous b a w = (a.0, grow xs j (omega (arith, w.0)) a.1 w.1)

    within : (xs : List Line) → AreWithin k xs → AreWithin k (xs ++ ys)
    within [] w = g.1
    within (blank ∷ xs) w = within xs w
    within (line j _ ∷ xs) w = (w.0, within xs w.1)

weaker-AreWithin : (k : ℕ) (ls : List Line) → AreWithin (suc k) ls → AreWithin k ls
weaker-AreWithin k [] w = tt
weaker-AreWithin k (blank ∷ ls) w = weaker-AreWithin k ls w
weaker-AreWithin k (line j _ ∷ ls) w = (omega (arith, w.0), weaker-AreWithin k ls w.1)

-- A line with lines below it.
headed-Fits :
    (k : ℕ) (text : Text) (ls ms : List Line)
    → Fits (suc k) ls
    → Fits k ms
    → Fits k (line k text ∷ (ls ++ ms))
headed-Fits k text ls ms h g =
    let both =
      append-Fits k (line k text ∷ ls) ms
        (λ previous b. (b, h.0 k (omega arith)), (omega arith, weaker-AreWithin k ls h.1)) g in
    both

pub one-Prints : (k : ℕ) (text : Text) → Prints k (indentation k ++ text) (line k text ∷ [])
one-Prints k text = (refl, (λ previous b. (b, tt), (omega arith, tt)))

pub blank-Prints : (k : ℕ) → Prints k [] (blank ∷ [])
blank-Prints k = (refl, (λ previous b. tt, tt))

pub none-Follows : (k : ℕ) → Follows k [] []
none-Follows k = (refl, (λ previous b. tt, tt))

pub then-Prints :
    (k : ℕ) (x y : Text) (xs ys : List Line)
    → Prints k x xs
    → Follows k y ys
    → Prints k (x ++ y) (xs ++ ys)
then-Prints k x y xs ys h g = (
  append_assoc x y (codes "\n")
      ∙ (ap (◌++◌ x) g.0
          ∙ (sym (append_assoc x (codes "\n") (unlines ys))
              ∙ (ap (λ t. t ++ unlines ys) h.0 ∙ sym (unlines-append xs ys)))),
  append-Fits k xs ys h.1 g.1,
)

pub newline-Follows :
    (k : ℕ) (x : Text) (xs : List Line) → Prints k x xs → Follows k (codes "\n" ++ x) xs
newline-Follows k x xs h = (ap (◌++◌ (codes "\n")) h.0, h.1)

-- A head, what is below it, and what follows.
pub headed-Prints :
    (k : ℕ) (text x y : Text) (xs ys : List Line)
    → Prints (suc k) x xs
    → Follows k y ys
    → Prints k ((indentation k ++ text) ++ (codes "\n" ++ (x ++ y))) (line k text ∷ (xs ++ ys))
headed-Prints k text x y xs ys h g = (
  append_assoc (indentation k ++ text) (codes "\n" ++ (x ++ y)) (codes "\n")
      ∙ ap (λ t. (indentation k ++ text) ++ (codes "\n" ++ t))
          (append_assoc x y (codes "\n")
            ∙ (ap (◌++◌ x) g.0
                ∙ (sym (append_assoc x (codes "\n") (unlines ys))
                    ∙ (ap (λ t. t ++ unlines ys) h.0 ∙ sym (unlines-append xs ys))))),
  headed-Fits k text xs ys h.1 g.1,
)

pub below-Prints :
    (k : ℕ) (text x : Text) (xs : List Line)
    → Prints (suc k) x xs
    → Prints k ((indentation k ++ text) ++ (codes "\n" ++ x)) (line k text ∷ xs)
below-Prints k text x xs h = (
  append_assoc (indentation k ++ text) (codes "\n" ++ x) (codes "\n")
      ∙ ap (λ t. (indentation k ++ text) ++ (codes "\n" ++ t)) h.0,
  (λ previous b. (b, h.1.0 k (omega arith)), (omega arith, weaker-AreWithin k xs h.1.1)),
)
