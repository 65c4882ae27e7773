-- ===== src/Lexer/Lex/Stack.antt =====
-- The stack of indentations.
use gof_lang.Prelude.{
  sym, length, ℕ, zero, suc, ◌+◌, ◌*◌, ◌%◌, ◌≤◌, ◌≡◌, refl, ◌≢◌, ◌⊎◌, inl, inr, ap, List, [], ◌∷◌,
  some, Text, codes, All, ltb, ◌==◌, if_cases, Bool-cases, arith,
}
use gof_lang.Source.{span}
use gof_lang.Diagnostics.{Diagnostic, Diagnostics}
use gof_lang.Token.{Token, token, dedent, eof}
use gof_lang.Lexer.Lex.{
  count_from, end_indent, pop_indents, close_all, tab_diagnostic, multiple_diagnostic,
}
use gof_lang.Lexer.Lex.Nesting.{shift, nesting}

-- The stack within so many blocks: 0 at the bottom, and steps of four.
abbrev pub ladder : ℕ → List ℕ
ladder zero = 0 ∷ []
ladder (suc k) = (4 * suc k) ∷ ladder k

abbrev pub AreInner : List Token → Type 0
AreInner = All (λ t. t.kind ≢ eof)

-- Popping down to a lower multiple of four finds it on the stack, and pushes the `dedent`s that
-- close the blocks above.
pub pop_indents-ladder :
    (line j k : ℕ)
    → j ≤ k
    → (ts : List Token) × (pop_indents line (4 * j) (ladder k) ≡ some (ladder j, ts))
      × (nesting k ts ≡ some j)
      × AreInner ts
unfolding pop_indents nesting shift
pop_indents-ladder line j zero h = ([], ground arith, ground arith, tt)
pop_indents-ladder line j (suc k) h = elim (Bool-cases (ltb (4 * j) (4 * suc k))) [
  | inl above ↦
      let (ts, popped, nested, inner) = pop_indents-ladder line j k (ground arith) in
      (token dedent (span line 1 (4 * j + 1)) ∷ ts, rw (above, popped), nested, (cc, inner))
  | inr here ↦
      let e : j ≡ suc k = ground arith in
      ([], rw here (ap (λ s. some (s, [])) (sym (ap ladder e))), ap some (sym e), tt)
]

-- At the end every block that is open is closed.
pub close_all-ladder :
    (line k : ℕ)
    → (nesting k (close_all line (ladder k)) ≡ some 0) × AreInner (close_all line (ladder k))
unfolding close_all nesting shift
close_all-ladder line zero = (refl, tt)
close_all-ladder line (suc zero) = (refl, (cc, tt))
close_all-ladder line (suc (suc k)) =
    let (nested, inner) = close_all-ladder line (suc k) in (nested, (cc, inner))

-- The diagnostics of the lexer have one of two codes.
abbrev pub IsLexCode : Diagnostic → Type 0
IsLexCode d = (d.code ≡ codes "GOF1001") ⊎ (d.code ≡ codes "GOF2001")

-- What `count_indent` returns, counting on from `count`: the width stays within the line, and is a
-- multiple of four if nothing is reported.
abbrev pub IsCounted : ℕ → Text → ℕ × Diagnostics → Type 0
IsCounted count cs (width, ds) =
    All IsLexCode ds × (ds ≡ [] → width % 4 ≡ 0) × (count ≤ width) × (width ≤ count + length cs)

end_indent-IsCounted : (line count : ℕ) (cs : Text) → IsCounted count cs (end_indent line count)
unfolding multiple_diagnostic
end_indent-IsCounted line count cs = elim (Bool-cases (count % 4 == 0)) [
  | inl multiple ↦ rw multiple (tt, λ _. ground arith, omega arith, omega arith)
  | inr ragged ↦ rw ragged ((inl refl, tt), λ h. cc, omega arith, omega arith)
]

pub count_from-IsCounted :
    (line count : ℕ) (cs : Text) → IsCounted count cs (count_from line count cs)
unfolding count_from tab_diagnostic
count_from-IsCounted line count [] = end_indent-IsCounted line count []
count_from-IsCounted line count (c ∷ cs) =
    let (coded, multiple, low, high) = count_from-IsCounted line (count + 1) cs in
    if_cases (IsCounted count (c ∷ cs)) (c == b' ')
      (λ _. (coded, multiple, omega arith, omega arith))
      λ _.
        if_cases (IsCounted count (c ∷ cs)) (c == b'\t')
          (λ _. ((inl refl, tt), λ h. cc, omega arith, omega arith))
          λ _. end_indent-IsCounted line count (c ∷ cs)
