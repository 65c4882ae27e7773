-- ===== src/Parser/Progress.antt =====
-- How far a step of the parser has gone.
use gof_lang.Prelude.{
  ℕ, suc, ◌≤◌, ◌≡◌, refl, sym, ap, ◌∙◌, Bool, true, false, not, ◌&&◌, List, [], ◌∷◌, Option, none,
  some, Text, codes, if_cases, All, All-append, append-nil, append_assoc, ◌++◌, inr, ◌⊎◌, subst,
  ◌>>=◌, length, is_empty, arith,
}
pub use gof_lang.Prelude.{elim_bool, elim_option, elim_true, elim_false, elim_none, elim_some}
use gof_lang.Source.{Span}
use gof_lang.Diagnostics.{Diagnostic, Diagnostics, error_severity}
use gof_lang.Token.{TokenKind, Token, l_paren, l_bracket, l_brace}
use gof_lang.Parser.Discriminant.{TokenDiscriminant, matches_kind}
use gof_lang.Parser.State.{
  Parser, is_eof, first_or, advance, advance_onto, check, report, expect, named_or_report,
  member_or_error, peek, expect_ident, unexpected_token, ident_or_error, ident_diagnostic,
  member_diagnostic, expect_member_name,
}

-- The number of tokens that are left, and the last token before the end.
abbrev pub size : Parser → ℕ
size p = length p.upcoming

abbrev pub last_or : Token → List Token → Token
last_or t [] = t
last_or t (u ∷ us) = last_or u us

abbrev pub final_token : Parser → Token
final_token p = last_or p.previous p.upcoming

abbrev pub IsParseError : Diagnostic → Type 0
IsParseError d =
    (d.severity ≡ error_severity) × ((d.code ≡ codes "GOF2001") ⊎ (d.code ≡ codes "GOF2002"))

-- Only errors of the parser have been added, at the end.
pub record Extends (before after : Diagnostics) : Type 0 where
  pub added : Diagnostics
  pub appended : after ≡ before ++ added
  pub errors : All IsParseError added

pub Extends-refl : (ds : Diagnostics) → Extends ds ds
Extends-refl ds = record { added = []; appended = sym (append-nil ds); errors = tt }

Extends-trans : (ds es fs : Diagnostics) → Extends ds es → Extends es fs → Extends ds fs
Extends-trans ds es fs h k = record {
  added = h.added ++ k.added;
  appended = k.appended ∙ (ap (λ xs. xs ++ k.added) h.appended ∙ append_assoc ds h.added k.added);
  errors = All-append IsParseError h.added k.added h.errors k.errors;
}

-- The next `eof` is the end.
abbrev pub NoEof : Parser → Type 0
NoEof p = All (λ t. is_eof t.kind ≡ false) p.upcoming

abbrev pub Continues : Parser → Parser → Type 0
Continues p q =
    (size q ≤ size p)
    × (final_token q ≡ final_token p)
    × Extends p.diagnostics q.diagnostics
    × (NoEof p → NoEof q)

pub Continues-refl : (p : Parser) → Continues p p
Continues-refl p = (omega arith, refl, Extends-refl p.diagnostics, λ k. k)

pub Continues-trans : (p q r : Parser) → Continues p q → Continues q r → Continues p r
Continues-trans p q r h k = (
  omega (arith, h.0, k.0),
  k.1 ∙ h.1,
  Extends-trans p.diagnostics q.diagnostics r.diagnostics h.2 k.2,
  λ g. k.3 (h.3 g),
)

pub advance-Continues : (p : Parser) → Continues p (advance p)
advance-Continues p = onto p.upcoming refl
  where
    onto : (ts : List Token) → p.upcoming ≡ ts → Continues p (advance_onto ts p)
    onto [] e = Continues-refl p
    onto (t ∷ ts) e = (
      omega (arith, ap length e),
      sym (ap (last_or p.previous) e),
      Extends-refl p.diagnostics,
      λ g. (subst (All (λ u. is_eof u.kind ≡ false)) e g).1,
    )

pub report-Continues : (d : Diagnostic) (p : Parser) → IsParseError d → Continues p (report d p)
report-Continues d p h =
    (omega arith, refl, record { added = d ∷ []; appended = refl; errors = (h, tt) }, λ k. k)

pub expect-Continues :
    (d : TokenDiscriminant) (message : Text) (p : Parser) → Continues p (expect d message p).1
unfolding expect
expect-Continues d message p =
    if_cases (λ (r : Span × Parser). Continues p r.1) (check d p) (λ _. advance-Continues p)
      (λ _. report-Continues (unexpected_token d message (peek p)) p (refl, inr refl))

named_or_report-Continues :
    (p q : Parser) (o : Option Text) (d : Diagnostic)
    → IsParseError d
    → Continues p q
    → Continues p (named_or_report o d q).1
named_or_report-Continues p q none d e h =
    Continues-trans p q (report d q) h (report-Continues d q e)
named_or_report-Continues p q (some name) d e h = h

pub expect_ident-Continues :
    (message : Text) (p : Parser) → Continues (advance p) (expect_ident message p).1
unfolding expect_ident
expect_ident-Continues message p =
    let t = (advance p).previous in
    named_or_report-Continues (advance p) (advance p) (ident_or_error t.kind)
      (ident_diagnostic message t.span) (refl, inr refl) (Continues-refl (advance p))

pub expect_member_name-Continues :
    (message : Text) (p : Parser) → Continues p (expect_member_name message p).1
unfolding expect_member_name
expect_member_name-Continues message p =
    let t = (advance p).previous in
    named_or_report-Continues p (advance p) (member_or_error t.kind)
      (member_diagnostic message t.span) (refl, inr refl) (advance-Continues p)

-- A token that is asked for and there is passed over.
pub check-advance :
    (d : TokenDiscriminant) (p : Parser) → check d p ≡ true → size p ≡ suc (size (advance p))
check-advance d p h = onto p.upcoming refl h
  where
    onto :
        (ts : List Token)
        → p.upcoming ≡ ts
        → (not (is_empty ts) && matches_kind d (first_or p.eof_token ts).kind) ≡ true
        → length p.upcoming ≡ suc (size (advance_onto ts p))
    onto [] e h = cc
    onto (t ∷ ts) e h = ap length e

abbrev pub is_opener : TokenKind → Bool
is_opener l_paren = true
is_opener l_bracket = true
is_opener l_brace = true
is_opener _ = false

-- The last token before the end opens no bracket.
abbrev pub EndsClosed : Parser → Type 0
EndsClosed p = is_opener (final_token p).kind ≡ false

pub Continues-EndsClosed : (p q : Parser) → Continues p q → EndsClosed p → EndsClosed q
Continues-EndsClosed p q h e = ap (λ t. is_opener t.kind) h.1 ∙ e

-- The step has a result, and the parser has gone on.
abbrev pub Parsed {ℓ} : {A : Type ℓ} → Parser → Option (A × Parser) → Type ℓ
Parsed {A = A} p o = (r : A × Parser) × (o ≡ some r) × Continues p r.1

pub then-Parsed {ℓ κ} :
    {A : Type ℓ} {B : Type κ} (p : Parser) (m : Option (A × Parser))
    (f : A × Parser → Option (B × Parser))
    → Parsed p m
    → ((r : A × Parser) → Continues p r.1 → Parsed r.1 (f r))
    → Parsed p (m >>= f)
then-Parsed p m f (r, e, c) k =
    let (s, e', c') = k r c in (s, ap (λ o. o >>= f) e ∙ e', Continues-trans p r.1 s.1 c c')

pub from-Parsed {ℓ} :
    {A : Type ℓ} (p q : Parser) (o : Option (A × Parser)) → Continues p q → Parsed q o → Parsed p o
from-Parsed p q o c (r, e, c') = (r, e, Continues-trans p q r.1 c c')

pub some-Parsed {ℓ} : {A : Type ℓ} (p q : Parser) (a : A) → Continues p q → Parsed p (some (a, q))
some-Parsed p q a c = ((a, q), refl, c)
