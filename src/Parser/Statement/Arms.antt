-- ===== src/Parser/Statement/Arms.antt =====
-- compiler/gof-compiler/src/ast.rs: the heads of statements and of arms.
use gof_lang.Prelude.{
  ℕ, zero, suc, Bool, true, false, ◌&&◌, List, [], ◌∷◌, Option, none, some, Text, codes, ◌>>=◌,
}
use gof_lang.Source.{Span}
use gof_lang.Token.{TokenKind, Token, ident, equal, colon}
use gof_lang.Ast.Statement.{MatchPattern}
use gof_lang.Parser.Discriminant.{TokenDiscriminant}
use gof_lang.Parser.State.{Parser, peek, advance, check, expect, expect_ident}
use gof_lang.Parser.Expr.{joined}

-- `expect`, where the position is not used.
abbrev pub skip : TokenDiscriminant → Text → Parser → Parser
skip d message p = (expect d message p).1

-- The token after the next; what would follow the first `eof` is not modelled.
abbrev pub peek_next : Parser → Option Token
peek_next p = after p.upcoming
  where
    after : List Token → Option Token
    after [] = none
    after (t ∷ []) = some p.eof_token
    after (t ∷ u ∷ _) = some u

abbrev pub is_ident : TokenKind → Bool
is_ident (ident _) = true
is_ident _ = false

abbrev pub is_equal : Option Token → Bool
is_equal none = false
is_equal (some t) = kind_is t.kind
  where
    kind_is : TokenKind → Bool
    kind_is equal = true
    kind_is _ = false

abbrev pub is_equal_or_colon : Option Token → Bool
is_equal_or_colon none = false
is_equal_or_colon (some t) = kind_is t.kind
  where
    kind_is : TokenKind → Bool
    kind_is equal = true
    kind_is colon = true
    kind_is _ = false

abbrev pub check_ident_binding_or_assignment : Parser → Bool
check_ident_binding_or_assignment p = is_ident (peek p).kind && is_equal_or_colon (peek_next p)

abbrev pub check_select_binding : Parser → Bool
check_select_binding p = is_ident (peek p).kind && is_equal (peek_next p)

unfoldable pub parse_bindings : ℕ → Parser → Option (List Text × Parser)
parse_bindings zero p = none
parse_bindings (suc n) p =
    let (name, p₁) =
      expect_ident (codes "expected a binding name in the payload match pattern") p in
    elim (check TokenDiscriminant.comma p₁) [
      | true ↦ (parse_bindings n (advance p₁) >>= λ r. some (name ∷ r.0, r.1))
      | false ↦ some (name ∷ [], p₁)
    ]

-- The names of the enum and of the variant, and the span of the first.
abbrev pub parse_variant : Parser → Text × (Text × (Span × Parser))
parse_variant p =
    let (enum_name, p₁) = expect_ident (codes "expected an enum name in match arm pattern") p in
    let p₂ =
      skip TokenDiscriminant.dot (codes "expected `.` after the enum name in match arm pattern")
        p₁ in
    let (variant, p₃) =
      expect_ident (codes "expected an enum variant name in match arm pattern") p₂ in
    (enum_name, (variant, (p₁.previous.span, p₃)))

abbrev pub pattern_at : Text → Text → List Text → Span → MatchPattern
pattern_at enum_name variant bindings span = record {
  enum_name = enum_name;
  variant = variant;
  bindings = bindings;
  span = span;
}

unfoldable pub parse_payload : ℕ → Text × (Text × (Span × Parser)) → Option (MatchPattern × Parser)
parse_payload n (enum_name, (variant, (start, p))) = elim (check TokenDiscriminant.l_paren p) [
  | true ↦
      (parse_bindings n (advance p) >>= λ r.
      let (end, p₁) =
        expect TokenDiscriminant.r_paren (codes "expected `)` after the payload match bindings")
          r.1 in
      some (pattern_at enum_name variant r.0 (joined start end), p₁))
  | false ↦ some (pattern_at enum_name variant [] (joined start p.previous.span), p)
]

abbrev pub parse_match_pattern : ℕ → Parser → Option (MatchPattern × Parser)
parse_match_pattern n p = parse_payload n (parse_variant p)

-- The binding of a select arm, if it has one.
abbrev pub select_binding : Parser → Option Text × Parser
select_binding p = elim (check_select_binding p) [
  | true ↦
      let (name, p₁) =
        expect_ident (codes "expected a binding name at the start of a select arm") p in
      (
        some name,
        skip TokenDiscriminant.equal (codes "expected `=` after the select arm binding name") p₁,
      )
  | false ↦ (none, p)
]
