-- ===== src/Parser/Print/Parts.antt =====
-- The parts of an expression that has no operand in front: tokens, lists and entries.
use gof_lang.Prelude.{
  ℕ, zero, suc, ◌≤◌, ◌≡◌, refl, sym, ap, subst, ◌∙◌, true, false, [], ◌∷◌, ◌++◌, Option, some,
  ◌>>=◌, arith,
}
use gof_lang.Token.{TokenKind, r_paren, r_bracket, r_brace, comma, colon}
use gof_lang.Ast.{Expr, Exprs, DictEntries}
use gof_lang.Parser.Discriminant.{TokenDiscriminant, matches_kind}
use gof_lang.Parser.State.{Parser, check, advance}
use gof_lang.Parser.Progress.{elim_true, elim_false}
use gof_lang.Parser.Expr.{
  parse_expr, parse_args, parse_exprs, parse_entries, parse_primary, parse_token, parse_items,
  parse_dict,
}
use gof_lang.Parser.Print.{
  print, print_list, print_more, print_dict, print_entries, erase, erase_all, erase_entries, Next,
  Reads,
}
use gof_lang.Parser.Print.Tokens.{Reads-append, check-Next, Quiet, closer-Quiet}
use gof_lang.Parser.Print.Yields.{
  Yields, Yields-same, Yields-suc, Yields-bind, Yields-then, Yields-seq,
}
use gof_lang.Parser.Print.Heads.{print-StartsPlain, StartsPlain-opens}
use gof_lang.Parser.Print.Operands.{
  Same, PostChains, Own, expect-Next, parse_primary-suc, primary-Chains, expr-Yields,
}

pub leaf-Chains :
    (kind : TokenKind) (e a : Expr) (p q : Parser)
    → Next kind p
    → q ≡ advance p
    → ((n : ℕ) → parse_token (suc n) kind (advance p) ≡ some (a, advance p))
    → Same e a
    → PostChains e p q
leaf-Chains kind e a p q next end tok same = primary-Chains e p q (
    Yields-suc (λ n. parse_token n kind (advance p)) (λ n. parse_primary n p)
      (λ n. parse_primary-suc kind p n next) (a, same, 1, from))
  where
    from : (n : ℕ) → 1 ≤ n → parse_token n kind (advance p) ≡ some (a, q)
    from zero b = absurd (omega (arith, b))
    from (suc n) b = tok n ∙ ap (λ s. some (a, s)) (sym end)

abbrev pub SameAll : Exprs → Exprs → Type 0
SameAll es rs = erase_all rs ≡ erase_all es

abbrev pub SameEntries : DictEntries → DictEntries → Type 0
SameEntries es rs = erase_entries rs ≡ erase_entries es

-- Every expression of the list is read back.
abbrev pub OwnAll : Exprs → Type 0
OwnAll Exprs.nil = Unit
OwnAll (Exprs.cons e es) = Own e × OwnAll es

abbrev pub OwnEntries : DictEntries → Type 0
OwnEntries DictEntries.no_entries = Unit
OwnEntries (DictEntries.entry k v es) = Own k × Own v × OwnEntries es

pub exprs-Yields :
    (e : Expr) (es : Exprs) (p q : Parser)
    → Own e
    → OwnAll es
    → Reads p (print e ++ print_more es) q
    → Quiet 0 q
    → check TokenDiscriminant.comma q ≡ false
    → Yields (λ n. parse_exprs n p) (SameAll (Exprs.cons e es)) q
unfolding parse_expr print erase matches_kind
exprs-Yields e Exprs.nil p q o os r h last =
    let (m, first, end) = Reads-append p q (print e) [] r in
    Yields-bind (λ n. parse_expr n p) (λ n. parse_exprs n p) _ (λ n. refl)
      (λ a same. (
        Exprs.cons a Exprs.nil,
        ap (λ x. Exprs.cons x Exprs.nil) same,
        0,
        λ n _. elim_false (check TokenDiscriminant.comma q) _ _ last,
      ))
      (expr-Yields e p q o (subst (λ s. Reads p (print e) s) (sym end) first) h)
exprs-Yields e (Exprs.cons e' es) p q o os r h last =
    let (m, first, (next, later)) = Reads-append p q (print e) _ r in
    Yields-bind (λ n. parse_expr n p) (λ n. parse_exprs n p) _ (λ n. refl)
      (λ a same.
        Yields-same (λ n. parse_exprs n (advance m) >>= λ r. some (Exprs.cons a r.0, r.1)) _
          (λ n.
            elim_true (check TokenDiscriminant.comma m) _ _
              (check-Next TokenDiscriminant.comma comma m next))
          (Yields-then (λ n. parse_exprs n (advance m)) (λ es. Exprs.cons a es)
            (λ rs sames.
              ap (λ x. Exprs.cons x (erase_all rs)) same ∙ ap (λ xs. Exprs.cons (erase e) xs) sames)
            (exprs-Yields e' es (advance m) q os.0 os.1 later h last)))
      (expr-Yields e p m o first (closer-Quiet comma m refl next))

pub items-Yields :
    (es : Exprs) (p q : Parser)
    → OwnAll es
    → Reads p (print_list es) q
    → Next r_bracket q
    → Yields (λ n. parse_items n p) (SameAll es) q
unfolding parse_expr print erase matches_kind
items-Yields Exprs.nil p q os end next =
    Yields-suc (λ n. some (Exprs.nil, q)) (λ n. parse_items n p)
      (λ n.
        elim_true (check TokenDiscriminant.r_bracket p) _ _
          (check-Next TokenDiscriminant.r_bracket r_bracket p (subst (Next r_bracket) end next))
        ∙ ap (λ s. some (Exprs.nil, s)) (sym end))
      (Exprs.nil, refl, 0, λ n _. refl)
items-Yields (Exprs.cons e es) p q os r next =
    let (m, first, _) = Reads-append p q (print e) _ r in
    let (_, other, _) = StartsPlain-opens _ p (print-StartsPlain e p m first) in
    Yields-suc (λ n. parse_exprs n p) (λ n. parse_items n p)
      (λ n. elim_false (check TokenDiscriminant.r_bracket p) _ _ other)
      (exprs-Yields e es p q os.0 os.1 r (closer-Quiet r_bracket q refl next)
        (check-Next TokenDiscriminant.comma r_bracket q next))

pub args-Yields :
    (es : Exprs) (p q : Parser)
    → OwnAll es
    → Reads p (print_list es) q
    → Next r_paren q
    → Yields (λ n. parse_args n p) (SameAll es) q
unfolding parse_expr print erase matches_kind
args-Yields Exprs.nil p q os end next =
    Yields-suc (λ n. some (Exprs.nil, q)) (λ n. parse_args n p)
      (λ n.
        elim_true (check TokenDiscriminant.r_paren p) _ _
          (check-Next TokenDiscriminant.r_paren r_paren p (subst (Next r_paren) end next))
        ∙ ap (λ s. some (Exprs.nil, s)) (sym end))
      (Exprs.nil, refl, 0, λ n _. refl)
args-Yields (Exprs.cons e es) p q os r next =
    let (m, first, _) = Reads-append p q (print e) _ r in
    let (other, _, _) = StartsPlain-opens _ p (print-StartsPlain e p m first) in
    Yields-suc (λ n. parse_exprs n p) (λ n. parse_args n p)
      (λ n. elim_false (check TokenDiscriminant.r_paren p) _ _ other)
      (exprs-Yields e es p q os.0 os.1 r (closer-Quiet r_paren q refl next)
        (check-Next TokenDiscriminant.comma r_paren q next))

-- What the loop of a dict literal does after a value.
abbrev value_rest : Expr → ℕ → Expr × Parser → Option (DictEntries × Parser)
value_rest key n (value, p) = elim (check TokenDiscriminant.comma p) [
  | true ↦ (parse_entries n (advance p) >>= λ r. some (DictEntries.entry key value r.0, r.1))
  | false ↦ some (DictEntries.entry key value DictEntries.no_entries, p)
]

key-Yields :
    (k : Expr) (p m q : Parser) {good : DictEntries → Type 0}
    → Own k
    → Reads p (print k) m
    → Next colon m
    → ((a : Expr) → Same k a → Yields (λ n. parse_expr n (advance m) >>= value_rest a n) good q)
    → Yields (λ n. parse_entries n p) good q
unfolding parse_expr matches_kind
key-Yields k p m q ok first next w =
    Yields-bind (λ n. parse_expr n p) (λ n. parse_entries n p) _ (λ n. refl)
      (λ a same.
        Yields-same (λ n. parse_expr n (advance m) >>= value_rest a n) _
          (λ n.
            ap (λ s. parse_expr n s >>= value_rest a n)
              (expect-Next TokenDiscriminant.colon _ colon m next refl))
          (w a same))
      (expr-Yields k p m ok first (closer-Quiet colon m refl next))

pub entries-Yields :
    (k v : Expr) (es : DictEntries) (p q : Parser)
    → Own k
    → Own v
    → OwnEntries es
    → Reads p (print k ++ colon ∷ (print v ++ print_entries es)) q
    → Quiet 0 q
    → check TokenDiscriminant.comma q ≡ false
    → Yields (λ n. parse_entries n p) (SameEntries (DictEntries.entry k v es)) q
unfolding parse_expr print erase matches_kind
entries-Yields k v DictEntries.no_entries p q ok ov os r h last =
    let (m, first, (next, later)) = Reads-append p q (print k) _ r in
    let (m', second, end) = Reads-append (advance m) q (print v) [] later in
    key-Yields k p m q ok first next (λ a same.
      Yields-seq (λ n. parse_expr n (advance m)) (value_rest a)
        (λ b same'. (
          DictEntries.entry a b DictEntries.no_entries,
          cc (same, same'),
          0,
          λ n _. elim_false (check TokenDiscriminant.comma q) _ _ last,
        ))
        (expr-Yields v (advance m) q ov
          (subst (λ s. Reads (advance m) (print v) s) (sym end) second) h))
entries-Yields k v (DictEntries.entry k' v' es) p q ok ov os r h last =
    let (m, first, (next, later)) = Reads-append p q (print k) _ r in
    let (m', second, (next', rest)) = Reads-append (advance m) q (print v) _ later in
    key-Yields k p m q ok first next (λ a same.
      Yields-seq (λ n. parse_expr n (advance m)) (value_rest a)
        (λ b same'.
          Yields-same
            (λ n. parse_entries n (advance m') >>= λ r. some (DictEntries.entry a b r.0, r.1)) _
            (λ n.
              elim_true (check TokenDiscriminant.comma m') _ _
                (check-Next TokenDiscriminant.comma comma m' next'))
            (Yields-then (λ n. parse_entries n (advance m')) (λ rs. DictEntries.entry a b rs)
              (λ rs sames. cc (same, same', sames))
              (entries-Yields k' v' es (advance m') q os.0 os.1 os.2 rest h last)))
        (expr-Yields v (advance m) m' ov second (closer-Quiet comma m' refl next')))

pub dict-Yields :
    (es : DictEntries) (p q : Parser)
    → OwnEntries es
    → Reads p (print_dict es) q
    → Next r_brace q
    → Yields (λ n. parse_dict n p) (SameEntries es) q
unfolding parse_expr print erase matches_kind
dict-Yields DictEntries.no_entries p q os end next =
    Yields-suc (λ n. some (DictEntries.no_entries, q)) (λ n. parse_dict n p)
      (λ n.
        elim_true (check TokenDiscriminant.r_brace p) _ _
          (check-Next TokenDiscriminant.r_brace r_brace p (subst (Next r_brace) end next))
        ∙ ap (λ s. some (DictEntries.no_entries, s)) (sym end))
      (DictEntries.no_entries, refl, 0, λ n _. refl)
dict-Yields (DictEntries.entry k v es) p q os r next =
    let (m, first, _) = Reads-append p q (print k) _ r in
    let (_, _, other) = StartsPlain-opens _ p (print-StartsPlain k p m first) in
    Yields-suc (λ n. parse_entries n p) (λ n. parse_dict n p)
      (λ n. elim_false (check TokenDiscriminant.r_brace p) _ _ other)
      (entries-Yields k v es p q os.0 os.1 os.2 r (closer-Quiet r_brace q refl next)
        (check-Next TokenDiscriminant.comma r_brace q next))
