-- ===== src/Parser/Print/Postfix.antt =====
-- What follows an operand, and what stands before one.
use gof_lang.Prelude.{
  ℕ, zero, suc, ◌≤◌, ◌≡◌, refl, sym, ap, ◌∙◌, false, some, Text, codes, ◌>>=◌, arith,
}
use gof_lang.Source.{Span}
use gof_lang.Token.{ident, l_paren, r_paren, l_bracket, r_bracket, l_brace, r_brace, dot, question}
use gof_lang.Ast.{Expr, Exprs, DictEntries, expr_span}
use gof_lang.Parser.Discriminant.{TokenDiscriminant, matches_kind}
use gof_lang.Parser.State.{
  Parser, check, advance, expect, expect_member_name, named_or_report, member_or_error,
  member_diagnostic,
}
use gof_lang.Parser.Progress.{elim_true, elim_false}
use gof_lang.Parser.Expr.{
  joined, callee, parse_expr, parse_postfix, postfix_loop, parse_call, parse_member, parse_primary,
  parse_token, parse_items, parse_dict,
}
use gof_lang.Parser.Print.{
  prec, bracket, print, print_list, print_dict, erase, no_span, Next, Reads,
}
use gof_lang.Parser.Print.Tokens.{Reads-append, check-Next, closer-Quiet}
use gof_lang.Parser.Print.Yields.{
  Chains, Yields-suc, Yields-map, Chains-start, Chains-turn, Chains-turn_two,
}
use gof_lang.Parser.Print.Operands.{
  PostChains, Own, previous-Next, expect-Next, parse_primary-suc, primary-Chains, expr-Yields,
  target-Chains,
}
use gof_lang.Parser.Print.Parts.{OwnAll, OwnEntries, items-Yields, args-Yields, dict-Yields}

pub list-Chains :
    (es : Exprs) (s : Span) (p q : Parser)
    → OwnAll es
    → Reads p (print (Expr.list es s)) q
    → PostChains (Expr.list es s) p q
unfolding parse_expr print erase matches_kind
list-Chains es s p q os (open_, r) =
    let (m, inner, (close_, end)) = Reads-append (advance p) q (print_list es) _ r in
    primary-Chains (Expr.list es s) p q (
      Yields-suc (λ n. parse_token n l_bracket (advance p)) (λ n. parse_primary n p)
        (λ n. parse_primary-suc l_bracket p n open_)
        (Yields-map (λ n. parse_items n (advance p)) (λ n. parse_token n l_bracket (advance p)) _ _
          (λ a g. ap (λ xs. Expr.list xs no_span) g)
          (λ a.
            ap
              (λ t. some (
                Expr.list a (
                    joined (advance p).previous.span
                      (expect TokenDiscriminant.r_bracket (codes "expected `]` after list literal")
                        m).0),
                t,
              ))
              (expect-Next TokenDiscriminant.r_bracket _ r_bracket m close_ refl ∙ sym end))
          (λ n. refl) (items-Yields es (advance p) m os inner close_)))

pub dict-Chains :
    (es : DictEntries) (s : Span) (p q : Parser)
    → OwnEntries es
    → Reads p (print (Expr.dict es s)) q
    → PostChains (Expr.dict es s) p q
unfolding parse_expr print erase matches_kind
dict-Chains es s p q os (open_, r) =
    let (m, inner, (close_, end)) = Reads-append (advance p) q (print_dict es) _ r in
    primary-Chains (Expr.dict es s) p q (
      Yields-suc (λ n. parse_token n l_brace (advance p)) (λ n. parse_primary n p)
        (λ n. parse_primary-suc l_brace p n open_)
        (Yields-map (λ n. parse_dict n (advance p)) (λ n. parse_token n l_brace (advance p)) _ _
          (λ a g. ap (λ xs. Expr.dict xs no_span) g)
          (λ a.
            ap
              (λ t. some (
                Expr.dict a (
                    joined (advance p).previous.span
                      (expect TokenDiscriminant.r_brace (codes "expected `}` after dict literal")
                        m).0),
                t,
              ))
              (expect-Next TokenDiscriminant.r_brace _ r_brace m close_ refl ∙ sym end))
          (λ n. refl) (dict-Yields es (advance p) m os inner close_)))

pub expect_member_name-Next :
    (message name : Text) (p : Parser)
    → Next (ident name) p
    → expect_member_name message p ≡ (name, advance p)
unfolding expect_member_name
expect_member_name-Next message name p next =
    ap
      (λ k.
        named_or_report (member_or_error k) (member_diagnostic message (advance p).previous.span)
          (advance p))
      (previous-Next (ident name) p next)

pub field-Chains :
    (e : Expr) (name : Text) (s : Span) (p q : Parser)
    → Own e
    → Reads p (print (Expr.field e name s)) q
    → check TokenDiscriminant.l_paren q ≡ false
    → PostChains (Expr.field e name s) p q
unfolding parse_expr print erase matches_kind
field-Chains e name s p q o r h =
    let (m, first, (at_dot, (at_name, end))) =
      Reads-append p q (bracket 7 (prec e) (print e)) _ r in
    let no_call = check-Next TokenDiscriminant.l_paren dot m at_dot in
    let message = codes "expected a field name after `.`" in
    Chains-turn_two (λ n. parse_postfix n p) (λ n a t. postfix_loop n a t) 0
      (λ a. Expr.field a name (joined (expr_span a) q.previous.span))
      (λ a g. ap (λ x. Expr.field x name no_span) g)
      (λ n a g _.
        elim_false (check TokenDiscriminant.l_paren m) _ _ no_call
        ∙ (elim_true (check TokenDiscriminant.dot m) _ _
              (check-Next TokenDiscriminant.dot dot m at_dot)
            ∙ (ap (λ named. parse_member (suc n) a named)
                  (expect_member_name-Next message name (advance m) at_name
                    ∙ ap (λ t. (name, t)) (sym end))
                ∙ elim_false (check TokenDiscriminant.l_paren q) _ _ h)))
      (target-Chains e p m o first no_call)

pub method_call-Chains :
    (e : Expr) (name : Text) (es : Exprs) (s : Span) (p q : Parser)
    → Own e
    → OwnAll es
    → Reads p (print (Expr.method_call e name es s)) q
    → PostChains (Expr.method_call e name es s) p q
unfolding parse_expr print erase matches_kind
method_call-Chains e name es s p q o os r =
    let (m, first, (at_dot, (at_name, (open_, r')))) =
      Reads-append p q (bracket 7 (prec e) (print e)) _ r in
    let m₁ = advance (advance m) in
    let (m₂, inner, (close_, end)) = Reads-append (advance m₁) q (print_list es) _ r' in
    let no_call = check-Next TokenDiscriminant.l_paren dot m at_dot in
    let (as_, sames, N, y) = args-Yields es (advance m₁) m₂ os inner close_ in
    let message = codes "expected `)` after method arguments" in
    let close_span = (expect TokenDiscriminant.r_paren message m₂).0 in
    Chains-turn_two (λ n. parse_postfix n p) (λ n a t. postfix_loop n a t) N
      (λ a. Expr.method_call a name as_ (joined (expr_span a) close_span)) (λ a g. cc (g, sames))
      (λ n a g b.
        elim_false (check TokenDiscriminant.l_paren m) _ _ no_call
        ∙ (elim_true (check TokenDiscriminant.dot m) _ _
              (check-Next TokenDiscriminant.dot dot m at_dot)
            ∙ (ap (λ named. parse_member (suc n) a named)
                  (expect_member_name-Next _ name (advance m) at_name)
                ∙ (elim_true (check TokenDiscriminant.l_paren m₁) _ _
                      (check-Next TokenDiscriminant.l_paren l_paren m₁ open_)
                    ∙ (ap
                          (λ o. o >>= λ t.
                            postfix_loop n
                              (Expr.method_call a name t.0 (
                                joined (expr_span a)
                                  (expect TokenDiscriminant.r_paren message t.1).0))
                              (expect TokenDiscriminant.r_paren message t.1).1)
                          (y n b)
                        ∙ ap
                            (λ t.
                              postfix_loop n
                                (Expr.method_call a name as_ (joined (expr_span a) close_span)) t)
                            (expect-Next TokenDiscriminant.r_paren message r_paren m₂ close_ refl
                              ∙ sym end))))))
      (target-Chains e p m o first no_call)

-- A name, before its call.
name_first :
    (name : Text) (p : Parser)
    → Next (ident name) p
    → Chains
        (λ n. parse_postfix n p)
        (λ n a t. postfix_loop n a t)
        (λ a. a ≡ Expr.ident name (advance p).previous.span)
        (advance p)
unfolding parse_expr
name_first name p next =
    Chains-start (λ n. parse_primary n p) (λ n. parse_postfix n p) (λ n a t. postfix_loop n a t)
      (λ n. refl)
      (Yields-suc (λ n. parse_token n (ident name) (advance p)) (λ n. parse_primary n p)
        (λ n. parse_primary-suc (ident name) p n next)
        (Expr.ident name (advance p).previous.span, refl, 1, from))
  where
    from :
        (n : ℕ)
        → 1 ≤ n
        → parse_token n (ident name) (advance p)
          ≡ some (Expr.ident name (advance p).previous.span, advance p)
    from zero b = absurd (omega (arith, b))
    from (suc n) b = refl

pub call-Chains :
    (name : Text) (es : Exprs) (s : Span) (p q : Parser)
    → OwnAll es
    → Reads p (print (Expr.call name es s)) q
    → PostChains (Expr.call name es s) p q
unfolding parse_expr print erase matches_kind
call-Chains name es s p q os (at_name, (open_, r)) =
    let m₁ = advance p in
    let (m₂, inner, (close_, end)) = Reads-append (advance m₁) q (print_list es) _ r in
    let (as_, sames, N, y) = args-Yields es (advance m₁) m₂ os inner close_ in
    let message = codes "expected `)` after call arguments" in
    let close_span = (expect TokenDiscriminant.r_paren message m₂).0 in
    let named = Expr.ident name m₁.previous.span in
    Chains-turn_two {good = λ a. a ≡ named} (λ n. parse_postfix n p) (λ n a t. postfix_loop n a t) N
      (λ a. Expr.call name as_ (joined (expr_span a) close_span))
      (λ a g. ap (λ xs. Expr.call name xs no_span) sames)
      (λ n a g b.
        elim_true (check TokenDiscriminant.l_paren m₁) _ _
          (check-Next TokenDiscriminant.l_paren l_paren m₁ open_)
        ∙ (ap (λ t. parse_call (suc n) a t) (ap (λ x. callee x (advance m₁)) g)
            ∙ (ap
                  (λ o. o >>= λ t.
                    postfix_loop n
                      (Expr.call name t.0
                        (joined (expr_span a) (expect TokenDiscriminant.r_paren message t.1).0))
                      (expect TokenDiscriminant.r_paren message t.1).1)
                  (y n b)
                ∙ ap (λ t. postfix_loop n (Expr.call name as_ (joined (expr_span a) close_span)) t)
                    (expect-Next TokenDiscriminant.r_paren message r_paren m₂ close_ refl
                      ∙ sym end))))
      (name_first name p at_name)

pub index-Chains :
    (e i : Expr) (s : Span) (p q : Parser)
    → Own e
    → Own i
    → Reads p (print (Expr.index e i s)) q
    → PostChains (Expr.index e i s) p q
unfolding parse_expr print erase matches_kind
index-Chains e i s p q o oi r =
    let (m, first, (open_, r')) = Reads-append p q (bracket 7 (prec e) (print e)) _ r in
    let (m₂, inner, (close_, end)) = Reads-append (advance m) q (print i) _ r' in
    let no_call = check-Next TokenDiscriminant.l_paren l_bracket m open_ in
    let (place, same, N, y) =
      expr-Yields i (advance m) m₂ oi inner (closer-Quiet r_bracket m₂ refl close_) in
    let message = codes "expected `]` after index expression" in
    let close_span = (expect TokenDiscriminant.r_bracket message m₂).0 in
    Chains-turn_two (λ n. parse_postfix n p) (λ n a t. postfix_loop n a t) N
      (λ a. Expr.index a place (joined (expr_span a) close_span)) (λ a g. cc (g, same))
      (λ n a g b.
        elim_false (check TokenDiscriminant.l_paren m) _ _ no_call
        ∙ (elim_false (check TokenDiscriminant.dot m) _ _
              (check-Next TokenDiscriminant.dot l_bracket m open_)
            ∙ (elim_true (check TokenDiscriminant.l_bracket m) _ _
                  (check-Next TokenDiscriminant.l_bracket l_bracket m open_)
                ∙ (ap
                      (λ o. o >>= λ t.
                        postfix_loop n
                          (Expr.index a t.0 (
                            joined (expr_span a)
                              (expect TokenDiscriminant.r_bracket message t.1).0))
                          (expect TokenDiscriminant.r_bracket message t.1).1)
                      (y n b)
                    ∙ ap
                        (λ t.
                          postfix_loop n (Expr.index a place (joined (expr_span a) close_span)) t)
                        (expect-Next TokenDiscriminant.r_bracket message r_bracket m₂ close_ refl
                          ∙ sym end)))))
      (target-Chains e p m o first no_call)

pub propagate-Chains :
    (e : Expr) (s : Span) (p q : Parser)
    → Own e
    → Reads p (print (Expr.propagate e s)) q
    → PostChains (Expr.propagate e s) p q
unfolding parse_expr print erase matches_kind
propagate-Chains e s p q o r =
    let (m, first, (at_question, end)) = Reads-append p q (bracket 7 (prec e) (print e)) _ r in
    let no_call = check-Next TokenDiscriminant.l_paren question m at_question in
    Chains-turn (λ n. parse_postfix n p) (λ n a t. postfix_loop n a t) 0
      (λ a. Expr.propagate a (joined (expr_span a) (advance m).previous.span))
      (λ a g. ap (λ x. Expr.propagate x no_span) g)
      (λ n a g _.
        elim_false (check TokenDiscriminant.l_paren m) _ _ no_call
        ∙ (elim_false (check TokenDiscriminant.dot m) _ _
              (check-Next TokenDiscriminant.dot question m at_question)
            ∙ (elim_false (check TokenDiscriminant.l_bracket m) _ _
                  (check-Next TokenDiscriminant.l_bracket question m at_question)
                ∙ (elim_true (check TokenDiscriminant.question m) _ _
                      (check-Next TokenDiscriminant.question question m at_question)
                    ∙ ap
                        (λ t.
                          postfix_loop n
                            (Expr.propagate a (joined (expr_span a) (advance m).previous.span)) t)
                        (sym end)))))
      (target-Chains e p m o first no_call)
