-- ===== src/Parser/Print/Correct.antt =====
-- Every expression is read back from its tokens.
use gof_lang.Prelude.{ℕ, suc, ◌≤◌, ◌≡◌, refl, ap, ◌∙◌, true, false, some, ◌>>=◌, arith}
use gof_lang.Source.{Span}
use gof_lang.Token.{
  ident, int_literal, string_literal, true_kw, false_kw, go_kw, await_kw, not_kw, minus,
}
use gof_lang.Ast.{BinaryOp, UnaryOp, Expr, Exprs, DictEntries, expr_span}
use gof_lang.Parser.Discriminant.{TokenDiscriminant, matches_kind}
use gof_lang.Parser.State.{Parser, check, advance}
use gof_lang.Parser.Progress.{elim_true, elim_false, elim_some}
use gof_lang.Parser.Expr.{
  joined, Level, or_level, and_level, comparison, additive, multiplicative, operator, parse_expr,
  parse_binary, binary_loop, parse_operand, parse_not, parse_unary,
}
use gof_lang.Parser.Print.{rank, level_of, prec, bracket, print, erase, no_span, Reads}
use gof_lang.Parser.Print.Tokens.{Reads-append, check-Next, Quiet, op-Quiet, op-operator}
use gof_lang.Parser.Print.Yields.{Yields-suc, Yields-then, Chains-turn}
use gof_lang.Parser.Print.Levels.{parse_at, parse_operand-suc}
use gof_lang.Parser.Print.Operands.{
  ParsesAt, LevelChains, Own, expr-Yields, operand-ParsesAt, left-Chains,
}
use gof_lang.Parser.Print.Parts.{leaf-Chains, OwnAll, OwnEntries}
use gof_lang.Parser.Print.Postfix.{
  list-Chains, dict-Chains, field-Chains, method_call-Chains, call-Chains, index-Chains,
  propagate-Chains,
}

not-Yields :
    (e : Expr) (s : Span) (p q : Parser)
    → Own e
    → Reads p (print (Expr.unary UnaryOp.not_op e s)) q
    → Quiet 2 q
    → ParsesAt 2 (Expr.unary UnaryOp.not_op e s) p q
unfolding parse_expr print erase matches_kind
not-Yields e s p q o (next, r) h =
    let start = (advance p).previous.span in
    Yields-suc
      (λ n. parse_not n (advance p) >>= λ r.
        some (Expr.unary UnaryOp.not_op r.0 (joined start (expr_span r.0)), r.1))
      (λ n. parse_not n p)
      (λ n.
        elim_true (check TokenDiscriminant.not_kw p) _ _
          (check-Next TokenDiscriminant.not_kw not_kw p next))
      (Yields-then (λ n. parse_not n (advance p))
        (λ a. Expr.unary UnaryOp.not_op a (joined start (expr_span a)))
        (λ a g. ap (λ x. Expr.unary UnaryOp.not_op x no_span) g)
        (operand-ParsesAt 2 e (advance p) q o (omega arith) r h))

go-Yields :
    (e : Expr) (s : Span) (p q : Parser)
    → Own e
    → Reads p (print (Expr.go e s)) q
    → Quiet 6 q
    → ParsesAt 6 (Expr.go e s) p q
unfolding parse_expr print erase matches_kind
go-Yields e s p q o (next, r) h =
    let start = (advance p).previous.span in
    Yields-suc
      (λ n.
        parse_unary n (advance p) >>= λ r. some (Expr.go r.0 (joined start (expr_span r.0)), r.1))
      (λ n. parse_unary n p)
      (λ n.
        elim_true (check TokenDiscriminant.go_kw p) _ _
          (check-Next TokenDiscriminant.go_kw go_kw p next))
      (Yields-then (λ n. parse_unary n (advance p)) (λ a. Expr.go a (joined start (expr_span a)))
        (λ a g. ap (λ x. Expr.go x no_span) g)
        (operand-ParsesAt 6 e (advance p) q o (omega arith) r h))

await-Yields :
    (e : Expr) (s : Span) (p q : Parser)
    → Own e
    → Reads p (print (Expr.await e s)) q
    → Quiet 6 q
    → ParsesAt 6 (Expr.await e s) p q
unfolding parse_expr print erase matches_kind
await-Yields e s p q o (next, r) h =
    let start = (advance p).previous.span in
    Yields-suc
      (λ n. parse_unary n (advance p) >>= λ r.
        some (Expr.await r.0 (joined start (expr_span r.0)), r.1))
      (λ n. parse_unary n p)
      (λ n.
        elim_false (check TokenDiscriminant.go_kw p) _ _
          (check-Next TokenDiscriminant.go_kw await_kw p next)
        ∙ (elim_true (check TokenDiscriminant.await_kw p) _ _
            (check-Next TokenDiscriminant.await_kw await_kw p next)))
      (Yields-then (λ n. parse_unary n (advance p)) (λ a. Expr.await a (joined start (expr_span a)))
        (λ a g. ap (λ x. Expr.await x no_span) g)
        (operand-ParsesAt 6 e (advance p) q o (omega arith) r h))

neg-Yields :
    (e : Expr) (s : Span) (p q : Parser)
    → Own e
    → Reads p (print (Expr.unary UnaryOp.neg e s)) q
    → Quiet 6 q
    → ParsesAt 6 (Expr.unary UnaryOp.neg e s) p q
unfolding parse_expr print erase matches_kind
neg-Yields e s p q o (next, r) h =
    let start = (advance p).previous.span in
    Yields-suc
      (λ n. parse_unary n (advance p) >>= λ r.
        some (Expr.unary UnaryOp.neg r.0 (joined start (expr_span r.0)), r.1))
      (λ n. parse_unary n p)
      (λ n.
        elim_false (check TokenDiscriminant.go_kw p) _ _
          (check-Next TokenDiscriminant.go_kw minus p next)
        ∙ (elim_false (check TokenDiscriminant.await_kw p) _ _
              (check-Next TokenDiscriminant.await_kw minus p next)
            ∙ (elim_true (check TokenDiscriminant.minus p) _ _
                (check-Next TokenDiscriminant.minus minus p next))))
      (Yields-then (λ n. parse_unary n (advance p))
        (λ a. Expr.unary UnaryOp.neg a (joined start (expr_span a)))
        (λ a g. ap (λ x. Expr.unary UnaryOp.neg x no_span) g)
        (operand-ParsesAt 6 e (advance p) q o (omega arith) r h))

rank_limit : (level : Level) → suc (rank level) ≤ 7
rank_limit or_level = omega arith
rank_limit and_level = omega arith
rank_limit comparison = omega arith
rank_limit additive = omega arith
rank_limit multiplicative = omega arith

binary-Chains :
    (l : Expr) (op : BinaryOp) (r : Expr) (s : Span) (p q : Parser)
    → Own l
    → Own r
    → Reads p (print (Expr.binary l op r s)) q
    → Quiet (suc (rank (level_of op))) q
    → LevelChains (level_of op) (Expr.binary l op r s) p q
unfolding parse_expr print erase
binary-Chains l op r s p q ol or' reads h =
    let level = level_of op in
    let (m, first, (next, later)) =
      Reads-append p q (bracket (rank level) (prec l) (print l)) _ reads in
    let (b, same, N, y) =
      Yields-suc (λ n. parse_at (suc (rank level)) n (advance m))
        (λ n. parse_operand n level (advance m)) (λ n. parse_operand-suc level n (advance m))
        (operand-ParsesAt (suc (rank level)) r (advance m) q or' (rank_limit level) later h) in
    Chains-turn (λ n. parse_binary n level p) (λ n a t. binary_loop n level a t) N
      (λ a. Expr.binary a op b (joined (expr_span a) (expr_span b))) (λ a g. cc (g, same))
      (λ n a g c.
        elim_some (operator level m) op _ _ (op-operator op m next)
        ∙ ap
            (λ o. o >>= λ t.
              binary_loop n level (Expr.binary a op t.0 (joined (expr_span a) (expr_span t.0))) t.1)
            (y n c))
      (left-Chains level l p m ol first (op-Quiet op m next))

mutual
  unfolding parse_expr print erase

  own : (e : Expr) → Own e
  own (Expr.int v s) p q (next, end) = λ _.
      leaf-Chains (int_literal v) (Expr.int v s) (Expr.int v (advance p).previous.span) p q next end
        (λ n. refl) refl
  own (Expr.string v s) p q (next, end) = λ _.
      leaf-Chains (string_literal v) (Expr.string v s) (Expr.string v (advance p).previous.span) p q
        next end (λ n. refl) refl
  own (Expr.bool true s) p q (next, end) = λ _.
      leaf-Chains true_kw (Expr.bool true s) (Expr.bool true (advance p).previous.span) p q next end
        (λ n. refl) refl
  own (Expr.bool false s) p q (next, end) = λ _.
      leaf-Chains false_kw (Expr.bool false s) (Expr.bool false (advance p).previous.span) p q next
        end (λ n. refl) refl
  own (Expr.ident v s) p q (next, end) = λ _.
      leaf-Chains (ident v) (Expr.ident v s) (Expr.ident v (advance p).previous.span) p q next end
        (λ n. refl) refl
  own (Expr.list es s) p q r = λ _. list-Chains es s p q (own_all es) r
  own (Expr.dict es s) p q r = λ _. dict-Chains es s p q (own_entries es) r
  own (Expr.call name es s) p q r = λ _. call-Chains name es s p q (own_all es) r
  own (Expr.field e name s) p q r = field-Chains e name s p q (own e) r
  own (Expr.method_call e name es s) p q r =
      λ _. method_call-Chains e name es s p q (own e) (own_all es) r
  own (Expr.index e i s) p q r = λ _. index-Chains e i s p q (own e) (own i) r
  own (Expr.propagate e s) p q r = λ _. propagate-Chains e s p q (own e) r
  own (Expr.go e s) p q r = go-Yields e s p q (own e) r
  own (Expr.await e s) p q r = await-Yields e s p q (own e) r
  own (Expr.unary UnaryOp.not_op e s) p q r = not-Yields e s p q (own e) r
  own (Expr.unary UnaryOp.neg e s) p q r = neg-Yields e s p q (own e) r
  own (Expr.binary l op r s) p q reads = binary-Chains l op r s p q (own l) (own r) reads

  own_all : (es : Exprs) → OwnAll es
  own_all Exprs.nil = tt
  own_all (Exprs.cons e es) = (own e, own_all es)

  own_entries : (es : DictEntries) → OwnEntries es
  own_entries DictEntries.no_entries = tt
  own_entries (DictEntries.entry k v es) = (own k, own v, own_entries es)

-- If the next tokens have the kinds that `print` gives for `e`, and the token after them ends an
-- expression, then with enough fuel `parse_expr` returns `e`, but for positions, and has passed
-- over just these tokens and reported nothing.
pub parse_expr-print :
    (e : Expr) (p q : Parser)
    → Reads p (print e) q
    → Quiet 0 q
    → (r : Expr) × (erase r ≡ erase e) × (N : ℕ) × ((n : ℕ) → N ≤ n → parse_expr n p ≡ some (r, q))
parse_expr-print e p q r h = expr-Yields e p q (own e) r h
