-- ===== src/Parser/Print.antt =====
-- What an expression reads like: its tokens, with the parentheses that it needs and no others.
-- This is the grammar that `parse_expr` is checked against.
pub mod Tokens
pub mod Yields
pub mod Heads
pub mod Levels
pub mod Operands
pub mod Parts
pub mod Postfix
pub mod Correct
use gof_lang.Prelude.{
  ℕ, zero, suc, ◌+◌, ◌≤◌, ◌≡◌, Bool, true, false, List, [], ◌∷◌, ◌++◌, Option, none, some, ltb,
  if◌then◌else◌,
}
use gof_lang.Source.{Span, span}
use gof_lang.Token.{
  TokenKind, Token, ident, int_literal, string_literal, true_kw, false_kw, l_paren, r_paren,
  l_bracket, r_bracket, l_brace, r_brace, comma, colon, dot, question, go_kw, await_kw, not_kw,
  or_kw, and_kw, equal_equal, bang_equal, less, less_equal, greater, greater_equal, plus, minus,
  star, slash, percent,
}
use gof_lang.Ast.{BinaryOp, UnaryOp, Expr, Exprs, DictEntries}
use gof_lang.Parser.State.{Parser, advance}
use gof_lang.Parser.Expr.{Level, or_level, and_level, comparison, additive, multiplicative}

-- How tightly the operators of a level bind. `not` binds with 2, the prefixes `go`, `await` and
-- `-` with 6, and what follows an operand with 7.
abbrev pub rank : Level → ℕ
rank or_level = 0
rank and_level = 1
rank comparison = 3
rank additive = 4
rank multiplicative = 5

abbrev pub level_of : BinaryOp → Level
level_of BinaryOp.add = additive
level_of BinaryOp.sub = additive
level_of BinaryOp.mul = multiplicative
level_of BinaryOp.div = multiplicative
level_of BinaryOp.mod_op = multiplicative
level_of BinaryOp.and_op = and_level
level_of BinaryOp.or_op = or_level
level_of BinaryOp.eq = comparison
level_of BinaryOp.ne = comparison
level_of BinaryOp.lt = comparison
level_of BinaryOp.le = comparison
level_of BinaryOp.gt = comparison
level_of BinaryOp.ge = comparison

abbrev pub op_kind : BinaryOp → TokenKind
op_kind BinaryOp.add = plus
op_kind BinaryOp.sub = minus
op_kind BinaryOp.mul = star
op_kind BinaryOp.div = slash
op_kind BinaryOp.mod_op = percent
op_kind BinaryOp.and_op = and_kw
op_kind BinaryOp.or_op = or_kw
op_kind BinaryOp.eq = equal_equal
op_kind BinaryOp.ne = bang_equal
op_kind BinaryOp.lt = less
op_kind BinaryOp.le = less_equal
op_kind BinaryOp.gt = greater
op_kind BinaryOp.ge = greater_equal

abbrev pub prec : Expr → ℕ
prec (Expr.binary _ op _ _) = rank (level_of op)
prec (Expr.unary UnaryOp.not_op _ _) = 2
prec (Expr.unary UnaryOp.neg _ _) = 6
prec (Expr.go _ _) = 6
prec (Expr.await _ _) = 6
prec _ = 7

abbrev pub in_parens : List TokenKind → List TokenKind
in_parens ks = l_paren ∷ (ks ++ r_paren ∷ [])

-- The tokens of an operand that has to bind at least as tightly as `context`.
abbrev pub bracket : ℕ → ℕ → List TokenKind → List TokenKind
bracket context precedence ks = if ltb precedence context then in_parens ks else ks

abbrev pub bool_kind : Bool → TokenKind
bool_kind true = true_kw
bool_kind false = false_kw

abbrev pub prefix_kind : UnaryOp → TokenKind
prefix_kind UnaryOp.not_op = not_kw
prefix_kind UnaryOp.neg = minus

abbrev pub prefix_rank : UnaryOp → ℕ
prefix_rank UnaryOp.not_op = 2
prefix_rank UnaryOp.neg = 6

unfoldable mutual
  pub print : Expr → List TokenKind
  print (Expr.int value _) = int_literal value ∷ []
  print (Expr.string value _) = string_literal value ∷ []
  print (Expr.bool value _) = bool_kind value ∷ []
  print (Expr.ident name _) = ident name ∷ []
  print (Expr.list items _) = l_bracket ∷ (print_list items ++ r_bracket ∷ [])
  print (Expr.dict entries _) = l_brace ∷ (print_dict entries ++ r_brace ∷ [])
  print (Expr.call name args _) = ident name ∷ l_paren ∷ (print_list args ++ r_paren ∷ [])
  print (Expr.field target name _) = bracket 7 (prec target) (print target) ++ dot ∷ ident name ∷ []
  print (Expr.method_call target name args _) =
      bracket 7 (prec target) (print target)
      ++ dot ∷ ident name ∷ l_paren ∷ (print_list args ++ r_paren ∷ [])
  print (Expr.index target place _) =
      bracket 7 (prec target) (print target) ++ l_bracket ∷ (print place ++ r_bracket ∷ [])
  print (Expr.go value _) = go_kw ∷ bracket 6 (prec value) (print value)
  print (Expr.await value _) = await_kw ∷ bracket 6 (prec value) (print value)
  print (Expr.propagate value _) = bracket 7 (prec value) (print value) ++ question ∷ []
  print (Expr.unary op value _) =
      prefix_kind op ∷ bracket (prefix_rank op) (prec value) (print value)
  print (Expr.binary lhs op rhs _) =
      bracket (rank (level_of op)) (prec lhs) (print lhs)
      ++ op_kind op ∷ bracket (suc (rank (level_of op))) (prec rhs) (print rhs)

  pub print_list : Exprs → List TokenKind
  print_list Exprs.nil = []
  print_list (Exprs.cons e es) = print e ++ print_more es

  -- With a comma before each.
  pub print_more : Exprs → List TokenKind
  print_more Exprs.nil = []
  print_more (Exprs.cons e es) = comma ∷ (print e ++ print_more es)

  pub print_dict : DictEntries → List TokenKind
  print_dict DictEntries.no_entries = []
  print_dict (DictEntries.entry key value rest) =
      print key ++ colon ∷ (print value ++ print_entries rest)

  pub print_entries : DictEntries → List TokenKind
  print_entries DictEntries.no_entries = []
  print_entries (DictEntries.entry key value rest) =
      comma ∷ (print key ++ colon ∷ (print value ++ print_entries rest))

abbrev pub no_span : Span
no_span = span 0 0 0

-- The expression without its positions.
unfoldable mutual
  pub erase : Expr → Expr
  erase (Expr.int value _) = Expr.int value no_span
  erase (Expr.string value _) = Expr.string value no_span
  erase (Expr.bool value _) = Expr.bool value no_span
  erase (Expr.ident name _) = Expr.ident name no_span
  erase (Expr.list items _) = Expr.list (erase_all items) no_span
  erase (Expr.dict entries _) = Expr.dict (erase_entries entries) no_span
  erase (Expr.call name args _) = Expr.call name (erase_all args) no_span
  erase (Expr.field target name _) = Expr.field (erase target) name no_span
  erase (Expr.method_call target name args _) =
      Expr.method_call (erase target) name (erase_all args) no_span
  erase (Expr.index target place _) = Expr.index (erase target) (erase place) no_span
  erase (Expr.go value _) = Expr.go (erase value) no_span
  erase (Expr.await value _) = Expr.await (erase value) no_span
  erase (Expr.propagate value _) = Expr.propagate (erase value) no_span
  erase (Expr.unary op value _) = Expr.unary op (erase value) no_span
  erase (Expr.binary lhs op rhs _) = Expr.binary (erase lhs) op (erase rhs) no_span

  pub erase_all : Exprs → Exprs
  erase_all Exprs.nil = Exprs.nil
  erase_all (Exprs.cons e es) = Exprs.cons (erase e) (erase_all es)

  pub erase_entries : DictEntries → DictEntries
  erase_entries DictEntries.no_entries = DictEntries.no_entries
  erase_entries (DictEntries.entry key value rest) =
      DictEntries.entry (erase key) (erase value) (erase_entries rest)

-- A token of that kind is next.
abbrev pub Next : TokenKind → Parser → Type 0
Next kind p = (t : Token) × (ts : List Token) × (p.upcoming ≡ t ∷ ts) × (t.kind ≡ kind)

-- The parser `q` is `p` after tokens of these kinds.
abbrev pub Reads : Parser → List TokenKind → Parser → Type 0
Reads p [] q = q ≡ p
Reads p (k ∷ ks) q = Next k p × Reads (advance p) ks q
