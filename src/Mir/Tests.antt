-- ===== src/Mir/Tests.antt =====
-- Lowered code, and the theorems about it at a concrete function.
use gof_lang.Prelude.{
  ℕ, zero, ◌+◌, ◌*◌, ◌≡◌, refl, Bool, ltb, pos, [], ◌∷◌, none, some, codes, steps,
}
use gof_lang.Source.{span}
use gof_lang.Ast.{BinaryOp, FunctionKind}
use gof_lang.TypedHir.{
  GofType, TypedExpr, typed, TypedExprKind, TypedStmt, TypedBlock, TypedFunction,
}
use gof_lang.Mir.Instruction.{MirInstruction}
use gof_lang.Mir.Builder.{empty_builder, push, emit, lower_expr, lower_stmt, lower_function}
use gof_lang.Mir.Numbering.Stmts.{AreNumbered, lower_function-AreNumbered}
use gof_lang.Mir.Scopes.{scope_step}
use gof_lang.Mir.Scopes.Stmts.{lower_function-IsScoped}
use gof_lang.Mir.Values.{Node, Outcome, done, stopped, and_then, eval, IsStrict, HasOutcome}
use gof_lang.Mir.Values.Correct.{lower_expr-computes, lower_expr-eager}

abbrev expr : TypedExprKind → TypedExpr
expr kind = typed kind GofType.int (span 1 1 2)

-- x + 2 * y
abbrev sample_expr : TypedExpr
sample_expr = expr (
    TypedExprKind.binary (expr (TypedExprKind.local (codes "x"))) BinaryOp.add (
      expr (
        TypedExprKind.binary (expr (TypedExprKind.int (pos 2))) BinaryOp.mul
          (expr (TypedExprKind.local (codes "y"))))))

-- while x: return x + 2 * y
abbrev sample_function : TypedFunction
sample_function = record {
  id = 0;
  kind = FunctionKind.function;
  fixture_scope = none;
  symbol_name = codes "f";
  receiver_type = none;
  name = codes "f";
  params = [];
  return_type = GofType.int;
  body =
      TypedBlock.cons
        (TypedStmt.while (expr (TypedExprKind.local (codes "x")))
          (TypedBlock.cons (TypedStmt.return sample_expr) TypedBlock.nil))
        TypedBlock.nil;
}

lower_function-sample :
    (lower_function sample_function).instructions
    ≡ MirInstruction.load_local 0 (codes "x")
      ∷ MirInstruction.begin_while 0
      ∷ MirInstruction.load_local 1 (codes "x")
      ∷ MirInstruction.const_int 2 (pos 2)
      ∷ MirInstruction.load_local 3 (codes "y")
      ∷ MirInstruction.binary 4 2 BinaryOp.mul 3
      ∷ MirInstruction.binary 5 1 BinaryOp.add 4
      ∷ MirInstruction.return 5
      ∷ MirInstruction.end_while
      ∷ []
unfolding lower_function lower_stmt lower_expr emit push
lower_function-sample = refl

lower_function-AreNumbered_example : AreNumbered 0 (lower_function sample_function).instructions
lower_function-AreNumbered_example = lower_function-AreNumbered sample_function

lower_function-IsScoped_example :
    steps scope_step [] (lower_function sample_function).instructions ≡ some []
lower_function-IsScoped_example = lower_function-IsScoped sample_function

-- A world that counts the operations, with the operations of the example on numbers; `0` is
-- `false`. A division by zero stops.
abbrev sample_apply : Node ℕ → ℕ → Outcome ℕ ℕ
sample_apply (Node.int (pos n)) w = done n (w + 1)
sample_apply (Node.binary x BinaryOp.add y) w = done (x + y) (w + 1)
sample_apply (Node.binary x BinaryOp.mul y) w = done (x * y) (w + 1)
sample_apply (Node.binary x BinaryOp.div zero) w = stopped (w + 1)
sample_apply (Node.local _) w = done 7 (w + 1)
sample_apply _ w = done 1 (w + 1)

abbrev sample_truth : ℕ → Bool
sample_truth n = ltb 0 n

evaluates : eval sample_apply sample_truth sample_expr 0 ≡ done 21 5
unfolding eval
evaluates = refl

lower_expr-computes_example :
    HasOutcome sample_apply 0
      (eval sample_apply sample_truth sample_expr 0)
      (lower_expr sample_expr empty_builder)
unfolding IsStrict
lower_expr-computes_example =
    lower_expr-computes sample_apply sample_truth sample_expr 0 (refl, tt, (refl, tt, tt))

-- 0 and 2 / 0
abbrev zero_expr : TypedExpr
zero_expr = expr (TypedExprKind.int (pos 0))

abbrev division : TypedExpr
division = expr (TypedExprKind.binary (expr (TypedExprKind.int (pos 2))) BinaryOp.div zero_expr)

abbrev guarded_expr : TypedExpr
guarded_expr = expr (TypedExprKind.binary zero_expr BinaryOp.and_op division)

evaluates_zero : eval sample_apply sample_truth zero_expr 0 ≡ done 0 1
unfolding eval
evaluates_zero = refl

lower_expr-eager_example :
    (eval sample_apply sample_truth guarded_expr 0 ≡ done 0 1)
    × HasOutcome sample_apply 0
        (and_then
          (eval sample_apply sample_truth division 1)
          (λ y w₂. sample_apply (Node.binary 0 BinaryOp.and_op y) w₂))
        (lower_expr guarded_expr empty_builder)
unfolding IsStrict
lower_expr-eager_example =
    lower_expr-eager sample_apply sample_truth zero_expr division BinaryOp.and_op GofType.int
      (span 1 1 2) 0 0 1 tt (refl, tt, tt) evaluates_zero refl
