-- ===== src/Mir/Scopes/Stmts.antt =====
-- Lowering keeps the open scopes as they are.
use gof_lang.Prelude.{◌+◌, ◌≡◌, refl, List, [], ◌∷◌, Option, none, some, Text, steps}
use gof_lang.TypedHir.{
  TypedExpr, TypedSelectArmKind, TypedStmt, TypedBlock, TypedMatchArms, TypedSelectArms,
  TypedFunction,
}
use gof_lang.Mir.Instruction.{MirInstruction}
use gof_lang.Mir.Builder.{
  MirBuilder, empty_builder, push, emit, lower_expr, lower_operation, lower_select_kind, lower_stmt,
  lower_block, lower_else, lower_arms, lower_select_arms, lower_function,
}
use gof_lang.Mir.ExprRule.{lower_expr-keeps}
use gof_lang.Mir.Scopes.{Frame, scope_step, IsScoped, push-IsScoped, scope_step-dest}

lower_expr-IsScoped :
    (s : List Frame) (e : TypedExpr) (b : MirBuilder) → IsScoped s b → IsScoped s (lower_expr e b).0
unfolding emit
lower_expr-IsScoped s e b h =
    lower_expr-keeps (IsScoped s)
      (λ f b' d k.
        push-IsScoped s s (f b'.next_temp) (record b' { next_temp = b'.next_temp + 1 }) k
          (scope_step-dest s (f b'.next_temp) (d b'.next_temp)))
      e b h

-- An expression, and an instruction that opens a scope or leaves the scopes as they are.
then_push :
    (s t : List Frame) (i : MirInstruction) (e : TypedExpr) (b : MirBuilder)
    → IsScoped s b
    → scope_step s i ≡ some t
    → IsScoped t (push i (lower_expr e b).0)
then_push s t i e b h k = push-IsScoped s t i _ (lower_expr-IsScoped s e b h) k

lower_operation-IsScoped :
    (s : List Frame) (binding : Option Text) (e : TypedExpr) (b : MirBuilder)
    → IsScoped (Frame.select_frame ∷ s) b
    → IsScoped (Frame.select_frame ∷ s) (lower_operation binding e b)
unfolding scope_step
lower_operation-IsScoped s none e b h = then_push _ _ _ e b h refl
lower_operation-IsScoped s (some name) e b h =
    push-IsScoped _ _ _ _ (then_push _ _ _ e b h refl) refl

lower_select_kind-IsScoped :
    (s : List Frame) (binding : Option Text) (kind : TypedSelectArmKind) (b : MirBuilder)
    → IsScoped (Frame.select_frame ∷ s) b
    → IsScoped (Frame.select_frame ∷ s) (lower_select_kind binding kind b)
unfolding lower_select_kind scope_step
lower_select_kind-IsScoped s binding (TypedSelectArmKind.recv e) b h =
    lower_operation-IsScoped s binding e b h
lower_select_kind-IsScoped s binding (TypedSelectArmKind.send e) b h =
    lower_operation-IsScoped s binding e b h
lower_select_kind-IsScoped s binding TypedSelectArmKind.default b h = push-IsScoped _ _ _ b h refl

-- Where an `else` may stand there, and where the scope is closed.
abbrev IsBranch : List Frame → MirBuilder → Type 0
IsBranch s b = (t : List Frame) × IsScoped t b × (scope_step t MirInstruction.end_if ≡ some s)

mutual
  unfolding lower_stmt scope_step

  lower_stmt-IsScoped :
      (stmt : TypedStmt) (s : List Frame) (b : MirBuilder)
      → IsScoped s b
      → IsScoped s (lower_stmt stmt b)
  lower_stmt-IsScoped (TypedStmt.return e) s b h = then_push s s _ e b h refl
  lower_stmt-IsScoped (TypedStmt.bind name mutable e) s b h = then_push s s _ e b h refl
  lower_stmt-IsScoped (TypedStmt.assign name e) s b h = then_push s s _ e b h refl
  lower_stmt-IsScoped TypedStmt.break s b h = push-IsScoped s s _ b h refl
  lower_stmt-IsScoped TypedStmt.continue s b h = push-IsScoped s s _ b h refl
  lower_stmt-IsScoped (TypedStmt.if_stmt condition then_body else_body) s b h =
      let opened = then_push s (Frame.if_frame ∷ s) _ condition b h refl in
      let (t, scoped, closes) =
        lower_else-IsBranch else_body s _ (lower_block-IsScoped then_body _ _ opened) in
      push-IsScoped t s _ _ scoped closes
  lower_stmt-IsScoped (TypedStmt.while condition body) s b h =
      let opened = then_push s (Frame.while_frame ∷ s) _ condition b h refl in
      push-IsScoped _ s _ _ (lower_block-IsScoped body _ _ opened) refl
  lower_stmt-IsScoped (TypedStmt.for binding iterable body) s b h =
      let opened = then_push s (Frame.for_frame ∷ s) _ iterable b h refl in
      push-IsScoped _ s _ _ (lower_block-IsScoped body _ _ opened) refl
  lower_stmt-IsScoped (TypedStmt.match value arms) s b h =
      let opened = then_push s (Frame.match_frame ∷ s) _ value b h refl in
      push-IsScoped _ s _ _ (lower_arms-IsScoped arms s _ opened) refl
  lower_stmt-IsScoped (TypedStmt.select arms) s b h =
      let opened = push-IsScoped s (Frame.select_frame ∷ s) _ b h refl in
      push-IsScoped _ s _ _ (lower_select_arms-IsScoped arms s _ opened) refl
  lower_stmt-IsScoped (TypedStmt.expr e) s b h = then_push s s _ e b h refl

  lower_block-IsScoped :
      (stmts : TypedBlock) (s : List Frame) (b : MirBuilder)
      → IsScoped s b
      → IsScoped s (lower_block stmts b)
  lower_block-IsScoped TypedBlock.nil s b h = h
  lower_block-IsScoped (TypedBlock.cons stmt stmts) s b h =
      lower_block-IsScoped stmts s _ (lower_stmt-IsScoped stmt s b h)

  lower_else-IsBranch :
      (stmts : TypedBlock) (s : List Frame) (b : MirBuilder)
      → IsScoped (Frame.if_frame ∷ s) b
      → IsBranch s (lower_else stmts b)
  lower_else-IsBranch TypedBlock.nil s b h = (Frame.if_frame ∷ s, h, refl)
  lower_else-IsBranch (TypedBlock.cons stmt stmts) s b h =
      let opened = push-IsScoped _ (Frame.else_frame ∷ s) MirInstruction.else_branch b h refl in
      (
        Frame.else_frame ∷ s,
        lower_block-IsScoped stmts _ _ (lower_stmt-IsScoped stmt _ _ opened),
        refl,
      )

  lower_arms-IsScoped :
      (arms : TypedMatchArms) (s : List Frame) (b : MirBuilder)
      → IsScoped (Frame.match_frame ∷ s) b
      → IsScoped (Frame.match_frame ∷ s) (lower_arms arms b)
  lower_arms-IsScoped TypedMatchArms.no_arms s b h = h
  lower_arms-IsScoped (TypedMatchArms.arm pattern body arms) s b h =
      let started = push-IsScoped _ (Frame.match_frame ∷ s) _ b h refl in
      lower_arms-IsScoped arms s _ (lower_block-IsScoped body _ _ started)

  lower_select_arms-IsScoped :
      (arms : TypedSelectArms) (s : List Frame) (b : MirBuilder)
      → IsScoped (Frame.select_frame ∷ s) b
      → IsScoped (Frame.select_frame ∷ s) (lower_select_arms arms b)
  lower_select_arms-IsScoped TypedSelectArms.no_select_arms s b h = h
  lower_select_arms-IsScoped (TypedSelectArms.select_arm binding kind body arms) s b h =
      let started = lower_select_kind-IsScoped s binding kind b h in
      lower_select_arms-IsScoped arms s _ (lower_block-IsScoped body _ _ started)

-- In the instructions of every lowered function each scope is closed by the instruction of its
-- kind, `else` stands once and only in a conditional, and arms stand only in a `match` or a
-- `select`, directly in it; at the end no scope is open.
pub lower_function-IsScoped :
    (function : TypedFunction)
    → steps scope_step [] (lower_function function).instructions ≡ some []
unfolding lower_function
lower_function-IsScoped function = lower_block-IsScoped function.body [] empty_builder refl
