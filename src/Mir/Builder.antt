-- ===== src/Mir/Builder.antt =====
-- compiler/gof-compiler/src/mir.rs: `MirBuilder` and `lower`. A method that changes the builder
-- returns the new one, beside its result; arguments are lowered from left to right.
use gof_lang.Prelude.{ℕ, ◌+◌, true, false, List, [], ◌∷◌, ◌++◌, map, Option, none, some, Text}
use gof_lang.TypedHir.{
  TypedExpr, typed, TypedExprKind, TypedExprs, TypedDictEntries, TypedMatchPattern,
  TypedSelectArmKind, TypedStmt, TypedBlock, TypedMatchArms, TypedSelectArms, TypedFunction,
  TypedModule,
}
use gof_lang.Mir.Instruction.{MirInstruction, MirFunction, MirModule}

pub record MirBuilder : Type 0 where
  pub next_temp : ℕ
  pub instructions : List MirInstruction

-- `MirBuilder::default()`
abbrev pub empty_builder : MirBuilder
empty_builder = record { next_temp = 0; instructions = [] }

-- `self.instructions.push(…)`
unfoldable pub push : MirInstruction → MirBuilder → MirBuilder
push i b = record b { instructions = b.instructions ++ i ∷ [] }

-- `alloc`, then the push of an instruction whose `dest` is the temporary, then the temporary.
abbrev pub alloc : MirBuilder → MirBuilder × ℕ
alloc b = (record b { next_temp = b.next_temp + 1 }, b.next_temp)

unfoldable pub emit : (ℕ → MirInstruction) → MirBuilder → MirBuilder × ℕ
unfolding push
emit instruction b = let (b', dest) = alloc b in (push (instruction dest) b', dest)

unfoldable mutual
  pub lower_expr : TypedExpr → MirBuilder → MirBuilder × ℕ
  lower_expr (typed kind ty span) b = lower_kind kind b

  pub lower_kind : TypedExprKind → MirBuilder → MirBuilder × ℕ
  lower_kind (TypedExprKind.int value) b = emit (λ dest. MirInstruction.const_int dest value) b
  lower_kind (TypedExprKind.string value) b =
      emit (λ dest. MirInstruction.const_string dest value) b
  lower_kind (TypedExprKind.bool value) b = emit (λ dest. MirInstruction.const_bool dest value) b
  lower_kind (TypedExprKind.enum_variant enum_name variant args) b =
      let (b', temps) = lower_exprs args b in
      emit (λ dest. MirInstruction.const_enum_variant dest enum_name variant temps) b'
  lower_kind (TypedExprKind.list items) b =
      let (b', temps) = lower_exprs items b in
      emit (λ dest. MirInstruction.build_list dest temps) b'
  lower_kind (TypedExprKind.dict entries) b =
      let (b', temps) = lower_entries entries b in
      emit (λ dest. MirInstruction.build_dict dest temps) b'
  lower_kind (TypedExprKind.struct_init name args) b =
      let (b', temps) = lower_exprs args b in
      emit (λ dest. MirInstruction.build_struct dest name temps) b'
  lower_kind (TypedExprKind.local name) b = emit (λ dest. MirInstruction.load_local dest name) b
  lower_kind (TypedExprKind.field target name) b =
      let (b', temp) = lower_expr target b in
      emit (λ dest. MirInstruction.load_field dest temp name) b'
  lower_kind (TypedExprKind.call callee args) b =
      let (b', temps) = lower_exprs args b in
      emit (λ dest. MirInstruction.call dest callee temps) b'
  lower_kind (TypedExprKind.method_call target method symbol_name args) b =
      let (b₁, temp) = lower_expr target b in
      let (b₂, temps) = lower_exprs args b₁ in
      emit (λ dest. MirInstruction.call dest symbol_name (temp ∷ temps)) b₂
  lower_kind (TypedExprKind.index target position) b =
      let (b₁, temp) = lower_expr target b in
      let (b₂, place) = lower_expr position b₁ in
      emit (λ dest. MirInstruction.index dest temp place) b₂
  lower_kind (TypedExprKind.spawn callee args) b =
      let (b', temps) = lower_exprs args b in
      emit (λ dest. MirInstruction.spawn dest callee temps) b'
  lower_kind (TypedExprKind.await value) b =
      let (b', temp) = lower_expr value b in emit (λ dest. MirInstruction.await dest temp) b'
  lower_kind (TypedExprKind.propagate value) b =
      let (b', temp) = lower_expr value b in emit (λ dest. MirInstruction.propagate dest temp) b'
  lower_kind (TypedExprKind.unary op value) b =
      let (b', temp) = lower_expr value b in emit (λ dest. MirInstruction.unary dest op temp) b'
  lower_kind (TypedExprKind.binary lhs op rhs) b =
      let (b₁, left) = lower_expr lhs b in
      let (b₂, right) = lower_expr rhs b₁ in
      emit (λ dest. MirInstruction.binary dest left op right) b₂

  pub lower_exprs : TypedExprs → MirBuilder → MirBuilder × List ℕ
  lower_exprs TypedExprs.nil b = (b, [])
  lower_exprs (TypedExprs.cons e es) b =
      let (b₁, temp) = lower_expr e b in let (b₂, temps) = lower_exprs es b₁ in (b₂, temp ∷ temps)

  pub lower_entries : TypedDictEntries → MirBuilder → MirBuilder × List (ℕ × ℕ)
  lower_entries TypedDictEntries.no_entries b = (b, [])
  lower_entries (TypedDictEntries.entry key value entries) b =
      let (b₁, k) = lower_expr key b in
      let (b₂, v) = lower_expr value b₁ in
      let (b₃, temps) = lower_entries entries b₂ in (b₃, (k, v) ∷ temps)

abbrev pub lower_match_pattern : TypedMatchPattern → MirInstruction
lower_match_pattern pattern =
    MirInstruction.match_arm pattern.enum_name pattern.variant
      (map (λ binding. binding.name) pattern.bindings)

-- The two arms `Recv` and `Send` of the source, which do the same.
abbrev pub store_binding : Option Text → ℕ → MirBuilder → MirBuilder
store_binding none operation b = b
store_binding (some name) operation b =
    push (MirInstruction.store_local name operation false true) b

abbrev pub lower_operation : Option Text → TypedExpr → MirBuilder → MirBuilder
lower_operation binding operation b =
    let (b', temp) = lower_expr operation b in
    store_binding binding temp (push (MirInstruction.select_arm (some temp) binding false) b')

unfoldable pub lower_select_kind : Option Text → TypedSelectArmKind → MirBuilder → MirBuilder
lower_select_kind binding (TypedSelectArmKind.recv operation) b =
    lower_operation binding operation b
lower_select_kind binding (TypedSelectArmKind.send operation) b =
    lower_operation binding operation b
lower_select_kind binding TypedSelectArmKind.default b =
    push (MirInstruction.select_arm none none true) b

unfoldable mutual
  pub lower_stmt : TypedStmt → MirBuilder → MirBuilder
  lower_stmt (TypedStmt.return e) b =
      let (b', value) = lower_expr e b in push (MirInstruction.return value) b'
  lower_stmt (TypedStmt.bind name mutable e) b =
      let (b', src) = lower_expr e b in push (MirInstruction.store_local name src mutable true) b'
  lower_stmt (TypedStmt.assign name e) b =
      let (b', src) = lower_expr e b in push (MirInstruction.store_local name src true false) b'
  lower_stmt TypedStmt.break b = push MirInstruction.break b
  lower_stmt TypedStmt.continue b = push MirInstruction.continue b
  lower_stmt (TypedStmt.if_stmt condition then_body else_body) b =
      let (b₁, temp) = lower_expr condition b in
      let b₂ = lower_block then_body (push (MirInstruction.begin_if temp) b₁) in
      push MirInstruction.end_if (lower_else else_body b₂)
  lower_stmt (TypedStmt.while condition body) b =
      let (b₁, temp) = lower_expr condition b in
      push MirInstruction.end_while (lower_block body (push (MirInstruction.begin_while temp) b₁))
  lower_stmt (TypedStmt.for binding iterable body) b =
      let (b₁, temp) = lower_expr iterable b in
      push MirInstruction.end_for
        (lower_block body (push (MirInstruction.begin_for temp binding) b₁))
  lower_stmt (TypedStmt.match value arms) b =
      let (b₁, temp) = lower_expr value b in
      push MirInstruction.end_match (lower_arms arms (push (MirInstruction.begin_match temp) b₁))
  lower_stmt (TypedStmt.select arms) b =
      push MirInstruction.end_select (lower_select_arms arms (push MirInstruction.begin_select b))
  lower_stmt (TypedStmt.expr e) b =
      let (b', value) = lower_expr e b in push (MirInstruction.eval value) b'

  pub lower_block : TypedBlock → MirBuilder → MirBuilder
  lower_block TypedBlock.nil b = b
  lower_block (TypedBlock.cons stmt stmts) b = lower_block stmts (lower_stmt stmt b)

  -- `if !else_body.is_empty() { … }`
  pub lower_else : TypedBlock → MirBuilder → MirBuilder
  lower_else TypedBlock.nil b = b
  lower_else (TypedBlock.cons stmt stmts) b =
      lower_block stmts (lower_stmt stmt (push MirInstruction.else_branch b))

  pub lower_arms : TypedMatchArms → MirBuilder → MirBuilder
  lower_arms TypedMatchArms.no_arms b = b
  lower_arms (TypedMatchArms.arm pattern body arms) b =
      lower_arms arms (lower_block body (push (lower_match_pattern pattern) b))

  pub lower_select_arms : TypedSelectArms → MirBuilder → MirBuilder
  lower_select_arms TypedSelectArms.no_select_arms b = b
  lower_select_arms (TypedSelectArms.select_arm binding kind body arms) b =
      lower_select_arms arms (lower_block body (lower_select_kind binding kind b))

unfoldable pub lower_function : TypedFunction → MirFunction
lower_function function = record {
  name = function.symbol_name;
  params = map (λ param. param.name) function.params;
  return_type = function.return_type;
  instructions = (lower_block function.body empty_builder).instructions;
}

unfoldable pub lower : TypedModule → MirModule
lower module_ = record { functions = map lower_function module_.functions }
