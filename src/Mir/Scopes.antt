-- ===== src/Mir/Scopes.antt =====
-- The instructions that open and close a scope are well nested.
pub mod Stmts
use gof_lang.Prelude.{
  ℕ, ◌≡◌, refl, ◌∙◌, List, [], ◌∷◌, ◌++◌, Option, none, some, Text, steps, steps-append, arith,
}
use gof_lang.TypedHir.{
  TypedExpr, typed, TypedExprKind, TypedExprs, TypedDictEntries, TypedSelectArmKind, TypedStmt,
  TypedBlock, TypedMatchArms, TypedSelectArms, TypedFunction,
}
use gof_lang.Mir.Instruction.{MirInstruction}
use gof_lang.Mir.Builder.{
  MirBuilder, empty_builder, push, emit, lower_expr, lower_kind, lower_exprs, lower_entries,
  store_binding, lower_operation, lower_select_kind, lower_stmt, lower_block, lower_else,
  lower_arms, lower_select_arms, lower_function,
}
use gof_lang.Mir.Numbering.{dest}

-- A scope that is open: a conditional before and after its `else`, a loop, a `match`, a `select`.
pub data Frame : Type 0 where
  if_frame else_frame while_frame for_frame match_frame select_frame : Frame

-- What an instruction does to the open scopes, the innermost first; none if it cannot stand there.
unfoldable pub scope_step : List Frame → MirInstruction → Option (List Frame)
scope_step s (MirInstruction.begin_if _) = some (Frame.if_frame ∷ s)
scope_step (Frame.if_frame ∷ s) MirInstruction.else_branch = some (Frame.else_frame ∷ s)
scope_step (Frame.if_frame ∷ s) MirInstruction.end_if = some s
scope_step (Frame.else_frame ∷ s) MirInstruction.end_if = some s
scope_step s (MirInstruction.begin_while _) = some (Frame.while_frame ∷ s)
scope_step (Frame.while_frame ∷ s) MirInstruction.end_while = some s
scope_step s (MirInstruction.begin_for _ _) = some (Frame.for_frame ∷ s)
scope_step (Frame.for_frame ∷ s) MirInstruction.end_for = some s
scope_step s (MirInstruction.begin_match _) = some (Frame.match_frame ∷ s)
scope_step (Frame.match_frame ∷ s) (MirInstruction.match_arm _ _ _) = some (Frame.match_frame ∷ s)
scope_step (Frame.match_frame ∷ s) MirInstruction.end_match = some s
scope_step s MirInstruction.begin_select = some (Frame.select_frame ∷ s)
scope_step (Frame.select_frame ∷ s) (MirInstruction.select_arm _ _ _) =
    some (Frame.select_frame ∷ s)
scope_step (Frame.select_frame ∷ s) MirInstruction.end_select = some s
scope_step s (MirInstruction.const_int _ _) = some s
scope_step s (MirInstruction.const_string _ _) = some s
scope_step s (MirInstruction.const_bool _ _) = some s
scope_step s (MirInstruction.const_enum_variant _ _ _ _) = some s
scope_step s (MirInstruction.build_list _ _) = some s
scope_step s (MirInstruction.build_dict _ _) = some s
scope_step s (MirInstruction.build_struct _ _ _) = some s
scope_step s (MirInstruction.load_local _ _) = some s
scope_step s (MirInstruction.load_field _ _ _) = some s
scope_step s (MirInstruction.store_local _ _ _ _) = some s
scope_step s MirInstruction.break = some s
scope_step s MirInstruction.continue = some s
scope_step s (MirInstruction.call _ _ _) = some s
scope_step s (MirInstruction.index _ _ _) = some s
scope_step s (MirInstruction.spawn _ _ _) = some s
scope_step s (MirInstruction.await _ _) = some s
scope_step s (MirInstruction.propagate _ _) = some s
scope_step s (MirInstruction.unary _ _ _) = some s
scope_step s (MirInstruction.binary _ _ _ _) = some s
scope_step s (MirInstruction.eval _) = some s
scope_step s (MirInstruction.return _) = some s
scope_step _ _ = none

-- The code of a builder leaves these scopes open.
abbrev pub IsScoped : List Frame → MirBuilder → Type 0
IsScoped s b = steps scope_step [] b.instructions ≡ some s

pub push-IsScoped :
    (s t : List Frame) (i : MirInstruction) (b : MirBuilder)
    → IsScoped s b
    → scope_step s i ≡ some t
    → IsScoped t (push i b)
unfolding push
push-IsScoped s t i b h k = steps-append scope_step [] b.instructions (i ∷ []) h ∙ rw k

pub scope_step-dest :
    (s : List Frame) (i : MirInstruction) {d : ℕ} → dest i ≡ some d → scope_step s i ≡ some s
unfolding scope_step dest
scope_step-dest s (MirInstruction.const_int _ _) h = refl
scope_step-dest [] _ h = ground arith
scope_step-dest _ _ h = ground arith
