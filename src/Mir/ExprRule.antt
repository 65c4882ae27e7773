-- ===== src/Mir/ExprRule.antt =====
-- A property of builders that each emitted expression instruction keeps holds after `lower_expr`.
use gof_lang.Prelude.{ℕ, ◌≡◌, refl, some}
use gof_lang.TypedHir.{TypedExpr, typed, TypedExprKind, TypedExprs, TypedDictEntries}
use gof_lang.Mir.Instruction.{MirInstruction}
use gof_lang.Mir.Builder.{MirBuilder, emit, lower_expr, lower_kind, lower_exprs, lower_entries}
use gof_lang.Mir.Numbering.{dest}

module _ (P : MirBuilder → Type 0)
    (emits : (f : ℕ → MirInstruction) (b : MirBuilder)
      → ((d : ℕ) → dest (f d) ≡ some d)
      → P b
      → P (emit f b).0) where
  mutual
    unfolding lower_expr dest

    pub lower_expr-keeps : (e : TypedExpr) (b : MirBuilder) → P b → P (lower_expr e b).0
    lower_expr-keeps (typed kind ty span) b h = lower_kind-keeps kind b h

    lower_kind-keeps : (kind : TypedExprKind) (b : MirBuilder) → P b → P (lower_kind kind b).0
    lower_kind-keeps (TypedExprKind.int value) b h = emits _ b (λ d. refl) h
    lower_kind-keeps (TypedExprKind.string value) b h = emits _ b (λ d. refl) h
    lower_kind-keeps (TypedExprKind.bool value) b h = emits _ b (λ d. refl) h
    lower_kind-keeps (TypedExprKind.local name) b h = emits _ b (λ d. refl) h
    lower_kind-keeps (TypedExprKind.enum_variant enum_name variant args) b h =
        emits _ _ (λ d. refl) (lower_exprs-keeps args b h)
    lower_kind-keeps (TypedExprKind.list items) b h =
        emits _ _ (λ d. refl) (lower_exprs-keeps items b h)
    lower_kind-keeps (TypedExprKind.dict entries) b h =
        emits _ _ (λ d. refl) (lower_entries-keeps entries b h)
    lower_kind-keeps (TypedExprKind.struct_init name args) b h =
        emits _ _ (λ d. refl) (lower_exprs-keeps args b h)
    lower_kind-keeps (TypedExprKind.field target name) b h =
        emits _ _ (λ d. refl) (lower_expr-keeps target b h)
    lower_kind-keeps (TypedExprKind.call callee args) b h =
        emits _ _ (λ d. refl) (lower_exprs-keeps args b h)
    lower_kind-keeps (TypedExprKind.method_call target method symbol_name args) b h =
        emits _ _ (λ d. refl) (lower_exprs-keeps args _ (lower_expr-keeps target b h))
    lower_kind-keeps (TypedExprKind.index target position) b h =
        emits _ _ (λ d. refl) (lower_expr-keeps position _ (lower_expr-keeps target b h))
    lower_kind-keeps (TypedExprKind.spawn callee args) b h =
        emits _ _ (λ d. refl) (lower_exprs-keeps args b h)
    lower_kind-keeps (TypedExprKind.await value) b h =
        emits _ _ (λ d. refl) (lower_expr-keeps value b h)
    lower_kind-keeps (TypedExprKind.propagate value) b h =
        emits _ _ (λ d. refl) (lower_expr-keeps value b h)
    lower_kind-keeps (TypedExprKind.unary op value) b h =
        emits _ _ (λ d. refl) (lower_expr-keeps value b h)
    lower_kind-keeps (TypedExprKind.binary lhs op rhs) b h =
        emits _ _ (λ d. refl) (lower_expr-keeps rhs _ (lower_expr-keeps lhs b h))

    pub lower_exprs-keeps : (es : TypedExprs) (b : MirBuilder) → P b → P (lower_exprs es b).0
    lower_exprs-keeps TypedExprs.nil b h = h
    lower_exprs-keeps (TypedExprs.cons e es) b h = lower_exprs-keeps es _ (lower_expr-keeps e b h)

    pub lower_entries-keeps :
        (es : TypedDictEntries) (b : MirBuilder) → P b → P (lower_entries es b).0
    lower_entries-keeps TypedDictEntries.no_entries b h = h
    lower_entries-keeps (TypedDictEntries.entry key value es) b h =
        lower_entries-keeps es _ (lower_expr-keeps value _ (lower_expr-keeps key b h))
