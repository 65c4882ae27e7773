-- ===== src/Mir/Values/Correct.antt =====
-- Running the code of an expression, with its effects in their order, against its evaluation.
mod Runs
use gof_lang.Prelude.{
  ℕ, zero, suc, ◌≡◌, refl, ap, sym, subst, ◌∙◌, Bool, true, false, if◌then◌else◌, List, [], ◌∷◌,
  ◌++◌, append_assoc, append-nil, some, length, length-append, steps, steps-append, arith,
}
use gof_lang.Source.{Span}
use gof_lang.Ast.{BinaryOp}
use gof_lang.TypedHir.{GofType, TypedExpr, typed, TypedExprKind, TypedExprs, TypedDictEntries}
use gof_lang.Mir.Instruction.{MirInstruction}
use gof_lang.Mir.Builder.{
  MirBuilder, empty_builder, push, emit, lower_expr, lower_kind, lower_exprs, lower_entries,
}
use gof_lang.Mir.ExprRule.{lower_expr-keeps, lower_exprs-keeps, lower_entries-keeps}
use gof_lang.Mir.Values.{
  Node, node, get_elem?, read_all, read_pairs, read, Outcome, done, stopped, and_then, combine,
  is_logical, decides, pair, eval, eval_kind, eval_all, eval_pairs, IsStrict, IsStrictKind,
  AreStrict, EntriesAreStrict, extend, exec, HasOutcome,
}
use gof_lang.Mir.Values.Correct.Runs.{
  get_elem?-append, read_all-cons, read_pairs-cons, decides_only_logical, HasRun, Computed, Reads,
  ReadsAll, ReadsPairs, emit-Computed, start, leaf-Computed, join, weaken, expr-Halted,
  exprs-Halted, entries-Halted, both_operands,
}

module _ {V W : Type 0} (apply : Node V → W → Outcome V W) (truth : V → Bool) (w₀ : W) where
  -- Without `and` and `or` both operands are evaluated.
  strict_operands :
      (op : BinaryOp) (o : Outcome V W) (next : W → Outcome V W)
      → is_logical op ≡ false
      → and_then o (λ x w₁.
        if decides op (truth x)
        then done x w₁
        else and_then (next w₁) (λ y w₂. apply (Node.binary x op y) w₂))
        ≡ both_operands apply w₀ op o next
  strict_operands op (stopped w) next h = refl
  strict_operands op (done x w) next h = rw (decides_only_logical op (truth x) h) (later (next w))
    where
      later :
          (o : Outcome V W)
          → and_then o (λ y w₂. apply (Node.binary x op y) w₂)
            ≡ and_then
                (and_then o (λ y w'. done (pair x y) w'))
                (λ z w. apply (Node.binary z.0 op z.1) w)
      later (stopped w') = refl
      later (done y w') = refl

  binary-Computed :
      (lhs : TypedExpr) (op : BinaryOp) (rhs : TypedExpr) (b : MirBuilder) (ts : List V)
      (o : Outcome V W) (next : W → Outcome V W)
      → Computed apply w₀ ts (Reads apply w₀ (lower_expr lhs b).1) (lower_expr lhs b).0 o
      → ((us : List V) (w : W)
          → HasRun apply w₀ (lower_expr lhs b).0 us w
          → Computed apply w₀ us
              (Reads apply w₀ (lower_expr rhs (lower_expr lhs b).0).1)
              (lower_expr rhs (lower_expr lhs b).0).0
              (next w))
      → Computed apply w₀ ts
          (Reads apply w₀ (lower_kind (TypedExprKind.binary lhs op rhs) b).1)
          (lower_kind (TypedExprKind.binary lhs op rhs) b).0
          (both_operands apply w₀ op o next)
  unfolding lower_expr node read
  binary-Computed lhs op rhs b ts o next first second =
      emit-Computed apply w₀ _ _ (λ z. Node.binary z.0 op z.1) _ ts _ (λ d. refl)
        (join apply w₀ ts _ _ _ _ _ pair _ _ (λ v. expr-Halted apply w₀ rhs _ v) first second
          (λ x y us vs p q. rw (get_elem?-append us vs _ p, q)))

  mutual
    unfolding lower_expr eval IsStrict node read read_all read_pairs

    lower_expr-Computed :
        (e : TypedExpr) (b : MirBuilder) (ts : List V) (w : W)
        → IsStrict e
        → HasRun apply w₀ b ts w
        → Computed apply w₀ ts
            (Reads apply w₀ (lower_expr e b).1)
            (lower_expr e b).0
            (eval apply truth e w)
    lower_expr-Computed (typed kind ty span) b ts w s h = lower_kind-Computed kind b ts w s h

    lower_kind-Computed :
        (k : TypedExprKind) (b : MirBuilder) (ts : List V) (w : W)
        → IsStrictKind k
        → HasRun apply w₀ b ts w
        → Computed apply w₀ ts
            (Reads apply w₀ (lower_kind k b).1)
            (lower_kind k b).0
            (eval_kind apply truth k w)
    lower_kind-Computed (TypedExprKind.int value) b ts w s h =
        leaf-Computed apply w₀ _ _ (Node.int value) b ts w (λ d. refl) h refl
    lower_kind-Computed (TypedExprKind.string value) b ts w s h =
        leaf-Computed apply w₀ _ _ (Node.string value) b ts w (λ d. refl) h refl
    lower_kind-Computed (TypedExprKind.bool value) b ts w s h =
        leaf-Computed apply w₀ _ _ (Node.bool value) b ts w (λ d. refl) h refl
    lower_kind-Computed (TypedExprKind.local name) b ts w s h =
        leaf-Computed apply w₀ _ _ (Node.local name) b ts w (λ d. refl) h refl
    lower_kind-Computed (TypedExprKind.enum_variant enum_name variant args) b ts w s h =
        emit-Computed apply w₀ _ _ (λ v. Node.enum_variant enum_name variant v) _ ts _ (λ d. refl)
          (weaken apply w₀ ts _ _ _ _ (λ x us r. rw r) (lower_exprs-Computed args b ts w s h))
    lower_kind-Computed (TypedExprKind.list items) b ts w s h =
        emit-Computed apply w₀ _ _ (λ v. Node.list v) _ ts _ (λ d. refl)
          (weaken apply w₀ ts _ _ _ _ (λ x us r. rw r) (lower_exprs-Computed items b ts w s h))
    lower_kind-Computed (TypedExprKind.struct_init name args) b ts w s h =
        emit-Computed apply w₀ _ _ (λ v. Node.struct_init name v) _ ts _ (λ d. refl)
          (weaken apply w₀ ts _ _ _ _ (λ x us r. rw r) (lower_exprs-Computed args b ts w s h))
    lower_kind-Computed (TypedExprKind.call callee args) b ts w s h =
        emit-Computed apply w₀ _ _ (λ v. Node.call callee v) _ ts _ (λ d. refl)
          (weaken apply w₀ ts _ _ _ _ (λ x us r. rw r) (lower_exprs-Computed args b ts w s h))
    lower_kind-Computed (TypedExprKind.spawn callee args) b ts w s h =
        emit-Computed apply w₀ _ _ (λ v. Node.spawn callee v) _ ts _ (λ d. refl)
          (weaken apply w₀ ts _ _ _ _ (λ x us r. rw r) (lower_exprs-Computed args b ts w s h))
    lower_kind-Computed (TypedExprKind.dict entries) b ts w s h =
        emit-Computed apply w₀ _ _ (λ v. Node.dict v) _ ts _ (λ d. refl)
          (weaken apply w₀ ts _ _ _ _ (λ x us r. rw r) (lower_entries-Computed entries b ts w s h))
    lower_kind-Computed (TypedExprKind.field target name) b ts w s h =
        emit-Computed apply w₀ _ _ (λ v. Node.field v name) _ ts _ (λ d. refl)
          (weaken apply w₀ ts _ _ _ _ (λ x us r. rw r) (lower_expr-Computed target b ts w s h))
    lower_kind-Computed (TypedExprKind.await value) b ts w s h =
        emit-Computed apply w₀ _ _ (λ v. Node.await v) _ ts _ (λ d. refl)
          (weaken apply w₀ ts _ _ _ _ (λ x us r. rw r) (lower_expr-Computed value b ts w s h))
    lower_kind-Computed (TypedExprKind.propagate value) b ts w s h =
        emit-Computed apply w₀ _ _ (λ v. Node.propagate v) _ ts _ (λ d. refl)
          (weaken apply w₀ ts _ _ _ _ (λ x us r. rw r) (lower_expr-Computed value b ts w s h))
    lower_kind-Computed (TypedExprKind.unary op value) b ts w s h =
        emit-Computed apply w₀ _ _ (λ v. Node.unary op v) _ ts _ (λ d. refl)
          (weaken apply w₀ ts _ _ _ _ (λ x us r. rw r) (lower_expr-Computed value b ts w s h))
    lower_kind-Computed (TypedExprKind.index target position) b ts w s h =
        emit-Computed apply w₀ _ _ (λ z. Node.index z.0 z.1) _ ts _ (λ d. refl)
          (join apply w₀ ts _ _ _ _ _ pair _ _ (λ v. expr-Halted apply w₀ position _ v)
            (lower_expr-Computed target b ts w s.0 h)
            (λ us v g. lower_expr-Computed position _ us v s.1 g)
            (λ x y us vs p q. rw (get_elem?-append us vs _ p, q)))
    lower_kind-Computed (TypedExprKind.binary lhs op rhs) b ts w s h =
        subst
          (Computed apply w₀ ts (Reads apply w₀ (lower_kind (TypedExprKind.binary lhs op rhs) b).1)
            (lower_kind (TypedExprKind.binary lhs op rhs) b).0)
          (sym (strict_operands op (eval apply truth lhs w) (λ w₁. eval apply truth rhs w₁) s.0))
          (binary-Computed lhs op rhs b ts (eval apply truth lhs w) (λ w₁. eval apply truth rhs w₁)
            (lower_expr-Computed lhs b ts w s.1 h)
            (λ us v g. lower_expr-Computed rhs (lower_expr lhs b).0 us v s.2 g))
    lower_kind-Computed (TypedExprKind.method_call target method symbol_name args) b ts w s h =
        emit-Computed apply w₀ _ _ (λ vs. Node.call symbol_name vs) _ ts _ (λ d. refl)
          (join apply w₀ ts _ _ _ _ _ (λ v vs. v ∷ vs) _ _ (λ v. exprs-Halted apply w₀ args _ v)
            (lower_expr-Computed target b ts w s.0 h)
            (λ us v g. lower_exprs-Computed args _ us v s.1 g)
            (λ x y us vs p q. rw (read_all-cons (us ++ vs) _ _ (get_elem?-append us vs _ p) q)))

    lower_exprs-Computed :
        (es : TypedExprs) (b : MirBuilder) (ts : List V) (w : W)
        → AreStrict es
        → HasRun apply w₀ b ts w
        → Computed apply w₀ ts
            (ReadsAll apply w₀ (lower_exprs es b).1)
            (lower_exprs es b).0
            (eval_all apply truth es w)
    lower_exprs-Computed TypedExprs.nil b ts w s h =
        start apply w₀ b ts [] w (ReadsAll apply w₀ []) h refl
    lower_exprs-Computed (TypedExprs.cons e es) b ts w s h =
        join apply w₀ ts _ _ _ _ _ (λ v vs. v ∷ vs) _ _ (λ v. exprs-Halted apply w₀ es _ v)
          (lower_expr-Computed e b ts w s.0 h) (λ us v g. lower_exprs-Computed es _ us v s.1 g)
          (λ x y us vs p q. read_all-cons (us ++ vs) _ _ (get_elem?-append us vs _ p) q)

    lower_entries-Computed :
        (es : TypedDictEntries) (b : MirBuilder) (ts : List V) (w : W)
        → EntriesAreStrict es
        → HasRun apply w₀ b ts w
        → Computed apply w₀ ts
            (ReadsPairs apply w₀ (lower_entries es b).1)
            (lower_entries es b).0
            (eval_pairs apply truth es w)
    lower_entries-Computed TypedDictEntries.no_entries b ts w s h =
        start apply w₀ b ts [] w (ReadsPairs apply w₀ []) h refl
    lower_entries-Computed (TypedDictEntries.entry key value es) b ts w s h =
        let r = lower_expr key b in
        let q = lower_expr value r.0 in
        let pairs = lower_entries es q.0 in
        let R = (λ (z : V × List (V × V)) (us : List V).
          Reads apply w₀ q.1 z.0 us × ReadsPairs apply w₀ pairs.1 z.1 us) in
        join apply w₀ ts (Reads apply w₀ r.1) R _ _ _ (λ k z. (k, z.0) ∷ z.1) _ _
          (λ v k. entries-Halted apply w₀ es q.0 v (expr-Halted apply w₀ value r.0 v k))
          (lower_expr-Computed key b ts w s.0 h)
          (λ us v g.
            join apply w₀ us (Reads apply w₀ q.1) (ReadsPairs apply w₀ pairs.1) R _ _ pair _ _
              (λ u k. entries-Halted apply w₀ es q.0 u k) (lower_expr-Computed value r.0 us v s.1 g)
              (λ vs u k. lower_entries-Computed es q.0 vs u s.2 k)
              (λ x y vs zs p m. (get_elem?-append vs zs _ p, m)))
          (λ x y us vs p m. read_pairs-cons (us ++ vs) _ _ _ (get_elem?-append us vs _ p) m.0 m.1)

module _ {V W : Type 0} (apply : Node V → W → Outcome V W) where
  computed-HasOutcome :
      (w : W) (r : MirBuilder × ℕ) (o : Outcome V W)
      → Computed apply w [] (Reads apply w r.1) r.0 o
      → HasOutcome apply w o r
  computed-HasOutcome w r (stopped end) c = c
  computed-HasOutcome w r (done v end) c = (c.more, c.has_run.runs, c.reads)

  -- For an expression without `and` and `or`, running the instructions that it is lowered to gives
  -- what `eval` gives: every operation is applied once, in the order of evaluation, to the values of
  -- its operands, and the temporary that `lower_expr` returns holds the value; or the code stops
  -- where the evaluation stops, in the same world.
  pub lower_expr-computes :
      (truth : V → Bool) (e : TypedExpr) (w : W)
      → IsStrict e
      → HasOutcome apply w (eval apply truth e w) (lower_expr e empty_builder)
  lower_expr-computes truth e w s =
      computed-HasOutcome w (lower_expr e empty_builder) (eval apply truth e w) (
        lower_expr-Computed apply truth w e empty_builder [] w s
          (record { runs = refl; counted = refl }))

  -- For `and` and `or` with operands without them: if the left operand decides, then its value is
  -- that of the expression, but running the instructions evaluates the right operand too, and
  -- applies the operator.
  pub lower_expr-eager :
      (truth : V → Bool) (lhs rhs : TypedExpr) (op : BinaryOp) (ty : GofType) (span : Span) (x : V)
      (w w₁ : W)
      → IsStrict lhs
      → IsStrict rhs
      → eval apply truth lhs w ≡ done x w₁
      → decides op (truth x) ≡ true
      → let e = typed (TypedExprKind.binary lhs op rhs) ty span in
        (eval apply truth e w ≡ done x w₁)
        × HasOutcome apply w
            (and_then (eval apply truth rhs w₁) (λ y w₂. apply (Node.binary x op y) w₂))
            (lower_expr e empty_builder)
  unfolding eval lower_expr
  lower_expr-eager truth lhs rhs op ty span x w w₁ s t value decided = (
    rw (value, decided) refl,
    computed-HasOutcome w (lower_kind (TypedExprKind.binary lhs op rhs) empty_builder) _ (
        subst
          (Computed apply w []
            (Reads apply w (lower_kind (TypedExprKind.binary lhs op rhs) empty_builder).1)
            (lower_kind (TypedExprKind.binary lhs op rhs) empty_builder).0)
          (ap (λ o. both_operands apply w op o (λ w₂. eval apply truth rhs w₂)) value
            ∙ sym (later (eval apply truth rhs w₁)))
          (binary-Computed apply truth w lhs op rhs empty_builder [] (eval apply truth lhs w)
            (λ w₂. eval apply truth rhs w₂)
            (lower_expr-Computed apply truth w lhs empty_builder [] w s
              (record { runs = refl; counted = refl }))
            (λ us v g.
              lower_expr-Computed apply truth w rhs (lower_expr lhs empty_builder).0 us v t g))),
  )
    where
      later :
          (o : Outcome V W)
          → and_then o (λ y w₂. apply (Node.binary x op y) w₂)
            ≡ and_then
                (and_then o (λ y w'. done (pair x y) w'))
                (λ z w. apply (Node.binary z.0 op z.1) w)
      later (stopped w') = refl
      later (done y w') = refl
