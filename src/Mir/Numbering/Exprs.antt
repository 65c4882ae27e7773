-- ===== src/Mir/Numbering/Exprs.antt =====
-- Lowering an expression keeps the numbering of the temporaries.
use gof_lang.Prelude.{ℕ, ◌≤◌, ◌≡◌, refl, ◌∙◌, true, List, [], ◌∷◌, some, steps-append, arith}
use gof_lang.TypedHir.{TypedExpr, typed, TypedExprKind, TypedExprs, TypedDictEntries}
use gof_lang.Mir.Instruction.{MirInstruction}
use gof_lang.Mir.Builder.{MirBuilder, emit, lower_expr, lower_kind, lower_exprs, lower_entries}
use gof_lang.Mir.Numbering.{
  dest, both, operands, all_below, number_step, IsNumbered, Extends, ExtendsAll,
}

-- The emission of an instruction whose operands are defined.
emit-Extends :
    (f : ℕ → MirInstruction) (xs : List ℕ) (b₀ b : MirBuilder)
    → ((d : ℕ) → dest (f d) ≡ some d)
    → ((d : ℕ) → operands (f d) ≡ xs)
    → ExtendsAll b₀ b xs
    → Extends b₀ (emit f b)
unfolding emit number_step
emit-Extends f xs b₀ b d o e = record {
  numbered =
      steps-append number_step 0 b.instructions (f b.next_temp ∷ []) e.numbered
      ∙ ground (arith, d b.next_temp, o b.next_temp, e.below);
  grows = omega (arith, e.grows);
  below = omega arith;
}

all_below_mono : (m n : ℕ) (xs : List ℕ) → all_below m xs ≡ true → m ≤ n → all_below n xs ≡ true
all_below_mono m n [] h k = refl
all_below_mono m n (x ∷ xs) h k = ground (arith, all_below_mono m n xs)

-- What an instruction needs, from what is known of its operands.
none_used : (b : MirBuilder) → IsNumbered b → ExtendsAll b b []
none_used b h = record { numbered = h; grows = omega arith; below = refl }

one_used : (b : MirBuilder) (r : MirBuilder × ℕ) → Extends b r → ExtendsAll b r.0 (r.1 ∷ [])
one_used b r e = record { numbered = e.numbered; grows = e.grows; below = ground (arith, e.below) }

then_used :
    (b : MirBuilder) (r : MirBuilder × ℕ) (b' : MirBuilder) (temps : List ℕ)
    → Extends b r
    → ExtendsAll r.0 b' temps
    → ExtendsAll b b' (r.1 ∷ temps)
then_used b r b' temps e f = record {
  numbered = f.numbered;
  grows = omega (arith, e.grows, f.grows);
  below = ground (arith, e.below, f.grows, f.below);
}

two_used :
    (b : MirBuilder) (r s : MirBuilder × ℕ)
    → Extends b r
    → Extends r.0 s
    → ExtendsAll b s.0 (r.1 ∷ s.1 ∷ [])
two_used b r s e f = then_used b r s.0 (s.1 ∷ []) e (one_used r.0 s f)

mutual
  unfolding lower_expr operands dest

  pub lower_expr-Extends :
      (e : TypedExpr) (b : MirBuilder) → IsNumbered b → Extends b (lower_expr e b)
  lower_expr-Extends (typed kind ty span) b h = lower_kind-Extends kind b h

  lower_kind-Extends :
      (kind : TypedExprKind) (b : MirBuilder) → IsNumbered b → Extends b (lower_kind kind b)
  lower_kind-Extends (TypedExprKind.int value) b h =
      emit-Extends _ _ b b (λ d. refl) (λ d. refl) (none_used b h)
  lower_kind-Extends (TypedExprKind.string value) b h =
      emit-Extends _ _ b b (λ d. refl) (λ d. refl) (none_used b h)
  lower_kind-Extends (TypedExprKind.bool value) b h =
      emit-Extends _ _ b b (λ d. refl) (λ d. refl) (none_used b h)
  lower_kind-Extends (TypedExprKind.local name) b h =
      emit-Extends _ _ b b (λ d. refl) (λ d. refl) (none_used b h)
  lower_kind-Extends (TypedExprKind.enum_variant enum_name variant args) b h =
      emit-Extends _ _ b _ (λ d. refl) (λ d. refl) (lower_exprs-ExtendsAll args b h)
  lower_kind-Extends (TypedExprKind.list items) b h =
      emit-Extends _ _ b _ (λ d. refl) (λ d. refl) (lower_exprs-ExtendsAll items b h)
  lower_kind-Extends (TypedExprKind.dict entries) b h =
      emit-Extends _ _ b _ (λ d. refl) (λ d. refl) (lower_entries-ExtendsAll entries b h)
  lower_kind-Extends (TypedExprKind.struct_init name args) b h =
      emit-Extends _ _ b _ (λ d. refl) (λ d. refl) (lower_exprs-ExtendsAll args b h)
  lower_kind-Extends (TypedExprKind.field target name) b h =
      emit-Extends _ _ b _ (λ d. refl) (λ d. refl) (one_used b _ (lower_expr-Extends target b h))
  lower_kind-Extends (TypedExprKind.call callee args) b h =
      emit-Extends _ _ b _ (λ d. refl) (λ d. refl) (lower_exprs-ExtendsAll args b h)
  lower_kind-Extends (TypedExprKind.method_call target method symbol_name args) b h =
      let x = lower_expr-Extends target b h in
      emit-Extends _ _ b _ (λ d. refl) (λ d. refl)
        (then_used b _ _ _ x (lower_exprs-ExtendsAll args _ x.numbered))
  lower_kind-Extends (TypedExprKind.index target position) b h =
      let x = lower_expr-Extends target b h in
      emit-Extends _ _ b _ (λ d. refl) (λ d. refl)
        (two_used b _ _ x (lower_expr-Extends position _ x.numbered))
  lower_kind-Extends (TypedExprKind.spawn callee args) b h =
      emit-Extends _ _ b _ (λ d. refl) (λ d. refl) (lower_exprs-ExtendsAll args b h)
  lower_kind-Extends (TypedExprKind.await value) b h =
      emit-Extends _ _ b _ (λ d. refl) (λ d. refl) (one_used b _ (lower_expr-Extends value b h))
  lower_kind-Extends (TypedExprKind.propagate value) b h =
      emit-Extends _ _ b _ (λ d. refl) (λ d. refl) (one_used b _ (lower_expr-Extends value b h))
  lower_kind-Extends (TypedExprKind.unary op value) b h =
      emit-Extends _ _ b _ (λ d. refl) (λ d. refl) (one_used b _ (lower_expr-Extends value b h))
  lower_kind-Extends (TypedExprKind.binary lhs op rhs) b h =
      let x = lower_expr-Extends lhs b h in
      emit-Extends _ _ b _ (λ d. refl) (λ d. refl)
        (two_used b _ _ x (lower_expr-Extends rhs _ x.numbered))

  lower_exprs-ExtendsAll :
      (es : TypedExprs) (b : MirBuilder)
      → IsNumbered b
      → ExtendsAll b (lower_exprs es b).0 (lower_exprs es b).1
  lower_exprs-ExtendsAll TypedExprs.nil b h = none_used b h
  lower_exprs-ExtendsAll (TypedExprs.cons e es) b h =
      let x = lower_expr-Extends e b h in
      then_used b _ _ _ x (lower_exprs-ExtendsAll es _ x.numbered)

  lower_entries-ExtendsAll :
      (es : TypedDictEntries) (b : MirBuilder)
      → IsNumbered b
      → ExtendsAll b (lower_entries es b).0 (both (lower_entries es b).1)
  lower_entries-ExtendsAll TypedDictEntries.no_entries b h = none_used b h
  lower_entries-ExtendsAll (TypedDictEntries.entry key value es) b h =
      let x = lower_expr-Extends key b h in
      let y = lower_expr-Extends value _ x.numbered in
      then_used b _ _ _ x (then_used _ _ _ _ y (lower_entries-ExtendsAll es _ y.numbered))
