-- ===== src/Mir/Values/Correct/Runs.antt =====
-- The code of a builder, as it has run, and what an instruction adds to it.
use gof_lang.Prelude.{
  ℕ, zero, suc, ◌≡◌, refl, ap, sym, subst, ◌∙◌, Bool, false, List, [], ◌∷◌, ◌++◌, append_assoc,
  append-nil, some, length, length-append, steps, steps-append, arith,
}
use gof_lang.Ast.{BinaryOp}
use gof_lang.TypedHir.{TypedExpr, TypedExprs, TypedDictEntries}
use gof_lang.Mir.Instruction.{MirInstruction}
use gof_lang.Mir.Builder.{MirBuilder, push, emit, lower_expr, lower_exprs, lower_entries}
use gof_lang.Mir.ExprRule.{lower_expr-keeps, lower_exprs-keeps, lower_entries-keeps}
use gof_lang.Mir.Values.{
  Node, node, get_elem?, read_all, read_pairs, read, Outcome, done, stopped, and_then, combine,
  is_logical, decides, pair, extend, exec,
}

module _ {V : Type 0} where
  pub get_elem?-append :
      (xs ys : List V) (i : ℕ) {v : V} → get_elem? xs i ≡ some v → get_elem? (xs ++ ys) i ≡ some v
  get_elem?-append [] ys i h = cc
  get_elem?-append (x ∷ xs) ys zero h = h
  get_elem?-append (x ∷ xs) ys (suc i) h = get_elem?-append xs ys i h

  get_elem?-length : (xs : List V) (v : V) → get_elem? (xs ++ v ∷ []) (length xs) ≡ some v
  get_elem?-length [] v = refl
  get_elem?-length (x ∷ xs) v = get_elem?-length xs v

  pub read_all-cons :
      (ts : List V) (i : ℕ) (is : List ℕ) {v : V} {vs : List V}
      → get_elem? ts i ≡ some v
      → read_all ts is ≡ some vs
      → read_all ts (i ∷ is) ≡ some (v ∷ vs)
  unfolding read_all
  read_all-cons ts i is h k = rw (h, k)

  pub read_pairs-cons :
      (ts : List V) (i j : ℕ) (is : List (ℕ × ℕ)) {k v : V} {vs : List (V × V)}
      → get_elem? ts i ≡ some k
      → get_elem? ts j ≡ some v
      → read_pairs ts is ≡ some vs
      → read_pairs ts ((i, j) ∷ is) ≡ some ((k, v) ∷ vs)
  unfolding read_pairs
  read_pairs-cons ts i j is h g k = rw (h, g, k)

pub decides_only_logical : (op : BinaryOp) (b : Bool) → is_logical op ≡ false → decides op b ≡ false
decides_only_logical BinaryOp.and_op b h = cc
decides_only_logical BinaryOp.or_op b h = cc
decides_only_logical _ b h = refl

module _ {V W : Type 0} (apply : Node V → W → Outcome V W) (w₀ : W) where
  -- The code of a builder has run, and left these values in its temporaries, and this world.
  pub record HasRun (b : MirBuilder) (ts : List V) (w : W) : Type 0 where
    pub runs : steps (exec apply) (done [] w₀) b.instructions ≡ some (done ts w)
    pub counted : length ts ≡ b.next_temp

  -- The code of a builder has stopped.
  abbrev pub Halted : W → MirBuilder → Type 0
  Halted w b = steps (exec apply) (done [] w₀) b.instructions ≡ some (stopped w)

  -- From the values `ts` some more were computed, and with them the results hold what `P` says.
  pub record Finished (ts : List V) (P : List V → Type 0) (b : MirBuilder) (w : W) : Type 0 where
    pub more : List V
    pub has_run : HasRun b (ts ++ more) w
    pub reads : P (ts ++ more)

  abbrev pub Computed :
      {X : Type 0} → List V → (X → List V → Type 0) → MirBuilder → Outcome X W → Type 0
  Computed ts P b (done x w) = Finished ts (P x) b w
  Computed ts P b (stopped w) = Halted w b

  abbrev pub Reads : ℕ → V → List V → Type 0
  Reads i v ts = get_elem? ts i ≡ some v

  abbrev pub ReadsAll : List ℕ → List V → List V → Type 0
  ReadsAll is vs ts = read_all ts is ≡ some vs

  abbrev pub ReadsPairs : List (ℕ × ℕ) → List (V × V) → List V → Type 0
  ReadsPairs is vs ts = read_pairs ts is ≡ some vs

  emit-runs :
      (f : ℕ → MirInstruction) (n : Node ℕ) (nv : Node V) (b : MirBuilder) (ts : List V) (w : W)
      → ((d : ℕ) → node (f d) ≡ some (d, n))
      → HasRun b ts w
      → read ts n ≡ some nv
      → steps (exec apply) (done [] w₀) (emit f b).0.instructions
        ≡ some (extend apply ts (apply nv w))
  unfolding emit push exec
  emit-runs f n nv b ts w d h r =
      steps-append (exec apply) (done [] w₀) b.instructions (f b.next_temp ∷ []) h.runs
      ∙ rw (d b.next_temp, r) (ground (arith, h.counted))

  emit-Halted :
      (w : W) (f : ℕ → MirInstruction) (b : MirBuilder) → Halted w b → Halted w (emit f b).0
  unfolding emit push exec
  emit-Halted w f b h = steps-append (exec apply) (done [] w₀) b.instructions (f b.next_temp ∷ []) h

  emitted :
      (f : ℕ → MirInstruction) (b : MirBuilder) (ts more : List V) (w : W)
      → length (ts ++ more) ≡ b.next_temp
      → (o : Outcome V W)
      → steps (exec apply) (done [] w₀) (emit f b).0.instructions
        ≡ some (extend apply (ts ++ more) o)
      → Computed ts (Reads (emit f b).1) (emit f b).0 o
  unfolding emit
  emitted f b ts more w n (stopped w₁) h = h
  emitted f b ts more w n (done v w₁) h =
      let assoc = append_assoc ts more (v ∷ []) in
      record {
        more = more ++ v ∷ [];
        has_run = record {
          runs = h ∙ ap (λ us. some (done us w₁)) assoc;
          counted =
              ap length (sym assoc) ∙ omega (arith, n, length-append {0} (ts ++ more) (v ∷ []));
        };
        reads = subst (Reads b.next_temp v) assoc (rw (← n) (get_elem?-length (ts ++ more) v));
      }

  -- An instruction after the computation of its operands.
  pub emit-Computed :
      {X : Type 0} (f : ℕ → MirInstruction) (n : Node ℕ) (nv : X → Node V) (b : MirBuilder)
      (ts : List V) (o : Outcome X W)
      → ((d : ℕ) → node (f d) ≡ some (d, n))
      → Computed ts (λ x us. read us n ≡ some (nv x)) b o
      → Computed ts (Reads (emit f b).1) (emit f b).0 (and_then o (λ x w. apply (nv x) w))
  emit-Computed f n nv b ts (stopped w) d c = emit-Halted w f b c
  emit-Computed f n nv b ts (done x w) d c =
      emitted f b ts c.more w c.has_run.counted (apply (nv x) w)
        (emit-runs f n (nv x) b (ts ++ c.more) w d c.has_run c.reads)

  pub start :
      {X : Type 0} (b : MirBuilder) (ts : List V) (x : X) (w : W) (P : X → List V → Type 0)
      → HasRun b ts w
      → P x ts
      → Computed ts P b (done x w)
  start b ts x w P h p = record { more = []; has_run = rw append-nil h; reads = rw append-nil p }

  pub leaf-Computed :
      (f : ℕ → MirInstruction) (n : Node ℕ) (nv : Node V) (b : MirBuilder) (ts : List V) (w : W)
      → ((d : ℕ) → node (f d) ≡ some (d, n))
      → HasRun b ts w
      → read ts n ≡ some nv
      → Computed ts (Reads (emit f b).1) (emit f b).0 (apply nv w)
  leaf-Computed f n nv b ts w d h r =
      emitted f b ts [] w (rw append-nil h.counted) (apply nv w)
        (rw append-nil (emit-runs f n nv b ts w d h r))

  -- Two computations in a row; what the first has read is still there after the second.
  pub join :
      {X Y Z : Type 0} (ts : List V) (P : X → List V → Type 0) (Q : Y → List V → Type 0)
      (R : Z → List V → Type 0) (b b' : MirBuilder) (g : X → Y → Z) (o : Outcome X W)
      (next : W → Outcome Y W)
      → ((w : W) → Halted w b → Halted w b')
      → Computed ts P b o
      → ((us : List V) (w : W) → HasRun b us w → Computed us Q b' (next w))
      → ((x : X) (y : Y) (us vs : List V) → P x us → Q y (us ++ vs) → R (g x y) (us ++ vs))
      → Computed ts R b' (combine g o next)
  join ts P Q R b b' g (stopped w) next stays c later both = stays w c
  join {X} {Y} ts P Q R b b' g (done x w) next stays c later both =
      second (next w) (later (ts ++ c.more) w c.has_run)
    where
      second :
          (o : Outcome Y W)
          → Computed (ts ++ c.more) Q b' o
          → Computed ts R b' (and_then o (λ y w'. done (g x y) w'))
      second (stopped w') d = d
      second (done y w') d =
          let assoc = append_assoc ts c.more d.more in
          record {
            more = c.more ++ d.more;
            has_run = subst (λ us. HasRun b' us w') assoc d.has_run;
            reads = subst (R (g x y)) assoc (both x y (ts ++ c.more) d.more c.reads d.reads);
          }

  pub weaken :
      {X : Type 0} (ts : List V) (P Q : X → List V → Type 0) (b : MirBuilder) (o : Outcome X W)
      → ((x : X) (us : List V) → P x us → Q x us)
      → Computed ts P b o
      → Computed ts Q b o
  weaken ts P Q b (stopped w) f c = c
  weaken ts P Q b (done x w) f c = record {
    more = c.more;
    has_run = c.has_run;
    reads = f x _ c.reads;
  }

  pub expr-Halted :
      (e : TypedExpr) (b : MirBuilder) (w : W) → Halted w b → Halted w (lower_expr e b).0
  expr-Halted e b w h = lower_expr-keeps (Halted w) (λ f b d h. emit-Halted w f b h) e b h

  pub exprs-Halted :
      (es : TypedExprs) (b : MirBuilder) (w : W) → Halted w b → Halted w (lower_exprs es b).0
  exprs-Halted es b w h = lower_exprs-keeps (Halted w) (λ f b d h. emit-Halted w f b h) es b h

  pub entries-Halted :
      (es : TypedDictEntries) (b : MirBuilder) (w : W)
      → Halted w b
      → Halted w (lower_entries es b).0
  entries-Halted es b w h = lower_entries-keeps (Halted w) (λ f b d h. emit-Halted w f b h) es b h

  -- The right operand is evaluated whatever the left one is, and then the operator is applied.
  abbrev pub both_operands : BinaryOp → Outcome V W → (W → Outcome V W) → Outcome V W
  both_operands op o next = and_then (combine pair o next) (λ z w. apply (Node.binary z.0 op z.1) w)
