-- ===== src/Mir/Numbering/Stmts.antt =====
-- Lowering a statement keeps the numbering, and what this says of a function.
use gof_lang.Prelude.{
  ℕ, zero, suc, ◌+◌, ◌<◌, ◌≡◌, refl, ap, ◌∙◌, true, false, List, [], ◌∷◌, Option, none, some, Text,
  All, length, steps, arith, >>=-eq-some,
}
use native.Mathlib.Nat.{add-zero}
use gof_lang.TypedHir.{
  TypedExpr, TypedSelectArmKind, TypedStmt, TypedBlock, TypedMatchArms, TypedSelectArms,
  TypedFunction,
}
use gof_lang.Mir.Instruction.{MirInstruction}
use gof_lang.Mir.Builder.{
  MirBuilder, empty_builder, push, lower_expr, lower_operation, lower_select_kind, lower_stmt,
  lower_block, lower_else, lower_arms, lower_select_arms, lower_function,
}
use gof_lang.Mir.Numbering.{
  dest, operands, all_below, define, number_step, IsNumbered, Extends, push-IsNumbered,
}
use gof_lang.Mir.Numbering.Exprs.{lower_expr-Extends}

-- An instruction with no temporary of its own, that uses at most the temporary `temp`.
uses :
    (b : MirBuilder) (i : MirInstruction) (r : MirBuilder × ℕ)
    → Extends b r
    → dest i ≡ none
    → operands i ≡ r.1 ∷ []
    → IsNumbered (push i r.0)
unfolding number_step
uses b i r e d o = push-IsNumbered i r.0 e.numbered (ground (arith, d, o, e.below))

-- An instruction with no temporaries at all.
plain :
    (b : MirBuilder) (i : MirInstruction)
    → IsNumbered b
    → dest i ≡ none
    → operands i ≡ []
    → IsNumbered (push i b)
unfolding number_step
plain b i h d o = push-IsNumbered i b h (ground (arith, d, o))

lower_operation-IsNumbered :
    (binding : Option Text) (e : TypedExpr) (b : MirBuilder)
    → IsNumbered b
    → IsNumbered (lower_operation binding e b)
unfolding number_step operands dest
lower_operation-IsNumbered none e b h =
    uses b _ (lower_expr e b) (lower_expr-Extends e b h) refl refl
lower_operation-IsNumbered (some name) e b h =
    let x = lower_expr-Extends e b h in
    push-IsNumbered (MirInstruction.store_local name (lower_expr e b).1 false true)
      (push (MirInstruction.select_arm (some (lower_expr e b).1) (some name) false)
        (lower_expr e b).0)
      (uses b (MirInstruction.select_arm (some (lower_expr e b).1) (some name) false)
        (lower_expr e b) x refl refl)
      (unfold push in ground (arith, x.below))

lower_select_kind-IsNumbered :
    (binding : Option Text) (kind : TypedSelectArmKind) (b : MirBuilder)
    → IsNumbered b
    → IsNumbered (lower_select_kind binding kind b)
unfolding lower_select_kind operands dest
lower_select_kind-IsNumbered binding (TypedSelectArmKind.recv e) b h =
    lower_operation-IsNumbered binding e b h
lower_select_kind-IsNumbered binding (TypedSelectArmKind.send e) b h =
    lower_operation-IsNumbered binding e b h
lower_select_kind-IsNumbered binding TypedSelectArmKind.default b h = plain b _ h refl refl

mutual
  unfolding lower_stmt operands dest

  lower_stmt-IsNumbered :
      (stmt : TypedStmt) (b : MirBuilder) → IsNumbered b → IsNumbered (lower_stmt stmt b)
  lower_stmt-IsNumbered (TypedStmt.return e) b h =
      uses b _ (lower_expr e b) (lower_expr-Extends e b h) refl refl
  lower_stmt-IsNumbered (TypedStmt.bind name mutable e) b h =
      uses b _ (lower_expr e b) (lower_expr-Extends e b h) refl refl
  lower_stmt-IsNumbered (TypedStmt.assign name e) b h =
      uses b _ (lower_expr e b) (lower_expr-Extends e b h) refl refl
  lower_stmt-IsNumbered TypedStmt.break b h = plain b _ h refl refl
  lower_stmt-IsNumbered TypedStmt.continue b h = plain b _ h refl refl
  lower_stmt-IsNumbered (TypedStmt.if_stmt condition then_body else_body) b h =
      plain _ _
        (lower_else-IsNumbered else_body _ (
          lower_block-IsNumbered then_body _
            (uses b _ (lower_expr condition b) (lower_expr-Extends condition b h) refl refl)))
        refl refl
  lower_stmt-IsNumbered (TypedStmt.while condition body) b h =
      plain _ _
        (lower_block-IsNumbered body _
          (uses b _ (lower_expr condition b) (lower_expr-Extends condition b h) refl refl))
        refl refl
  lower_stmt-IsNumbered (TypedStmt.for binding iterable body) b h =
      plain _ _
        (lower_block-IsNumbered body _
          (uses b _ (lower_expr iterable b) (lower_expr-Extends iterable b h) refl refl))
        refl refl
  lower_stmt-IsNumbered (TypedStmt.match value arms) b h =
      plain _ _
        (lower_arms-IsNumbered arms _
          (uses b _ (lower_expr value b) (lower_expr-Extends value b h) refl refl))
        refl refl
  lower_stmt-IsNumbered (TypedStmt.select arms) b h =
      plain _ _ (lower_select_arms-IsNumbered arms _ (plain b _ h refl refl)) refl refl
  lower_stmt-IsNumbered (TypedStmt.expr e) b h =
      uses b _ (lower_expr e b) (lower_expr-Extends e b h) refl refl

  lower_block-IsNumbered :
      (stmts : TypedBlock) (b : MirBuilder) → IsNumbered b → IsNumbered (lower_block stmts b)
  lower_block-IsNumbered TypedBlock.nil b h = h
  lower_block-IsNumbered (TypedBlock.cons stmt stmts) b h =
      lower_block-IsNumbered stmts _ (lower_stmt-IsNumbered stmt b h)

  lower_else-IsNumbered :
      (stmts : TypedBlock) (b : MirBuilder) → IsNumbered b → IsNumbered (lower_else stmts b)
  lower_else-IsNumbered TypedBlock.nil b h = h
  lower_else-IsNumbered (TypedBlock.cons stmt stmts) b h =
      lower_block-IsNumbered stmts _ (lower_stmt-IsNumbered stmt _ (plain b _ h refl refl))

  lower_arms-IsNumbered :
      (arms : TypedMatchArms) (b : MirBuilder) → IsNumbered b → IsNumbered (lower_arms arms b)
  lower_arms-IsNumbered TypedMatchArms.no_arms b h = h
  lower_arms-IsNumbered (TypedMatchArms.arm pattern body arms) b h =
      lower_arms-IsNumbered arms _ (lower_block-IsNumbered body _ (plain b _ h refl refl))

  lower_select_arms-IsNumbered :
      (arms : TypedSelectArms) (b : MirBuilder)
      → IsNumbered b
      → IsNumbered (lower_select_arms arms b)
  lower_select_arms-IsNumbered TypedSelectArms.no_select_arms b h = h
  lower_select_arms-IsNumbered (TypedSelectArms.select_arm binding kind body arms) b h =
      lower_select_arms-IsNumbered arms _
        (lower_block-IsNumbered body _ (lower_select_kind-IsNumbered binding kind b h))

-- The temporaries that a list of instructions defines, in order.
abbrev cons_dest : Option ℕ → List ℕ → List ℕ
cons_dest none ds = ds
cons_dest (some d) ds = d ∷ ds

abbrev pub dests : List MirInstruction → List ℕ
dests [] = []
dests (i ∷ is) = cons_dest (dest i) (dests is)

-- `n, n + 1, …`, so many of them.
abbrev pub range_from : ℕ → ℕ → List ℕ
range_from n zero = []
range_from n (suc k) = n ∷ range_from (n + 1) k

-- With `n` temporaries defined before, each instruction uses only what is defined before it.
abbrev pub AreDefined : ℕ → List MirInstruction → Type 0
AreDefined n [] = Unit
AreDefined n (i ∷ is) =
    All (λ o. o < n) (operands i) × AreDefined (n + length (cons_dest (dest i) [])) is

abbrev pub AreNumbered : ℕ → List MirInstruction → Type 0
AreNumbered n is = (dests is ≡ range_from n (length (dests is))) × AreDefined n is

all_below-All : (n : ℕ) (xs : List ℕ) → all_below n xs ≡ true → All (λ o. o < n) xs
all_below-All n [] h = tt
all_below-All n (x ∷ xs) h = ground (arith, all_below-All n xs)

-- What a step of the numbering says of its instruction.
data Numbers (n : ℕ) (i : MirInstruction) (m : ℕ) : Type 0 where
  no_dest : dest i ≡ none → m ≡ n → Numbers n i m
  next_dest : dest i ≡ some n → m ≡ n + 1 → Numbers n i m

define-Numbers :
    (n : ℕ) (i : MirInstruction) (d : Option ℕ) {m : ℕ}
    → dest i ≡ d
    → define n d ≡ some m
    → Numbers n i m
define-Numbers n i none e h = no_dest e (ground arith)
define-Numbers n i (some d) e h = next_dest (e ∙ ground arith) (ground arith)

number_step-Numbers :
    (n : ℕ) (i : MirInstruction) {m : ℕ}
    → number_step n i ≡ some m
    → All (λ o. o < n) (operands i) × Numbers n i m
unfolding number_step
number_step-Numbers n i h =
    (all_below-All n (operands i) (ground arith), define-Numbers n i (dest i) refl (ground arith))

cons-AreNumbered :
    (n m : ℕ) (i : MirInstruction) (is : List MirInstruction)
    → All (λ o. o < n) (operands i)
    → Numbers n i m
    → AreNumbered m is
    → AreNumbered n (i ∷ is)
cons-AreNumbered n m i is used (no_dest e q) (d, a) =
    rw e (rw (← q) (d, (rw q used, rw add-zero a)))
cons-AreNumbered n m i is used (next_dest e q) (d, a) =
    rw e (ap (◌∷◌ n) (d ∙ rw q), (used, rw (← q) a))

steps-AreNumbered :
    (n : ℕ) (is : List MirInstruction) {m : ℕ} → steps number_step n is ≡ some m → AreNumbered n is
steps-AreNumbered n [] h = (refl, tt)
steps-AreNumbered n (i ∷ is) h =
    let (k, first, later) = >>=-eq-some (number_step n i) (λ t. steps number_step t is) h in
    let (used, numbers) = number_step-Numbers n i first in
    cons-AreNumbered n k i is used numbers (steps-AreNumbered k is later)

-- In the instructions of every lowered function the temporaries that are defined are 0, 1, 2 and
-- so on, each defined once, in this order, and every operand is defined before its use.
pub lower_function-AreNumbered :
    (function : TypedFunction) → AreNumbered 0 (lower_function function).instructions
unfolding lower_function
lower_function-AreNumbered function =
    steps-AreNumbered 0 _ (lower_block-IsNumbered function.body empty_builder refl)
