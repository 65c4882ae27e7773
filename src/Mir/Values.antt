-- ===== src/Mir/Values.antt =====
-- What lowered expressions compute. The operations of the language are a parameter: each takes
-- the values of its operands and a world, and gives a value and the next world, or stops, so that a
-- theorem about them also fixes the order of the effects. `eval` is the order of evaluation of
-- `eval_expr` and `eval_logical` of compiler/gof-compiler/src/interpreter.rs.
pub mod Correct
use gof_lang.Prelude.{
  ℕ, zero, suc, ◌≡◌, refl, ℤ, Bool, true, false, not, List, [], ◌∷◌, ◌++◌, Option, none, some, Text,
  length, steps, ◌==◌, if◌then◌else◌, ◌>>=◌,
}
use gof_lang.Ast.{BinaryOp, UnaryOp}
use gof_lang.TypedHir.{TypedExpr, typed, TypedExprKind, TypedExprs, TypedDictEntries}
use gof_lang.Mir.Instruction.{MirInstruction}
use gof_lang.Mir.Builder.{MirBuilder}

-- An operation with its operands, which are values or temporaries.
pub data Node (A : Type 0) : Type 0 where
  int : ℤ → Node A
  string : Text → Node A
  bool : Bool → Node A
  local : Text → Node A
  enum_variant : Text → Text → List A → Node A
  list : List A → Node A
  dict : List (A × A) → Node A
  struct_init : Text → List A → Node A
  field : A → Text → Node A
  call : Text → List A → Node A
  index : A → A → Node A
  spawn : Text → List A → Node A
  await propagate : A → Node A
  unary : UnaryOp → A → Node A
  binary : A → BinaryOp → A → Node A

-- The operation of an instruction, with the temporary that it defines.
unfoldable pub node : MirInstruction → Option (ℕ × Node ℕ)
node (MirInstruction.const_int d value) = some (d, Node.int value)
node (MirInstruction.const_string d value) = some (d, Node.string value)
node (MirInstruction.const_bool d value) = some (d, Node.bool value)
node (MirInstruction.const_enum_variant d enum_name variant args) =
    some (d, Node.enum_variant enum_name variant args)
node (MirInstruction.build_list d items) = some (d, Node.list items)
node (MirInstruction.build_dict d entries) = some (d, Node.dict entries)
node (MirInstruction.build_struct d name fields) = some (d, Node.struct_init name fields)
node (MirInstruction.load_local d name) = some (d, Node.local name)
node (MirInstruction.load_field d target name) = some (d, Node.field target name)
node (MirInstruction.call d callee args) = some (d, Node.call callee args)
node (MirInstruction.index d target place) = some (d, Node.index target place)
node (MirInstruction.spawn d callee args) = some (d, Node.spawn callee args)
node (MirInstruction.await d task) = some (d, Node.await task)
node (MirInstruction.propagate d value) = some (d, Node.propagate value)
node (MirInstruction.unary d op value) = some (d, Node.unary op value)
node (MirInstruction.binary d lhs op rhs) = some (d, Node.binary lhs op rhs)
node _ = none

module _ {V : Type 0} where
  abbrev pub get_elem? : List V → ℕ → Option V
  get_elem? [] i = none
  get_elem? (x ∷ xs) zero = some x
  get_elem? (x ∷ xs) (suc i) = get_elem? xs i

  unfoldable pub read_all : List V → List ℕ → Option (List V)
  read_all ts [] = some []
  read_all ts (i ∷ is) = do v ← get_elem? ts i; vs ← read_all ts is; some (v ∷ vs)

  unfoldable pub read_pairs : List V → List (ℕ × ℕ) → Option (List (V × V))
  read_pairs ts [] = some []
  read_pairs ts ((k, i) ∷ is) = do
    key ← get_elem? ts k
    v ← get_elem? ts i
    vs ← read_pairs ts is
    some ((key, v) ∷ vs)

  -- The operation with the values of its operands.
  unfoldable pub read : List V → Node ℕ → Option (Node V)
  read ts (Node.int value) = some (Node.int value)
  read ts (Node.string value) = some (Node.string value)
  read ts (Node.bool value) = some (Node.bool value)
  read ts (Node.local name) = some (Node.local name)
  read ts (Node.enum_variant enum_name variant args) = do
    vs ← read_all ts args
    some (Node.enum_variant enum_name variant vs)
  read ts (Node.list items) = do vs ← read_all ts items; some (Node.list vs)
  read ts (Node.dict entries) = do vs ← read_pairs ts entries; some (Node.dict vs)
  read ts (Node.struct_init name fields) = do
    vs ← read_all ts fields
    some (Node.struct_init name vs)
  read ts (Node.field target name) = do v ← get_elem? ts target; some (Node.field v name)
  read ts (Node.call callee args) = do vs ← read_all ts args; some (Node.call callee vs)
  read ts (Node.index target place) = do
    v ← get_elem? ts target
    i ← get_elem? ts place
    some (Node.index v i)
  read ts (Node.spawn callee args) = do vs ← read_all ts args; some (Node.spawn callee vs)
  read ts (Node.await task) = do v ← get_elem? ts task; some (Node.await v)
  read ts (Node.propagate value) = do v ← get_elem? ts value; some (Node.propagate v)
  read ts (Node.unary op value) = do v ← get_elem? ts value; some (Node.unary op v)
  read ts (Node.binary lhs op rhs) = do
    x ← get_elem? ts lhs
    y ← get_elem? ts rhs
    some (Node.binary x op y)

-- What a computation gives in a world: a value and the next world; or it stops, with an error or an
-- early return, in the world that it has reached.
pub data Outcome (A W : Type 0) : Type 0 where
  done : A → W → Outcome A W
  stopped : W → Outcome A W

module _ {W : Type 0} where
  abbrev pub and_then : {A B : Type 0} → Outcome A W → (A → W → Outcome B W) → Outcome B W
  and_then (done a w) f = f a w
  and_then (stopped w) f = stopped w

  -- Two computations in a row.
  abbrev pub combine :
      {A B C : Type 0} → (A → B → C) → Outcome A W → (W → Outcome B W) → Outcome C W
  combine f o next = and_then o (λ a w. and_then (next w) (λ b w'. done (f a b) w'))

abbrev pub is_logical : BinaryOp → Bool
is_logical BinaryOp.and_op = true
is_logical BinaryOp.or_op = true
is_logical _ = false

-- The left operand decides: `false` for `and`, `true` for `or`.
abbrev pub decides : BinaryOp → Bool → Bool
decides BinaryOp.and_op b = not b
decides BinaryOp.or_op b = b
decides _ b = false

abbrev pub pair : {A B : Type 0} → A → B → A × B
pair a b = (a, b)

module _ {V W : Type 0} (apply : Node V → W → Outcome V W) (truth : V → Bool) where
  -- An expression as the interpreter evaluates it: the operands from left to right, then the
  -- operation; but the right operand of `and` and `or` only if the left one does not decide, and
  -- nothing after what has stopped. `truth` is the Boolean that a value of the type `bool` is.
  unfoldable mutual
    pub eval : TypedExpr → W → Outcome V W
    eval (typed kind ty span) w = eval_kind kind w

    pub eval_kind : TypedExprKind → W → Outcome V W
    eval_kind (TypedExprKind.int value) w = apply (Node.int value) w
    eval_kind (TypedExprKind.string value) w = apply (Node.string value) w
    eval_kind (TypedExprKind.bool value) w = apply (Node.bool value) w
    eval_kind (TypedExprKind.local name) w = apply (Node.local name) w
    eval_kind (TypedExprKind.list items) w =
        and_then (eval_all items w) (λ vs w₁. apply (Node.list vs) w₁)
    eval_kind (TypedExprKind.dict entries) w =
        and_then (eval_pairs entries w) (λ vs w₁. apply (Node.dict vs) w₁)
    eval_kind (TypedExprKind.call callee args) w =
        and_then (eval_all args w) (λ vs w₁. apply (Node.call callee vs) w₁)
    eval_kind (TypedExprKind.method_call target method symbol_name args) w =
        and_then (combine (λ v vs. v ∷ vs) (eval target w) (λ w₁. eval_all args w₁))
          (λ vs w₂. apply (Node.call symbol_name vs) w₂)
    eval_kind (TypedExprKind.struct_init name args) w =
        and_then (eval_all args w) (λ vs w₁. apply (Node.struct_init name vs) w₁)
    eval_kind (TypedExprKind.enum_variant enum_name variant args) w =
        and_then (eval_all args w) (λ vs w₁. apply (Node.enum_variant enum_name variant vs) w₁)
    eval_kind (TypedExprKind.field target name) w =
        and_then (eval target w) (λ v w₁. apply (Node.field v name) w₁)
    eval_kind (TypedExprKind.index target position) w =
        and_then (combine pair (eval target w) (λ w₁. eval position w₁))
          (λ z w₂. apply (Node.index z.0 z.1) w₂)
    eval_kind (TypedExprKind.spawn callee args) w =
        and_then (eval_all args w) (λ vs w₁. apply (Node.spawn callee vs) w₁)
    eval_kind (TypedExprKind.await value) w =
        and_then (eval value w) (λ v w₁. apply (Node.await v) w₁)
    eval_kind (TypedExprKind.propagate value) w =
        and_then (eval value w) (λ v w₁. apply (Node.propagate v) w₁)
    eval_kind (TypedExprKind.unary op value) w =
        and_then (eval value w) (λ v w₁. apply (Node.unary op v) w₁)
    eval_kind (TypedExprKind.binary lhs op rhs) w = and_then (eval lhs w) (λ x w₁.
        if decides op (truth x)
        then done x w₁
        else and_then (eval rhs w₁) (λ y w₂. apply (Node.binary x op y) w₂))

    pub eval_all : TypedExprs → W → Outcome (List V) W
    eval_all TypedExprs.nil w = done [] w
    eval_all (TypedExprs.cons e es) w = combine (λ v vs. v ∷ vs) (eval e w) (λ w₁. eval_all es w₁)

    pub eval_pairs : TypedDictEntries → W → Outcome (List (V × V)) W
    eval_pairs TypedDictEntries.no_entries w = done [] w
    eval_pairs (TypedDictEntries.entry key value es) w =
        combine (λ k r. (k, r.0) ∷ r.1) (eval key w)
          (λ w₁. combine pair (eval value w₁) (λ w₂. eval_pairs es w₂))

-- There is no `and` and no `or` in the expression.
unfoldable mutual
  pub IsStrict : TypedExpr → Type 0
  IsStrict (typed kind ty span) = IsStrictKind kind

  pub IsStrictKind : TypedExprKind → Type 0
  IsStrictKind (TypedExprKind.list items) = AreStrict items
  IsStrictKind (TypedExprKind.dict entries) = EntriesAreStrict entries
  IsStrictKind (TypedExprKind.call callee args) = AreStrict args
  IsStrictKind (TypedExprKind.method_call target method symbol_name args) =
      IsStrict target × AreStrict args
  IsStrictKind (TypedExprKind.struct_init name args) = AreStrict args
  IsStrictKind (TypedExprKind.enum_variant enum_name variant args) = AreStrict args
  IsStrictKind (TypedExprKind.field target name) = IsStrict target
  IsStrictKind (TypedExprKind.index target position) = IsStrict target × IsStrict position
  IsStrictKind (TypedExprKind.spawn callee args) = AreStrict args
  IsStrictKind (TypedExprKind.await value) = IsStrict value
  IsStrictKind (TypedExprKind.propagate value) = IsStrict value
  IsStrictKind (TypedExprKind.unary op value) = IsStrict value
  IsStrictKind (TypedExprKind.binary lhs op rhs) =
      (is_logical op ≡ false) × IsStrict lhs × IsStrict rhs
  IsStrictKind _ = Unit

  pub AreStrict : TypedExprs → Type 0
  AreStrict TypedExprs.nil = Unit
  AreStrict (TypedExprs.cons e es) = IsStrict e × AreStrict es

  pub EntriesAreStrict : TypedDictEntries → Type 0
  EntriesAreStrict TypedDictEntries.no_entries = Unit
  EntriesAreStrict (TypedDictEntries.entry key value es) =
      IsStrict key × IsStrict value × EntriesAreStrict es

module _ {V W : Type 0} (apply : Node V → W → Outcome V W) where
  abbrev pub extend : List V → Outcome V W → Outcome (List V) W
  extend ts o = and_then o (λ v w. done (ts ++ v ∷ []) w)

  -- Running an instruction, with the values of the temporaries so far: its operands must be
  -- defined, and it must define the next temporary. Nothing runs after what has stopped.
  unfoldable pub exec : Outcome (List V) W → MirInstruction → Option (Outcome (List V) W)
  exec (stopped w) i = some (stopped w)
  exec (done ts w) i = do
    defined ← node i
    operation ← read ts defined.1
    if defined.0 == length ts then some (extend ts (apply operation w)) else none

  -- What the code of a builder computes in a world, with its value in this temporary.
  abbrev pub HasOutcome : W → Outcome V W → MirBuilder × ℕ → Type 0
  HasOutcome w (done v end) (b, i) =
      (ts : List V) × (steps exec (done [] w) b.instructions ≡ some (done ts end))
      × (get_elem? ts i ≡ some v)
  HasOutcome w (stopped end) (b, i) = steps exec (done [] w) b.instructions ≡ some (stopped end)
