-- ===== src/Interpreter/Scopes.antt =====
-- compiler/gof-compiler/src/interpreter.rs: `ScopeStack`, and the assignment to a name. The innermost scope stands first. A scope
-- is a list of names with their bindings, each name once, in no order that matters. The values are
-- a parameter.
pub mod Shadowing
mod Tests
use gof_lang.Prelude.{
  Bool, true, false, List, [], ◌∷◌, ◌++◌, Option, none, some, Text, codes, text_eq, if◌then◌else◌,
  ◌>>=◌,
}
use gof_lang.Source.{Span}
use gof_lang.Diagnostics.{Diagnostic, error, with_fix_it, with_source_path}

pub record Binding (V : Type 0) : Type 0 where
  pub mutable : Bool
  pub value : V

abbrev pub Scope : Type 0 → Type 0
Scope V = List (Text × Binding V)

abbrev pub ScopeStack : Type 0 → Type 0
ScopeStack V = List (Scope V)

module _ {V : Type 0} where
  -- `HashMap::insert` and `HashMap::get`
  unfoldable pub insert : Text → Binding V → Scope V → Scope V
  insert name b [] = (name, b) ∷ []
  insert name b ((k, c) ∷ rest) =
      let later = insert name b rest in if text_eq k name then (k, b) ∷ rest else (k, c) ∷ later

  unfoldable pub find : Text → Scope V → Option (Binding V)
  find name [] = none
  find name ((k, c) ∷ rest) = let later = find name rest in if text_eq k name then some c else later

  -- `params.iter().zip(args).collect()`
  unfoldable pub bind_params : List Text → List V → Scope V → Scope V
  bind_params (p ∷ ps) (a ∷ as_) scope =
      bind_params ps as_ (insert p (record { mutable = false; value = a }) scope)
  bind_params _ _ scope = scope

  abbrev pub new_stack : List Text → List V → ScopeStack V
  new_stack params args = bind_params params args [] ∷ []

  abbrev pub push_scope : ScopeStack V → ScopeStack V
  push_scope scopes = [] ∷ scopes

  unfoldable pub pop_scope : ScopeStack V → ScopeStack V
  pop_scope [] = []
  pop_scope (_ ∷ scopes) = scopes

  -- `none` where `expect` panics.
  unfoldable pub define_current : Text → Binding V → ScopeStack V → Option (ScopeStack V)
  define_current name b [] = none
  define_current name b (scope ∷ scopes) = some (insert name b scope ∷ scopes)

  unfoldable pub contains_in_current : Text → ScopeStack V → Option Bool
  contains_in_current name [] = none
  contains_in_current name (scope ∷ _) =
      some (elim (find name scope) [ none ↦ false | some _ ↦ true ])

  abbrev pub or_else : Option (Binding V) → Option (Binding V) → Option (Binding V)
  or_else none o = o
  or_else (some b) o = some b

  unfoldable pub get : Text → ScopeStack V → Option (Binding V)
  get name [] = none
  get name (scope ∷ scopes) = or_else (find name scope) (get name scopes)

  -- `get_mut`, and the write of a value through it.
  abbrev pub write_in :
      Text → V → Option (Binding V) → Scope V → ScopeStack V → ScopeStack V → ScopeStack V
  write_in name v (some b) scope scopes written =
      insert name (record b { value = v }) scope ∷ scopes
  write_in name v none scope scopes written = scope ∷ written

  unfoldable pub write : Text → V → ScopeStack V → ScopeStack V
  write name v [] = []
  write name v (scope ∷ scopes) =
      let written = write name v scopes in write_in name v (find name scope) scope scopes written

-- What an assignment does: it changes the scopes, or is reported.
pub data Assignment (V : Type 0) : Type 0 where
  stored : ScopeStack V → Assignment V
  rejected : Diagnostic → Assignment V

abbrev pub reassigned_diagnostic : Text → Span → Text → Diagnostic
reassigned_diagnostic name span source_path =
    with_source_path
      (with_fix_it
        (error (codes "GOF3003")
          (codes "cannot reassign immutable binding `" ++ (name ++ codes "`"))
          (codes "bindings declared without `mut` are immutable after their first assignment") span)
        (codes "declare the binding as `mut name = ...` before reassigning it"))
      source_path

module _ {V : Type 0} where
  -- `Stmt::Assign` after the evaluation of the value. What `get_mut` finds is what `get` finds. A
  -- name that is not bound is defined; `none` is the panic of `define_current`.
  abbrev pub assign_to :
      Text → V → Span → Text → ScopeStack V → Option (Binding V) → Option (Assignment V)
  assign_to name v span source_path scopes (some b) =
      if b.mutable
      then some (stored (write name v scopes))
      else some (rejected (reassigned_diagnostic name span source_path))
  assign_to name v span source_path scopes none =
      (define_current name (record { mutable = false; value = v }) scopes >>= λ defined.
      some (stored defined))

  unfoldable pub assign : Text → V → Span → Text → ScopeStack V → Option (Assignment V)
  assign name v span source_path scopes = assign_to name v span source_path scopes (get name scopes)
