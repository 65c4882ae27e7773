-- ===== src/Interpreter/Scopes/Tests.antt =====
-- Scopes with numbers in them, and the theorems at them.
use gof_lang.Prelude.{ℕ, ◌≡◌, refl, true, false, [], ◌∷◌, some, Text, codes, text_eq}
use gof_lang.Source.{Span, span}
use gof_lang.Interpreter.Scopes.{
  Binding, Scope, ScopeStack, insert, find, bind_params, new_stack, push_scope, pop_scope,
  define_current, get, write, stored, assign, contains_in_current,
}
use gof_lang.Interpreter.Scopes.Shadowing.{
  KeepsOthers, IsAssigned, assign-get, IsLocal, block-shadows,
}

abbrev no_span : Span
no_span = span 1 1 1

-- A call with two arguments, in a block.
abbrev scopes : ScopeStack ℕ
scopes = push_scope (new_stack (codes "x" ∷ codes "y" ∷ []) (1 ∷ 2 ∷ []))

abbrev bound : ℕ → Binding ℕ
bound n = record { mutable = false; value = n }

param_bound : get (codes "x") scopes ≡ some (bound 1)
unfolding get find bind_params insert text_eq
param_bound = refl

not_in_block : contains_in_current (codes "x") scopes ≡ some false
unfolding contains_in_current find
not_in_block = refl

-- A block with a mutable binding, which an assignment changes.
abbrev inner_scope : Scope ℕ
inner_scope = insert (codes "n") (record { mutable = true; value = 3 }) []

assigns_mutable :
    assign (codes "n") 4 no_span (codes "a.gof") (inner_scope ∷ scopes)
    ≡ some (stored (((codes "n", record { mutable = true; value = 4 }) ∷ []) ∷ scopes))
unfolding assign get write find insert text_eq
assigns_mutable = refl

assign-get_example :
    IsAssigned
      (codes "n")
      4
      (inner_scope ∷ scopes)
      (get (codes "n") (inner_scope ∷ scopes))
      (assign (codes "n") 4 no_span (codes "a.gof") (inner_scope ∷ scopes))
assign-get_example = assign-get (codes "n") 4 no_span (codes "a.gof") inner_scope scopes

block-shadows_example :
    let b : Binding ℕ = record { mutable = true; value = 7 } in
    (inner : ScopeStack ℕ) × (define_current (codes "x") b (push_scope scopes) ≡ some inner)
    × (get (codes "x") inner ≡ some b)
    × KeepsOthers (codes "x") scopes inner
    × (pop_scope inner ≡ scopes)
    × ((v : ℕ) (span : Span) (source_path : Text)
        → IsLocal (codes "x") b v scopes (assign (codes "x") v span source_path inner))
block-shadows_example = block-shadows (codes "x") (record { mutable = true; value = 7 }) scopes
