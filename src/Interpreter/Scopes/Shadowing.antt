-- ===== src/Interpreter/Scopes/Shadowing.antt =====
-- What a name stands for after a definition, an assignment and the end of a block.
use gof_lang.Prelude.{
  ◌≡◌, ◌≢◌, refl, ap, sym, subst, ◌∙◌, inl, inr, Bool, true, false, [], ◌∷◌, Option, none, some,
  Text, codes, text_eq, text_eq_iff, Bool-cases, if_cases, arith,
}
use mathlib.Core.Option.{some-injective}
use gof_lang.Source.{Span}
use gof_lang.Interpreter.Scopes.{
  Binding, Scope, ScopeStack, insert, find, get, write, write_in, or_else, push_scope, pop_scope,
  define_current, Assignment, stored, rejected, assign, assign_to,
}

other_key : (k name other : Text) → other ≢ name → text_eq k name ≡ true → text_eq k other ≡ false
other_key k name other ne e = elim (Bool-cases (text_eq k other)) [
  | inl f ↦ absurd (ne (sym ((text_eq_iff k other).0 f) ∙ (text_eq_iff k name).0 e))
  | inr f ↦ f
]

module _ {V : Type 0} where
  find-nil : (name : Text) → find {V = V} name [] ≡ none
  unfolding find
  find-nil name = refl

  find-insert :
      (name : Text) (b : Binding V) (scope : Scope V) → find name (insert name b scope) ≡ some b
  unfolding find insert
  find-insert name b [] = let same = (text_eq_iff name name).1 refl in ground arith
  find-insert name b ((k, c) ∷ rest) = let later = find-insert name b rest in ground arith

  find-insert-ne :
      (name other : Text) (b : Binding V) (scope : Scope V)
      → other ≢ name
      → find other (insert name b scope) ≡ find other scope
  unfolding find insert
  find-insert-ne name other b [] ne = elim (Bool-cases (text_eq name other)) [
    | inl e ↦ absurd (ne (sym ((text_eq_iff name other).0 e)))
    | inr e ↦ ground arith
  ]
  find-insert-ne name other b ((k, c) ∷ rest) ne =
      let later = find-insert-ne name other b rest ne in
      elim (Bool-cases (text_eq k name)) [
        | inl e ↦ let apart = other_key k name other ne e in ground arith
        | inr e ↦ ground arith
      ]

  -- After a write every other name stands for what it did.
  get-write-ne :
      (name other : Text) (v : V) (scopes : ScopeStack V)
      → other ≢ name
      → get other (write name v scopes) ≡ get other scopes
  unfolding get write
  get-write-ne name other v [] ne = refl
  get-write-ne name other v (scope ∷ scopes) ne =
      in_scope (find name scope) (get-write-ne name other v scopes ne)
    where
      in_scope :
          (o : Option (Binding V))
          → get other (write name v scopes) ≡ get other scopes
          → get other (write_in name v o scope scopes (write name v scopes))
            ≡ or_else (find other scope) (get other scopes)
      in_scope none outer = ap (λ o. or_else (find other scope) o) outer
      in_scope (some b) outer =
          ap (λ o. or_else o (get other scopes))
            (find-insert-ne name other (record b { value = v }) scope ne)

  -- A name that is bound stands for the new value, with the mutability that it had.
  get-write :
      (name : Text) (v : V) (scopes : ScopeStack V) {b : Binding V}
      → get name scopes ≡ some b
      → get name (write name v scopes) ≡ some (record b { value = v })
  unfolding get write
  get-write name v [] h = cc
  get-write name v (scope ∷ scopes) {b} h =
      in_scope (find name scope) refl (λ k. get-write name v scopes k)
    where
      in_scope :
          (o : Option (Binding V))
          → find name scope ≡ o
          → (get name scopes ≡ some b
              → get name (write name v scopes) ≡ some (record b { value = v }))
          → get name (write_in name v o scope scopes (write name v scopes))
            ≡ some (record b { value = v })
      in_scope none e outer =
          ap (λ o. or_else o (get name (write name v scopes))) e
          ∙ outer (ap (λ o. or_else o (get name scopes)) (sym e) ∙ h)
      in_scope (some c) e outer =
          let same = some-injective c b (ap (λ o. or_else o (get name scopes)) (sym e) ∙ h) in
          ap (λ o. or_else o (get name scopes)) (find-insert name (record c { value = v }) scope)
          ∙ ap (λ (d : Binding V). some (record d { value = v })) same

  -- The other names stand for what they did.
  abbrev pub KeepsOthers : Text → ScopeStack V → ScopeStack V → Type 0
  KeepsOthers name before after = (other : Text) → other ≢ name → get other after ≡ get other before

  -- What an assignment does, by what the name stands for: an immutable binding is reported, with
  -- GOF3003, and a mutable one gets the value and stays mutable; a name that is not bound is
  -- defined as immutable in the innermost scope. All other names stand for what they did.
  abbrev pub IsGuarded : Text → V → ScopeStack V → Bool → Option (Assignment V) → Type 0
  IsGuarded name v before true (some (stored after)) =
      (get name after ≡ some (record { mutable = true; value = v })) × KeepsOthers name before after
  IsGuarded name v before false (some (rejected d)) = d.code ≡ codes "GOF3003"
  IsGuarded name v before _ _ = ⊥

  abbrev pub IsAssigned :
      Text → V → ScopeStack V → Option (Binding V) → Option (Assignment V) → Type 0
  IsAssigned name v before (some b) o = IsGuarded name v before b.mutable o
  IsAssigned name v before none (some (stored after)) =
      (get name after ≡ some (record { mutable = false; value = v }))
      × KeepsOthers name before after
      × (pop_scope after ≡ pop_scope before)
  IsAssigned name v before none _ = ⊥

  guarded :
      (name : Text) (v : V) (span : Span) (source_path : Text) (scopes : ScopeStack V)
      (b : Binding V) (mutable : Bool)
      → b.mutable ≡ mutable
      → get name scopes ≡ some b
      → IsGuarded name v scopes mutable (assign_to name v span source_path scopes (some b))
  guarded name v span source_path scopes b true m h = rw m (
    get-write name v scopes h ∙ ap (λ t. some (record { mutable = t; value = v })) m,
    λ other ne. get-write-ne name other v scopes ne,
  )
  guarded name v span source_path scopes b false m h = rw m refl

  -- In a call, the stack of scopes is not empty. There an assignment to an immutable binding is
  -- reported, with GOF3003, and changes nothing; a mutable binding gets the value and stays mutable;
  -- a name that is not bound is defined as immutable, in the innermost scope. Every other name
  -- stands for what it did.
  pub assign-get :
      (name : Text) (v : V) (span : Span) (source_path : Text) (scope : Scope V)
      (scopes : ScopeStack V)
      → IsAssigned name v
          (scope ∷ scopes)
          (get name (scope ∷ scopes))
          (assign name v span source_path (scope ∷ scopes))
  unfolding assign get define_current pop_scope
  assign-get name v span source_path scope scopes = by_binding (get name (scope ∷ scopes)) refl
    where
      new : Binding V
      new = record { mutable = false; value = v }

      by_binding :
          (o : Option (Binding V))
          → get name (scope ∷ scopes) ≡ o
          → IsAssigned name v
              (scope ∷ scopes)
              o
              (assign_to name v span source_path (scope ∷ scopes) o)
      by_binding (some b) h = guarded name v span source_path (scope ∷ scopes) b b.mutable refl h
      by_binding none h = (
        ap (λ o. or_else o (get name scopes)) (find-insert name new scope),
        (λ other ne.
            ap (λ o. or_else o (get other scopes)) (find-insert-ne name other new scope ne)),
        refl,
      )

  -- What an assignment in a block does to a name that the block has defined: if it is accepted, the
  -- binding is mutable and gets the value, and at the end of the block the scopes are what they
  -- were; if it is reported, the binding is immutable.
  abbrev pub IsLocal : Text → Binding V → V → ScopeStack V → Option (Assignment V) → Type 0
  IsLocal name b v outer (some (stored after)) =
      (b.mutable ≡ true)
      × (get name after ≡ some (record b { value = v }))
      × (pop_scope after ≡ outer)
  IsLocal name b v outer (some (rejected d)) = (b.mutable ≡ false) × (d.code ≡ codes "GOF3003")
  IsLocal name b v outer none = ⊥

  local :
      (name : Text) (v : V) (span : Span) (source_path : Text) (b : Binding V)
      (scopes : ScopeStack V)
      → IsLocal name b v scopes
          (assign_to name v span source_path (insert name b [] ∷ scopes) (some b))
  unfolding get write pop_scope
  local name v span source_path b scopes =
      let found = ap (λ o. or_else o (get name scopes)) (find-insert name b []) in
      if_cases (IsLocal name b v scopes) b.mutable
        (λ m. (
          m,
          get-write name v (insert name b [] ∷ scopes) found,
          ap (λ o. pop_scope (write_in name v o (insert name b []) scopes (write name v scopes)))
              (find-insert name b []),
        ))
        (λ m. (m, refl))

  -- A name that is defined in a new block stands for its binding there, and every other name for
  -- what it did; at the end of the block the scopes are what they were. An assignment to the name
  -- in the block never panics: it is reported, with GOF3003, if the binding is immutable, and
  -- otherwise it is gone with the block too.
  pub block-shadows :
      (name : Text) (b : Binding V) (scopes : ScopeStack V)
      → (inner : ScopeStack V) × (define_current name b (push_scope scopes) ≡ some inner)
        × (get name inner ≡ some b)
        × KeepsOthers name scopes inner
        × (pop_scope inner ≡ scopes)
        × ((v : V) (span : Span) (source_path : Text)
            → IsLocal name b v scopes (assign name v span source_path inner))
  unfolding define_current pop_scope get assign
  block-shadows name b scopes =
      let found = ap (λ o. or_else o (get name scopes)) (find-insert name b []) in
      (
        insert name b [] ∷ scopes,
        refl,
        found,
        (λ other ne.
            ap (λ o. or_else o (get other scopes))
              (find-insert-ne name other b [] ne ∙ find-nil other)),
        refl,
        (λ v span source_path.
            subst
              (λ o.
                IsLocal name b v scopes
                  (assign_to name v span source_path (insert name b [] ∷ scopes) o))
              (sym found) (local name v span source_path b scopes)),
      )
