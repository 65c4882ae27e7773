-- ===== src/ModuleGraph/Collect/Kept/Between.antt =====
-- Between two items, what `collect_items` keeps has unique names and all of them in its maps; the
-- loops over structs and enums.
use gof_lang.Prelude.{
  ◌≡◌, refl, sym, ap, subst, ◌≢◌, ◌∙◌, true, List, [], ◌∷◌, ◌++◌, map, Option, none, Text, text_eq,
  text_eq_iff, All, All-append, elim_option, Bool-cases, inl, inr, append-nil, append_assoc,
}
use gof_lang.Source.{Span}
use gof_lang.Source.Provider.{get}
use gof_lang.Diagnostics.{Diagnostic}
use gof_lang.Ast.Item.{StructDecl, EnumDecl, Function}
use gof_lang.ModuleGraph.Collect.{
  Seen, SeenMethods, key_eq, get_method, Collected, report, collect_struct, collect_enum,
}
use gof_lang.ModuleGraph.Collect.Distinct.{
  free_name, free_names, method_key, method_keys, AreApart, struct_names, enum_names,
  HaveUniqueNames, struct-AreApart, enum-AreApart,
}

-- What is not found is not among the names.
abbrev pub Covers {ℓ κ} : {A : Type ℓ} {B : Type κ} → (A → Option B) → List A → Type (ℓ ⊔ κ)
Covers look xs = (n : _) → look n ≡ none → All (λ m. m ≢ n) xs

get-none :
    (n k : Text) (at : Text × Span) (seen : Seen)
    → get n ((k, at) ∷ seen) ≡ none
    → (k ≢ n) × (get n seen ≡ none)
get-none n k at seen h = elim (Bool-cases (text_eq k n)) [
  | inl same ↦ cc (rw same at h)
  | inr differ ↦ (λ e. cc (differ, (text_eq_iff k n).1 e), rw differ at h)
]

key_eq_refl : (k : Text × Text) → key_eq k k ≡ true
key_eq_refl (a, b) = rw ((text_eq_iff a a).1 refl, (text_eq_iff b b).1 refl) refl

get_method-none :
    (n k : Text × Text) (at : Text × Span) (seen : SeenMethods)
    → get_method n ((k, at) ∷ seen) ≡ none
    → (k ≢ n) × (get_method n seen ≡ none)
get_method-none n k at seen h = elim (Bool-cases (key_eq k n)) [
  | inl same ↦ cc (rw same at h)
  | inr differ ↦
      (λ e. cc (differ, subst (λ m. key_eq k m ≡ true) e (key_eq_refl k)), rw differ at h)
]

pub push-Covers :
    (seen : Seen) (xs : List Text) (k : Text) (at : Text × Span)
    → Covers (λ n. get n seen) xs
    → Covers (λ n. get n ((k, at) ∷ seen)) (xs ++ k ∷ [])
push-Covers seen xs k at c n h =
    let (differ, absent) = get-none n k at seen h in
    All-append _ xs (k ∷ []) (c n absent) (differ, tt)

pub push_method-Covers :
    (seen : SeenMethods) (xs : List (Text × Text)) (k : Text × Text) (at : Text × Span)
    → Covers (λ n. get_method n seen) xs
    → Covers (λ n. get_method n ((k, at) ∷ seen)) (xs ++ k ∷ [])
push_method-Covers seen xs k at c n h =
    let (differ, absent) = get_method-none n k at seen h in
    All-append _ xs (k ∷ []) (c n absent) (differ, tt)

-- Between two items.
pub record Inv (st : Collected) : Type 0 where
  pub structs : Covers (λ n. get n st.seen_structs) (struct_names st.structs)
  pub enums : Covers (λ n. get n st.seen_enums) (enum_names st.enums)
  pub functions : Covers (λ n. get n st.seen) (free_names st.functions)
  pub methods : Covers (λ n. get_method n st.seen_methods) (method_keys st.functions)
  pub unique : HaveUniqueNames st

pub report-Inv : (st : Collected) (d : Diagnostic) → Inv st → Inv (report st d)
report-Inv st d h = record {
  structs = h.structs;
  enums = h.enums;
  functions = h.functions;
  methods = h.methods;
  unique = h.unique;
}

map-push {ℓ κ} :
    {A : Type ℓ} {B : Type κ} (f : A → B) (xs : List A) (x : A)
    → map f xs ++ f x ∷ [] ≡ map f (xs ++ x ∷ [])
map-push f [] x = refl
map-push f (y ∷ ys) x = ap (◌∷◌ (f y)) (map-push f ys x)

pub free_names-push :
    (fs : List Function) (f : Function)
    → free_names fs ++ free_name f.name f.receiver_type ≡ free_names (fs ++ f ∷ [])
free_names-push [] f = sym (append-nil (free_name f.name f.receiver_type))
free_names-push (g ∷ gs) f =
    append_assoc (free_name g.name g.receiver_type) (free_names gs)
      (free_name f.name f.receiver_type)
    ∙ ap (◌++◌ (free_name g.name g.receiver_type)) (free_names-push gs f)

pub method_keys-push :
    (fs : List Function) (f : Function)
    → method_keys fs ++ method_key f.name f.receiver_type ≡ method_keys (fs ++ f ∷ [])
method_keys-push [] f = sym (append-nil (method_key f.name f.receiver_type))
method_keys-push (g ∷ gs) f =
    append_assoc (method_key g.name g.receiver_type) (method_keys gs)
      (method_key f.name f.receiver_type)
    ∙ ap (◌++◌ (method_key g.name g.receiver_type)) (method_keys-push gs f)

pub struct-Inv :
    (path : Text) (st : Collected) (decl : StructDecl) → Inv st → Inv (collect_struct path st decl)
struct-Inv path st decl h =
    elim_option Inv (get decl.name st.seen_structs)
      (λ new.
        elim_option Inv (get decl.name st.seen)
          (λ no_function.
            let pushed = map-push (λ (d : StructDecl). d.name) st.structs decl in
            record {
              structs =
                  subst (Covers _) pushed
                    (push-Covers st.seen_structs _ decl.name (path, decl.span) h.structs);
              enums = h.enums;
              functions = h.functions;
              methods = h.methods;
              unique =
                  subst
                    (λ ss.
                      AreApart ss (enum_names st.enums) (free_names st.functions)
                        (method_keys st.functions))
                    pushed
                    (struct-AreApart h.unique decl.name (h.structs decl.name new)
                      (h.functions decl.name no_function));
            })
          (λ at _. report-Inv st _ h))
      (λ at _. report-Inv st _ h)

pub enum-Inv :
    (path : Text) (st : Collected) (decl : EnumDecl) → Inv st → Inv (collect_enum path st decl)
enum-Inv path st decl h =
    elim_option Inv (get decl.name st.seen_enums)
      (λ new.
        elim_option Inv (get decl.name st.seen_structs)
          (λ _.
            elim_option Inv (get decl.name st.seen)
              (λ no_function.
                let pushed = map-push (λ (d : EnumDecl). d.name) st.enums decl in
                record {
                  structs = h.structs;
                  enums =
                      subst (Covers _) pushed
                        (push-Covers st.seen_enums _ decl.name (path, decl.span) h.enums);
                  functions = h.functions;
                  methods = h.methods;
                  unique =
                      subst
                        (λ es.
                          AreApart (struct_names st.structs) es (free_names st.functions)
                            (method_keys st.functions))
                        pushed
                        (enum-AreApart h.unique decl.name (h.enums decl.name new)
                          (h.functions decl.name no_function));
                })
              (λ at _. report-Inv st _ h))
          (λ at _. report-Inv st _ h))
      (λ at _. report-Inv st _ h)
