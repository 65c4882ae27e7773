-- ===== src/ModuleGraph/Collect/Kept.antt =====
-- `collect_items` keeps the names of the items apart.
mod Between
use gof_lang.Prelude.{
  ◌≡◌, refl, sym, ap, subst, ◌≢◌, ◌∙◌, true, List, [], ◌∷◌, ◌++◌, map, Option, none, some, Text,
  text_eq, text_eq_iff, All, All-append, elim_option, Bool-cases, Option-cases, inl, inr,
  append-nil, append_assoc,
}
use mathlib.Core.Option.{some-injective}
use gof_lang.Source.{Span}
use gof_lang.Source.Provider.{get}
use gof_lang.Diagnostics.{Diagnostic, Diagnostics}
use gof_lang.Ast.Statement.{TypeRef}
use gof_lang.Ast.Item.{StructDecl, EnumDecl, Function, Module}
use gof_lang.ModuleGraph.Collect.{
  Seen, SeenMethods, key_eq, get_method, Collected, nothing_collected, report, collect_struct,
  collect_enum, collect_method, collect_free, collect_received, collect_function, receiver_name,
  each, collect_module, collect_items,
}
use gof_lang.ModuleGraph.Collect.Distinct.{
  free_name, free_names, method_key, method_keys, AreApart, struct_names, enum_names,
  HaveUniqueNames, struct-AreApart, enum-AreApart, function-AreApart, method-AreApart,
}
use gof_lang.ModuleGraph.Collect.Kept.Between.{
  Covers, push-Covers, push_method-Covers, Inv, report-Inv, free_names-push, method_keys-push,
  struct-Inv, enum-Inv,
}

-- The new names of a function that is kept.
function-names :
    (st : Collected) (decl : Function) (o : Option TypeRef)
    → decl.receiver_type ≡ o
    → (free_names st.functions ++ free_name decl.name o ≡ free_names (st.functions ++ decl ∷ []))
      × (method_keys st.functions ++ method_key decl.name o
          ≡ method_keys (st.functions ++ decl ∷ []))
function-names st decl o e = (
  ap (λ r. free_names st.functions ++ free_name decl.name r) (sym e)
      ∙ free_names-push st.functions decl,
  ap (λ r. method_keys st.functions ++ method_key decl.name r) (sym e)
      ∙ method_keys-push st.functions decl,
)

method-Inv :
    (path : Text) (st : Collected) (decl : Function) (ty : TypeRef)
    → decl.receiver_type ≡ some ty
    → Inv st
    → Inv (collect_method path st decl (receiver_name ty))
method-Inv path st decl ty e h =
    let key : Text × Text = (receiver_name ty, decl.name) in
    elim_option Inv (get_method key st.seen_methods)
      (λ new.
        let (names, keys) = function-names st decl (some ty) e in
        let same_names = sym (append-nil (free_names st.functions)) ∙ names in
        record {
          structs = h.structs;
          enums = h.enums;
          functions = subst (Covers _) same_names h.functions;
          methods =
              subst (Covers _) keys
                (push_method-Covers st.seen_methods _ key (path, decl.span) h.methods);
          unique =
              subst
                (λ fs.
                  AreApart (struct_names st.structs) (enum_names st.enums) fs
                    (method_keys (st.functions ++ decl ∷ [])))
                same_names
                (subst
                  (λ ms.
                    AreApart (struct_names st.structs) (enum_names st.enums)
                      (free_names st.functions) ms)
                  keys (method-AreApart h.unique key (h.methods key new)));
        })
      (λ at _. report-Inv st _ h)

free-Inv :
    (path : Text) (st : Collected) (decl : Function)
    → decl.receiver_type ≡ none
    → Inv st
    → Inv (collect_free path st decl)
free-Inv path st decl e h =
    elim_option Inv (get decl.name st.seen_structs)
      (λ no_struct.
        elim_option Inv (get decl.name st.seen_enums)
          (λ no_enum.
            elim_option Inv (get decl.name st.seen)
              (λ new.
                let (names, keys) = function-names st decl none e in
                let same_keys = sym (append-nil (method_keys st.functions)) ∙ keys in
                record {
                  structs = h.structs;
                  enums = h.enums;
                  functions =
                      subst (Covers _) names
                        (push-Covers st.seen _ decl.name (path, decl.span) h.functions);
                  methods = subst (Covers _) same_keys h.methods;
                  unique =
                      subst
                        (λ ms.
                          AreApart (struct_names st.structs) (enum_names st.enums)
                            (free_names (st.functions ++ decl ∷ [])) ms)
                        same_keys
                        (subst
                          (λ fs.
                            AreApart (struct_names st.structs) (enum_names st.enums) fs
                              (method_keys st.functions))
                          names
                          (function-AreApart h.unique decl.name (h.structs decl.name no_struct)
                            (h.enums decl.name no_enum) (h.functions decl.name new)));
                })
              (λ at _. report-Inv st _ h))
          (λ at _. report-Inv st _ h))
      (λ at _. report-Inv st _ h)

function-Inv :
    (path : Text) (st : Collected) (decl : Function) → Inv st → Inv (collect_function path st decl)
function-Inv path st decl h = by_receiver decl.receiver_type refl
  where
    by_receiver :
        (o : Option TypeRef) → decl.receiver_type ≡ o → Inv (collect_received path st decl o)
    by_receiver none e = free-Inv path st decl e h
    by_receiver (some ty) e = method-Inv path st decl ty e h

each-Inv {ℓ} :
    {A : Type ℓ} (step : Collected → A → Collected) (st : Collected) (as_ : List A)
    → ((st : Collected) (a : A) → Inv st → Inv (step st a))
    → Inv st
    → Inv (each step st as_)
each-Inv step st [] k h = h
each-Inv step st (a ∷ as_) k h = each-Inv step (step st a) as_ k (k st a h)

module-Inv : (path : Text) (st : Collected) (m : Module) → Inv st → Inv (collect_module path st m)
module-Inv path st m h = each-Inv (collect_function path) _ m.functions (function-Inv path) (
    each-Inv (collect_enum path) _ m.enums (enum-Inv path)
      (each-Inv (collect_struct path) st m.structs (struct-Inv path) h))

items-Inv :
    (modules : List (Text × Module)) (paths : List Text) (st end : Collected)
    → collect_items modules paths st ≡ some end
    → Inv st
    → Inv end
unfolding collect_items
items-Inv modules [] st end h i = subst Inv (some-injective st end h) i
items-Inv modules (path ∷ paths) st end h i = elim (Option-cases (get path modules)) [
  | inl missing ↦ cc (rw (missing, collect_items) at h)
  | inr (m, e) ↦
      items-Inv modules paths (collect_module path st m) end (rw (e, collect_items) at h)
        (module-Inv path st m i)
]

-- When `collect_items` returns, whatever it has reported, no two structs, no two enums and no two
-- functions that it keeps have one name, no two methods have one name and one type, and no function
-- has the name of a struct or of an enum.
pub collect_items-HaveUniqueNames :
    (modules : List (Text × Module)) (paths : List Text) (before : Diagnostics) (end : Collected)
    → collect_items modules paths (nothing_collected before) ≡ some end
    → HaveUniqueNames end
collect_items-HaveUniqueNames modules paths before end h =
    (items-Inv modules paths (nothing_collected before) end h nothing).unique
  where
    nothing : Inv (nothing_collected before)
    nothing = record {
      structs = λ n e. tt;
      enums = λ n e. tt;
      functions = λ n e. tt;
      methods = λ n e. tt;
      unique = record {
        structs_differ = tt;
        enums_differ = tt;
        functions_differ = tt;
        methods_differ = tt;
        structs_apart = tt;
        enums_apart = tt;
      };
    }
