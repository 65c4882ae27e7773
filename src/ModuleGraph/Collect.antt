-- ===== src/ModuleGraph/Collect.antt =====
-- compiler/gof-compiler/src/module_graph.rs: `collect_items`, over the modules in load order.
pub mod Distinct
pub mod Kept
pub mod Account
use gof_lang.Prelude.{
  Bool, true, false, ◌&&◌, List, [], ◌∷◌, ◌++◌, Option, none, some, Text, codes, text_eq,
  if◌then◌else◌,
}
use gof_lang.Source.{Span}
use gof_lang.Source.Provider.{get}
use gof_lang.Diagnostics.{Diagnostic, Diagnostics, push}
use gof_lang.Ast.Statement.{TypeRef}
use gof_lang.Ast.Item.{StructDecl, EnumDecl, Function, Module}
use gof_lang.ModuleGraph.Messages.{quoted, place, name_diagnostic}

-- `HashMap<String, (PathBuf, Span)>`, and the same for methods.
abbrev pub Seen : Type 0
Seen = List (Text × (Text × Span))

abbrev pub SeenMethods : Type 0
SeenMethods = List ((Text × Text) × (Text × Span))

abbrev pub key_eq : Text × Text → Text × Text → Bool
key_eq (a, b) (c, d) = text_eq a c && text_eq b d

abbrev pub get_method : Text × Text → SeenMethods → Option (Text × Span)
get_method key [] = none
get_method key ((k, a) ∷ rest) = if key_eq k key then some a else get_method key rest

pub record Collected : Type 0 where
  pub seen_structs : Seen
  pub seen_enums : Seen
  pub seen : Seen
  pub seen_methods : SeenMethods
  pub structs : List StructDecl
  pub enums : List EnumDecl
  pub functions : List Function
  pub diagnostics : Diagnostics

abbrev pub nothing_collected : Diagnostics → Collected
nothing_collected ds = record {
  seen_structs = [];
  seen_enums = [];
  seen = [];
  seen_methods = [];
  structs = [];
  enums = [];
  functions = [];
  diagnostics = ds;
}

abbrev pub report : Collected → Diagnostic → Collected
report st d = record st { diagnostics = push st.diagnostics d }

abbrev pub first_declared : Text × Span → Text
first_declared at = codes "first declared at " ++ place at

abbrev pub was_declared : Text → Text × Span → Text
was_declared what at = codes "the " ++ (what ++ (codes " was first declared at " ++ place at))

abbrev pub top_level : Text → Text → Text
top_level name what = quoted (codes "top-level name ") name (codes " conflicts between " ++ what)

abbrev pub collect_struct : Text → Collected → StructDecl → Collected
collect_struct path st decl = elim (get decl.name st.seen_structs) [
  | some at ↦ report st (
      name_diagnostic (codes "GOF3020")
        (quoted (codes "duplicate struct ") decl.name (codes " in module graph"))
        (first_declared at) (codes "rename one of the structs or remove the conflicting import")
        decl.span path)
  | none ↦ elim (get decl.name st.seen) [
    | some at ↦ report st (
        name_diagnostic (codes "GOF3021") (top_level decl.name (codes "a struct and a function"))
          (was_declared (codes "function") at)
          (codes "rename either the struct or the function so constructors stay unambiguous")
          decl.span path)
    | none ↦ record st {
      seen_structs = (decl.name, (path, decl.span)) ∷ st.seen_structs;
      structs = st.structs ++ decl ∷ [];
    }
  ]
]

abbrev pub collect_enum : Text → Collected → EnumDecl → Collected
collect_enum path st decl = elim (get decl.name st.seen_enums) [
  | some at ↦ report st (
      name_diagnostic (codes "GOF3029")
        (quoted (codes "duplicate enum ") decl.name (codes " in module graph")) (first_declared at)
        (codes "rename one of the enums or remove the conflicting import") decl.span path)
  | none ↦ elim (get decl.name st.seen_structs) [
    | some at ↦ report st (
        name_diagnostic (codes "GOF3021") (top_level decl.name (codes "an enum and a struct"))
          (was_declared (codes "struct") at)
          (codes "rename either the enum or the struct so type names stay unambiguous") decl.span
          path)
    | none ↦ elim (get decl.name st.seen) [
      | some at ↦ report st (
          name_diagnostic (codes "GOF3021") (top_level decl.name (codes "an enum and a function"))
            (was_declared (codes "function") at)
            (codes "rename either the enum or the function so top-level names stay unambiguous")
            decl.span path)
      | none ↦ record st {
        seen_enums = (decl.name, (path, decl.span)) ∷ st.seen_enums;
        enums = st.enums ++ decl ∷ [];
      }
    ]
  ]
]

abbrev pub receiver_name : TypeRef → Text
receiver_name (TypeRef.type_ref name _ _) = name

abbrev pub collect_method : Text → Collected → Function → Text → Collected
collect_method path st decl receiver = elim (get_method (receiver, decl.name) st.seen_methods) [
  | some at ↦ report st (
      name_diagnostic (codes "GOF3034")
        (quoted (codes "duplicate method ") (receiver ++ (codes "." ++ decl.name))
          (codes " in module graph"))
        (first_declared at) (codes "rename one of the methods or remove the conflicting import")
        decl.span path)
  | none ↦ record st {
    seen_methods = ((receiver, decl.name), (path, decl.span)) ∷ st.seen_methods;
    functions = st.functions ++ decl ∷ [];
  }
]

abbrev pub collect_free : Text → Collected → Function → Collected
collect_free path st decl = elim (get decl.name st.seen_structs) [
  | some at ↦ report st (
      name_diagnostic (codes "GOF3021") (top_level decl.name (codes "a function and a struct"))
        (was_declared (codes "struct") at)
        (codes "rename either the function or the struct so calls stay unambiguous") decl.span path)
  | none ↦ elim (get decl.name st.seen_enums) [
    | some at ↦ report st (
        name_diagnostic (codes "GOF3021") (top_level decl.name (codes "a function and an enum"))
          (was_declared (codes "enum") at)
          (codes "rename either the function or the enum so top-level names stay unambiguous")
          decl.span path)
    | none ↦ elim (get decl.name st.seen) [
      | some at ↦ report st (
          name_diagnostic (codes "GOF3016")
            (quoted (codes "duplicate function ") decl.name (codes " in module graph"))
            (first_declared at)
            (codes "rename one of the functions or remove the conflicting import") decl.span path)
      | none ↦ record st {
        seen = (decl.name, (path, decl.span)) ∷ st.seen;
        functions = st.functions ++ decl ∷ [];
      }
    ]
  ]
]

abbrev pub collect_received : Text → Collected → Function → Option TypeRef → Collected
collect_received path st decl (some ty) = collect_method path st decl (receiver_name ty)
collect_received path st decl none = collect_free path st decl

abbrev pub collect_function : Text → Collected → Function → Collected
collect_function path st decl = collect_received path st decl decl.receiver_type

abbrev pub each {ℓ} : {A : Type ℓ} → (Collected → A → Collected) → Collected → List A → Collected
each step st [] = st
each step st (a ∷ as_) = each step (step st a) as_

abbrev pub collect_module : Text → Collected → Module → Collected
collect_module path st m =
    each (collect_function path)
      (each (collect_enum path) (each (collect_struct path) st m.structs) m.enums) m.functions

-- The loop over `load_order`; `none` is the panic of `expect` on a module that is not loaded.
unfoldable pub collect_items : List (Text × Module) → List Text → Collected → Option Collected
collect_items modules [] st = some st
collect_items modules (path ∷ paths) st = elim (get path modules) [
  | none ↦ none
  | some m ↦ collect_items modules paths (collect_module path st m)
]
