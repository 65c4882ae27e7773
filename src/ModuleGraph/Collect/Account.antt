-- ===== src/ModuleGraph/Collect/Account.antt =====
-- Every declaration is kept or reported; a struct with the name of an enum is kept, or reported, by
-- the order of the modules.
use gof_lang.Prelude.{
  ℕ, suc, ◌+◌, ◌≡◌, refl, ap, ◌∙◌, ◌≢◌, List, [], ◌∷◌, ◌++◌, Option, none, some, Text, codes,
  length, length-append, elim_option, elim_some, Option-cases, inl, inr, arith,
}
use mathlib.Core.Option.{some-injective}
use gof_lang.Source.{Span}
use gof_lang.Source.Provider.{get}
use gof_lang.Source.Maps.{get-same, get-other}
use gof_lang.Diagnostics.{Diagnostic, Diagnostics, diagnostic_codes}
use gof_lang.Ast.Statement.{TypeRef}
use gof_lang.Ast.Item.{StructDecl, EnumDecl, Function, Module}
use gof_lang.Parser.Module.{empty_module}
use gof_lang.ModuleGraph.Messages.{name_diagnostic}
use gof_lang.ModuleGraph.Load.Order.{silent-absurd}
use gof_lang.ModuleGraph.Collect.{
  get_method, Collected, nothing_collected, report, collect_struct, collect_enum, collect_received,
  collect_function, receiver_name, each, collect_module, collect_items,
}

-- What is kept, and what is reported.
abbrev pub accounted : Collected → ℕ
accounted st = length st.structs + length st.enums + length st.functions + length st.diagnostics

-- One more, and no diagnostic is taken back.
abbrev Adds : Collected → Collected → Type 0
Adds st next = (accounted next ≡ suc (accounted st)) × (next.diagnostics ≡ [] → st.diagnostics ≡ [])

report-Adds : (st : Collected) (d : Diagnostic) → Adds st (report st d)
report-Adds st d =
    (omega (arith, length-append st.diagnostics (d ∷ [])), λ e. silent-absurd st.diagnostics d e)

struct-Adds :
    (path : Text) (st : Collected) (decl : StructDecl) → Adds st (collect_struct path st decl)
struct-Adds path st decl =
    elim_option (Adds st) (get decl.name st.seen_structs)
      (λ _.
        elim_option (Adds st) (get decl.name st.seen)
          (λ _. (omega (arith, length-append st.structs (decl ∷ [])), λ e. e))
          (λ at _. report-Adds st _))
      (λ at _. report-Adds st _)

enum-Adds : (path : Text) (st : Collected) (decl : EnumDecl) → Adds st (collect_enum path st decl)
enum-Adds path st decl =
    elim_option (Adds st) (get decl.name st.seen_enums)
      (λ _.
        elim_option (Adds st) (get decl.name st.seen_structs)
          (λ _.
            elim_option (Adds st) (get decl.name st.seen)
              (λ _. (omega (arith, length-append st.enums (decl ∷ [])), λ e. e))
              (λ at _. report-Adds st _))
          (λ at _. report-Adds st _))
      (λ at _. report-Adds st _)

function-Adds :
    (path : Text) (st : Collected) (decl : Function) → Adds st (collect_function path st decl)
function-Adds path st decl = by_receiver decl.receiver_type
  where
    kept : length (st.functions ++ decl ∷ []) ≡ suc (length st.functions)
    kept = omega (arith, length-append st.functions (decl ∷ []))

    by_receiver : (o : Option TypeRef) → Adds st (collect_received path st decl o)
    by_receiver (some ty) =
        elim_option (Adds st) (get_method (receiver_name ty, decl.name) st.seen_methods)
          (λ _. (omega (arith, kept), λ e. e)) (λ at _. report-Adds st _)
    by_receiver none =
        elim_option (Adds st) (get decl.name st.seen_structs)
          (λ _.
            elim_option (Adds st) (get decl.name st.seen_enums)
              (λ _.
                elim_option (Adds st) (get decl.name st.seen) (λ _. (omega (arith, kept), λ e. e))
                  (λ at _. report-Adds st _))
              (λ at _. report-Adds st _))
          (λ at _. report-Adds st _)

-- So many more.
abbrev pub AddsAll : ℕ → Collected → Collected → Type 0
AddsAll n st next =
    (accounted next ≡ n + accounted st) × (next.diagnostics ≡ [] → st.diagnostics ≡ [])

each-Adds {ℓ} :
    {A : Type ℓ} (step : Collected → A → Collected) (st : Collected) (as_ : List A)
    → ((st : Collected) (a : A) → Adds st (step st a))
    → AddsAll (length as_) st (each step st as_)
each-Adds step st [] k = (omega arith, λ e. e)
each-Adds step st (a ∷ as_) k =
    let (more, quiet) = each-Adds step (step st a) as_ k in
    let (one, quiet_one) = k st a in (omega (arith, more, one), λ e. quiet_one (quiet e))

-- The declarations of a module, and of the modules at some paths.
abbrev pub declarations : Module → ℕ
declarations m = length m.structs + length m.enums + length m.functions

abbrev pub declared : List (Text × Module) → List Text → ℕ
declared modules [] = 0
declared modules (path ∷ paths) =
    elim (get path modules) [ none ↦ 0 | some m ↦ declarations m ] + declared modules paths

module-Adds :
    (path : Text) (st : Collected) (m : Module)
    → AddsAll (declarations m) st (collect_module path st m)
module-Adds path st m =
    let structs = each (collect_struct path) st m.structs in
    let enums = each (collect_enum path) structs m.enums in
    let (a, x) = each-Adds (collect_struct path) st m.structs (struct-Adds path) in
    let (b, y) = each-Adds (collect_enum path) structs m.enums (enum-Adds path) in
    let (c, z) = each-Adds (collect_function path) enums m.functions (function-Adds path) in
    (omega (arith, a, b, c), λ e. x (y (z e)))

pub items-Adds :
    (modules : List (Text × Module)) (paths : List Text) (st end : Collected)
    → collect_items modules paths st ≡ some end
    → AddsAll (declared modules paths) st end
unfolding collect_items
items-Adds modules [] st end h =
    let same = some-injective st end h in
    (omega (arith, ap accounted same), λ e. ap (λ (c : Collected). c.diagnostics) same ∙ e)
items-Adds modules (path ∷ paths) st end h = elim (Option-cases (get path modules)) [
  | inl missing ↦ cc (rw (missing, collect_items) at h)
  | inr (m, e) ↦
      let (later, quiet) =
        items-Adds modules paths (collect_module path st m) end (rw (e, collect_items) at h) in
      let (one, quiet_one) = module-Adds path st m in
      (rw e (omega (arith, later, one)), λ q. quiet_one (quiet q))
]

-- When `collect_items` returns, what it keeps and the diagnostics that it adds are together as many
-- as the structs, enums and functions of the modules.
pub collect_items-accounted :
    (modules : List (Text × Module)) (paths : List Text) (before : Diagnostics) (end : Collected)
    → collect_items modules paths (nothing_collected before) ≡ some end
    → accounted end ≡ declared modules paths + length before
collect_items-accounted modules paths before end h =
    omega (arith, (items-Adds modules paths (nothing_collected before) end h).0)

abbrev pub with_struct : StructDecl → Module
with_struct s = record empty_module { structs = s ∷ [] }

abbrev pub with_enum : EnumDecl → Module
with_enum e = record empty_module { enums = e ∷ [] }

-- The codes of what is reported.
abbrev pub codes_of : Option Collected → List Text
codes_of none = []
codes_of (some st) = diagnostic_codes st.diagnostics

-- Two modules, loaded in this order.
abbrev pub both : Text → Module → Text → Module → Option Collected
both p m q n = collect_items ((p, m) ∷ (q, n) ∷ []) (p ∷ q ∷ []) (nothing_collected [])

both-some :
    (p q : Text) (m n : Module)
    → p ≢ q
    → both p m q n ≡ some (collect_module q (collect_module p (nothing_collected []) m) n)
unfolding collect_items
both-some p q m n apart =
    let modules : List (Text × Module) = (p, m) ∷ (q, n) ∷ [] in
    let st = collect_module p (nothing_collected []) m in
    elim_some (get p modules) m none
      (λ m. collect_items modules (q ∷ []) (collect_module p (nothing_collected []) m))
      (get-same p p m ((q, n) ∷ []) refl)
    ∙ elim_some (get q modules) n none (λ n. some (collect_module q st n))
        (get-other p q m ((q, n) ∷ []) apart ∙ get-same q q n [] refl)

-- A struct and an enum of one name, in two modules: if the enum is loaded after the struct, GOF3021
-- is reported; if the struct is loaded after the enum, nothing is, and both are kept.
pub collect_items-struct_enum :
    (p q : Text) (s : StructDecl) (e : EnumDecl)
    → p ≢ q
    → s.name ≡ e.name
    → (codes_of (both p (with_struct s) q (with_enum e)) ≡ codes "GOF3021" ∷ [])
      × ((end : Collected) × (both p (with_enum e) q (with_struct s) ≡ some end)
          × (end.diagnostics ≡ [])
          × (end.structs ≡ s ∷ [])
          × (end.enums ≡ e ∷ []))
unfolding name_diagnostic
collect_items-struct_enum p q s e apart same =
    let at : Text × Span = (p, s.span) in
    (
      ap codes_of (both-some p q (with_struct s) (with_enum e) apart)
          ∙ ap (λ (st : Collected). diagnostic_codes st.diagnostics)
              (elim_some (get e.name ((s.name, at) ∷ [])) at _ _
                (get-same s.name e.name at [] same)),
      (_, both-some p q (with_enum e) (with_struct s) apart, refl, refl, refl),
    )
