-- ===== src/ModuleGraph/Collect/Distinct.antt =====
-- The items that are kept have names of their own.
use gof_lang.Prelude.{sym, ◌≢◌, List, [], ◌∷◌, ◌++◌, map, Option, none, some, Text, All, All-append}
use gof_lang.Ast.Statement.{TypeRef}
use gof_lang.Ast.Item.{StructDecl, EnumDecl, Function}
use gof_lang.ModuleGraph.Collect.{Collected, receiver_name}

abbrev pub AreDistinct {ℓ} : {A : Type ℓ} → List A → Type ℓ
AreDistinct [] = Unit
AreDistinct (x ∷ xs) = All (λ y. y ≢ x) xs × AreDistinct xs

pub AreDistinct-push {ℓ} :
    {A : Type ℓ} (xs : List A) (x : A)
    → AreDistinct xs
    → All (λ y. y ≢ x) xs
    → AreDistinct (xs ++ x ∷ [])
AreDistinct-push [] x d h = (tt, tt)
AreDistinct-push (y ∷ ys) x d h =
    (All-append (λ z. z ≢ y) ys (x ∷ []) d.0 (λ e. h.0 (sym e), tt), AreDistinct-push ys x d.1 h.1)

-- The functions without a receiver, and the methods.
abbrev pub free_name : Text → Option TypeRef → List Text
free_name name none = name ∷ []
free_name name (some _) = []

abbrev pub free_names : List Function → List Text
free_names [] = []
free_names (f ∷ fs) = free_name f.name f.receiver_type ++ free_names fs

abbrev pub method_key : Text → Option TypeRef → List (Text × Text)
method_key name none = []
method_key name (some ty) = (receiver_name ty, name) ∷ []

abbrev pub method_keys : List Function → List (Text × Text)
method_keys [] = []
method_keys (f ∷ fs) = method_key f.name f.receiver_type ++ method_keys fs

-- No two structs, no two enums and no two functions have one name, and no two methods of one type;
-- and no function has the name of a struct or of an enum.
pub record AreApart (structs enums functions : List Text) (methods : List (Text × Text))
    : Type 0 where
  pub structs_differ : AreDistinct structs
  pub enums_differ : AreDistinct enums
  pub functions_differ : AreDistinct functions
  pub methods_differ : AreDistinct methods
  pub structs_apart : All (λ s. All (λ f. f ≢ s) functions) structs
  pub enums_apart : All (λ e. All (λ f. f ≢ e) functions) enums

abbrev pub struct_names : List StructDecl → List Text
struct_names = map (λ d. d.name)

abbrev pub enum_names : List EnumDecl → List Text
enum_names = map (λ d. d.name)

abbrev pub HaveUniqueNames : Collected → Type 0
HaveUniqueNames st =
    AreApart (map (λ d. d.name) st.structs) (map (λ d. d.name) st.enums) (free_names st.functions)
      (method_keys st.functions)

module _ {ss es fs : List Text} {ms : List (Text × Text)} (u : AreApart ss es fs ms) where
  pub struct-AreApart :
      (n : Text) → All (λ s. s ≢ n) ss → All (λ f. f ≢ n) fs → AreApart (ss ++ n ∷ []) es fs ms
  struct-AreApart n h k = record {
    structs_differ = AreDistinct-push ss n u.structs_differ h;
    enums_differ = u.enums_differ;
    functions_differ = u.functions_differ;
    methods_differ = u.methods_differ;
    structs_apart = All-append _ ss (n ∷ []) u.structs_apart (k, tt);
    enums_apart = u.enums_apart;
  }

  pub enum-AreApart :
      (n : Text) → All (λ e. e ≢ n) es → All (λ f. f ≢ n) fs → AreApart ss (es ++ n ∷ []) fs ms
  enum-AreApart n h k = record {
    structs_differ = u.structs_differ;
    enums_differ = AreDistinct-push es n u.enums_differ h;
    functions_differ = u.functions_differ;
    methods_differ = u.methods_differ;
    structs_apart = u.structs_apart;
    enums_apart = All-append _ es (n ∷ []) u.enums_apart (k, tt);
  }

  -- A name that differs from each of some names.
  push_apart :
      (n : Text) (xs : List Text)
      → All (λ x. All (λ f. f ≢ x) fs) xs
      → All (λ x. x ≢ n) xs
      → All (λ x. All (λ f. f ≢ x) (fs ++ n ∷ [])) xs
  push_apart n [] a h = tt
  push_apart n (x ∷ xs) a h =
      (All-append _ fs (n ∷ []) a.0 (λ e. h.0 (sym e), tt), push_apart n xs a.1 h.1)

  pub function-AreApart :
      (n : Text)
      → All (λ s. s ≢ n) ss
      → All (λ e. e ≢ n) es
      → All (λ f. f ≢ n) fs
      → AreApart ss es (fs ++ n ∷ []) ms
  function-AreApart n h k l = record {
    structs_differ = u.structs_differ;
    enums_differ = u.enums_differ;
    functions_differ = AreDistinct-push fs n u.functions_differ l;
    methods_differ = u.methods_differ;
    structs_apart = push_apart n ss u.structs_apart h;
    enums_apart = push_apart n es u.enums_apart k;
  }

  pub method-AreApart : (m : Text × Text) → All (λ x. x ≢ m) ms → AreApart ss es fs (ms ++ m ∷ [])
  method-AreApart m h = record {
    structs_differ = u.structs_differ;
    enums_differ = u.enums_differ;
    functions_differ = u.functions_differ;
    methods_differ = AreDistinct-push ms m u.methods_differ h;
    structs_apart = u.structs_apart;
    enums_apart = u.enums_apart;
  }
