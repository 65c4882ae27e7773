-- ===== src/Source/Provider.antt =====
-- compiler/gof-compiler/src/source.rs: source files, and where they come from; and the parts of
-- compiler/gof-compiler/src/package.rs that a provider hands out. A path is the text of a Unix path
-- without a `.`, a doubled slash or a slash at the end. What the operating system does to make a
-- path canonical is a parameter.
use gof_lang.Prelude.{
  Bool, true, false, ◌||◌, List, [], ◌∷◌, ◌++◌, Option, none, some, Text, codes, text_eq, is_empty,
  ◌==◌, if◌then◌else◌,
}

pub record SourceFile : Type 0 where
  pub path : Text
  pub text : Text

-- `Path::parent`
abbrev pub before_slash : Text → Option Text
before_slash [] = none
before_slash (c ∷ cs) = elim (before_slash cs) [
  | some before ↦ some (c ∷ before)
  | none ↦ if c == b'/' then some [] else none
]

abbrev pub parent : Text → Option Text
parent path = elim (before_slash path) [
  | none ↦ if is_empty path then none else some []
  | some before ↦
      if is_empty before
      then if text_eq path (codes "/") then none else some (codes "/")
      else some before
]

-- `Path::join`, with a relative path.
abbrev pub ends_with_slash : Text → Bool
ends_with_slash [] = false
ends_with_slash (c ∷ []) = c == b'/'
ends_with_slash (_ ∷ c ∷ cs) = ends_with_slash (c ∷ cs)

abbrev pub join_path : Text → Text → Text
join_path base name =
    if is_empty base || ends_with_slash base then base ++ name else base ++ (codes "/" ++ name)

-- `is_reserved_stdlib_module_name`
abbrev pub reserved_stdlib_module_names : List Text
reserved_stdlib_module_names =
    codes "bytes" ∷ codes "io" ∷ codes "time" ∷ codes "net" ∷ codes "http" ∷ codes "testing" ∷ []

abbrev pub contains : Text → List Text → Bool
contains t [] = false
contains t (u ∷ us) = text_eq u t || contains t us

abbrev pub is_reserved_stdlib_module_name : Text → Bool
is_reserved_stdlib_module_name name = contains name reserved_stdlib_module_names

-- A `HashMap` or a `BTreeMap` with texts as keys; what is inserted last is found.
abbrev pub get {ℓ} : {A : Type ℓ} → Text → List (Text × A) → Option A
get key [] = none
get key ((k, a) ∷ rest) = if text_eq k key then some a else get key rest

abbrev pub is_some {ℓ} : {A : Type ℓ} → Option A → Bool
is_some none = false
is_some (some _) = true

pub record LocalDependency : Type 0 where
  pub package_root : Text
  pub manifest_path : Text
  pub entry_path : Text

pub record PackageContext : Type 0 where
  pub manifest_path : Text
  pub package_root : Text
  pub source_root : Text
  pub module_name : Text
  pub edition : Text
  pub dependencies : List (Text × LocalDependency)

pub data PackageManifestError : Type 0 where
  read parse : Text → Text → PackageManifestError
  missing_dependency_manifest : Text → Text → Text → PackageManifestError

pub data ContextResult : Type 0 where
  ok : Option PackageContext → ContextResult
  err : PackageManifestError → ContextResult

-- `SourceProvider`. An error of `load_source` is never looked at.
pub record Provider : Type 0 where
  pub normalize_path : Text → Text
  pub is_file : Text → Bool
  pub load_source : Text → Option SourceFile
  pub stdlib_module_path : Text → Option Text
  pub package_context_for_source : Text → ContextResult

-- `EmbeddedSourceProvider`, with the paths of its maps as they are normalized on entry.
pub record EmbeddedSourceProvider : Type 0 where
  pub sources : List (Text × SourceFile)
  pub package_contexts : List (Text × Option PackageContext)

module _ (normalize_source_path : Text → Text) (compiler_workspace_root : Text) where
  abbrev pub stdlib_path : Text → Option Text
  stdlib_path name =
      if is_reserved_stdlib_module_name name
      then some (
          normalize_source_path
            (join_path (join_path compiler_workspace_root (codes "stdlib")) (name ++ codes ".gof")))
      else none

  abbrev pub flat_context : Option (Option PackageContext) → Option PackageContext
  flat_context none = none
  flat_context (some context) = context

  abbrev pub embedded_provider : EmbeddedSourceProvider → Provider
  embedded_provider bundle = record {
    normalize_path = normalize_source_path;
    is_file = λ path. is_some (get (normalize_source_path path) bundle.sources);
    load_source = λ path. get (normalize_source_path path) bundle.sources;
    stdlib_module_path = stdlib_path;
    package_context_for_source = λ path.
        ContextResult.ok (flat_context (get (normalize_source_path path) bundle.package_contexts));
  }
