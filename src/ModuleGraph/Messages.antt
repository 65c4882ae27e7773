-- ===== src/ModuleGraph/Messages.antt =====
-- compiler/gof-compiler/src/module_graph.rs: the diagnostics of the resolver.
use gof_lang.Prelude.{List, [], ◌∷◌, ◌++◌, Text, codes, decimal}
use gof_lang.Source.{Span}
use gof_lang.Source.Provider.{PackageManifestError}
use gof_lang.Diagnostics.{Diagnostic, error, with_fix_it, with_source_path}

-- `join`
abbrev pub join : Text → List Text → Text
join separator [] = []
join separator (t ∷ ts) = t ++ each ts
  where
    each : List Text → Text
    each [] = []
    each (t ∷ ts) = separator ++ (t ++ each ts)

abbrev pub quoted : Text → Text → Text → Text
quoted before name after = before ++ (codes "`" ++ (name ++ (codes "`" ++ after)))

unfoldable pub package_manifest_diagnostic : Text → Span → PackageManifestError → Diagnostic
package_manifest_diagnostic source_path span (PackageManifestError.read path message) =
    with_source_path
      (with_fix_it
        (error (codes "GOF3089") (codes "invalid package manifest")
          (codes "failed to read " ++ (path ++ (codes ": " ++ message))) span)
        (codes "repair `gof.mod` or remove the broken local package configuration"))
      source_path
package_manifest_diagnostic source_path span (PackageManifestError.parse path message) =
    with_source_path
      (with_fix_it
        (error (codes "GOF3089") (codes "invalid package manifest")
          (codes "failed to parse " ++ (path ++ (codes ": " ++ message))) span)
        (codes "fix the TOML syntax in `gof.mod`"))
      source_path
package_manifest_diagnostic source_path span
      (PackageManifestError.missing_dependency_manifest manifest dependency expected_manifest) =
    with_source_path
      (with_fix_it
        (error (codes "GOF3089") (quoted (codes "invalid local dependency ") dependency [])
          (manifest
            ++ quoted (codes " declares ") dependency
                (quoted (codes ", but ") expected_manifest (codes " does not exist")))
          span)
        (codes "point the dependency at a directory that contains a valid `gof.mod`"))
      source_path

unfoldable pub import_resolution_missing_file_diagnostic : Text → Text → Span → Text → Diagnostic
import_resolution_missing_file_diagnostic source_path name span import_path =
    with_source_path
      (with_fix_it
        (error (codes "GOF3014") (quoted (codes "cannot resolve import ") name [])
          (codes "expected a module entrypoint at " ++ import_path) span)
        (codes
          "create the imported `.gof` entrypoint, add the missing local dependency file, or remove the import"))
      source_path

unfoldable pub reserved_stdlib_conflict_diagnostic :
    Text → Text → Span → Text → List Text → Diagnostic
reserved_stdlib_conflict_diagnostic source_path name span stdlib_path conflicts =
    with_source_path
      (with_fix_it
        (error (codes "GOF3108")
          (quoted (codes "reserved stdlib import ") name (codes " conflicts with local code"))
          (quoted [] name (codes " is reserved for the shipped stdlib entrypoint at ")
            ++ (stdlib_path
                ++ (codes "; conflicting local candidates: " ++ join (codes ", ") conflicts)))
          span)
        (codes
          "rename the local module or dependency alias; shipped stdlib imports `bytes`, `io`, `time`, `net`, `http`, and `testing` are reserved"))
      source_path

unfoldable pub unresolved_diagnostic : Text → Text → Span → List Text → Diagnostic
unresolved_diagnostic source_path name span searched =
    with_source_path
      (with_fix_it
        (error (codes "GOF3014") (quoted (codes "cannot resolve import ") name [])
          (codes "searched: " ++ join (codes ", ") searched) span)
        (codes
          "create the imported module, add a local dependency in `gof.mod`, or remove the import"))
      source_path

unfoldable pub cycle_diagnostic : Text → Text → Span → List Text → Diagnostic
cycle_diagnostic source_path name span cycle =
    with_source_path
      (with_fix_it
        (error (codes "GOF3015") (quoted (codes "import cycle detected for ") name [])
          (codes "the module graph loops back on itself: " ++ join (codes " -> ") cycle) span)
        (codes "break the cycle by removing one import edge or extracting shared code"))
      source_path

-- A place: a path, a line and a column.
abbrev pub place : Text × Span → Text
place (path, span) =
    path ++ (codes ":" ++ (decimal span.line ++ (codes ":" ++ decimal span.column)))

-- The diagnostics of `collect_items` differ in these texts.
unfoldable pub name_diagnostic : Text → Text → Text → Text → Span → Text → Diagnostic
name_diagnostic code message note fix_it span source_path =
    with_source_path (with_fix_it (error code message note span) fix_it) source_path
