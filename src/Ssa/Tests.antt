-- ===== src/Ssa/Tests.antt =====
-- The named form at a concrete function.
use mathlib.Core.List.{Nodup}
use gof_lang.Prelude.{ℕ, ◌≡◌, [], ◌∷◌, map, none, codes, pos}
use gof_lang.Source.{span}
use gof_lang.Ast.{FunctionKind}
use gof_lang.TypedHir.{GofType, typed, TypedExprKind, TypedStmt, TypedBlock, TypedFunction}
use gof_lang.Mir.Builder
use gof_lang.Mir.Instruction.{MirInstruction, MirModule}
use gof_lang.Mir.Numbering.Stmts.{range_from}
use gof_lang.Ssa.Lower.{temp, lower_function, lower}
use gof_lang.Ssa.Raise.{raise, raise-lower}
use gof_lang.Ssa.Names.{temp_names, lower_function-single_assignment}

-- x = 1
abbrev sample_function : TypedFunction
sample_function = record {
  id = 0;
  kind = FunctionKind.function;
  fixture_scope = none;
  symbol_name = codes "f";
  receiver_type = none;
  name = codes "f";
  params = [];
  return_type = GofType.int;
  body =
      TypedBlock.cons
        (TypedStmt.assign (codes "x") (typed (TypedExprKind.int (pos 1)) GofType.int (span 1 1 2)))
        TypedBlock.nil;
}

lower_function-single_assignment_example :
    (n : ℕ) × (temp_names (lower_function (Builder.lower_function sample_function)).values
      ≡ map temp (range_from 0 n))
    × Nodup (temp_names (lower_function (Builder.lower_function sample_function)).values)
lower_function-single_assignment_example = lower_function-single_assignment sample_function

abbrev sample_module : MirModule
sample_module = record {
  functions =
      record {
        name = codes "f";
        params = codes "p" ∷ [];
        return_type = GofType.int;
        instructions = MirInstruction.load_local 0 (codes "p") ∷ MirInstruction.return 0 ∷ [];
      }
      ∷ [];
}

raise-lower_example : raise (lower sample_module) ≡ sample_module
raise-lower_example = raise-lower sample_module
