-- ===== src/Ssa/Lower.antt =====
-- compiler/gof-compiler/src/ssa.rs and backend.rs: `lower`, with `format!("%{dest}")` as `temp`.
use mathlib.Core.Option
use gof_lang.Prelude.{ℕ, ◌∷◌, ◌++◌, map, Option, none, some, Text, codes, decimal}
use gof_lang.Mir.Instruction.{MirInstruction, MirFunction, MirModule}
use gof_lang.Ssa.Instruction.{SsaInstruction, SsaValue, SsaFunction, SsaModule, BackendArtifact}

unfoldable pub temp : ℕ → Text
temp n = b'%' ∷ decimal n

abbrev pub temp_pair : ℕ × ℕ → Text × Text
temp_pair p = (temp p.0, temp p.1)

abbrev pub select_arm_name : Option ℕ → Text
select_arm_name none = codes "%select_default"
select_arm_name (some operation) = codes "%select_arm_" ++ decimal operation

abbrev pub ssa_value : Text → SsaInstruction → SsaValue
ssa_value name instruction = record { name = name; instruction = instruction }

unfoldable pub lower_instruction : MirInstruction → SsaValue
lower_instruction (MirInstruction.const_int dest value) =
    ssa_value (temp dest) (SsaInstruction.const_int value)
lower_instruction (MirInstruction.const_string dest value) =
    ssa_value (temp dest) (SsaInstruction.const_string value)
lower_instruction (MirInstruction.const_bool dest value) =
    ssa_value (temp dest) (SsaInstruction.const_bool value)
lower_instruction (MirInstruction.const_enum_variant dest enum_name variant args) =
    ssa_value (temp dest) (SsaInstruction.const_enum_variant enum_name variant (map temp args))
lower_instruction (MirInstruction.build_list dest items) =
    ssa_value (temp dest) (SsaInstruction.build_list (map temp items))
lower_instruction (MirInstruction.build_dict dest entries) =
    ssa_value (temp dest) (SsaInstruction.build_dict (map temp_pair entries))
lower_instruction (MirInstruction.build_struct dest name fields) =
    ssa_value (temp dest) (SsaInstruction.build_struct name (map temp fields))
lower_instruction (MirInstruction.load_local dest name) =
    ssa_value (temp dest) (SsaInstruction.load_local name)
lower_instruction (MirInstruction.load_field dest target field) =
    ssa_value (temp dest) (SsaInstruction.load_field (temp target) field)
lower_instruction (MirInstruction.store_local name src mutable declare) =
    ssa_value (codes "%store_" ++ name) (SsaInstruction.store_local name (temp src) mutable declare)
lower_instruction MirInstruction.break = ssa_value (codes "%break") SsaInstruction.break
lower_instruction MirInstruction.continue = ssa_value (codes "%continue") SsaInstruction.continue
lower_instruction (MirInstruction.call dest callee args) =
    ssa_value (temp dest) (SsaInstruction.call callee (map temp args))
lower_instruction (MirInstruction.index dest target place) =
    ssa_value (temp dest) (SsaInstruction.index (temp target) (temp place))
lower_instruction (MirInstruction.spawn dest callee args) =
    ssa_value (temp dest) (SsaInstruction.spawn callee (map temp args))
lower_instruction (MirInstruction.await dest task) =
    ssa_value (temp dest) (SsaInstruction.await (temp task))
lower_instruction (MirInstruction.propagate dest value) =
    ssa_value (temp dest) (SsaInstruction.propagate (temp value))
lower_instruction (MirInstruction.unary dest op value) =
    ssa_value (temp dest) (SsaInstruction.unary op (temp value))
lower_instruction (MirInstruction.binary dest lhs op rhs) =
    ssa_value (temp dest) (SsaInstruction.binary (temp lhs) op (temp rhs))
lower_instruction (MirInstruction.begin_if condition) =
    ssa_value (codes "%if") (SsaInstruction.begin_if (temp condition))
lower_instruction MirInstruction.else_branch = ssa_value (codes "%else") SsaInstruction.else_branch
lower_instruction MirInstruction.end_if = ssa_value (codes "%endif") SsaInstruction.end_if
lower_instruction (MirInstruction.begin_while condition) =
    ssa_value (codes "%while") (SsaInstruction.begin_while (temp condition))
lower_instruction MirInstruction.end_while = ssa_value (codes "%endwhile") SsaInstruction.end_while
lower_instruction (MirInstruction.begin_for iterable binding) =
    ssa_value (codes "%for_" ++ binding) (SsaInstruction.begin_for (temp iterable) binding)
lower_instruction MirInstruction.end_for = ssa_value (codes "%endfor") SsaInstruction.end_for
lower_instruction (MirInstruction.begin_match value) =
    ssa_value (codes "%match") (SsaInstruction.begin_match (temp value))
lower_instruction (MirInstruction.match_arm enum_name variant bindings) =
    ssa_value (codes "%match_arm_" ++ (enum_name ++ (codes "_" ++ variant)))
      (SsaInstruction.match_arm enum_name variant bindings)
lower_instruction MirInstruction.end_match = ssa_value (codes "%endmatch") SsaInstruction.end_match
lower_instruction MirInstruction.begin_select =
    ssa_value (codes "%select") SsaInstruction.begin_select
lower_instruction (MirInstruction.select_arm operation binding is_default) =
    ssa_value (select_arm_name operation)
      (SsaInstruction.select_arm (Option.map temp operation) binding is_default)
lower_instruction MirInstruction.end_select =
    ssa_value (codes "%endselect") SsaInstruction.end_select
lower_instruction (MirInstruction.eval value) =
    ssa_value (codes "%eval_" ++ decimal value) (SsaInstruction.eval (temp value))
lower_instruction (MirInstruction.return value) =
    ssa_value (codes "%ret") (SsaInstruction.return (temp value))

unfoldable pub lower_function : MirFunction → SsaFunction
lower_function function = record {
  name = function.name;
  params = function.params;
  return_type = function.return_type;
  values = map lower_instruction function.instructions;
}

unfoldable pub lower : MirModule → SsaModule
lower module_ = record { functions = map lower_function module_.functions }

-- `backend::lower`
unfoldable pub backend_lower : SsaModule → Text → BackendArtifact
backend_lower ssa module_kind = record {
  backend = codes "bootstrap-ir-v0";
  module_kind = module_kind;
  ssa = ssa;
}
