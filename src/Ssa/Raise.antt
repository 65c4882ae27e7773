-- ===== src/Ssa/Raise.antt =====
-- Nothing is lost between the two forms: the instructions can be read back from the named values.
use mathlib.Core.Option
use gof_lang.Prelude.{
  ℕ, ◌≡◌, refl, ap, List, [], ◌∷◌, map, Option, none, some, Text, digits_value,
  digits_value-decimal,
}
use gof_lang.Mir.Instruction.{MirInstruction, MirFunction, MirModule}
use gof_lang.Ssa.Instruction.{SsaInstruction, SsaValue, SsaFunction, SsaModule}
use gof_lang.Ssa.Lower.{temp, temp_pair, lower_instruction, lower_function, lower}

-- The number of a temporary, from its name.
unfoldable pub untemp : Text → ℕ
untemp [] = 0
untemp (_ ∷ digits) = digits_value 0 digits

pub untemp-temp : (n : ℕ) → untemp (temp n) ≡ n
unfolding untemp temp
untemp-temp n = digits_value-decimal n

abbrev pub untemp_pair : Text × Text → ℕ × ℕ
untemp_pair p = (untemp p.0, untemp p.1)

map-untemp : (ns : List ℕ) → map untemp (map temp ns) ≡ ns
map-untemp [] = refl
map-untemp (n ∷ ns) = rw (untemp-temp n, map-untemp ns)

map-untemp_pair : (ps : List (ℕ × ℕ)) → map untemp_pair (map temp_pair ps) ≡ ps
map-untemp_pair [] = refl
map-untemp_pair ((a, b) ∷ ps) = rw (untemp-temp a, untemp-temp b, map-untemp_pair ps)

map-untemp_option : (o : Option ℕ) → Option.map untemp (Option.map temp o) ≡ o
map-untemp_option none = refl
map-untemp_option (some n) = rw untemp-temp

raise_instruction : Text → SsaInstruction → MirInstruction
raise_instruction defined (SsaInstruction.const_int value) =
    MirInstruction.const_int (untemp defined) value
raise_instruction defined (SsaInstruction.const_string value) =
    MirInstruction.const_string (untemp defined) value
raise_instruction defined (SsaInstruction.const_bool value) =
    MirInstruction.const_bool (untemp defined) value
raise_instruction defined (SsaInstruction.const_enum_variant enum_name variant args) =
    MirInstruction.const_enum_variant (untemp defined) enum_name variant (map untemp args)
raise_instruction defined (SsaInstruction.build_list items) =
    MirInstruction.build_list (untemp defined) (map untemp items)
raise_instruction defined (SsaInstruction.build_dict entries) =
    MirInstruction.build_dict (untemp defined) (map untemp_pair entries)
raise_instruction defined (SsaInstruction.build_struct name fields) =
    MirInstruction.build_struct (untemp defined) name (map untemp fields)
raise_instruction defined (SsaInstruction.load_local name) =
    MirInstruction.load_local (untemp defined) name
raise_instruction defined (SsaInstruction.load_field target field) =
    MirInstruction.load_field (untemp defined) (untemp target) field
raise_instruction defined (SsaInstruction.store_local name src mutable declare) =
    MirInstruction.store_local name (untemp src) mutable declare
raise_instruction defined SsaInstruction.break = MirInstruction.break
raise_instruction defined SsaInstruction.continue = MirInstruction.continue
raise_instruction defined (SsaInstruction.call callee args) =
    MirInstruction.call (untemp defined) callee (map untemp args)
raise_instruction defined (SsaInstruction.index target place) =
    MirInstruction.index (untemp defined) (untemp target) (untemp place)
raise_instruction defined (SsaInstruction.spawn callee args) =
    MirInstruction.spawn (untemp defined) callee (map untemp args)
raise_instruction defined (SsaInstruction.await task) =
    MirInstruction.await (untemp defined) (untemp task)
raise_instruction defined (SsaInstruction.propagate value) =
    MirInstruction.propagate (untemp defined) (untemp value)
raise_instruction defined (SsaInstruction.unary op value) =
    MirInstruction.unary (untemp defined) op (untemp value)
raise_instruction defined (SsaInstruction.binary lhs op rhs) =
    MirInstruction.binary (untemp defined) (untemp lhs) op (untemp rhs)
raise_instruction defined (SsaInstruction.begin_if condition) =
    MirInstruction.begin_if (untemp condition)
raise_instruction defined SsaInstruction.else_branch = MirInstruction.else_branch
raise_instruction defined SsaInstruction.end_if = MirInstruction.end_if
raise_instruction defined (SsaInstruction.begin_while condition) =
    MirInstruction.begin_while (untemp condition)
raise_instruction defined SsaInstruction.end_while = MirInstruction.end_while
raise_instruction defined (SsaInstruction.begin_for iterable binding) =
    MirInstruction.begin_for (untemp iterable) binding
raise_instruction defined SsaInstruction.end_for = MirInstruction.end_for
raise_instruction defined (SsaInstruction.begin_match value) =
    MirInstruction.begin_match (untemp value)
raise_instruction defined (SsaInstruction.match_arm enum_name variant bindings) =
    MirInstruction.match_arm enum_name variant bindings
raise_instruction defined SsaInstruction.end_match = MirInstruction.end_match
raise_instruction defined SsaInstruction.begin_select = MirInstruction.begin_select
raise_instruction defined (SsaInstruction.select_arm operation binding is_default) =
    MirInstruction.select_arm (Option.map untemp operation) binding is_default
raise_instruction defined SsaInstruction.end_select = MirInstruction.end_select
raise_instruction defined (SsaInstruction.eval value) = MirInstruction.eval (untemp value)
raise_instruction defined (SsaInstruction.return value) = MirInstruction.return (untemp value)

raise-lower_instruction :
    (i : MirInstruction)
    → raise_instruction (lower_instruction i).name (lower_instruction i).instruction ≡ i
unfolding raise_instruction lower_instruction
raise-lower_instruction (MirInstruction.const_int dest value) = rw (untemp-temp dest)
raise-lower_instruction (MirInstruction.const_string dest value) = rw (untemp-temp dest)
raise-lower_instruction (MirInstruction.const_bool dest value) = rw (untemp-temp dest)
raise-lower_instruction (MirInstruction.const_enum_variant dest enum_name variant args) =
    rw (untemp-temp dest, map-untemp args)
raise-lower_instruction (MirInstruction.build_list dest items) =
    rw (untemp-temp dest, map-untemp items)
raise-lower_instruction (MirInstruction.build_dict dest entries) =
    rw (untemp-temp dest, map-untemp_pair entries)
raise-lower_instruction (MirInstruction.build_struct dest name fields) =
    rw (untemp-temp dest, map-untemp fields)
raise-lower_instruction (MirInstruction.load_local dest name) = rw (untemp-temp dest)
raise-lower_instruction (MirInstruction.load_field dest target field) =
    rw (untemp-temp dest, untemp-temp target)
raise-lower_instruction (MirInstruction.store_local name src mutable declare) = rw (untemp-temp src)
raise-lower_instruction MirInstruction.break = refl
raise-lower_instruction MirInstruction.continue = refl
raise-lower_instruction (MirInstruction.call dest callee args) =
    rw (untemp-temp dest, map-untemp args)
raise-lower_instruction (MirInstruction.index dest target place) =
    rw (untemp-temp dest, untemp-temp target, untemp-temp place)
raise-lower_instruction (MirInstruction.spawn dest callee args) =
    rw (untemp-temp dest, map-untemp args)
raise-lower_instruction (MirInstruction.await dest task) = rw (untemp-temp dest, untemp-temp task)
raise-lower_instruction (MirInstruction.propagate dest value) =
    rw (untemp-temp dest, untemp-temp value)
raise-lower_instruction (MirInstruction.unary dest op value) =
    rw (untemp-temp dest, untemp-temp value)
raise-lower_instruction (MirInstruction.binary dest lhs op rhs) =
    rw (untemp-temp dest, untemp-temp lhs, untemp-temp rhs)
raise-lower_instruction (MirInstruction.begin_if condition) = rw (untemp-temp condition)
raise-lower_instruction MirInstruction.else_branch = refl
raise-lower_instruction MirInstruction.end_if = refl
raise-lower_instruction (MirInstruction.begin_while condition) = rw (untemp-temp condition)
raise-lower_instruction MirInstruction.end_while = refl
raise-lower_instruction (MirInstruction.begin_for iterable binding) = rw (untemp-temp iterable)
raise-lower_instruction MirInstruction.end_for = refl
raise-lower_instruction (MirInstruction.begin_match value) = rw (untemp-temp value)
raise-lower_instruction (MirInstruction.match_arm enum_name variant bindings) = refl
raise-lower_instruction MirInstruction.end_match = refl
raise-lower_instruction MirInstruction.begin_select = refl
raise-lower_instruction (MirInstruction.select_arm operation binding is_default) =
    rw (map-untemp_option operation)
raise-lower_instruction MirInstruction.end_select = refl
raise-lower_instruction (MirInstruction.eval value) = rw (untemp-temp value)
raise-lower_instruction (MirInstruction.return value) = rw (untemp-temp value)

raise_value : SsaValue → MirInstruction
raise_value v = raise_instruction v.name v.instruction

raise_function : SsaFunction → MirFunction
raise_function function = record {
  name = function.name;
  params = function.params;
  return_type = function.return_type;
  instructions = map raise_value function.values;
}

pub raise : SsaModule → MirModule
raise module_ = record { functions = map raise_function module_.functions }

map-raise_value : (is : List MirInstruction) → map raise_value (map lower_instruction is) ≡ is
unfolding raise_value
map-raise_value [] = refl
map-raise_value (i ∷ is) = rw (raise-lower_instruction i, map-raise_value is)

raise_function-lower_function : (f : MirFunction) → raise_function (lower_function f) ≡ f
unfolding raise_function lower_function
raise_function-lower_function f =
    ap (λ (is : List MirInstruction). let g : MirFunction = record f { instructions = is } in g)
      (map-raise_value f.instructions)

map-raise_function : (fs : List MirFunction) → map raise_function (map lower_function fs) ≡ fs
map-raise_function [] = refl
map-raise_function (f ∷ fs) = rw (raise_function-lower_function f, map-raise_function fs)

-- The module that was lowered can be read back from its named form, so that modules that differ
-- are still told apart: names of temporaries clash with no others, and no field is dropped.
pub raise-lower : (m : MirModule) → raise (lower m) ≡ m
unfolding raise lower
raise-lower m =
    ap (λ (fs : List MirFunction). let n : MirModule = record { functions = fs } in n)
      (map-raise_function m.functions)
