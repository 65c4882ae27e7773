-- ===== src/Mir/Instruction.antt =====
-- compiler/gof-compiler/src/mir.rs: modules, functions and instructions. A temporary is a number.
use gof_lang.Prelude.{ℕ, ℤ, Bool, List, Option, Text}
use gof_lang.Ast.{BinaryOp, UnaryOp}
use gof_lang.TypedHir.{GofType}

-- The fields stand in the source's order, `dest` first where there is one.
pub data MirInstruction : Type 0 where
  const_int : ℕ → ℤ → MirInstruction
  const_string : ℕ → Text → MirInstruction
  const_bool : ℕ → Bool → MirInstruction
  const_enum_variant : ℕ → Text → Text → List ℕ → MirInstruction
  build_list : ℕ → List ℕ → MirInstruction
  build_dict : ℕ → List (ℕ × ℕ) → MirInstruction
  build_struct : ℕ → Text → List ℕ → MirInstruction
  load_local : ℕ → Text → MirInstruction
  load_field : ℕ → ℕ → Text → MirInstruction
  store_local : Text → ℕ → Bool → Bool → MirInstruction
  break continue : MirInstruction
  call : ℕ → Text → List ℕ → MirInstruction
  index : ℕ → ℕ → ℕ → MirInstruction
  spawn : ℕ → Text → List ℕ → MirInstruction
  await : ℕ → ℕ → MirInstruction
  propagate : ℕ → ℕ → MirInstruction
  unary : ℕ → UnaryOp → ℕ → MirInstruction
  binary : ℕ → ℕ → BinaryOp → ℕ → MirInstruction
  begin_if : ℕ → MirInstruction
  else_branch end_if : MirInstruction
  begin_while : ℕ → MirInstruction
  end_while : MirInstruction
  begin_for : ℕ → Text → MirInstruction
  end_for : MirInstruction
  begin_match : ℕ → MirInstruction
  match_arm : Text → Text → List Text → MirInstruction
  end_match begin_select : MirInstruction
  select_arm : Option ℕ → Option Text → Bool → MirInstruction
  end_select : MirInstruction
  eval return : ℕ → MirInstruction

pub record MirFunction : Type 0 where
  pub name : Text
  pub params : List Text
  pub return_type : GofType
  pub instructions : List MirInstruction

pub record MirModule : Type 0 where
  pub functions : List MirFunction
