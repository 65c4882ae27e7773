-- ===== src/Ssa/Instruction.antt =====
-- compiler/gof-compiler/src/ssa.rs and backend.rs: the instructions, whose operands are names.
use gof_lang.Prelude.{ℤ, Bool, List, Option, Text}
use gof_lang.Ast.{BinaryOp, UnaryOp}
use gof_lang.TypedHir.{GofType}

-- The fields stand in the source's order.
pub data SsaInstruction : Type 0 where
  const_int : ℤ → SsaInstruction
  const_string : Text → SsaInstruction
  const_bool : Bool → SsaInstruction
  const_enum_variant : Text → Text → List Text → SsaInstruction
  build_list : List Text → SsaInstruction
  build_dict : List (Text × Text) → SsaInstruction
  build_struct : Text → List Text → SsaInstruction
  load_local : Text → SsaInstruction
  load_field : Text → Text → SsaInstruction
  store_local : Text → Text → Bool → Bool → SsaInstruction
  break continue : SsaInstruction
  call : Text → List Text → SsaInstruction
  index : Text → Text → SsaInstruction
  spawn : Text → List Text → SsaInstruction
  await propagate : Text → SsaInstruction
  unary : UnaryOp → Text → SsaInstruction
  binary : Text → BinaryOp → Text → SsaInstruction
  begin_if : Text → SsaInstruction
  else_branch end_if : SsaInstruction
  begin_while : Text → SsaInstruction
  end_while : SsaInstruction
  begin_for : Text → Text → SsaInstruction
  end_for : SsaInstruction
  begin_match : Text → SsaInstruction
  match_arm : Text → Text → List Text → SsaInstruction
  end_match begin_select : SsaInstruction
  select_arm : Option Text → Option Text → Bool → SsaInstruction
  end_select : SsaInstruction
  eval return : Text → SsaInstruction

pub record SsaValue : Type 0 where
  pub name : Text
  pub instruction : SsaInstruction

pub record SsaFunction : Type 0 where
  pub name : Text
  pub params : List Text
  pub return_type : GofType
  pub values : List SsaValue

pub record SsaModule : Type 0 where
  pub functions : List SsaFunction

pub record BackendArtifact : Type 0 where
  pub backend : Text
  pub module_kind : Text
  pub ssa : SsaModule
