-- ===== src/Mir/Syntax.antt =====
-- src/mir/mod.rs: places, operands, rvalues, statements, terminators, blocks and bodies.
--
-- The ids are the numbers that they wrap. `BasicBlocks` of src/mir/basic_blocks.rs is the vector of
-- blocks without its cache: each access that may change a block empties the cache, so that what is
-- read from it is what would be computed.
use kli.Prelude.{ℕ, Bool, Option, List}
use kli.Prelude.Int.{ℤ}
use kli.Types.{Symbol, DefId, FieldId, CaseId, Ty, Tys}
use kli.Types.Integer.{IntegerSize, IntegerKind}
use kli.Lex.Tokens.{SrcLoc}

abbrev pub Local : Type 0
Local = ℕ

abbrev pub BasicBlockId : Type 0
BasicBlockId = ℕ

abbrev pub StmtId : Type 0
StmtId = ℕ

pub data PlaceProjection : Type 0 where
  field : FieldId → PlaceProjection
  constant_index : ℕ → PlaceProjection
  index : Local → PlaceProjection
  case_downcast : CaseId → Symbol → PlaceProjection
  deref : PlaceProjection

pub data PlaceBase : Type 0 where
  local : Local → PlaceBase
  return_place : PlaceBase

pub record Place : Type 0 where
  pub base : PlaceBase
  pub projections : List PlaceProjection

pub data ConstValue : Type 0 where
  zero_sized : ConstValue
  named : DefId → Tys → ConstValue
  scalar : ℤ → ConstValue
  string : Symbol → ConstValue

pub record Constant : Type 0 where
  pub ty : Ty
  pub value : ConstValue

pub data Operand : Type 0 where
  load : Place → Operand
  constant : Constant → Operand

pub data AggregateKind : Type 0 where
  tuple : AggregateKind
  named_record : DefId → Tys → AggregateKind
  variant : DefId → CaseId → Tys → AggregateKind
  array : Ty → AggregateKind
  string : AggregateKind

pub data OverflowOp : Type 0 where
  add subtract multiply : OverflowOp

pub data BinaryOp : Type 0 where
  overflow wrapping : OverflowOp → BinaryOp
  greater divide equals lesser bitwise_and bitwise_or shift_left shift_right offset : BinaryOp

pub data IntegerCast : Type 0 where
  sign_extend zero_extend : IntegerSize → IntegerCast
  truncate : IntegerKind → IntegerCast

pub data CastKind : Type 0 where
  transmute : CastKind
  integer_cast : IntegerCast → CastKind

pub data Rvalue : Type 0 where
  read_line : Rvalue
  uninit_zeroed : Ty → Rvalue
  aggregate : AggregateKind → List Operand → Rvalue
  use_of : Operand → Rvalue
  call : Operand → List Operand → Rvalue
  binary : BinaryOp → Operand → Operand → Rvalue
  array_ptr : Place → Rvalue
  cast : CastKind → Operand → Ty → Rvalue
  len : Place → Rvalue
  discriminant : Place → Rvalue
  gc_alloc : Ty → Operand → Rvalue

pub record SwitchTarget : Type 0 where
  pub value : ℤ
  pub target : BasicBlockId

pub record SwitchTargets : Type 0 where
  pub targets : List SwitchTarget
  pub otherwise : BasicBlockId

pub data AssertKind : Type 0 where
  in_bounds : AssertKind
  overflow : OverflowOp → AssertKind
  divide_overflow divide_by_zero : AssertKind

pub data TerminatorKind : Type 0 where
  assert : Operand → AssertKind → BasicBlockId → TerminatorKind
  switch : Operand → SwitchTargets → TerminatorKind
  unreachable return : TerminatorKind
  goto : BasicBlockId → TerminatorKind
  panic : TerminatorKind

pub record Terminator : Type 0 where
  pub src_info : SrcLoc
  pub kind : TerminatorKind

-- `stmt` is `none` at the terminator.
pub record Location : Type 0 where
  pub block : BasicBlockId
  pub stmt : Option StmtId

pub data StmtKind : Type 0 where
  noop : StmtKind
  assign : Place → Rvalue → StmtKind
  print : Operand → Bool → StmtKind
  copy : Operand → Operand → Operand → StmtKind

pub record Stmt : Type 0 where
  pub loc : SrcLoc
  pub kind : StmtKind

pub record BasicBlock : Type 0 where
  pub stmts : List Stmt
  pub terminator : Option Terminator

-- `resolved_ast::Var`: the name and the id.
pub record Var : Type 0 where
  pub name : Symbol
  pub id : ℕ

pub data LocalKind : Type 0 where
  temp env : LocalKind
  var : Var → LocalKind
  param : Option Var → LocalKind

pub record LocalInfo : Type 0 where
  pub ty : Ty
  pub kind : LocalKind

-- `src` is the definition of the function.
pub record Body : Type 0 where
  pub src : DefId
  pub return_type : Ty
  pub locals : List LocalInfo
  pub blocks : List BasicBlock
