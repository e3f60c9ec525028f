-- ===== src/Mir/Visit/Mentions.antt =====
-- The locals that a body mentions, and those of them that it reads.
use kli.Prelude.{◌≡◌, Bool, true, false, if◌then◌else◌, Option, none, some, List, [], ◌∷◌, ◌++◌}
use kli.Mir.Syntax.{
  Local, PlaceProjection, index, constant_index, deref, case_downcast, PlaceBase, local,
  return_place, Place, Operand, load, constant, Rvalue, read_line, uninit_zeroed, aggregate, use_of,
  call, binary, array_ptr, cast, len, discriminant, gc_alloc, TerminatorKind, assert, switch,
  Terminator, Location, StmtKind, noop, assign, print, copy, Stmt, BasicBlock,
}
use kli.Mir.Visit.{PlaceCtxt}

abbrev pub in_projections : List PlaceProjection → List Local
in_projections [] = []
in_projections (index l ∷ ps) = l ∷ in_projections ps
in_projections (_ ∷ ps) = in_projections ps

abbrev pub in_base : PlaceBase → List Local
in_base (local l) = l ∷ []
in_base return_place = []

abbrev pub in_place : Place → List Local
in_place place = in_base place.base ++ in_projections place.projections

abbrev pub in_operand : Operand → List Local
in_operand (load place) = in_place place
in_operand (constant _) = []

abbrev pub in_operands : List Operand → List Local
in_operands [] = []
in_operands (o ∷ os) = in_operand o ++ in_operands os

abbrev pub in_terminator : TerminatorKind → List Local
in_terminator (switch o _) = in_operand o
in_terminator (assert o _ _) = in_operand o
in_terminator _ = []

abbrev pub in_ending : Option Terminator → List Local
in_ending (some t) = in_terminator t.kind
in_ending none = []

-- What is mentioned, where `written` is what counts of a place that is written.
module _ (written : Place → List Local) where
  abbrev pub all_rvalue : Rvalue → List Local
  all_rvalue (gc_alloc _ o) = in_operand o
  all_rvalue (uninit_zeroed _) = []
  all_rvalue read_line = []
  all_rvalue (discriminant place) = in_place place
  all_rvalue (len place) = in_place place
  all_rvalue (use_of o) = in_operand o
  all_rvalue (aggregate _ fields) = in_operands fields
  all_rvalue (call o os) = in_operand o ++ in_operands os
  all_rvalue (binary _ l r) = in_operand l ++ in_operand r
  all_rvalue (array_ptr place) = written place
  all_rvalue (cast _ o _) = in_operand o

  abbrev pub all_stmt : StmtKind → List Local
  all_stmt noop = []
  all_stmt (assign place rvalue) = written place ++ all_rvalue rvalue
  all_stmt (print o _) = in_operand o
  all_stmt (copy dst src count) = in_operand dst ++ (in_operand src ++ in_operand count)

  abbrev pub all_stmts : List Stmt → List Local
  all_stmts [] = []
  all_stmts (stmt ∷ stmts) = all_stmt stmt.kind ++ all_stmts stmts

  abbrev pub all_block : BasicBlock → List Local
  all_block block = all_stmts block.stmts ++ in_ending block.terminator

  abbrev pub all_blocks : List BasicBlock → List Local
  all_blocks [] = []
  all_blocks (block ∷ blocks) = all_block block ++ all_blocks blocks

abbrev pub in_rvalue : Rvalue → List Local
in_rvalue = all_rvalue in_place

abbrev pub in_stmt : StmtKind → List Local
in_stmt = all_stmt in_place

abbrev pub in_stmts : List Stmt → List Local
in_stmts = all_stmts in_place

abbrev pub in_block : BasicBlock → List Local
in_block = all_block in_place

abbrev pub in_blocks : List BasicBlock → List Local
in_blocks = all_blocks in_place

-- Of a place that is written, only the locals in its indices are read.
abbrev pub read_of_written : Place → List Local
read_of_written place = in_projections place.projections

abbrev pub reads_stmt : StmtKind → List Local
reads_stmt = all_stmt read_of_written

abbrev pub reads_stmts : List Stmt → List Local
reads_stmts = all_stmts read_of_written

abbrev pub reads_block : BasicBlock → List Local
reads_block = all_block read_of_written

abbrev pub reads_blocks : List BasicBlock → List Local
reads_blocks = all_blocks read_of_written

-- An element of an array and what a pointer points to lie outside the local.
abbrev pub is_indirect : List PlaceProjection → Bool
is_indirect [] = false
is_indirect (index _ ∷ ps) = true
is_indirect (constant_index _ ∷ ps) = true
is_indirect (deref ∷ ps) = true
is_indirect (PlaceProjection.field _ ∷ ps) = is_indirect ps
is_indirect (case_downcast _ _ ∷ ps) = is_indirect ps

-- What a write to a place depends on: the indices, and the local itself where the place lies outside
-- it.
abbrev pub through : Place → List Local
through place =
    (if is_indirect place.projections then in_base place.base else [])
    ++ in_projections place.projections

-- What the effect of a statement, but for the local that it assigns, depends on. Unlike the walk of
-- the source it counts the pointer of a write and the array of an `array_ptr`.
abbrev pub depends_stmt : StmtKind → List Local
depends_stmt (assign place rvalue) = through place ++ in_rvalue rvalue
depends_stmt k = in_stmt k

abbrev pub depends_stmts : List Stmt → List Local
depends_stmts [] = []
depends_stmts (stmt ∷ stmts) = depends_stmt stmt.kind ++ depends_stmts stmts

abbrev pub depends_block : BasicBlock → List Local
depends_block block = depends_stmts block.stmts ++ in_ending block.terminator

abbrev pub depends_blocks : List BasicBlock → List Local
depends_blocks [] = []
depends_blocks (block ∷ blocks) = depends_block block ++ depends_blocks blocks

-- `LocalFinder::visit_local` of src/mir/passes/remove_unused_locals.rs.
abbrev pub collect : PlaceCtxt → Location → Local → List Local → List Local
collect _ _ l s = l ∷ s

-- Each block has a terminator.
abbrev pub AreEnded : List BasicBlock → Type 0
AreEnded [] = Unit
AreEnded (block ∷ blocks) = ((t : Terminator) × (block.terminator ≡ some t)) × AreEnded blocks
