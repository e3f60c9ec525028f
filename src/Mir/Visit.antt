-- ===== src/Mir/Visit.antt =====
-- src/mir/visitor/mod.rs: the walks over a body. A method that a visitor overrides is a parameter of
-- the methods that call it.
--
-- `Visit` reads a body: the state of the visitor is `S`, and `visit_local` is the method that the
-- visitors of the passes override. `MutVisit` changes it: each method returns what it leaves.
pub mod Mentions
pub mod Collects
pub mod Changed
use kli.Prelude.{ℕ, suc, Option, none, some, List, [], ◌∷◌}
use kli.Prelude.Outcome.{Outcome, ok, ◌>>=◌}
use kli.Types.Inhabited.{NoError}
use kli.Mir.Syntax.{
  Local, BasicBlockId, StmtId, PlaceProjection, index, PlaceBase, local, return_place, Place,
  Operand, load, constant, Rvalue, read_line, uninit_zeroed, aggregate, use_of, call, binary,
  array_ptr, cast, len, discriminant, gc_alloc, TerminatorKind, assert, switch, Terminator,
  Location, StmtKind, noop, assign, print, copy, Stmt, BasicBlock, Body,
}
use kli.Mir.Graph.{expect_terminator}

pub data PlaceCtxt : Type 0 where
  read write : PlaceCtxt

module _ {S : Type 0} (visit_local : PlaceCtxt → Location → Local → S → S) where
  abbrev pub visit_projection : Location → PlaceProjection → S → S
  visit_projection loc (index l) s = visit_local read loc l s
  visit_projection loc _ s = s

  abbrev pub visit_projections : Location → List PlaceProjection → S → S
  visit_projections loc [] s = s
  visit_projections loc (p ∷ ps) s = visit_projections loc ps (visit_projection loc p s)

  abbrev pub visit_base : PlaceCtxt → Location → PlaceBase → S → S
  visit_base ctxt loc (local l) s = visit_local ctxt loc l s
  visit_base ctxt loc return_place s = s

  abbrev pub visit_place : PlaceCtxt → Location → Place → S → S
  visit_place ctxt loc place s =
      visit_projections loc place.projections (visit_base ctxt loc place.base s)

  abbrev pub visit_operand : Location → Operand → S → S
  visit_operand loc (load place) s = visit_place read loc place s
  visit_operand loc (constant _) s = s

  abbrev pub visit_operands : Location → List Operand → S → S
  visit_operands loc [] s = s
  visit_operands loc (o ∷ os) s = visit_operands loc os (visit_operand loc o s)

  abbrev pub visit_rvalue : Location → Rvalue → S → S
  visit_rvalue loc (gc_alloc _ o) s = visit_operand loc o s
  visit_rvalue loc (uninit_zeroed _) s = s
  visit_rvalue loc read_line s = s
  visit_rvalue loc (discriminant place) s = visit_place read loc place s
  visit_rvalue loc (len place) s = visit_place read loc place s
  visit_rvalue loc (use_of o) s = visit_operand loc o s
  visit_rvalue loc (aggregate _ fields) s = visit_operands loc fields s
  visit_rvalue loc (call o os) s = visit_operands loc os (visit_operand loc o s)
  visit_rvalue loc (binary _ l r) s = visit_operand loc r (visit_operand loc l s)
  visit_rvalue loc (array_ptr place) s = visit_place write loc place s
  visit_rvalue loc (cast _ o _) s = visit_operand loc o s

  abbrev pub visit_assign : Location → Place → Rvalue → S → S
  visit_assign loc place rvalue s = visit_rvalue loc rvalue (visit_place write loc place s)

  abbrev pub visit_stmt : Location → StmtKind → S → S
  visit_stmt loc noop s = s
  visit_stmt loc (assign place rvalue) s = visit_assign loc place rvalue s
  visit_stmt loc (print o _) s = visit_operand loc o s
  visit_stmt loc (copy dst src count) s =
      visit_operand loc count (visit_operand loc src (visit_operand loc dst s))

  abbrev pub visit_terminator : Location → TerminatorKind → S → S
  visit_terminator loc (switch o _) s = visit_operand loc o s
  visit_terminator loc (assert o _ _) s = visit_operand loc o s
  visit_terminator loc _ s = s

  abbrev pub visit_stmts : BasicBlockId → StmtId → List Stmt → S → S
  visit_stmts id i [] s = s
  visit_stmts id i (stmt ∷ stmts) s =
      visit_stmts id (suc i) stmts (visit_stmt (record { block = id; stmt = some i }) stmt.kind s)

  unfoldable pub visit_block : BasicBlockId → BasicBlock → S → Outcome NoError S
  unfolding expect_terminator
  visit_block id block s = expect_terminator block >>= λ t. ok (
      visit_terminator (record { block = id; stmt = none }) t.kind (visit_stmts id 0 block.stmts s))

  unfoldable pub visit_blocks : BasicBlockId → List BasicBlock → S → Outcome NoError S
  unfolding visit_block
  visit_blocks id [] s = ok s
  visit_blocks id (block ∷ blocks) s = visit_block id block s >>= visit_blocks (suc id) blocks

  -- `visit_body`.
  unfoldable pub visit_body : Body → S → Outcome NoError S
  unfolding visit_blocks
  visit_body body s = visit_blocks 0 body.blocks s

-- `MutVisit`.
module _ (mut_local : Location → Local → Outcome NoError Local) where
  abbrev pub mut_projection : Location → PlaceProjection → Outcome NoError PlaceProjection
  mut_projection loc (index l) = mut_local loc l >>= λ l. ok (index l)
  mut_projection loc p = ok p

  abbrev pub mut_projections :
      Location → List PlaceProjection → Outcome NoError (List PlaceProjection)
  mut_projections loc [] = ok []
  mut_projections loc (p ∷ ps) = do
    p ← mut_projection loc p
    ps ← mut_projections loc ps
    ok (p ∷ ps)

  abbrev pub mut_base : Location → PlaceBase → Outcome NoError PlaceBase
  mut_base loc (local l) = mut_local loc l >>= λ l. ok (local l)
  mut_base loc return_place = ok return_place

  abbrev pub mut_place : Location → Place → Outcome NoError Place
  mut_place loc place = do
    base ← mut_base loc place.base
    projections ← mut_projections loc place.projections
    ok (record { base = base; projections = projections })

  abbrev pub mut_operand : Location → Operand → Outcome NoError Operand
  mut_operand loc (load place) = mut_place loc place >>= λ place. ok (load place)
  mut_operand loc (constant c) = ok (constant c)

module _ (mut_place : Location → Place → Outcome NoError Place)
    (mut_operand : Location → Operand → Outcome NoError Operand) where
  abbrev pub mut_operands : Location → List Operand → Outcome NoError (List Operand)
  mut_operands loc [] = ok []
  mut_operands loc (o ∷ os) = do o ← mut_operand loc o; os ← mut_operands loc os; ok (o ∷ os)

  abbrev pub mut_rvalue : Location → Rvalue → Outcome NoError Rvalue
  mut_rvalue loc (gc_alloc ty o) = mut_operand loc o >>= λ o. ok (gc_alloc ty o)
  mut_rvalue loc (uninit_zeroed ty) = ok (uninit_zeroed ty)
  mut_rvalue loc read_line = ok read_line
  mut_rvalue loc (discriminant place) = mut_place loc place >>= λ place. ok (discriminant place)
  mut_rvalue loc (len place) = mut_place loc place >>= λ place. ok (len place)
  mut_rvalue loc (use_of o) = mut_operand loc o >>= λ o. ok (use_of o)
  mut_rvalue loc (aggregate kind fields) =
      mut_operands loc fields >>= λ fields. ok (aggregate kind fields)
  mut_rvalue loc (call o os) = do o ← mut_operand loc o; os ← mut_operands loc os; ok (call o os)
  mut_rvalue loc (binary op l r) = do
    l ← mut_operand loc l
    r ← mut_operand loc r
    ok (binary op l r)
  mut_rvalue loc (array_ptr place) = mut_place loc place >>= λ place. ok (array_ptr place)
  mut_rvalue loc (cast kind o ty) = mut_operand loc o >>= λ o. ok (cast kind o ty)

  -- `super_visit_stmt`.
  abbrev pub mut_stmt : Location → StmtKind → Outcome NoError StmtKind
  mut_stmt loc noop = ok noop
  mut_stmt loc (copy dst src count) = do
    dst ← mut_operand loc dst
    src ← mut_operand loc src
    count ← mut_operand loc count
    ok (copy dst src count)
  mut_stmt loc (assign place rvalue) = do
    place ← mut_place loc place
    rvalue ← mut_rvalue loc rvalue
    ok (assign place rvalue)
  mut_stmt loc (print o err) = mut_operand loc o >>= λ o. ok (print o err)

  -- `super_visit_terminator`.
  abbrev pub mut_terminator : Location → TerminatorKind → Outcome NoError TerminatorKind
  mut_terminator loc (switch o ts) = mut_operand loc o >>= λ o. ok (switch o ts)
  mut_terminator loc (assert o kind b) = mut_operand loc o >>= λ o. ok (assert o kind b)
  mut_terminator loc kind = ok kind

module _ (visit_stmt_mut : Location → StmtKind → Outcome NoError StmtKind)
    (visit_terminator_mut : Location → TerminatorKind → Outcome NoError TerminatorKind) where
  abbrev pub mut_stmts : BasicBlockId → StmtId → List Stmt → Outcome NoError (List Stmt)
  mut_stmts id i [] = ok []
  mut_stmts id i (stmt ∷ stmts) = do
    kind ← visit_stmt_mut (record { block = id; stmt = some i }) stmt.kind
    rest ← mut_stmts id (suc i) stmts
    ok (record stmt { kind = kind } ∷ rest)

  -- `super_visit_block`.
  unfoldable pub mut_block : BasicBlockId → BasicBlock → Outcome NoError BasicBlock
  unfolding expect_terminator
  mut_block id block = do
    stmts ← mut_stmts id 0 block.stmts
    t ← expect_terminator block
    kind ← visit_terminator_mut (record { block = id; stmt = none }) t.kind
    ok (record { stmts = stmts; terminator = some (record t { kind = kind }) })

  -- The loop of `visit_body` and `visit_body_no_invalidate`.
  unfoldable pub mut_blocks : BasicBlockId → List BasicBlock → Outcome NoError (List BasicBlock)
  unfolding mut_block
  mut_blocks id [] = ok []
  mut_blocks id (block ∷ blocks) = do
    block ← mut_block id block
    blocks ← mut_blocks (suc id) blocks
    ok (block ∷ blocks)
