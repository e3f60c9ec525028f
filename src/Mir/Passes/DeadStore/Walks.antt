-- ===== src/Mir/Passes/DeadStore/Walks.antt =====
-- The two walks of `DeadStoreElim` over a body.
use kli.Prelude.{
  suc, ◌≡◌, ◌⊎◌, refl, none, some, List, [], ◌∷◌, map, get_elem?, In, In-append-left,
  In-append-right, zero,
}
use kli.Prelude.Outcome.{ok}
use kli.Mir.Syntax.{
  Local, BasicBlockId, StmtId, PlaceProjection, index, PlaceBase, local, return_place, Place,
  Operand, load, constant, Rvalue, read_line, uninit_zeroed, aggregate, use_of, call, binary,
  array_ptr, cast, len, discriminant, gc_alloc, TerminatorKind, assert, switch, Location, StmtKind,
  noop, assign, print, copy, Stmt, BasicBlock,
}
use kli.Mir.Graph.{expect_terminator}
use kli.Mir.Visit.{
  write, visit_place, visit_base, visit_blocks, mut_projections, mut_base, mut_place, mut_operand,
  mut_operands, mut_rvalue, mut_stmt, mut_terminator, mut_stmts, mut_block, mut_blocks,
}
use kli.Mir.Visit.Mentions.{AreEnded, read_of_written, reads_blocks, depends_block, depends_blocks}
use kli.Mir.Visit.Collects.{
  Collects, Collects-local, Collects-nothing, Collects-both, Collects-projections,
  visit_blocks-Collects,
}
use kli.Mir.Passes.DeadStore.{find_read, drop_store, keep_local, replace_stmt}

find_read_written :
    (loc : Location) (place : Place)
    → Collects (visit_place find_read write loc place) (read_of_written place)
find_read_written loc place =
    Collects-both (visit_base find_read write loc place.base) _ [] _ (Collects-base place.base)
      (Collects-projections find_read (λ loc l. Collects-local l) loc place.projections)
  where
    Collects-base : (base : PlaceBase) → Collects (visit_base find_read write loc base) []
    Collects-base (local l) = Collects-nothing
    Collects-base return_place = Collects-nothing

-- The finder returns, and finds what is read.
pub find_read-Collects :
    (id : BasicBlockId) (blocks : List BasicBlock) (s : List Local)
    → AreEnded blocks
    → (s' : List Local) × (visit_blocks find_read id blocks s ≡ ok s')
      × ((l : Local) → In l (reads_blocks blocks) ⊎ In l s → In l s')
find_read-Collects =
    visit_blocks-Collects find_read read_of_written (λ loc l. Collects-local l) find_read_written

pub depends_block-In :
    (blocks : List BasicBlock) (b : BasicBlockId) (block : BasicBlock) (l : Local)
    → get_elem? blocks b ≡ some block
    → In l (depends_block block)
    → In l (depends_blocks blocks)
depends_block-In [] b block l at i = cc
depends_block-In (x ∷ blocks) zero block l at i =
    let e : x ≡ block = cc in In-append-left l (depends_block x) (depends_blocks blocks) (rw e i)
depends_block-In (x ∷ blocks) (suc b) block l at i =
    In-append-right l (depends_block x) (depends_blocks blocks)
      (depends_block-In blocks b block l at i)

keep_projections :
    (loc : Location) (ps : List PlaceProjection) → mut_projections keep_local loc ps ≡ ok ps
keep_projections loc [] = refl
keep_projections loc (index l ∷ ps) = rw (keep_projections loc ps) refl
keep_projections loc (PlaceProjection.field _ ∷ ps) = rw (keep_projections loc ps) refl
keep_projections loc (PlaceProjection.constant_index _ ∷ ps) = rw (keep_projections loc ps) refl
keep_projections loc (PlaceProjection.case_downcast _ _ ∷ ps) = rw (keep_projections loc ps) refl
keep_projections loc (PlaceProjection.deref ∷ ps) = rw (keep_projections loc ps) refl

keep_base : (loc : Location) (base : PlaceBase) → mut_base keep_local loc base ≡ ok base
keep_base loc (local l) = refl
keep_base loc return_place = refl

pub keep_place : (loc : Location) (place : Place) → mut_place keep_local loc place ≡ ok place
keep_place loc place = rw (keep_base loc place.base, keep_projections loc place.projections) refl

keep_operand : (loc : Location) (o : Operand) → mut_operand keep_local loc o ≡ ok o
keep_operand loc (load place) = rw (keep_place loc place) refl
keep_operand loc (constant c) = refl

keep_operands :
    (loc : Location) (os : List Operand)
    → mut_operands (mut_place keep_local) (mut_operand keep_local) loc os ≡ ok os
keep_operands loc [] = refl
keep_operands loc (o ∷ os) = rw (keep_operand loc o, keep_operands loc os) refl

keep_rvalue :
    (loc : Location) (r : Rvalue)
    → mut_rvalue (mut_place keep_local) (mut_operand keep_local) loc r ≡ ok r
keep_rvalue loc (gc_alloc _ o) = rw (keep_operand loc o) refl
keep_rvalue loc (uninit_zeroed _) = refl
keep_rvalue loc read_line = refl
keep_rvalue loc (discriminant place) = rw (keep_place loc place) refl
keep_rvalue loc (len place) = rw (keep_place loc place) refl
keep_rvalue loc (use_of o) = rw (keep_operand loc o) refl
keep_rvalue loc (aggregate _ fields) = rw (keep_operands loc fields) refl
keep_rvalue loc (call o os) = rw (keep_operand loc o, keep_operands loc os) refl
keep_rvalue loc (binary _ l r) = rw (keep_operand loc l, keep_operand loc r) refl
keep_rvalue loc (array_ptr place) = rw (keep_place loc place) refl
keep_rvalue loc (cast _ o _) = rw (keep_operand loc o) refl

keep_stmt :
    (loc : Location) (k : StmtKind)
    → mut_stmt (mut_place keep_local) (mut_operand keep_local) loc k ≡ ok k
keep_stmt loc noop = refl
keep_stmt loc (assign place r) = rw (keep_place loc place, keep_rvalue loc r) refl
keep_stmt loc (print o _) = rw (keep_operand loc o) refl
keep_stmt loc (copy dst src count) =
    rw (keep_operand loc dst, keep_operand loc src, keep_operand loc count) refl

keep_terminator :
    (loc : Location) (k : TerminatorKind)
    → mut_terminator (mut_place keep_local) (mut_operand keep_local) loc k ≡ ok k
keep_terminator loc (switch o _) = rw (keep_operand loc o) refl
keep_terminator loc (assert o _ _) = rw (keep_operand loc o) refl
keep_terminator loc TerminatorKind.unreachable = refl
keep_terminator loc TerminatorKind.return = refl
keep_terminator loc (TerminatorKind.goto _) = refl
keep_terminator loc TerminatorKind.panic = refl

module _ (locals : List Local) where
  abbrev pub dropped : Stmt → Stmt
  dropped stmt = record stmt { kind = drop_store locals stmt.kind }

  abbrev pub lighter : BasicBlock → BasicBlock
  lighter block = record block { stmts = map dropped block.stmts }

  lighter_stmts :
      (id : BasicBlockId) (i : StmtId) (ss : List Stmt)
      → mut_stmts
          (replace_stmt locals)
          (mut_terminator (mut_place keep_local) (mut_operand keep_local))
          id
          i
          ss
        ≡ ok (map dropped ss)
  lighter_stmts id i [] = refl
  lighter_stmts id i (stmt ∷ ss) =
      rw
        (
          keep_stmt (record { block = id; stmt = some i }) (drop_store locals stmt.kind),
          lighter_stmts id (suc i) ss,
        )
        refl

  pub lighter_blocks :
      (id : BasicBlockId) (blocks : List BasicBlock)
      → AreEnded blocks
      → mut_blocks
          (replace_stmt locals)
          (mut_terminator (mut_place keep_local) (mut_operand keep_local))
          id
          blocks
        ≡ ok (map lighter blocks)
  unfolding mut_blocks mut_block expect_terminator
  lighter_blocks id [] ended = refl
  lighter_blocks id (block ∷ blocks) ((t, has), ended) = rw (lighter_stmts id 0 block.stmts) (
      rw (has, expect_terminator)
        (rw
          (
            keep_terminator (record { block = id; stmt = none }) t.kind,
            lighter_blocks (suc id) blocks ended,
          )
          refl))
