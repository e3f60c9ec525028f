-- ===== src/Mir/Passes/Simplify.antt =====
-- src/mir/passes/simplify_cfg.rs: a block is joined to its only predecessor, and a switch goes past
-- the blocks that only jump.
--
-- The `BTreeMap` of the blocks to go past is an association list: the blocks that are put in are the
-- successors of one switch, and two entries of one block are equal.
pub mod Joined
pub mod Steal
pub mod Loops
pub mod Skip
pub mod Found
pub mod Turn
use kli.Prelude.{
  ℕ, zero, suc, Bool, true, false, not, ◌&&◌, ◌||◌, Option, none, some, List, [], ◌∷◌, ◌++◌, map,
  get_elem?, set, length, ltb, ◌==◌, if◌then◌else◌,
}
use kli.Prelude.Int.{ℤ}
use kli.Prelude.Outcome.{Outcome, ok, panic, out_of_fuel, ◌>>=◌, map_m}
use kli.Types.Inhabited.{NoError}
use kli.Mir.Syntax.{
  BasicBlockId, Operand, constant, SwitchTarget, SwitchTargets, TerminatorKind, assert, switch,
  unreachable, return, goto, Terminator, StmtKind, noop, Stmt, BasicBlock,
}
use kli.Mir.Places.{as_scalar}
use kli.Mir.Graph.{
  block_at, expect_terminator, successors, branch_for_value, predecessors, map_successors,
}

abbrev pub is_noop : StmtKind → Bool
is_noop noop = true
is_noop _ = false

abbrev pub retain_stmts : List Stmt → List Stmt
retain_stmts [] = []
retain_stmts (s ∷ ss) = if is_noop s.kind then retain_stmts ss else s ∷ retain_stmts ss

-- `remove_noops`.
unfoldable pub remove_noops : BasicBlock → BasicBlock
remove_noops block = record block { stmts = retain_stmts block.stmts }

-- A write through `blocks[b].expect_terminator_mut().kind`.
unfoldable pub set_kind :
    List BasicBlock → BasicBlockId → TerminatorKind → Outcome NoError (List BasicBlock)
unfolding block_at expect_terminator
set_kind blocks b kind = do
  block ← block_at blocks b
  t ← expect_terminator block
  ok (set blocks b (record block { terminator = some (record t { kind = kind }) }))

-- `steal`.
unfoldable pub steal :
    List BasicBlock → BasicBlockId → BasicBlockId → Outcome NoError (List BasicBlock)
unfolding block_at expect_terminator set_kind
steal blocks target block = do
  from ← block_at blocks target
  let new_stmts = from.stmts
  let blocks = set blocks target (record from { stmts = [] })
  to ← block_at blocks block
  let blocks = set blocks block (record to { stmts = to.stmts ++ new_stmts })
  from ← block_at blocks target
  t ← expect_terminator from
  let new_term = t.kind
  blocks ← set_kind blocks target unreachable
  set_kind blocks block new_term

abbrev pub predecessor_count : List (List BasicBlockId) → BasicBlockId → Outcome NoError ℕ
predecessor_count preds b = elim (get_elem? preds b) [ some ps ↦ ok (length ps) | none ↦ panic ]

-- The scalar of an operand that is a constant.
abbrev pub constant_scalar : Operand → Option ℤ
constant_scalar (constant c) = as_scalar c.value
constant_scalar _ = none

abbrev pub only_noops : List Stmt → Bool
only_noops [] = true
only_noops (s ∷ ss) = is_noop s.kind && only_noops ss

abbrev pub goto_target : TerminatorKind → Option BasicBlockId
goto_target (goto b) = some b
goto_target _ = none

-- The closure of `filter_map`: where to go instead of `succ`.
unfoldable pub past :
    List BasicBlock
    → List (List BasicBlockId)
    → BasicBlockId
    → Outcome NoError (Option BasicBlockId)
unfolding block_at expect_terminator
past blocks preds succ = predecessor_count preds succ >>= λ n. elim (ltb 1 n) [
  | true ↦ ok none
  | false ↦ block_at blocks succ >>= λ block. elim (only_noops block.stmts) [
    | false ↦ ok none
    | true ↦ expect_terminator block >>= λ t. ok (goto_target t.kind)
  ]
]

abbrev pub Targets : Type 0
Targets = List (BasicBlockId × BasicBlockId)

abbrev pub collect_past :
    List BasicBlock → List (List BasicBlockId) → List BasicBlockId → Outcome NoError Targets
collect_past blocks preds [] = ok []
collect_past blocks preds (s ∷ ss) = do
  to ← past blocks preds s
  rest ← collect_past blocks preds ss
  ok (elim to [ some target ↦ (s, target) ∷ rest | none ↦ rest ])

abbrev pub get : Targets → BasicBlockId → Option BasicBlockId
get [] b = none
get ((s, target) ∷ rest) b = if s == b then some target else get rest b

abbrev pub get_or_self : Targets → BasicBlockId → BasicBlockId
get_or_self targets b = elim (get targets b) [ some target ↦ target | none ↦ b ]

abbrev pub has_any : Targets → List BasicBlockId → Bool
has_any targets [] = false
has_any targets (b ∷ bs) = elim (get targets b) [ some _ ↦ true | none ↦ has_any targets bs ]

-- The blocks after a turn of the inner loop, and whether it modified them.
abbrev pub Turn : Type 0
Turn = List BasicBlock × Bool

-- The loop over `successors_mut`.
unfoldable pub go_past :
    List BasicBlock → BasicBlockId → Targets → TerminatorKind → Outcome NoError Turn
unfolding set_kind map_successors successors
go_past blocks b targets kind = do
  blocks ← set_kind blocks b (map_successors (get_or_self targets) kind)
  ok (blocks, has_any targets (successors kind))

-- The arm of a switch whose operand does not tell the branch.
unfoldable pub skip_jumps :
    List BasicBlock
    → List (List BasicBlockId)
    → BasicBlockId
    → TerminatorKind
    → Outcome NoError Turn
unfolding go_past past successors
skip_jumps blocks preds b kind =
    collect_past blocks preds (successors kind) >>= λ targets. go_past blocks b targets kind

-- `steal`, if `block` is the only predecessor of `target`; otherwise the rest.
unfoldable pub steal_or :
    List BasicBlock
    → List (List BasicBlockId)
    → BasicBlockId
    → BasicBlockId
    → Outcome NoError Turn
    → Outcome NoError Turn
unfolding steal
steal_or blocks preds target block rest = predecessor_count preds target >>= λ n.
    if n == 1 then steal blocks target block >>= (λ blocks. ok (blocks, true)) else rest

-- A turn of the inner loop, by the terminator of the block.
unfoldable pub simplify_kind :
    List BasicBlock → BasicBlockId → TerminatorKind → Outcome NoError Turn
unfolding steal_or skip_jumps predecessors branch_for_value as_scalar
simplify_kind blocks b (goto target) =
    predecessors blocks >>= λ preds. steal_or blocks preds target b (ok (blocks, false))
simplify_kind blocks b (switch o ts) = predecessors blocks >>= λ preds. elim (constant_scalar o) [
  | some value ↦
      steal_or blocks preds (branch_for_value ts value) b (skip_jumps blocks preds b (switch o ts))
  | none ↦ skip_jumps blocks preds b (switch o ts)
]
simplify_kind blocks b _ = ok (blocks, false)

unfoldable pub simplify_block : List BasicBlock → BasicBlockId → Outcome NoError Turn
unfolding simplify_kind block_at expect_terminator
simplify_block blocks b = do
  block ← block_at blocks b
  t ← expect_terminator block
  simplify_kind blocks b t.kind

-- The inner loop, over the ids from `b` on.
unfoldable pub simplify_blocks : ℕ → BasicBlockId → Turn → Outcome NoError Turn
unfolding simplify_block
simplify_blocks zero b turn = ok turn
simplify_blocks (suc n) b (blocks, modified) = do
  turn ← simplify_block blocks b
  simplify_blocks n (suc b) (turn.0, modified || turn.1)

-- The outer loop: once more as long as a round modifies a block.
unfoldable pub simplify_loop : ℕ → List BasicBlock → Outcome NoError (List BasicBlock)
unfolding simplify_blocks
simplify_loop zero blocks = out_of_fuel
simplify_loop (suc fuel) blocks = do
  turn ← simplify_blocks (length blocks) 0 (blocks, false)
  let rest = simplify_loop fuel turn.0
  if turn.1 then rest else ok turn.0

-- `SimplifyCfg::run`.
unfoldable pub simplify_cfg : ℕ → List BasicBlock → Outcome NoError (List BasicBlock)
unfolding simplify_loop remove_noops
simplify_cfg fuel blocks =
    simplify_loop fuel (map remove_noops blocks) >>= λ blocks. ok (map remove_noops blocks)
