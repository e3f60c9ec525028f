-- ===== src/Mir/Passes/Unreachable.antt =====
-- src/mir/passes/remove_unreachable.rs: the blocks that cannot be reached are removed and the others
-- are renumbered.
pub mod Renamed
pub mod Keeps
pub mod Preserves
pub mod Linked
use kli.Prelude.{
  ℕ, suc, Bool, true, false, Option, none, some, List, [], ◌∷◌, get_elem?, if◌then◌else◌,
}
use kli.Prelude.Outcome.{Outcome, ok, panic, ◌>>=◌, map_m}
use kli.Types.Inhabited.{NoError}
use kli.Mir.Syntax.{
  BasicBlockId, SwitchTarget, SwitchTargets, TerminatorKind, assert, switch, unreachable, return,
  goto, Terminator, BasicBlock,
}
use kli.Mir.Graph.{expect_terminator, contains, reachable}

abbrev pub BlockMap : Type 0
BlockMap = List (Option BasicBlockId)

-- `block_map`, from the block `id` on, where `next_block_id` is the next id to be given.
abbrev pub block_map : List BasicBlockId → BasicBlockId → BasicBlockId → List BasicBlock → BlockMap
block_map seen id next_block_id [] = []
block_map seen id next_block_id (_ ∷ blocks) =
    if contains id seen
    then some next_block_id ∷ block_map seen (suc id) (suc next_block_id) blocks
    else none ∷ block_map seen (suc id) next_block_id blocks

-- The closure on `successors_mut`; `block_map[*block]` panics out of range.
unfoldable pub renamed : BlockMap → BasicBlockId → Outcome NoError BasicBlockId
renamed map b = elim (get_elem? map b) [
  | some entry ↦ elim entry [ some id ↦ ok id | none ↦ ok b ]
  | none ↦ panic
]

abbrev pub rename_targets : BlockMap → List SwitchTarget → Outcome NoError (List SwitchTarget)
rename_targets map [] = ok []
rename_targets map (t ∷ ts) = do
  id ← renamed map t.target
  rest ← rename_targets map ts
  ok (record t { target = id } ∷ rest)

unfoldable pub rename_successors : BlockMap → TerminatorKind → Outcome NoError TerminatorKind
unfolding renamed
rename_successors map (assert o k b) = renamed map b >>= λ id. ok (assert o k id)
rename_successors map (goto b) = renamed map b >>= λ id. ok (goto id)
rename_successors map (switch o ts) = do
  targets ← rename_targets map ts.targets
  otherwise ← renamed map ts.otherwise
  ok (switch o (record { targets = targets; otherwise = otherwise }))
rename_successors map return = ok return
rename_successors map TerminatorKind.panic = ok TerminatorKind.panic
rename_successors map unreachable = ok unreachable

unfoldable pub rename_block : BlockMap → BasicBlock → Outcome NoError BasicBlock
unfolding rename_successors expect_terminator
rename_block map block = do
  t ← expect_terminator block
  kind ← rename_successors map t.kind
  ok (record block { terminator = some (record t { kind = kind }) })

-- `retain(|id, _| block_map[id].is_some())`, on a map with an entry for each block.
abbrev pub retain : BlockMap → List BasicBlock → List BasicBlock
retain (some _ ∷ map) (block ∷ blocks) = block ∷ retain map blocks
retain (none ∷ map) (_ ∷ blocks) = retain map blocks
retain _ _ = []

-- `RemoveUnreachable::run`.
unfoldable pub remove_unreachable : List BasicBlock → Outcome NoError (List BasicBlock)
unfolding reachable rename_block
remove_unreachable blocks = do
  seen ← reachable blocks
  let ids = block_map seen 0 0 blocks
  blocks ← map_m (rename_block ids) blocks
  ok (retain ids blocks)
