-- ===== src/Mir/Graph.antt =====
-- The graph of the blocks of a body: the successors of a terminator and `branch_for_value` of
-- src/mir/mod.rs, `predecessors` of src/mir/basic_blocks.rs, `preorder` of src/mir/passes/mod.rs, and
-- `reachable` of src/mir/traversal.rs.
pub mod Reach
pub mod Returns
pub mod Incoming
use kli.Prelude.{
  ℕ, zero, suc, ◌+◌, Bool, true, false, ◌||◌, Option, none, some, List, [], ◌∷◌, ◌++◌, map, reverse,
  ltb, ◌==◌, if◌then◌else◌, length, get_elem?, set, replicate,
}
use kli.Prelude.Int.{ℤ, int_eq}
use kli.Prelude.Outcome.{Outcome, ok, panic, out_of_fuel, ◌>>=◌}
use kli.Types.Inhabited.{NoError}
use kli.Mir.Syntax.{
  BasicBlockId, SwitchTarget, SwitchTargets, TerminatorKind, assert, switch, unreachable, return,
  goto, Terminator, BasicBlock,
}

abbrev pub target_blocks : List SwitchTarget → List BasicBlockId
target_blocks [] = []
target_blocks (t ∷ ts) = t.target ∷ target_blocks ts

-- `succesors_iter`: the targets in their order, and then the default.
unfoldable pub succesors_iter : SwitchTargets → List BasicBlockId
succesors_iter ts = target_blocks ts.targets ++ ts.otherwise ∷ []

-- `Terminator::successors`; `next_back` takes from the end of the list.
unfoldable pub successors : TerminatorKind → List BasicBlockId
unfolding succesors_iter
successors (assert _ _ b) = b ∷ []
successors (goto b) = b ∷ []
successors (switch _ ts) = succesors_iter ts
successors return = []
successors TerminatorKind.panic = []
successors unreachable = []

abbrev pub branch_in : ℤ → List SwitchTarget → BasicBlockId → BasicBlockId
branch_in v [] otherwise = otherwise
branch_in v (t ∷ ts) otherwise = if int_eq t.value v then t.target else branch_in v ts otherwise

-- `branch_for_value`.
unfoldable pub branch_for_value : SwitchTargets → ℤ → BasicBlockId
branch_for_value ts v = branch_in v ts.targets ts.otherwise

-- What `successors_mut` makes of a terminator when each successor is replaced.
abbrev pub map_targets : (BasicBlockId → BasicBlockId) → List SwitchTarget → List SwitchTarget
map_targets f [] = []
map_targets f (t ∷ ts) = record t { target = f t.target } ∷ map_targets f ts

unfoldable pub map_successors : (BasicBlockId → BasicBlockId) → TerminatorKind → TerminatorKind
map_successors f (assert o k b) = assert o k (f b)
map_successors f (goto b) = goto (f b)
map_successors f (switch o ts) =
    switch o (record { targets = map_targets f ts.targets; otherwise = f ts.otherwise })
map_successors f return = return
map_successors f TerminatorKind.panic = TerminatorKind.panic
map_successors f unreachable = unreachable

-- `blocks[id]` and `expect_terminator`, which panic.
unfoldable pub block_at : List BasicBlock → BasicBlockId → Outcome NoError BasicBlock
block_at blocks b = elim (get_elem? blocks b) [ some block ↦ ok block | none ↦ panic ]

unfoldable pub expect_terminator : BasicBlock → Outcome NoError Terminator
expect_terminator block = elim block.terminator [ some t ↦ ok t | none ↦ panic ]

abbrev pub successors_of : Option Terminator → List BasicBlockId
successors_of none = []
successors_of (some t) = successors t.kind

-- The successors of a block that must have a terminator.
unfoldable pub block_successors :
    List BasicBlock → BasicBlockId → Outcome NoError (List BasicBlockId)
unfolding block_at expect_terminator successors
block_successors blocks b = do
  block ← block_at blocks b
  t ← expect_terminator block
  ok (successors t.kind)

-- `preds[succ].push(block_id)`.
unfoldable pub add_predecessor :
    BasicBlockId
    → BasicBlockId
    → List (List BasicBlockId)
    → Outcome NoError (List (List BasicBlockId))
add_predecessor b succ preds = elim (get_elem? preds succ) [
  | some ps ↦ ok (set preds succ (ps ++ b ∷ []))
  | none ↦ panic
]

unfoldable pub add_predecessors :
    BasicBlockId
    → List BasicBlockId
    → List (List BasicBlockId)
    → Outcome NoError (List (List BasicBlockId))
unfolding add_predecessor
add_predecessors b [] preds = ok preds
add_predecessors b (s ∷ ss) preds = add_predecessor b s preds >>= add_predecessors b ss

unfoldable pub predecessors_from :
    BasicBlockId
    → List BasicBlock
    → List (List BasicBlockId)
    → Outcome NoError (List (List BasicBlockId))
unfolding add_predecessors successors
predecessors_from i [] preds = ok preds
predecessors_from i (block ∷ blocks) preds =
    add_predecessors i (successors_of block.terminator) preds >>= predecessors_from (suc i) blocks

-- `BasicBlocks::predecessors`.
unfoldable pub predecessors : List BasicBlock → Outcome NoError (List (List BasicBlockId))
unfolding predecessors_from
predecessors blocks = predecessors_from 0 blocks (replicate (length blocks) [])

abbrev pub contains : BasicBlockId → List BasicBlockId → Bool
contains b [] = false
contains b (c ∷ cs) = c == b || contains b cs

-- An entry of the queue, and of the result: a block with the block from which it was found.
abbrev pub Found : Type 0
Found = Option BasicBlockId × BasicBlockId

abbrev pub nodes : List Found → List BasicBlockId
nodes [] = []
nodes (x ∷ xs) = x.1 ∷ nodes xs

abbrev pub found_from : BasicBlockId → List BasicBlockId → List Found
found_from b [] = []
found_from b (s ∷ ss) = (some b, s) ∷ found_from b ss

-- The loop of `preorder`: `seen` is the set of the blocks found, and the result is what it adds.
unfoldable pub preorder_loop :
    List BasicBlock → ℕ → List Found → List BasicBlockId → Outcome NoError (List Found)
unfolding block_successors
preorder_loop blocks n [] seen = ok []
preorder_loop blocks zero (_ ∷ _) seen = out_of_fuel
preorder_loop blocks (suc n) ((parent, current) ∷ queue) seen = elim (contains current seen) [
  | true ↦ preorder_loop blocks n queue seen
  | false ↦ do
    next ← block_successors blocks current
    rest ← preorder_loop blocks n (queue ++ found_from current next) (current ∷ seen)
    ok ((parent, current) ∷ rest)
]

-- One step for each entry that the queue can hold: the first, and one for each edge.
abbrev pub edge_count : List BasicBlock → ℕ
edge_count [] = 0
edge_count (block ∷ blocks) = length (successors_of block.terminator) + edge_count blocks

unfoldable pub preorder : List BasicBlock → Outcome NoError (List Found)
unfolding preorder_loop successors
preorder blocks = preorder_loop blocks (suc (edge_count blocks)) ((none, 0) ∷ []) []

-- `traversal::reachable`.
unfoldable pub reachable : List BasicBlock → Outcome NoError (List BasicBlockId)
unfolding preorder
reachable blocks = preorder blocks >>= λ found. ok (nodes found)
