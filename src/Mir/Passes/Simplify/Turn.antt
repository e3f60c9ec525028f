-- ===== src/Mir/Passes/Simplify/Turn.antt =====
-- A turn of the inner loop of `SimplifyCfg`, and the runs of the body before and after it.
use kli.Prelude.{
  ◌≡◌, ◌≢◌, ◌↔◌, inl, inr, refl, ap, ◌∙◌, false, some, List, get_elem?, Option-cases, In,
}
use kli.Prelude.Int.{ℤ}
use kli.Prelude.Outcome.{ok}
use kli.Mir.Syntax.{
  BasicBlockId, Operand, SwitchTargets, Terminator, TerminatorKind, goto, switch, BasicBlock,
}
use kli.Mir.Graph.{successors, succesors_iter, branch_for_value}
use kli.Mir.Graph.Reach.{next_of}
use kli.Mir.Graph.Returns.{IsGraph}
use kli.Mir.Graph.Incoming.{predecessors_returns}
use kli.Mir.Runs.{Machine, Exit, go, Leaves, branches, branch_in-In}
use kli.Mir.Passes.Unreachable.Keeps.{next_of-get}
use kli.Mir.Passes.Simplify.{skip_jumps, simplify_kind, simplify_block, constant_scalar, Turn}
use kli.Mir.Passes.Simplify.Steal.{block_at-get, expect_terminator-has}
use kli.Mir.Passes.Simplify.Loops.{goto-leads, Same, Keeps, steal_or-Keeps}
use kli.Mir.Passes.Simplify.Skip.{SkipsNoops}
use kli.Mir.Passes.Simplify.Found.{skip_jumps_preserves}

-- No-ops do nothing, and a scalar constant has its own value.
pub record IsLawful (m : Machine) : Type 0 where
  pub noops : SkipsNoops m
  pub constants :
      (o : Operand) (v : ℤ) (s : m.State) (z : ℤ)
      → constant_scalar o ≡ some v
      → m.eval o s z ↔ (z ≡ v)

-- The one block to which the terminator of `b` is known to lead is not `b`, and not the entry.
abbrev pub IsSafe : BasicBlockId → TerminatorKind → Type 0
IsSafe b (goto target) = (target ≢ b) × (target ≢ 0)
IsSafe b (switch o ts) =
    (v : ℤ) → constant_scalar o ≡ some v → (branch_for_value ts v ≢ b) × (branch_for_value ts v ≢ 0)
IsSafe b _ = Unit

leaves_switch :
    (m : Machine) (o : Operand) (ts : SwitchTargets) (s : m.State) (x : Exit)
    → Leaves m (switch o ts) s x
    → (v : ℤ) × m.eval o s v × (x ≡ go (branch_for_value ts v))
leaves_switch m o ts s x (branches {v} e) = (v, e, refl)

switch-leads :
    (m : Machine) (o : Operand) (ts : SwitchTargets) (v : ℤ)
    → IsLawful m
    → constant_scalar o ≡ some v
    → (s : m.State) (x : Exit) → Leaves m (switch o ts) s x ↔ (x ≡ go (branch_for_value ts v))
switch-leads m o ts v law e s x = (
  λ l.
      let (z, value, out) = leaves_switch m o ts s x l in
      out ∙ ap (λ (y : ℤ). go (branch_for_value ts y)) ((law.constants o v s z e).0 value),
  λ f. rw f (branches ((law.constants o v s v e).1 refl)),
)

branch-In :
    (o : Operand) (ts : SwitchTargets) (v : ℤ)
    → In (branch_for_value ts v) (successors (switch o ts))
unfolding successors succesors_iter branch_for_value
branch-In o ts v = branch_in-In v ts.targets ts.otherwise

module _ (m : Machine) (law : IsLawful m) (blocks : List BasicBlock) (graph : IsGraph blocks)
    (b : BasicBlockId) (block : BasicBlock) (last : Terminator)
    (at : get_elem? blocks b ≡ some block) (has : block.terminator ≡ some last) where
  next_is : (k : TerminatorKind) → last.kind ≡ k → next_of blocks b ≡ successors k
  next_is k e = rw (next_of-get blocks b block at, has, e) refl

  unchanged : Keeps m blocks (ok (blocks, false))
  unchanged = ((blocks, false), refl, λ s u x. (λ run. run, λ run. run))

  simplify_kind-Keeps :
      (k : TerminatorKind) → last.kind ≡ k → IsSafe b k → Keeps m blocks (simplify_kind blocks b k)
  unfolding simplify_kind successors
  simplify_kind-Keeps (goto target) e (ne, not_entry) =
      let (preds, p) = predecessors_returns blocks graph in
      rw p (
        steal_or-Keeps m blocks preds b target block last _ graph p at has
          (rw e (goto-leads m target)) (rw (next_is (goto target) e) (inl refl)) ne not_entry
          unchanged)
  simplify_kind-Keeps (switch o ts) e safe =
      let (preds, p) = predecessors_returns blocks graph in
      let (turn, skips, same) =
        skip_jumps_preserves m blocks preds b block last o ts law.noops graph p at has e in
      let rest : Keeps m blocks (skip_jumps blocks preds b (switch o ts)) =
        (turn, skips, λ s u x. same 0 s u x) in
      elim (Option-cases (constant_scalar o)) [
        | inl e0 ↦ rw (p, e0) rest
        | inr (v, known) ↦
            rw (p, known)
              (steal_or-Keeps m blocks preds b (branch_for_value ts v) block last _ graph p at has
                (rw e (switch-leads m o ts v law known))
                (rw (next_is (switch o ts) e) (branch-In o ts v)) (safe v known).0 (safe v known).1
                rest)
      ]
  simplify_kind-Keeps (TerminatorKind.assert _ _ _) e safe = unchanged
  simplify_kind-Keeps TerminatorKind.unreachable e safe = unchanged
  simplify_kind-Keeps TerminatorKind.return e safe = unchanged
  simplify_kind-Keeps TerminatorKind.panic e safe = unchanged

-- On a graph, a turn of the inner loop of `SimplifyCfg` on a block, whatever its terminator, returns
-- and keeps the ended runs from the entry block, where no-ops do nothing and scalar constants have
-- their value, and if the block that the terminator leads to, when that is known, is neither the
-- block itself nor the entry block.
pub simplify_block_preserves :
    (m : Machine) (blocks : List BasicBlock) (b : BasicBlockId) (block : BasicBlock)
    (last : Terminator)
    → IsLawful m
    → IsGraph blocks
    → get_elem? blocks b ≡ some block
    → block.terminator ≡ some last
    → IsSafe b last.kind
    → (turn : Turn) × (simplify_block blocks b ≡ ok turn) × Same m blocks turn.0
unfolding simplify_block
simplify_block_preserves m blocks b block last law graph at has safe =
    rw (simplify_block, block_at-get blocks b block at)
      (rw (expect_terminator-has block last has)
        (simplify_kind-Keeps m law blocks graph b block last at has last.kind refl safe))
