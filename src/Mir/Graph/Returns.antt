-- ===== src/Mir/Graph/Returns.antt =====
-- Bodies that are graphs of blocks, and the steps that the loop of `preorder` takes on them.
use kli.Prelude.{
  ℕ, zero, suc, ◌+◌, ◌≤◌, ◌<◌, ◌≡◌, inl, inr, true, false, none, some, List, [], ◌∷◌, ◌++◌, arith,
  length, length-append, ◌==◌, ==_refl, refl, ap, Bool-cases, All, All-append,
}
use kli.Prelude.Outcome.{ok}
use kli.Mir.Syntax.{BasicBlockId, Terminator, BasicBlock}
use kli.Mir.Graph.{
  successors, successors_of, block_at, expect_terminator, block_successors, contains, Found, nodes,
  found_from, preorder_loop, edge_count, preorder, reachable,
}
use kli.Mir.Graph.Reach.{next_of}

-- The block has a terminator, and its successors are below the bound.
abbrev pub IsLinked : ℕ → BasicBlock → Type 0
IsLinked n block =
    (t : Terminator) × (block.terminator ≡ some t) × All (λ (s : ℕ). s < n) (successors t.kind)

-- There is an entry block, and every block is linked to blocks.
pub record IsGraph (blocks : List BasicBlock) : Type 0 where
  pub nonempty : 0 < length blocks
  pub linked : All (IsLinked (length blocks)) blocks

pub IsLinked-successors :
    (blocks : List BasicBlock) (n b : ℕ)
    → All (IsLinked n) blocks
    → b < length blocks
    → (block_successors blocks b ≡ ok (next_of blocks b))
      × All (λ (s : ℕ). s < n) (next_of blocks b)
unfolding block_successors block_at expect_terminator
IsLinked-successors [] n b h i = absurd (omega arith)
IsLinked-successors (block ∷ blocks) n (suc b) h i =
    IsLinked-successors blocks n b h.1 (omega arith)
IsLinked-successors (block ∷ blocks) n zero ((t, e, all), _) i =
    (simp (e, block_successors, block_at, expect_terminator), rw e all)

-- The number of the edges out of blocks that have not been seen; the first block has the id `i`.
abbrev open_edges : ℕ → List BasicBlock → List BasicBlockId → ℕ
open_edges i [] seen = 0
open_edges i (block ∷ blocks) seen =
    elim (contains i seen) [ true ↦ 0 | false ↦ length (successors_of block.terminator) ]
    + open_edges (suc i) blocks seen

open_edges-before :
    (blocks : List BasicBlock) (i b : ℕ) (seen : List BasicBlockId)
    → b < i
    → open_edges i blocks (b ∷ seen) ≡ open_edges i blocks seen
open_edges-before [] i b seen h = refl
open_edges-before (block ∷ blocks) i b seen h =
    let other : (b == i) ≡ false = ground arith in
    rw (other, open_edges-before blocks (suc i) b seen (omega arith)) refl

open_edges-visit :
    (blocks : List BasicBlock) (i b c : ℕ) (seen : List BasicBlockId)
    → c ≡ i + b
    → b < length blocks
    → contains c seen ≡ false
    → open_edges i blocks seen ≡ length (next_of blocks b) + open_edges i blocks (c ∷ seen)
open_edges-visit [] i b c seen e h new = absurd (omega arith)
open_edges-visit (block ∷ blocks) i zero c seen e h new =
    let f : c ≡ i = omega arith in
    rw f (
      rw (rw f at new, ==_refl i, open_edges-before blocks (suc i) i seen (omega arith))
        (omega arith))
open_edges-visit (block ∷ blocks) i (suc b) c seen e h new =
    let other : (c == i) ≡ false = ground arith in
    rw other
      (omega (arith, open_edges-visit blocks (suc i) b c seen (omega arith) (omega arith) new))

open_edges-all : (blocks : List BasicBlock) (i : ℕ) → open_edges i blocks [] ≡ edge_count blocks
open_edges-all [] i = refl
open_edges-all (block ∷ blocks) i = omega (arith, open_edges-all blocks (suc i))

length-found_from : (b : ℕ) (ss : List BasicBlockId) → length (found_from b ss) ≡ length ss
length-found_from b [] = refl
length-found_from b (s ∷ ss) = ap suc (length-found_from b ss)

All-found_from :
    (n b : ℕ) (ss : List BasicBlockId)
    → All (λ (s : ℕ). s < n) ss
    → All (λ (x : Found). x.1 < n) (found_from b ss)
All-found_from n b [] h = tt
All-found_from n b (s ∷ ss) h = (h.0, All-found_from n b ss h.1)

module _ (blocks : List BasicBlock) (graph : IsGraph blocks) where
  preorder_loop-returns :
      (n : ℕ) (queue : List Found) (seen : List BasicBlockId)
      → All (λ (x : Found). x.1 < length blocks) queue
      → length queue + open_edges 0 blocks seen ≤ n
      → (found : List Found) × (preorder_loop blocks n queue seen ≡ ok found)
  unfolding preorder_loop
  preorder_loop-returns n [] seen all h = ([], refl)
  preorder_loop-returns zero (x ∷ queue) seen all h = absurd (omega arith)
  preorder_loop-returns (suc n) ((parent, b) ∷ queue) seen (here, all) h =
      elim (Bool-cases (contains b seen)) [
        | inl old ↦
            let (found, e) = preorder_loop-returns n queue seen all (omega arith) in
            (found, rw (preorder_loop, old) e)
        | inr new ↦
            let (returns, linked) =
              IsLinked-successors blocks (length blocks) b graph.linked here in
            let next = next_of blocks b in
            let visited = open_edges-visit blocks 0 b b seen (omega arith) here new in
            let (found, e) =
              preorder_loop-returns n (queue ++ found_from b next) (b ∷ seen)
                (All-append _ queue _ all (All-found_from (length blocks) b next linked))
                (omega (
                  arith,
                  visited,
                  length-append queue (found_from b next),
                  length-found_from b next,
                )) in
            ((parent, b) ∷ found, rw (preorder_loop, new, returns, e) refl)
      ]

-- On a body with an entry block, each of whose blocks has a terminator with successors among the
-- blocks, `reachable` returns.
pub reachable_returns :
    (blocks : List BasicBlock)
    → IsGraph blocks
    → (bs : List BasicBlockId) × (reachable blocks ≡ ok bs)
unfolding reachable preorder
reachable_returns blocks graph =
    let (found, e) =
      preorder_loop-returns blocks graph (suc (edge_count blocks)) ((none, 0) ∷ []) []
        (graph.nonempty, tt) (omega (arith, open_edges-all blocks 0)) in
    (nodes found, rw (e, preorder, reachable) refl)
