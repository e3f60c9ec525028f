-- ===== src/Mir/Passes/Unreachable/Keeps.antt =====
-- `remove_unreachable` on a graph of blocks: what stands where in its result.
use mathlib.Core.Path.{subst}
use kli.Prelude.{
  ℕ, zero, suc, ◌<◌, ◌≡◌, inl, inr, refl, ap, sym, ◌∙◌, true, some, List, [], ◌∷◌, ◌++◌, map, arith,
  length, get_elem?, get_elem?-some, All, All-In, Option-cases, In,
}
use kli.Prelude.Outcome.{ok}
use kli.Mir.Syntax.{
  BasicBlockId, SwitchTarget, TerminatorKind, assert, switch, unreachable, return, goto, Terminator,
  BasicBlock,
}
use kli.Mir.Graph.{
  contains, successors, successors_of, target_blocks, succesors_iter, map_targets, map_successors,
  reachable,
}
use kli.Mir.Graph.Reach.{next_of, Reachable, entry, edge, In-contains, reachable_sound_complete}
use kli.Mir.Graph.Returns.{IsLinked, IsGraph, IsLinked-successors}
use kli.Mir.Passes.Unreachable.{BlockMap, block_map, retain, remove_unreachable}
use kli.Mir.Passes.Unreachable.Renamed.{
  image, moved, map_m-moved, length-block_map, block_map-IsKept,
}

pub get-map :
    {A B : Type 0} (f : A → B) (xs : List A) (i : ℕ) (x : A)
    → get_elem? xs i ≡ some x
    → get_elem? (map f xs) i ≡ some (f x)
get-map f [] i x h = cc
get-map f (y ∷ xs) zero x h = let e : y ≡ x = cc in rw e refl
get-map f (y ∷ xs) (suc i) x h = get-map f xs i x h

pub next_of-get :
    (blocks : List BasicBlock) (b : BasicBlockId) (block : BasicBlock)
    → get_elem? blocks b ≡ some block
    → next_of blocks b ≡ successors_of block.terminator
next_of-get [] b block h = cc
next_of-get (x ∷ blocks) zero block h =
    let e : x ≡ block = cc in ap (λ (y : BasicBlock). successors_of y.terminator) e
next_of-get (x ∷ blocks) (suc b) block h = next_of-get blocks b block h

pub Reachable-lt :
    (blocks : List BasicBlock) (b : BasicBlockId)
    → IsGraph blocks
    → Reachable blocks b
    → b < length blocks
Reachable-lt blocks b graph entry = graph.nonempty
Reachable-lt blocks c graph (edge b _ r i) =
    let (_, linked) =
      IsLinked-successors blocks (length blocks) b graph.linked (Reachable-lt blocks b graph r) in
    All-In _ (next_of blocks b) c linked i

module _ (blocks : List BasicBlock) (bs : List BasicBlockId) where
  abbrev pub new_ids : BlockMap
  new_ids = block_map bs 0 0 blocks

  abbrev pub kept : List BasicBlock
  kept = retain new_ids (map (moved new_ids) blocks)

pub remove_unreachable-kept :
    (blocks : List BasicBlock) (bs : List BasicBlockId)
    → IsGraph blocks
    → reachable blocks ≡ ok bs
    → remove_unreachable blocks ≡ ok (kept blocks bs)
unfolding remove_unreachable
remove_unreachable-kept blocks bs graph e =
    let all =
      subst (λ (n : ℕ). All (IsLinked n) blocks) (sym (length-block_map bs 0 0 blocks))
        graph.linked in
    rw (e, remove_unreachable, map_m-moved (new_ids blocks bs) blocks all) refl

entry-image :
    (blocks : List BasicBlock) (bs : List BasicBlockId)
    → 0 < length blocks
    → contains 0 bs ≡ true
    → image (new_ids blocks bs) 0 ≡ 0
entry-image [] bs h found = absurd (omega arith)
entry-image (block ∷ blocks) bs h found = rw found refl

map_targets-blocks :
    (f : BasicBlockId → BasicBlockId) (ts : List SwitchTarget) (d : BasicBlockId)
    → target_blocks (map_targets f ts) ++ f d ∷ [] ≡ map f (target_blocks ts ++ d ∷ [])
map_targets-blocks f [] d = refl
map_targets-blocks f (t ∷ ts) d = ap (λ bs. f t.target ∷ bs) (map_targets-blocks f ts d)

pub successors-map :
    (f : BasicBlockId → BasicBlockId) (k : TerminatorKind)
    → successors (map_successors f k) ≡ map f (successors k)
unfolding successors succesors_iter map_successors
successors-map f (assert o k b) = refl
successors-map f (goto b) = refl
successors-map f (switch o ts) = map_targets-blocks f ts.targets ts.otherwise
successors-map f return = refl
successors-map f TerminatorKind.panic = refl
successors-map f unreachable = refl

In-map :
    (f : BasicBlockId → BasicBlockId) (b : BasicBlockId) (bs : List BasicBlockId)
    → In b bs
    → In (f b) (map f bs)
In-map f b [] i = i
In-map f b (c ∷ bs) (inl e) = inl (ap f e)
In-map f b (c ∷ bs) (inr i) = inr (In-map f b bs i)

pub moved-successors :
    (ids : BlockMap) (block : BasicBlock)
    → successors_of (moved ids block).terminator ≡ map (image ids) (successors_of block.terminator)
moved-successors ids block = elim (Option-cases block.terminator) [
  | inl e ↦ rw e refl
  | inr (t, e) ↦ rw e (successors-map (image ids) t.kind)
]

module _ (blocks : List BasicBlock) (graph : IsGraph blocks) (bs : List BasicBlockId)
    (e : reachable blocks ≡ ok bs) where
  pub image-entry : image (new_ids blocks bs) 0 ≡ 0
  image-entry =
      let found = In-contains 0 bs (((reachable_sound_complete blocks bs e).1 0).1 entry) in
      entry-image blocks bs graph.nonempty found

  -- The result has a reachable block at its new id, with its successors renamed.
  pub kept-get :
      (b : BasicBlockId)
      → Reachable blocks b
      → (block : BasicBlock) × (get_elem? blocks b ≡ some block)
        × (get_elem? (kept blocks bs) (image (new_ids blocks bs) b)
            ≡ some (moved (new_ids blocks bs) block))
  kept-get b r =
      let below = Reachable-lt blocks b graph r in
      let (block, at) = get_elem?-some blocks b below in
      let found = In-contains b bs (((reachable_sound_complete blocks bs e).1 b).1 r) in
      let (k, to, stays) = block_map-IsKept bs 0 0 b b blocks (omega arith) below found in
      let here : image (new_ids blocks bs) b ≡ k = rw (to, image) (omega arith) in
      (
        block,
        at,
        rw here (
            stays (map (moved (new_ids blocks bs)) blocks) _
              (get-map (moved (new_ids blocks bs)) blocks b block at)),
      )

  -- A path is kept.
  pub kept-Reachable :
      (b : BasicBlockId)
      → Reachable blocks b
      → Reachable (kept blocks bs) (image (new_ids blocks bs) b)
  kept-Reachable b entry = rw image-entry entry
  kept-Reachable c (edge b _ r i) =
      let f = image (new_ids blocks bs) in
      let (block, at, to) = kept-get b r in
      let next =
        next_of-get (kept blocks bs) (f b) _ to ∙ moved-successors (new_ids blocks bs) block in
      edge (f b) (f c) (kept-Reachable b r) (
        rw next
          (In-map f c (successors_of block.terminator) (rw (next_of-get blocks b block at) at i)))

pub moved-terminator :
    (ids : BlockMap) (block : BasicBlock) (t : Terminator)
    → block.terminator ≡ some t
    → (moved ids block).terminator ≡ some (record t { kind = map_successors (image ids) t.kind })
moved-terminator ids block t e = rw (e, moved) refl

pub moved-stmts : (ids : BlockMap) (block : BasicBlock) → (moved ids block).stmts ≡ block.stmts
moved-stmts ids block = elim (Option-cases block.terminator) [
  | inl e ↦ rw e refl
  | inr (t, e) ↦ rw e refl
]

pub moved-terminator_inv :
    (ids : BlockMap) (block : BasicBlock) (t' : Terminator)
    → (moved ids block).terminator ≡ some t'
    → (t : Terminator) × (block.terminator ≡ some t) × (t'.kind ≡ map_successors (image ids) t.kind)
moved-terminator_inv ids block t' h = elim (Option-cases block.terminator) [
  | inl e ↦ cc (rw e at h)
  | inr (t, e) ↦
      let same : record t { kind = map_successors (image ids) t.kind } ≡ t' =
        cc (moved-terminator ids block t e) in
      (t, e, ap (λ (x : Terminator). x.kind) (sym same))
]
