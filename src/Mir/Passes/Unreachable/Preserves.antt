-- ===== src/Mir/Passes/Unreachable/Preserves.antt =====
-- The theorems on `remove_unreachable`.
use kli.Prelude.{
  ◌+◌, ◌<◌, ◌≡◌, ◌↔◌, ap, sym, ◌∙◌, true, some, List, map, arith, length, get_elem?, get_elem?-some,
}
use kli.Prelude.Outcome.{ok}
use kli.Mir.Syntax.{BasicBlockId, Terminator, BasicBlock}
use kli.Mir.Graph.{contains, reachable, map_successors}
use kli.Mir.Graph.Reach.{Reachable, entry, edge, contains-In, reachable_sound_complete}
use kli.Mir.Graph.Returns.{IsGraph, reachable_returns}
use kli.Mir.Runs.{
  Machine, Final, go, Leaves, Finishes, ends, continues, map_exit, Leaves-In, Leaves-map,
  Leaves-map_stop, Leaves-map_go,
}
use kli.Mir.Passes.Unreachable.{remove_unreachable}
use kli.Mir.Passes.Unreachable.Renamed.{image, moved, retain-IsImage}
use kli.Mir.Passes.Unreachable.Keeps.{
  new_ids, kept, next_of-get, remove_unreachable-kept, moved-terminator, moved-stmts,
  moved-terminator_inv, image-entry, kept-get, kept-Reachable,
}

module _ (blocks : List BasicBlock) (graph : IsGraph blocks) (bs : List BasicBlockId)
    (e : reachable blocks ≡ ok bs) where
  abbrev f : BasicBlockId → BasicBlockId
  f = image (new_ids blocks bs)

  -- The block at a reachable id, and what the pass makes of it.
  pub kept-at :
      (b : BasicBlockId) (block : BasicBlock)
      → Reachable blocks b
      → get_elem? blocks b ≡ some block
      → get_elem? (kept blocks bs) (f b) ≡ some (moved (new_ids blocks bs) block)
  kept-at b block r at =
      let (other, at', to) = kept-get blocks graph bs e b r in
      let same : other ≡ block = cc in rw (← same) to

  module _ (m : Machine) where
    successor-Reachable :
        (b c : BasicBlockId) (block : BasicBlock) (t : Terminator) (s : m.State)
        → Reachable blocks b
        → get_elem? blocks b ≡ some block
        → block.terminator ≡ some t
        → Leaves m t.kind s (go c)
        → Reachable blocks c
    successor-Reachable b c block t s r at has l =
        let next = next_of-get blocks b block at in edge b c r (rw (next, has) (Leaves-In m l))

    Finishes-kept :
        {b : BasicBlockId} {s u : m.State} {x : Final}
        → Finishes m blocks b s x u
        → Reachable blocks b
        → Finishes m (kept blocks bs) (f b) s x u
    unfolding map_exit
    Finishes-kept (ends {b} {block} {t} at has run l) r =
        ends (kept-at b block r at) (moved-terminator (new_ids blocks bs) block t has)
          (rw (moved-stmts (new_ids blocks bs) block) run) (Leaves-map m f l)
    Finishes-kept (continues {b} {c} {block} {t} {u} at has run l rest) r =
        continues (kept-at b block r at) (moved-terminator (new_ids blocks bs) block t has)
          (rw (moved-stmts (new_ids blocks bs) block) run) (Leaves-map m f l)
          (Finishes-kept rest (successor-Reachable b c block t u r at has l))

    -- What stands in the result at the new id of a block is the block with its successors renamed.
    kept-is :
        (b : BasicBlockId) (block' : BasicBlock) (t' : Terminator)
        → Reachable blocks b
        → get_elem? (kept blocks bs) (f b) ≡ some block'
        → block'.terminator ≡ some t'
        → (block : BasicBlock) × (t : Terminator) × (get_elem? blocks b ≡ some block)
          × (block.terminator ≡ some t)
          × (block'.stmts ≡ block.stmts)
          × (t'.kind ≡ map_successors f t.kind)
    kept-is b block' t' r at has =
        let (block, from, to) = kept-get blocks graph bs e b r in
        let same : moved (new_ids blocks bs) block ≡ block' = cc in
        let (t, e', kind) =
          moved-terminator_inv (new_ids blocks bs) block t' (rw (← same) at has) in
        (
          block,
          t,
          from,
          e',
          ap (λ (x : BasicBlock). x.stmts) (sym same) ∙ moved-stmts (new_ids blocks bs) block,
          kind,
        )

    Finishes-kept_inv :
        {k : BasicBlockId} {s u : m.State} {x : Final}
        → Finishes m (kept blocks bs) k s x u
        → (b : BasicBlockId) → Reachable blocks b
        → f b ≡ k
        → Finishes m blocks b s x u
    Finishes-kept_inv (ends {block} {t} {u} at has run l) b r e' =
        let (block, t, from, has', stmts, kind) = kept-is b block t r (rw (← e') at at) has in
        ends from has' (rw stmts at run) (Leaves-map_stop m f t.kind (rw kind at l))
    Finishes-kept_inv (continues {c} {block} {t} {u} at has run l rest) b r e' =
        let (block, t, from, has', stmts, kind) = kept-is b block t r (rw (← e') at at) has in
        let (d, same, l') = Leaves-map_go m f t.kind (rw kind at l) in
        continues from has' (rw stmts at run) l'
          (Finishes-kept_inv rest d (successor-Reachable b d block t u r from has' l') same)

  seen-Reachable : (b : BasicBlockId) → contains b bs ≡ true → Reachable blocks b
  seen-Reachable b h = ((reachable_sound_complete blocks bs e).1 b).0 (contains-In b bs h)

  -- Each block of the result is the image of a reachable block.
  pub kept-source :
      (k : BasicBlockId) (block' : BasicBlock)
      → get_elem? (kept blocks bs) k ≡ some block'
      → (b : BasicBlockId) × Reachable blocks b × (f b ≡ k)
  kept-source k block' h =
      let (b, at, to, seen) =
        retain-IsImage bs 0 0 k blocks (map (moved (new_ids blocks bs)) blocks) block' h in
      let same : 0 + b ≡ b = omega arith in
      (b, seen-Reachable b (rw same at seen), rw (to, image) (omega arith))

  kept-Reachable_all :
      (k : BasicBlockId) → k < length (kept blocks bs) → Reachable (kept blocks bs) k
  kept-Reachable_all k h =
      let (block', at) = get_elem?-some (kept blocks bs) k h in
      let (b, r, same) = kept-source k block' at in
      rw (← same) (kept-Reachable blocks graph bs e b r)

-- On a body that is a graph of blocks, `remove_unreachable` returns; from the entry block the result
-- has the same ended runs as the body, with the same states and the same way of ending.
pub remove_unreachable_preserves :
    (m : Machine) (blocks : List BasicBlock)
    → IsGraph blocks
    → (blocks' : List BasicBlock) × (remove_unreachable blocks ≡ ok blocks')
      × ((s u : m.State) (x : Final) → Finishes m blocks 0 s x u ↔ Finishes m blocks' 0 s x u)
remove_unreachable_preserves m blocks graph =
    let (bs, e) = reachable_returns blocks graph in
    let zero_at = image-entry blocks graph bs e in
    (
      kept blocks bs,
      remove_unreachable-kept blocks bs graph e,
      λ s u x. (
        λ run. rw zero_at at (Finishes-kept blocks graph bs e m run entry),
        λ run. Finishes-kept_inv blocks graph bs e m run 0 entry zero_at,
      ),
    )

-- On a body that is a graph of blocks, every block that `remove_unreachable` leaves can be reached
-- from the entry block of the result.
pub remove_unreachable-Reachable :
    (blocks blocks' : List BasicBlock) (k : BasicBlockId)
    → IsGraph blocks
    → remove_unreachable blocks ≡ ok blocks'
    → k < length blocks'
    → Reachable blocks' k
remove_unreachable-Reachable blocks blocks' k graph h below =
    let (bs, e) = reachable_returns blocks graph in
    let same : kept blocks bs ≡ blocks' = cc (remove_unreachable-kept blocks bs graph e) in
    rw same at (kept-Reachable_all blocks graph bs e k (rw (← same) at below))
