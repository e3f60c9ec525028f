-- ===== src/Mir/Passes/Unreachable/Linked.antt =====
-- The result of `remove_unreachable` as a graph of blocks.
use kli.Prelude.{
  ℕ, suc, ◌<◌, ◌≡◌, inl, inr, refl, some, List, [], ◌∷◌, map, arith, length, get_elem?,
  get_elem?-lt, All, All-get, In,
}
use kli.Prelude.Outcome.{ok}
use kli.Mir.Syntax.{BasicBlockId, BasicBlock}
use kli.Mir.Graph.{successors, reachable, map_successors}
use kli.Mir.Graph.Reach.{next_of, Reachable, entry, edge}
use kli.Mir.Graph.Returns.{IsLinked, IsGraph, reachable_returns}
use kli.Mir.Passes.Unreachable.{remove_unreachable}
use kli.Mir.Passes.Unreachable.Renamed.{image, moved}
use kli.Mir.Passes.Unreachable.Keeps.{
  new_ids, kept, next_of-get, remove_unreachable-kept, successors-map, moved-terminator, kept-get,
}
use kli.Mir.Passes.Unreachable.Preserves.{kept-source}

All-of_get :
    (P : BasicBlock → Type 0) (xs : List BasicBlock)
    → ((i : ℕ) (x : BasicBlock) → get_elem? xs i ≡ some x → P x)
    → All P xs
All-of_get P [] h = tt
All-of_get P (x ∷ xs) h = (h 0 x refl, All-of_get P xs (λ i y e. h (suc i) y e))

All-map :
    (P : ℕ → Type 0) (f : ℕ → ℕ) (bs : List ℕ) → ((b : ℕ) → In b bs → P (f b)) → All P (map f bs)
All-map P f [] h = tt
All-map P f (b ∷ bs) h = (h b (inl refl), All-map P f bs (λ c i. h c (inr i)))

-- On a body that is a graph of blocks, the result of `remove_unreachable` is one.
pub remove_unreachable-IsGraph :
    (blocks blocks' : List BasicBlock)
    → IsGraph blocks
    → remove_unreachable blocks ≡ ok blocks'
    → IsGraph blocks'
remove_unreachable-IsGraph blocks blocks' graph h =
    let (bs, e) = reachable_returns blocks graph in
    let same : kept blocks bs ≡ blocks' = cc (remove_unreachable-kept blocks bs graph e) in
    rw same at (kept-IsGraph bs e)
  where
    kept-lt :
        (bs : List BasicBlockId)
        → reachable blocks ≡ ok bs
        → (b : BasicBlockId) → Reachable blocks b
        → image (new_ids blocks bs) b < length (kept blocks bs)
    kept-lt bs e b r =
        let (block, at, to) = kept-get blocks graph bs e b r in
        get_elem?-lt (kept blocks bs) (image (new_ids blocks bs) b) _ to

    kept-IsLinked :
        (bs : List BasicBlockId)
        → reachable blocks ≡ ok bs
        → (k : BasicBlockId) (block' : BasicBlock) → get_elem? (kept blocks bs) k ≡ some block'
        → IsLinked (length (kept blocks bs)) block'
    kept-IsLinked bs e k block' at =
        let f = image (new_ids blocks bs) in
        let (b, r, to) = kept-source blocks graph bs e k block' at in
        let (block, from, moved_to) = kept-get blocks graph bs e b r in
        let same : moved (new_ids blocks bs) block ≡ block' = cc (at, moved_to, to) in
        let (t, has, _) = All-get (IsLinked (length blocks)) blocks b block graph.linked from in
        let out : next_of blocks b ≡ successors t.kind =
          rw (next_of-get blocks b block from, has) refl in
        (
          record t { kind = map_successors f t.kind },
          rw (← same) (moved-terminator (new_ids blocks bs) block t has),
          rw (successors-map f t.kind) (
              All-map (λ (s : ℕ). s < length (kept blocks bs)) f (successors t.kind)
                (λ c i. kept-lt bs e c (edge b c r (rw out i)))),
        )

    kept-IsGraph : (bs : List BasicBlockId) → reachable blocks ≡ ok bs → IsGraph (kept blocks bs)
    kept-IsGraph bs e = record {
      nonempty = let below = kept-lt bs e 0 entry in omega arith;
      linked =
          All-of_get (IsLinked (length (kept blocks bs))) (kept blocks bs) (kept-IsLinked bs e);
    }
