-- ===== src/Mir/Passes/Unreachable/Renamed.antt =====
-- The map of the blocks, and `rename_block` and `retain` with it, on a graph of blocks.
use mathlib.Core.Path.{subst}
use kli.Prelude.{
  sym, ℕ, zero, suc, ◌+◌, ◌<◌, ◌≡◌, refl, ap, ◌∙◌, true, false, Option, none, some, List, [], ◌∷◌,
  ◌++◌, map, arith, length, get_elem?, get_elem?-some, All, Bool-cases, inl, inr,
}
use kli.Prelude.Outcome.{ok, map_m}
use kli.Mir.Syntax.{
  BasicBlockId, SwitchTarget, TerminatorKind, assert, switch, unreachable, return, goto, BasicBlock,
}
use kli.Mir.Graph.{
  expect_terminator, contains, target_blocks, succesors_iter, successors, map_targets,
  map_successors,
}
use kli.Mir.Graph.Returns.{IsLinked}
use kli.Mir.Passes.Unreachable.{
  BlockMap, block_map, renamed, rename_targets, rename_successors, rename_block, retain,
}

-- Where the map sends a block.
abbrev pub image : BlockMap → BasicBlockId → BasicBlockId
image ids b = elim (get_elem? ids b) [
  | some entry ↦ elim entry [ some id ↦ id | none ↦ b ]
  | none ↦ b
]

abbrev pub moved : BlockMap → BasicBlock → BasicBlock
moved ids block = elim block.terminator [
  | some t ↦ record block {
    terminator = some (record t { kind = map_successors (image ids) t.kind });
  }
  | none ↦ block
]

renamed-image :
    (ids : BlockMap) (b : BasicBlockId) → b < length ids → renamed ids b ≡ ok (image ids b)
unfolding renamed
renamed-image ids b h = let (entry, e) = get_elem?-some ids b h in entry_image entry e
  where
    entry_image :
        (entry : Option BasicBlockId)
        → get_elem? ids b ≡ some entry
        → renamed ids b ≡ ok (image ids b)
    entry_image none e = rw (renamed, e, image) refl
    entry_image (some id) e = rw (renamed, e, image) refl

rename_targets-map :
    (ids : BlockMap) (ts : List SwitchTarget) (d : BasicBlockId)
    → All (λ (s : ℕ). s < length ids) (target_blocks ts ++ d ∷ [])
    → (rename_targets ids ts ≡ ok (map_targets (image ids) ts)) × (d < length ids)
rename_targets-map ids [] d h = (refl, h.0)
rename_targets-map ids (t ∷ ts) d (here, all) =
    let (e, last) = rename_targets-map ids ts d all in
    (rw (renamed-image ids t.target here, e) refl, last)

rename_successors-map :
    (ids : BlockMap) (k : TerminatorKind)
    → All (λ (s : ℕ). s < length ids) (successors k)
    → rename_successors ids k ≡ ok (map_successors (image ids) k)
unfolding rename_successors map_successors successors succesors_iter
rename_successors-map ids (assert o k b) h = rw (renamed-image ids b h.0) refl
rename_successors-map ids (goto b) h = rw (renamed-image ids b h.0) refl
rename_successors-map ids (switch o ts) h =
    let (e, last) = rename_targets-map ids ts.targets ts.otherwise h in
    rw (e, renamed-image ids ts.otherwise last) refl
rename_successors-map ids return h = refl
rename_successors-map ids TerminatorKind.panic h = refl
rename_successors-map ids unreachable h = refl

pub map_m-moved :
    (ids : BlockMap) (blocks : List BasicBlock)
    → All (IsLinked (length ids)) blocks
    → map_m (rename_block ids) blocks ≡ ok (map (moved ids) blocks)
unfolding rename_block expect_terminator
map_m-moved ids [] h = refl
map_m-moved ids (block ∷ blocks) ((t, e, all), rest) =
    rw
      (
        rename_block,
        expect_terminator,
        e,
        rename_successors-map ids t.kind all,
        map_m-moved ids blocks rest,
      )
      refl

-- `retain` leaves what stands at `b` at `k`.
abbrev pub Keeps : BlockMap → ℕ → ℕ → Type 0
Keeps ids b k =
    (xs : List BasicBlock) (x : BasicBlock)
    → get_elem? xs b ≡ some x
    → get_elem? (retain ids xs) k ≡ some x

Keeps-here : (ids : BlockMap) (id : BasicBlockId) → Keeps (some id ∷ ids) 0 0
Keeps-here ids id [] x h = h
Keeps-here ids id (y ∷ xs) x h = h

Keeps-after_kept :
    (ids : BlockMap) (id : BasicBlockId) (b k : ℕ)
    → Keeps ids b k
    → Keeps (some id ∷ ids) (suc b) (suc k)
Keeps-after_kept ids id b k all [] x h = cc
Keeps-after_kept ids id b k all (y ∷ xs) x h = all xs x h

Keeps-after_lost : (ids : BlockMap) (b k : ℕ) → Keeps ids b k → Keeps (none ∷ ids) (suc b) k
Keeps-after_lost ids b k all [] x h = cc
Keeps-after_lost ids b k all (y ∷ xs) x h = all xs x h

retain-empty : (ids : BlockMap) → retain ids [] ≡ []
retain-empty [] = refl
retain-empty (none ∷ ids) = refl
retain-empty (some id ∷ ids) = refl

module _ (seen : List BasicBlockId) where
  block_map-found :
      (id next : ℕ) (block : BasicBlock) (blocks : List BasicBlock)
      → contains id seen ≡ true
      → block_map seen id next (block ∷ blocks)
        ≡ some next ∷ block_map seen (suc id) (suc next) blocks
  block_map-found id next block blocks e = rw e refl

  block_map-lost :
      (id next : ℕ) (block : BasicBlock) (blocks : List BasicBlock)
      → contains id seen ≡ false
      → block_map seen id next (block ∷ blocks) ≡ none ∷ block_map seen (suc id) next blocks
  block_map-lost id next block blocks e = rw e refl

  pub length-block_map :
      (id next : ℕ) (blocks : List BasicBlock)
      → length (block_map seen id next blocks) ≡ length blocks
  length-block_map id next [] = refl
  length-block_map id next (block ∷ blocks) = elim (Bool-cases (contains id seen)) [
    | inl e ↦ rw e (ap suc (length-block_map (suc id) (suc next) blocks))
    | inr e ↦ rw e (ap suc (length-block_map (suc id) next blocks))
  ]

  -- A block that was found has a new id, at which `retain` leaves it.
  abbrev IsKept : BlockMap → ℕ → ℕ → Type 0
  IsKept ids next b = (k : ℕ) × (get_elem? ids b ≡ some (some (next + k))) × Keeps ids b k

  pub block_map-IsKept :
      (id next b c : ℕ) (blocks : List BasicBlock)
      → c ≡ id + b
      → b < length blocks
      → contains c seen ≡ true
      → IsKept (block_map seen id next blocks) next b
  block_map-IsKept id next b c [] e h found = absurd (omega arith)
  block_map-IsKept id next zero c (block ∷ blocks) e h found =
      let here : c ≡ id = omega arith in
      subst (λ ids. IsKept ids next 0)
        (sym (block_map-found id next block blocks (rw here at found)))
        (
          0,
          ap (λ (n : ℕ). some (some n)) (omega arith),
          Keeps-here (block_map seen (suc id) (suc next) blocks) next,
        )
  block_map-IsKept id next (suc b) c (block ∷ blocks) e h found =
      elim (Bool-cases (contains id seen)) [
        | inl old ↦
            let rest = block_map seen (suc id) (suc next) blocks in
            let (k, at, kept) =
              block_map-IsKept (suc id) (suc next) b c blocks (omega arith) (omega arith) found in
            subst (λ ids. IsKept ids next (suc b)) (sym (block_map-found id next block blocks old))
              (
                suc k,
                at ∙ ap (λ (n : ℕ). some (some n)) (omega arith),
                Keeps-after_kept rest next b k kept,
              )
        | inr new ↦
            let rest = block_map seen (suc id) next blocks in
            let (k, at, kept) =
              block_map-IsKept (suc id) next b c blocks (omega arith) (omega arith) found in
            subst (λ ids. IsKept ids next (suc b)) (sym (block_map-lost id next block blocks new))
              (k, at, Keeps-after_lost rest b k kept)
      ]

  abbrev IsImage : BlockMap → ℕ → ℕ → List BasicBlock → ℕ → BasicBlock → Type 0
  IsImage ids id next xs k x =
      (b : ℕ) × (get_elem? xs b ≡ some x)
      × (get_elem? ids b ≡ some (some (next + k)))
      × (contains (id + b) seen ≡ true)

  IsImage-after :
      (ids : BlockMap) (entry : Option BasicBlockId) (id next next' k k' : ℕ) (xs : List BasicBlock)
      (x y : BasicBlock)
      → next' + k' ≡ next + k
      → IsImage ids (suc id) next' xs k' x
      → IsImage (entry ∷ ids) id next (y ∷ xs) k x
  IsImage-after ids entry id next next' k k' xs x y e (b, at, to, found) =
      let same : suc id + b ≡ id + suc b = omega arith in
      (suc b, at, to ∙ ap (λ (n : ℕ). some (some n)) e, rw same at found)

  IsImage-found :
      (rest : BlockMap) (id next k : ℕ) (xs : List BasicBlock) (x y : BasicBlock)
      → contains id seen ≡ true
      → ((j : ℕ) → get_elem? (retain rest xs) j ≡ some x → IsImage rest (suc id) (suc next) xs j x)
      → get_elem? (y ∷ retain rest xs) k ≡ some x
      → IsImage (some next ∷ rest) id next (y ∷ xs) k x
  IsImage-found rest id next zero xs x y found all h =
      let same : id + 0 ≡ id = omega arith in
      (0, h, ap (λ (n : ℕ). some (some n)) (omega arith), rw same found)
  IsImage-found rest id next (suc k) xs x y found all h =
      IsImage-after rest (some next) id next (suc next) (suc k) k xs x y (omega arith) (all k h)

  -- What `retain` leaves is the image of a block that was found.
  pub retain-IsImage :
      (id next k : ℕ) (blocks xs : List BasicBlock) (x : BasicBlock)
      → get_elem? (retain (block_map seen id next blocks) xs) k ≡ some x
      → IsImage (block_map seen id next blocks) id next xs k x
  retain-IsImage id next k [] xs x h = cc
  retain-IsImage id next k (block ∷ blocks) [] x h =
      cc (rw (retain-empty (block_map seen id next (block ∷ blocks))) at h)
  retain-IsImage id next k (block ∷ blocks) (y ∷ xs) x h = elim (Bool-cases (contains id seen)) [
    | inl old ↦
        let e = block_map-found id next block blocks old in
        let rest = block_map seen (suc id) (suc next) blocks in
        subst (λ ids. IsImage ids id next (y ∷ xs) k x) (sym e)
          (IsImage-found rest id next k xs x y old
            (λ j. retain-IsImage (suc id) (suc next) j blocks xs x)
            (subst (λ ids. get_elem? (retain ids (y ∷ xs)) k ≡ some x) e h))
    | inr new ↦
        let e = block_map-lost id next block blocks new in
        let rest = block_map seen (suc id) next blocks in
        subst (λ ids. IsImage ids id next (y ∷ xs) k x) (sym e)
          (IsImage-after rest none id next next k k xs x y refl (
            retain-IsImage (suc id) next k blocks xs x
              (subst (λ ids. get_elem? (retain ids (y ∷ xs)) k ≡ some x) e h)))
  ]
