-- ===== src/Mir/Graph/Reach.antt =====
-- Reachability from the entry block, and the loop of `preorder` against it.
use kli.Prelude.{
  ◌↔◌, ℕ, zero, suc, ◌≡◌, ◌⊎◌, inl, inr, true, none, List, [], ◌∷◌, ◌++◌, arith, ◌==◌, ==_iff, refl,
  ap, Bool-cases, In, In-append-left, In-append-right, In-append_cases,
}
use kli.Prelude.Outcome.{ok, >>=-eq-ok}
use kli.Mir.Syntax.{BasicBlockId, BasicBlock}
use kli.Mir.Graph.{
  successors_of, block_at, expect_terminator, block_successors, contains, Found, nodes, found_from,
  preorder_loop, edge_count, preorder, reachable,
}

-- The successors of the block with an id: none where there is no block or no terminator.
abbrev pub next_of : List BasicBlock → BasicBlockId → List BasicBlockId
next_of [] b = []
next_of (block ∷ blocks) zero = successors_of block.terminator
next_of (block ∷ blocks) (suc b) = next_of blocks b

-- There is a path from the entry block.
pub data Reachable (blocks : List BasicBlock) : BasicBlockId → Type 0 where
  entry : Reachable blocks 0
  edge : (b c : BasicBlockId) → Reachable blocks b → In c (next_of blocks b) → Reachable blocks c

abbrev pub Distinct : List BasicBlockId → Type 0
Distinct [] = Unit
Distinct (b ∷ bs) = ¬ In b bs × Distinct bs

pub contains-In : (b : BasicBlockId) (bs : List BasicBlockId) → contains b bs ≡ true → In b bs
contains-In b [] h = cc
contains-In b (c ∷ cs) h = elim (Bool-cases (c == b)) [
  | inl e ↦ inl ((==_iff c b).0 e)
  | inr e ↦ inr (contains-In b cs (rw e at h))
]

pub In-contains : (b : BasicBlockId) (bs : List BasicBlockId) → In b bs → contains b bs ≡ true
In-contains b [] i = elim i [ ]
In-contains b (c ∷ cs) (inl e) = rw ((==_iff c b).1 e) refl
In-contains b (c ∷ cs) (inr i) = elim (Bool-cases (c == b)) [
  | inl e ↦ rw e refl
  | inr e ↦ rw e (In-contains b cs i)
]

pub block_successors-next :
    (blocks : List BasicBlock) (b : BasicBlockId) (ss : List BasicBlockId)
    → block_successors blocks b ≡ ok ss
    → next_of blocks b ≡ ss
unfolding block_successors block_at expect_terminator
block_successors-next [] b ss h = cc
block_successors-next (block ∷ blocks) (suc b) ss h = block_successors-next blocks b ss h
block_successors-next (block ∷ blocks) zero ss h = ground arith

found_from-In :
    (b c : BasicBlockId) (ss : List BasicBlockId) → In c ss → In c (nodes (found_from b ss))
found_from-In b c [] i = i
found_from-In b c (s ∷ ss) (inl e) = inl e
found_from-In b c (s ∷ ss) (inr i) = inr (found_from-In b c ss i)

In-found_from :
    (b c : BasicBlockId) (ss : List BasicBlockId) → In c (nodes (found_from b ss)) → In c ss
In-found_from b c [] i = i
In-found_from b c (s ∷ ss) (inl e) = inl e
In-found_from b c (s ∷ ss) (inr i) = inr (In-found_from b c ss i)

nodes-append : (xs ys : List Found) → nodes (xs ++ ys) ≡ nodes xs ++ nodes ys
nodes-append [] ys = refl
nodes-append (x ∷ xs) ys = ap (λ ns. x.1 ∷ ns) (nodes-append xs ys)

-- The run of the loop of `preorder` on a queue.
data Walk (blocks : List BasicBlock) : List Found → List BasicBlockId → List Found → Type 0 where
  finished : {seen : List BasicBlockId} → Walk blocks [] seen []
  skip :
      {x : Found} {queue found : List Found} {seen : List BasicBlockId}
      → In x.1 seen
      → Walk blocks queue seen found
      → Walk blocks (x ∷ queue) seen found
  visit :
      {x : Found} {queue found : List Found} {seen : List BasicBlockId}
      → ¬ In x.1 seen
      → Walk blocks (queue ++ found_from x.1 (next_of blocks x.1)) (x.1 ∷ seen) found
      → Walk blocks (x ∷ queue) seen (x ∷ found)

module _ (blocks : List BasicBlock) where
  -- What the loop returns is made by such a run.
  walk :
      (n : ℕ) (queue : List Found) (seen : List BasicBlockId) {found : List Found}
      → preorder_loop blocks n queue seen ≡ ok found
      → Walk blocks queue seen found
  unfolding preorder_loop
  walk n [] seen {found} h = let e : [] ≡ found = cc in rw (← e) finished
  walk zero (x ∷ queue) seen h = cc
  walk (suc n) ((parent, b) ∷ queue) seen {found} h = elim (Bool-cases (contains b seen)) [
    | inl old ↦ skip (contains-In b seen old) (walk n queue seen (rw (preorder_loop, old) at h))
    | inr new ↦
        let (ss, e, h') = >>=-eq-ok (block_successors blocks b) _ (rw (preorder_loop, new) at h) in
        let (rest, e', made) =
          >>=-eq-ok (preorder_loop blocks n (queue ++ found_from b ss) (b ∷ seen)) _ h' in
        let again = walk n (queue ++ found_from b ss) (b ∷ seen) e' in
        let f : (parent, b) ∷ rest ≡ found = cc in
        rw (← f)
          (visit (λ i. cc (In-contains b seen i)) (rw (block_successors-next blocks b ss e) again))
  ]

  Walk-Reachable :
      {queue found : List Found} {seen : List BasicBlockId}
      → Walk blocks queue seen found
      → ((b : BasicBlockId) → In b (nodes queue) → Reachable blocks b)
      → (b : BasicBlockId) → In b (nodes found)
      → Reachable blocks b
  Walk-Reachable finished all b i = elim i [ ]
  Walk-Reachable (skip _ w) all b i = Walk-Reachable w (λ c j. all c (inr j)) b i
  Walk-Reachable (visit _ w) all b (inl e) = all b (inl e)
  Walk-Reachable (visit {x} {queue} _ w) all b (inr i) =
      Walk-Reachable w
        (λ c j. elim (In-append_cases c (nodes queue) _ (rw nodes-append at j)) [
          | inl k ↦ all c (inr k)
          | inr k ↦ edge x.1 c (all x.1 (inl refl)) (In-found_from x.1 c (next_of blocks x.1) k)
        ])
        b i

  -- Each entry of the queue has been seen or is found.
  Walk-takes :
      {queue found : List Found} {seen : List BasicBlockId}
      → Walk blocks queue seen found
      → (b : BasicBlockId) → In b (nodes queue)
      → In b seen ⊎ In b (nodes found)
  Walk-takes finished b i = elim i [ ]
  Walk-takes (skip {seen} old w) b (inl e) = inl (rw (← e) old)
  Walk-takes (skip old w) b (inr i) = Walk-takes w b i
  Walk-takes (visit _ w) b (inl e) = inr (inl e)
  Walk-takes (visit {queue} _ w) b (inr i) =
      elim (Walk-takes w b (rw nodes-append (In-append-left b (nodes queue) _ i))) [
        | inl (inl e) ↦ inr (inl e)
        | inl (inr j) ↦ inl j
        | inr j ↦ inr (inr j)
      ]

  -- The successors of what is found have been seen or are found.
  Walk-closed :
      {queue found : List Found} {seen : List BasicBlockId}
      → Walk blocks queue seen found
      → (b c : BasicBlockId) → In b (nodes found)
      → In c (next_of blocks b)
      → In c seen ⊎ In c (nodes found)
  Walk-closed finished b c i j = elim i [ ]
  Walk-closed (skip _ w) b c i j = Walk-closed w b c i j
  Walk-closed (visit {x} {queue} _ w) b c (inl e) j =
      let queued =
        In-append-right c (nodes queue) _ (found_from-In x.1 c (next_of blocks x.1) (rw e j)) in
      elim (Walk-takes w c (rw nodes-append queued)) [
        | inl (inl f) ↦ inr (inl f)
        | inl (inr k) ↦ inl k
        | inr k ↦ inr (inr k)
      ]
  Walk-closed (visit _ w) b c (inr i) j = elim (Walk-closed w b c i j) [
    | inl (inl f) ↦ inr (inl f)
    | inl (inr k) ↦ inl k
    | inr k ↦ inr (inr k)
  ]

  Walk-new :
      {queue found : List Found} {seen : List BasicBlockId}
      → Walk blocks queue seen found
      → (b : BasicBlockId) → In b seen
      → ¬ In b (nodes found)
  Walk-new finished b i j = j
  Walk-new (skip _ w) b i j = Walk-new w b i j
  Walk-new (visit new w) b i (inl e) = new (rw e i)
  Walk-new (visit new w) b i (inr j) = Walk-new w b (inr i) j

  Walk-Distinct :
      {queue found : List Found} {seen : List BasicBlockId}
      → Walk blocks queue seen found
      → Distinct (nodes found)
  Walk-Distinct finished = tt
  Walk-Distinct (skip _ w) = Walk-Distinct w
  Walk-Distinct (visit {x} _ w) = (Walk-new w x.1 (inl refl), Walk-Distinct w)

  Reachable-nodes :
      {found : List Found}
      → Walk blocks ((none, 0) ∷ []) [] found
      → (b : BasicBlockId) → Reachable blocks b
      → In b (nodes found)
  Reachable-nodes w b entry = elim (Walk-takes w 0 (inl refl)) [ inl i ↦ elim i [ ] | inr i ↦ i ]
  Reachable-nodes w c (edge b _ r j) = elim (Walk-closed w b c (Reachable-nodes w b r) j) [
    | inl i ↦ elim i [ ]
    | inr i ↦ i
  ]

-- When `reachable` returns, a block is in its result exactly when a path of edges leads to it from
-- the entry block, and no block is in the result twice.
pub reachable_sound_complete :
    (blocks : List BasicBlock) (bs : List BasicBlockId)
    → reachable blocks ≡ ok bs
    → Distinct bs × ((b : BasicBlockId) → In b bs ↔ Reachable blocks b)
unfolding reachable preorder
reachable_sound_complete blocks bs h =
    let (found, e, made) = >>=-eq-ok (preorder blocks) _ h in
    let made : nodes found ≡ bs = cc in
    let w = walk blocks (suc (edge_count blocks)) ((none, 0) ∷ []) [] e in
    rw (← made) (
      Walk-Distinct blocks w,
      λ b. (
        Walk-Reachable blocks w (λ c i. elim i [ inl z ↦ rw (← z) entry | inr n ↦ elim n [ ] ]) b,
        Reachable-nodes blocks w b,
      ),
    )
