-- ===== src/Mir/Graph/Incoming.antt =====
-- `predecessors` against the edges that go into a block.
use mathlib.Core.List.{append_assoc}
use kli.Prelude.{
  ℕ, zero, suc, ◌+◌, ◌<◌, ◌≡◌, inl, inr, false, some, List, [], ◌∷◌, ◌∙◌, ◌++◌, arith, length,
  length-replicate, length-set, replicate, set, get_elem?, get_elem?-some, get_elem?-lt,
  get_elem?-set_self, get_elem?-set_ne, ◌==◌, ==_iff, refl, ap, Bool-cases, Option-cases, All,
  if◌then◌else◌, In, In-append-left, In-append-right,
}
use kli.Prelude.Outcome.{ok, >>=-eq-ok}
use kli.Mir.Syntax.{BasicBlockId, BasicBlock}
use kli.Mir.Graph.{
  successors_of, add_predecessor, add_predecessors, predecessors_from, predecessors,
}
use kli.Mir.Graph.Reach.{next_of}
use kli.Mir.Graph.Returns.{IsLinked, IsGraph}

-- One entry `b` for each edge from `b` to `t`.
abbrev edges_to : BasicBlockId → BasicBlockId → List BasicBlockId → List BasicBlockId
edges_to t b [] = []
edges_to t b (s ∷ ss) = if s == t then b ∷ edges_to t b ss else edges_to t b ss

-- The sources of the edges into `t`, one for each edge; the first block has the id `i`.
abbrev pub incoming : BasicBlockId → ℕ → List BasicBlock → List BasicBlockId
incoming t i [] = []
incoming t i (block ∷ blocks) =
    edges_to t i (successors_of block.terminator) ++ incoming t (suc i) blocks

add_predecessor_same :
    (b t : BasicBlockId) (preds preds' : List (List BasicBlockId)) (ps : List BasicBlockId)
    → get_elem? preds t ≡ some ps
    → add_predecessor b t preds ≡ ok preds'
    → get_elem? preds' t ≡ some (ps ++ b ∷ [])
unfolding add_predecessor
add_predecessor_same b t preds preds' ps e h =
    let made : set preds t (ps ++ b ∷ []) ≡ preds' = cc (rw (add_predecessor, e) at h) in
    rw (← made) (get_elem?-set_self preds t (ps ++ b ∷ []) (get_elem?-lt preds t ps e))

add_predecessor_other :
    (b s t : BasicBlockId) (preds preds' : List (List BasicBlockId))
    → (s == t) ≡ false
    → add_predecessor b s preds ≡ ok preds'
    → get_elem? preds' t ≡ get_elem? preds t
unfolding add_predecessor
add_predecessor_other b s t preds preds' other h = elim (Option-cases (get_elem? preds s)) [
  | inl e0 ↦ cc (rw (add_predecessor, e0) at h)
  | inr (qs, found) ↦
      let made : set preds s (qs ++ b ∷ []) ≡ preds' = cc (rw (add_predecessor, found) at h) in
      rw (← made) (get_elem?-set_ne preds s t (qs ++ b ∷ []) (λ e. cc ((==_iff s t).1 e)))
]

append-cons {ℓ} : {A : Type ℓ} (xs ys : List A) (x : A) → (xs ++ x ∷ []) ++ ys ≡ xs ++ x ∷ ys
append-cons [] ys x = refl
append-cons (z ∷ xs) ys x = ap (λ l. z ∷ l) (append-cons xs ys x)

append-empty {ℓ} : {A : Type ℓ} (xs : List A) → xs ++ [] ≡ xs
append-empty [] = refl
append-empty (z ∷ xs) = ap (λ l. z ∷ l) (append-empty xs)

add_predecessors-get :
    (b t : BasicBlockId) (ss : List BasicBlockId) (preds preds' : List (List BasicBlockId))
    (ps : List BasicBlockId)
    → get_elem? preds t ≡ some ps
    → add_predecessors b ss preds ≡ ok preds'
    → get_elem? preds' t ≡ some (ps ++ edges_to t b ss)
unfolding add_predecessors
add_predecessors-get b t [] preds preds' ps e h =
    let same : preds ≡ preds' = cc in rw (append-empty, ← same) e
add_predecessors-get b t (s ∷ ss) preds preds' ps e h =
    let (mid, first, rest) = >>=-eq-ok (add_predecessor b s preds) _ h in
    elim (Bool-cases (s == t)) [
      | inl same ↦
          let at_t : s ≡ t = (==_iff s t).0 same in
          rw (same, ← append-cons ps (edges_to t b ss) b)
            (add_predecessors-get b t ss mid preds' (ps ++ b ∷ [])
              (add_predecessor_same b t preds mid ps e (rw at_t at first)) rest)
      | inr other ↦ rw other (
          add_predecessors-get b t ss mid preds' ps
            (rw (add_predecessor_other b s t preds mid other first) e) rest)
    ]

predecessors_from-get :
    (t i : BasicBlockId) (blocks : List BasicBlock) (preds preds' : List (List BasicBlockId))
    (ps : List BasicBlockId)
    → get_elem? preds t ≡ some ps
    → predecessors_from i blocks preds ≡ ok preds'
    → get_elem? preds' t ≡ some (ps ++ incoming t i blocks)
unfolding predecessors_from
predecessors_from-get t i [] preds preds' ps e h =
    let same : preds ≡ preds' = cc in rw (append-empty, ← same) e
predecessors_from-get t i (block ∷ blocks) preds preds' ps e h =
    let (mid, first, rest) =
      >>=-eq-ok (add_predecessors i (successors_of block.terminator) preds) _ h in
    let here = add_predecessors-get i t (successors_of block.terminator) preds mid ps e first in
    rw (← append_assoc ps _ _) (predecessors_from-get t (suc i) blocks mid preds' _ here rest)

get-replicate {ℓ} : {A : Type ℓ} (n i : ℕ) (a : A) → i < n → get_elem? (replicate n a) i ≡ some a
get-replicate zero i a h = absurd (omega arith)
get-replicate (suc n) zero a h = refl
get-replicate (suc n) (suc i) a h = get-replicate n i a (omega arith)

-- When `predecessors` returns, the entry of a block lists the sources of the edges into it, in
-- order and one for each edge.
pub predecessors_sound :
    (blocks : List BasicBlock) (preds : List (List BasicBlockId)) (t : BasicBlockId)
    → predecessors blocks ≡ ok preds
    → t < length blocks
    → get_elem? preds t ≡ some (incoming t 0 blocks)
unfolding predecessors
predecessors_sound blocks preds t h i =
    predecessors_from-get t 0 blocks (replicate (length blocks) []) preds []
      (get-replicate (length blocks) t [] i) h

edges_to-In : (t b : BasicBlockId) (ss : List BasicBlockId) → In t ss → In b (edges_to t b ss)
edges_to-In t b [] i = i
edges_to-In t b (s ∷ ss) i = elim (Bool-cases (s == t)) [
  | inl same ↦ rw same (inl refl)
  | inr other ↦
      rw other
        (edges_to-In t b ss (elim i [ inl e ↦ absurd (cc (other, (==_iff s t).1 e)) | inr j ↦ j ]))
]

-- The source of each edge into a block stands among its predecessors.
pub incoming-In :
    (t i b c : BasicBlockId) (blocks : List BasicBlock)
    → c ≡ i + b
    → In t (next_of blocks b)
    → In c (incoming t i blocks)
incoming-In t i b c [] e j = j
incoming-In t i zero c (block ∷ blocks) e j =
    let f : i ≡ c = omega arith in
    In-append-left c (edges_to t i (successors_of block.terminator)) (incoming t (suc i) blocks)
      (rw (← f) (edges_to-In t i (successors_of block.terminator) j))
incoming-In t i (suc b) c (block ∷ blocks) e j =
    In-append-right c (edges_to t i (successors_of block.terminator)) _
      (incoming-In t (suc i) b c blocks (omega arith) j)

add_predecessors-returns :
    (b : BasicBlockId) (ss : List BasicBlockId) (preds : List (List BasicBlockId))
    → All (λ (s : ℕ). s < length preds) ss
    → (preds' : List (List BasicBlockId)) × (add_predecessors b ss preds ≡ ok preds')
      × (length preds' ≡ length preds)
unfolding add_predecessors add_predecessor
add_predecessors-returns b [] preds all = (preds, refl, refl)
add_predecessors-returns b (s ∷ ss) preds (here, all) =
    let (ps, found) = get_elem?-some preds s here in
    let next = set preds s (ps ++ b ∷ []) in
    let same = length-set preds s (ps ++ b ∷ []) in
    let (preds', e, n) = add_predecessors-returns b ss next (rw same all) in
    (preds', rw (add_predecessors, add_predecessor, found) e, n ∙ same)

predecessors_from-returns :
    (n i : ℕ) (blocks : List BasicBlock) (preds : List (List BasicBlockId))
    → All (IsLinked n) blocks
    → length preds ≡ n
    → (preds' : List (List BasicBlockId)) × (predecessors_from i blocks preds ≡ ok preds')
unfolding predecessors_from
predecessors_from-returns n i [] preds all e = (preds, refl)
predecessors_from-returns n i (block ∷ blocks) preds ((t, found, linked), all) e =
    let ss = successors_of block.terminator in
    let (mid, h, m) = add_predecessors-returns i ss preds (rw (found, e) linked) in
    let (preds', h') = predecessors_from-returns n (suc i) blocks mid all (m ∙ e) in
    (preds', rw (predecessors_from, h) h')

-- When every terminator is there and its successors are blocks, `predecessors` returns.
pub predecessors_returns :
    (blocks : List BasicBlock)
    → IsGraph blocks
    → (preds : List (List BasicBlockId)) × (predecessors blocks ≡ ok preds)
unfolding predecessors
predecessors_returns blocks graph =
    predecessors_from-returns (length blocks) 0 blocks (replicate (length blocks) []) graph.linked
      (length-replicate (length blocks) [])
