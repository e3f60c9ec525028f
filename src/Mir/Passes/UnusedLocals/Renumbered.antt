-- ===== src/Mir/Passes/UnusedLocals/Renumbered.antt =====
-- `RemoveUnusedLocals` on a body that mentions its own locals only.
use kli.Prelude.{
  ℕ, zero, suc, ◌+◌, ◌<◌, ◌≡◌, ◌≢◌, ◌⊎◌, inl, inr, refl, ap, ◌∙◌, true, List, [], ◌∷◌, map, length,
  get_elem?, take, arith, Bool-cases, ◌==◌, ==_iff, In,
}
use kli.Prelude.Outcome.{ok}
use kli.Mir.Syntax.{Local, Body}
use kli.Mir.Places.{params_from}
use kli.Mir.Graph.{contains}
use kli.Mir.Graph.Reach.{In-contains}
use kli.Mir.Visit.{visit_body}
use kli.Mir.Visit.Mentions.{collect, in_blocks, AreEnded, in_place}
use kli.Mir.Visit.Collects.{visit_blocks-Collects, Collects-local, collect_written-Collects}
use kli.Mir.Visit.Changed.{mut_blocks-Renames}
use kli.Mir.Passes.UnusedLocals.{replace_local, remove_unused_locals}
use kli.Mir.Passes.UnusedLocals.Moves.{used_below, used_below_lt, renumber-Moves}

get-take : {A : Type 0} (n i : ℕ) (xs : List A) → i < n → get_elem? (take n xs) i ≡ get_elem? xs i
get-take zero i xs h = absurd (omega arith)
get-take (suc n) i [] h = refl
get-take (suc n) zero (x ∷ xs) h = refl
get-take (suc n) (suc i) (x ∷ xs) h = get-take n i xs (omega arith)

-- The locals that the blocks mention are locals of the body, and its blocks have terminators.
pub record IsScoped (body : Body) : Type 0 where
  pub ended : AreEnded body.blocks
  pub scoped : (l : Local) → In l (in_blocks body.blocks) → l < length body.locals

-- No two used locals get the same id.
used_below_injective :
    (used : List Local) (k l : Local)
    → contains k used ≡ true
    → contains l used ≡ true
    → used_below used k ≡ used_below used l
    → k ≡ l
used_below_injective used k l hk hl e = elim (Bool-cases (k == l)) [
  | inl same ↦ (==_iff k l).0 same
  | inr other ↦
      let ne : k ≢ l = λ f. cc (other, (==_iff k l).1 f) in
      let order : (k < l) ⊎ (l < k) = ground arith in
      absurd (elim order [
        | inl h ↦ omega (arith, used_below_lt used k l hk h)
        | inr h ↦ omega (arith, used_below_lt used l k hl h)
      ])
]

-- When each block has a terminator and each local that is mentioned is a local of the body, the pass
-- returns. With `used` the locals that are mentioned or are parameters, the result mentions, in the
-- same order, for each local the number of used locals below it, and has the local's information
-- there; no two used locals have the same number of used locals below them.
pub remove_unused_locals_sound :
    (body : Body)
    → IsScoped body
    → (body' : Body) × (used : List Local) × (visit_body collect body (params_from 0 body.locals)
        ≡ ok used)
      × (remove_unused_locals body ≡ ok body')
      × (in_blocks body'.blocks ≡ map (used_below used) (in_blocks body.blocks))
      × ((l : Local)
          → In l (in_blocks body.blocks) ⊎ In l (params_from 0 body.locals)
          → l < length body.locals
          → (contains l used ≡ true)
            × (get_elem? body'.locals (used_below used l) ≡ get_elem? body.locals l))
      × ((k l : Local)
          → contains k used ≡ true
          → contains l used ≡ true
          → used_below used k ≡ used_below used l
          → k ≡ l)
unfolding remove_unused_locals visit_body params_from replace_local
remove_unused_locals_sound body scope =
    let params = params_from 0 body.locals in
    let (used, visited, found) =
      visit_blocks-Collects collect in_place (λ loc l. Collects-local l) collect_written-Collects 0
        body.blocks params scope.ended in
    let (r, run, m) = renumber-Moves used (length body.locals) 0 body.locals (omega arith) in
    let f = replace_local r.local_map in
    let (blocks, changed, renamed) =
      mut_blocks-Renames f (used_below used) 0 body.blocks scope.ended (λ loc l i.
        let seen = In-contains l used (found l (inl i)) in
        let (to, _) = m.moves l l (omega arith) (scope.scoped l i) seen in
        rw (replace_local, to) refl) in
    (
      record body { locals = take (suc r.next_local) r.locals; blocks = blocks },
      used,
      visited,
      rw (visited, run, changed, remove_unused_locals, visit_body) refl,
      renamed,
      λ l i h.
          let seen = In-contains l used (found l i) in
          let (_, at) = m.moves l l (omega arith) h seen in
          let low = used_below_lt used l (length body.locals) seen h in
          let same : 0 + length body.locals ≡ length body.locals = omega arith in
          let last = m.last ∙ ap (used_below used) same in
          (seen, get-take (suc r.next_local) (used_below used l) r.locals (omega arith) ∙ at),
      used_below_injective used,
    )
