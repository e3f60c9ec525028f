-- ===== src/Mir/Passes/Simplify/Joined.antt =====
-- A block and the block it leads to, joined, and the runs of the body.
use kli.Prelude.{
  zero, suc, ◌≡◌, ◌≢◌, ◌↔◌, refl, ap, sym, ◌∙◌, some, List, [], ◌∷◌, ◌++◌, get_elem?, In,
  ℕ_discrete,
}
use kli.Mir.Syntax.{BasicBlockId, Terminator, BasicBlock}
use kli.Mir.Graph.Reach.{next_of}
use kli.Mir.Runs.{
  Machine, Final, Exit, go, stop, Executes, Executes-append, Executes-append_cases, Leaves,
  Finishes, ends, continues, Leaves-In,
}

-- `block` is `from` a jump to `target`, which `blocks'` has in place of it.
pub record Joined (m : Machine) (blocks blocks' : List BasicBlock) (block target : BasicBlockId)
    : Type 0 where
  pub first : BasicBlock
  pub second : BasicBlock
  pub first_end : Terminator
  pub second_end : Terminator
  pub first_at : get_elem? blocks block ≡ some first
  pub second_at : get_elem? blocks target ≡ some second
  pub first_has : first.terminator ≡ some first_end
  pub second_has : second.terminator ≡ some second_end
  pub leads : (s : m.State) (x : Exit) → Leaves m first_end.kind s x ↔ (x ≡ go target)
  pub only : (c : BasicBlockId) → In target (next_of blocks c) → c ≡ block
  pub different : target ≢ block
  pub joined_at :
      get_elem? blocks' block
      ≡ some (record {
        stmts = first.stmts ++ second.stmts;
        terminator = some (record first_end { kind = second_end.kind });
      })
  pub others :
      (c : BasicBlockId) → c ≢ block → c ≢ target → get_elem? blocks' c ≡ get_elem? blocks c

pub next_of-In :
    (m : Machine) (blocks : List BasicBlock) (b c : BasicBlockId) (block : BasicBlock)
    (t : Terminator) (s : m.State)
    → get_elem? blocks b ≡ some block
    → block.terminator ≡ some t
    → Leaves m t.kind s (go c)
    → In c (next_of blocks b)
next_of-In m [] b c block t s at has l = cc
next_of-In m (x ∷ blocks) zero c block t s at has l =
    let e : x ≡ block = cc in rw (e, has) (Leaves-In m l)
next_of-In m (x ∷ blocks) (suc b) c block t s at has l = next_of-In m blocks b c block t s at has l

module _ {m : Machine} {blocks blocks' : List BasicBlock} {block target : BasicBlockId}
    (j : Joined m blocks blocks' block target) where
  -- Control comes to `target` from `block` only.
  elsewhere :
      {b c : BasicBlockId} {x : BasicBlock} {t : Terminator} {s : m.State}
      → get_elem? blocks b ≡ some x
      → x.terminator ≡ some t
      → Leaves m t.kind s (go c)
      → b ≢ block
      → c ≢ target
  elsewhere {b} {c} {x} {t} {s} at has l other e =
      other (j.only b (rw e at (next_of-In m blocks b c x t s at has l)))

  -- From `target` the body does what the end of the joined block does.
  pub Finishes-joined :
      {c : BasicBlockId} {s w : m.State} {x : Final}
      → Finishes m blocks c s x w
      → (c ≢ target → Finishes m blocks' c s x w)
        × (c ≡ target
            → (r : m.State) → Executes m j.first.stmts r s
            → Finishes m blocks' block r x w)
  Finishes-joined (ends {b = c} {block = y} {t} {u} {e = x} at has run l) = (
    λ other. elim (ℕ_discrete c block) [
      | yes e ↦
          let e1 : y ≡ j.first = cc (at, j.first_at) in
          let e2 : t ≡ j.first_end = cc (has, j.first_has, e1) in
          let out : stop x ≡ go target = (j.leads u (stop x)).0 (rw e2 at l) in cc
      | no e0 ↦ ends (j.others c e0 other ∙ at) has run l
    ],
    λ e r a.
        let e1 : y ≡ j.second = cc (at, j.second_at) in
        let e2 : t ≡ j.second_end = cc (has, j.second_has, e1) in
        ends j.joined_at refl (Executes-append m a (rw e1 at run)) (rw e2 at l),
  )
  Finishes-joined (continues {b = c} {c = d} {block = y} {t} {u} at has run l more) = (
    λ other. elim (ℕ_discrete c block) [
      | yes e ↦
          let e1 : y ≡ j.first = cc (at, j.first_at) in
          let e2 : t ≡ j.first_end = cc (has, j.first_has, e1) in
          let out : go d ≡ go target = (j.leads u (go d)).0 (rw e2 at l) in
          rw (← e) at ((Finishes-joined more).1 (cc out) _ (rw e1 at run))
      | no e0 ↦
          continues (j.others c e0 other ∙ at) has run l
            ((Finishes-joined more).0 (elsewhere at has l e0))
    ],
    λ e r a.
        let e1 : y ≡ j.second = cc (at, j.second_at) in
        let e2 : t ≡ j.second_end = cc (has, j.second_has, e1) in
        continues j.joined_at refl (Executes-append m a (rw e1 at run)) (rw e2 at l)
          ((Finishes-joined more).0 (elsewhere at has l (λ f. j.different (cc (e, f))))),
  )

  joined_is :
      {y : BasicBlock} {t : Terminator}
      → get_elem? blocks' block ≡ some y
      → y.terminator ≡ some t
      → (y.stmts ≡ j.first.stmts ++ j.second.stmts) × (t.kind ≡ j.second_end.kind)
  joined_is {y} {t} at has =
      let e : record {
        stmts = j.first.stmts ++ j.second.stmts;
        terminator = some (record (j.first_end) { kind = j.second_end.kind });
      }
          ≡ y =
        cc (at, j.joined_at) in
      let e' : record (j.first_end) { kind = j.second_end.kind } ≡ t =
        cc (has, ap (λ (x : BasicBlock). x.terminator) e) in
      (ap (λ (x : BasicBlock). x.stmts) (sym e), ap (λ (x : Terminator). x.kind) (sym e'))

  pub Finishes-joined_inv :
      {c : BasicBlockId} {s w : m.State} {x : Final}
      → Finishes m blocks' c s x w
      → c ≢ target
      → Finishes m blocks c s x w
  Finishes-joined_inv (ends {b = c} {block = y} {t} {u} at has run l) other =
      elim (ℕ_discrete c block) [
        | yes e ↦
            let (stmts, kind) = joined_is (rw e at at) has in
            let (r, a, b) =
              Executes-append_cases m j.first.stmts j.second.stmts (rw stmts at run) in
            continues (rw e j.first_at) j.first_has a ((j.leads r (go target)).1 refl)
              (ends j.second_at j.second_has b (rw kind at l))
        | no e0 ↦ ends (sym (j.others c e0 other) ∙ at) has run l
      ]
  Finishes-joined_inv (continues {b = c} {c = d} {block = y} {t} {u} at has run l more) other =
      elim (ℕ_discrete c block) [
        | yes e ↦
            let (stmts, kind) = joined_is (rw e at at) has in
            let (r, a, b) =
              Executes-append_cases m j.first.stmts j.second.stmts (rw stmts at run) in
            let l' = rw kind at l in
            continues (rw e j.first_at) j.first_has a ((j.leads r (go target)).1 refl) (
              continues j.second_at j.second_has b l'
                (Finishes-joined_inv more (elsewhere j.second_at j.second_has l' j.different)))
        | no e0 ↦
            let at' = sym (j.others c e0 other) ∙ at in
            continues at' has run l (Finishes-joined_inv more (elsewhere at' has l e0))
      ]
