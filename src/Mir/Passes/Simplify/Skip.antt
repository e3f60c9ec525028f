-- ===== src/Mir/Passes/Simplify/Skip.antt =====
-- A switch that goes past blocks that only jump, and the runs of the body.
use kli.Prelude.{
  ◌≡◌, ◌≢◌, ◌↔◌, ◌⊎◌, inl, inr, refl, ap, sym, ◌∙◌, true, &&-left, &&-right, some, List, [], ◌∷◌,
  get_elem?, get_elem?-lt, set, get_elem?-set_self, get_elem?-set_ne, ℕ_discrete,
}
use kli.Mir.Syntax.{BasicBlockId, Terminator, goto, BasicBlock, Stmt, StmtKind, noop}
use kli.Mir.Graph.{map_successors}
use kli.Mir.Runs.{
  Machine, Final, go, stop, map_exit, Executes, finished, next, jumps, Finishes, ends, continues,
  Leaves-map, Leaves-map_stop, Leaves-map_go,
}
use kli.Mir.Passes.Simplify.{is_noop, only_noops}
use kli.Mir.Passes.Simplify.Loops.{goto_leads}

-- A no-op does nothing.
abbrev pub SkipsNoops : Machine → Type 0
SkipsNoops m = (s t : m.State) → m.exec noop s t ↔ (t ≡ s)

is_noop_eq : (k : StmtKind) → is_noop k ≡ true → k ≡ noop
is_noop_eq noop e = refl
is_noop_eq (StmtKind.assign _ _) e = cc
is_noop_eq (StmtKind.print _ _) e = cc
is_noop_eq (StmtKind.copy _ _ _) e = cc

-- The block only jumps, to `d`.
pub record Jumps (blocks : List BasicBlock) (c d : BasicBlockId) : Type 0 where
  pub block : BasicBlock
  pub last : Terminator
  pub at : get_elem? blocks c ≡ some block
  pub noops : only_noops block.stmts ≡ true
  pub has : block.terminator ≡ some last
  pub jump : last.kind ≡ goto d

module _ (m : Machine) (law : SkipsNoops m) where
  noops_keep : (ss : List Stmt) {s u : m.State} → only_noops ss ≡ true → Executes m ss s u → u ≡ s
  noops_keep [] e finished = refl
  noops_keep (x ∷ ss) {s} {u} e (next {t} run rest) =
      let k = is_noop_eq x.kind (&&-left (is_noop x.kind) (only_noops ss) e) in
      let first : t ≡ s = (law s t).0 (rw k at run) in
      noops_keep ss (&&-right (is_noop x.kind) (only_noops ss) e) rest ∙ first

  noops_run : (ss : List Stmt) (s : m.State) → only_noops ss ≡ true → Executes m ss s s
  noops_run [] s e = finished
  noops_run (x ∷ ss) s e =
      let k = is_noop_eq x.kind (&&-left (is_noop x.kind) (only_noops ss) e) in
      next (rw k ((law s s).1 refl)) (noops_run ss s (&&-right (is_noop x.kind) (only_noops ss) e))

  module _ (blocks : List BasicBlock) (b : BasicBlockId) (block : BasicBlock) (last : Terminator)
      (at_b : get_elem? blocks b ≡ some block) (has_b : block.terminator ≡ some last)
      (f : BasicBlockId → BasicBlockId)
      (skips : (c : BasicBlockId) → (f c ≡ c) ⊎ Jumps blocks c (f c)) where
    abbrev skipped : BasicBlock
    skipped = record block { terminator = some (record last { kind = map_successors f last.kind }) }

    abbrev pub after : List BasicBlock
    after = set blocks b skipped

    after_at : get_elem? after b ≡ some skipped
    after_at = get_elem?-set_self blocks b skipped (get_elem?-lt blocks b block at_b)

    after_other : (c : BasicBlockId) → c ≢ b → get_elem? after c ≡ get_elem? blocks c
    after_other c n = get_elem?-set_ne blocks b c skipped (λ e. n (sym e))

    pub Finishes-after :
        {c : BasicBlockId} {s w : m.State} {x : Final}
        → Finishes m blocks c s x w
        → Finishes m after c s x w
          × ((d : BasicBlockId) → Jumps blocks c d → Finishes m after d s x w)
    unfolding map_exit
    Finishes-after (ends {b = c} {block = y} {t} {u} {e = x} at has run l) = (
      elim (ℕ_discrete c b) [
        | yes e ↦
            let e1 : y ≡ block = cc (at, at_b, e) in
            let e2 : t ≡ last = cc (has, has_b, e1) in
            ends (ap (get_elem? after) e ∙ after_at) refl (rw e1 at run)
              (Leaves-map m f (rw e2 at l))
        | no e0 ↦ ends (after_other c e0 ∙ at) has run l
      ],
      λ d j.
          let e1 : y ≡ j.block = cc (at, j.at) in
          let e2 : t ≡ j.last = cc (has, j.has, e1) in
          let out : stop x ≡ go d = goto_leads m d u (stop x) (rw (e2, j.jump) at l) in cc,
    )
    Finishes-after (continues {b = c} {c = d} {block = y} {t} {s} {u} at has run l more) = (
      elim (ℕ_discrete c b) [
        | yes e ↦
            let e1 : y ≡ block = cc (at, at_b, e) in
            let e2 : t ≡ last = cc (has, has_b, e1) in
            continues (ap (get_elem? after) e ∙ after_at) refl (rw e1 at run)
              (Leaves-map m f (rw e2 at l))
              (elim (skips d) [
                | inl same ↦ rw same (Finishes-after more).0
                | inr j ↦ (Finishes-after more).1 (f d) j
              ])
        | no e0 ↦ continues (after_other c e0 ∙ at) has run l (Finishes-after more).0
      ],
      λ d' j.
          let e1 : y ≡ j.block = cc (at, j.at) in
          let e2 : t ≡ j.last = cc (has, j.has, e1) in
          let out : go d ≡ go d' = goto_leads m d' u (go d) (rw (e2, j.jump) at l) in
          let same : d ≡ d' = cc out in
          let still : u ≡ s = noops_keep j.block.stmts j.noops (rw e1 at run) in
          rw (← same, ← still) (Finishes-after more).0,
    )

    after_is :
        {c : BasicBlockId} {y : BasicBlock} {t : Terminator}
        → c ≡ b
        → get_elem? after c ≡ some y
        → y.terminator ≡ some t
        → (y.stmts ≡ block.stmts) × (t.kind ≡ map_successors f last.kind)
    after_is {c} {y} {t} e at has =
        let same : skipped ≡ y = cc (after_at, rw e at at) in
        let same' : record last { kind = map_successors f last.kind } ≡ t =
          cc (has, ap (λ (x : BasicBlock). x.terminator) same) in
        (ap (λ (x : BasicBlock). x.stmts) (sym same), ap (λ (x : Terminator). x.kind) (sym same'))

    pub Finishes-after_inv :
        {c : BasicBlockId} {s w : m.State} {x : Final}
        → Finishes m after c s x w
        → Finishes m blocks c s x w
    Finishes-after_inv (ends {b = c} {block = y} {t} {u} at has run l) = elim (ℕ_discrete c b) [
      | yes e ↦
          let (stmts, kind) = after_is e at has in
          ends (ap (get_elem? blocks) e ∙ at_b) has_b (rw stmts at run)
            (Leaves-map_stop m f last.kind (rw kind at l))
      | no e0 ↦ ends (sym (after_other c e0) ∙ at) has run l
    ]
    Finishes-after_inv (continues {b = c} {c = d} {block = y} {t} {u} at has run l more) =
        elim (ℕ_discrete c b) [
          | yes e ↦
              let (stmts, kind) = after_is e at has in
              let (d', same, l') = Leaves-map_go m f last.kind (rw kind at l) in
              let rest = rw (← same) at (Finishes-after_inv more) in
              continues (ap (get_elem? blocks) e ∙ at_b) has_b (rw stmts at run) l'
                (elim (skips d') [
                  | inl stays ↦ rw stays at rest
                  | inr j ↦
                      continues j.at j.has (noops_run j.block.stmts u j.noops) (rw j.jump jumps)
                        rest
                ])
          | no e0 ↦ continues (sym (after_other c e0) ∙ at) has run l (Finishes-after_inv more)
        ]
