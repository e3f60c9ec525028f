-- ===== src/Mir/Passes/Simplify/Found.antt =====
-- What `SimplifyCfg` finds to go past on a graph, and the turn of its loop on a switch.
use kli.Prelude.{
  ℕ, ◌<◌, ◌≡◌, ◌↔◌, ◌⊎◌, inl, inr, refl, ap, ◌∙◌, true, false, Option, none, some, List, [], ◌∷◌,
  length, get_elem?, get_elem?-some, get_elem?-lt, set, All, All-get, Bool-cases, Option-cases,
  ◌==◌, ==_iff, ltb,
}
use kli.Prelude.Outcome.{ok, ◌>>=◌}
use kli.Mir.Syntax.{
  BasicBlockId, Terminator, TerminatorKind, goto, switch, Operand, SwitchTargets, BasicBlock,
}
use kli.Mir.Graph.{block_at, expect_terminator, successors, map_successors, predecessors}
use kli.Mir.Graph.Reach.{next_of}
use kli.Mir.Graph.Returns.{IsGraph, IsLinked, IsLinked-successors}
use kli.Mir.Graph.Incoming.{incoming, predecessors_sound}
use kli.Mir.Runs.{Machine, Final, Finishes}
use kli.Mir.Passes.Unreachable.Keeps.{next_of-get}
use kli.Mir.Passes.Simplify.{
  only_noops, goto_target, past, predecessor_count, Targets, collect_past, get, get_or_self,
  has_any, Turn, set_kind, go_past, skip_jumps,
}
use kli.Mir.Passes.Simplify.Steal.{block_at-get, expect_terminator-has}
use kli.Mir.Passes.Simplify.Skip.{SkipsNoops, Jumps, Finishes-after, Finishes-after_inv}

goto_target-some : (k : TerminatorKind) (d : BasicBlockId) → goto_target k ≡ some d → k ≡ goto d
goto_target-some (goto b) d e = let f : b ≡ d = cc in ap goto f
goto_target-some (TerminatorKind.assert _ _ _) d e = cc
goto_target-some (switch _ _) d e = cc
goto_target-some TerminatorKind.unreachable d e = cc
goto_target-some TerminatorKind.return d e = cc
goto_target-some TerminatorKind.panic d e = cc

module _ (blocks : List BasicBlock) (graph : IsGraph blocks) (preds : List (List BasicBlockId))
    (counted : predecessors blocks ≡ ok preds) where
  past-counted :
      (c : BasicBlockId) (ps : List BasicBlockId)
      → get_elem? preds c ≡ some ps
      → past blocks preds c ≡ elim (ltb 1 (length ps)) [
        | true ↦ ok none
        | false ↦ block_at blocks c >>= λ block. elim (only_noops block.stmts) [
          | false ↦ ok none
          | true ↦ expect_terminator block >>= λ t. ok (goto_target t.kind)
        ]
      ]
  unfolding past
  past-counted c ps e = rw (past, predecessor_count, e) refl

  past_few :
      (c : BasicBlockId) (ps : List BasicBlockId) (block : BasicBlock)
      → get_elem? preds c ≡ some ps
      → ltb 1 (length ps) ≡ false
      → get_elem? blocks c ≡ some block
      → past blocks preds c ≡ elim (only_noops block.stmts) [
        | false ↦ ok none
        | true ↦ expect_terminator block >>= λ t. ok (goto_target t.kind)
      ]
  past_few c ps block e few at = past-counted c ps e ∙ rw (few, block_at-get blocks c block at) refl

  -- What is found for a block is where it jumps, when it only jumps.
  past-Jumps :
      (c : BasicBlockId)
      → c < length blocks
      → (r : Option BasicBlockId) × (past blocks preds c ≡ ok r)
        × ((d : BasicBlockId) → r ≡ some d → Jumps blocks c d)
  past-Jumps c h =
      let e = predecessors_sound blocks preds c counted h in
      let (block, at) = get_elem?-some blocks c h in
      let (t, has, _) = All-get (IsLinked (length blocks)) blocks c block graph.linked at in
      elim (Bool-cases (ltb 1 (length (incoming c 0 blocks)))) [
        | inl many ↦ (none, past-counted c (incoming c 0 blocks) e ∙ rw many refl, λ d e. cc)
        | inr few ↦ elim (Bool-cases (only_noops block.stmts)) [
          | inl noops ↦ (
            goto_target t.kind,
            past_few c (incoming c 0 blocks) block e few at
                ∙ (rw (noops, expect_terminator-has block t has) refl),
            λ d e. record {
              block = block;
              last = t;
              at = at;
              noops = noops;
              has = has;
              jump = goto_target-some t.kind d e;
            },
          )
          | inr more ↦
              (none, past_few c (incoming c 0 blocks) block e few at ∙ rw more refl, λ d e. cc)
        ]
      ]

  abbrev AreJumps : Targets → Type 0
  AreJumps targets = (c d : BasicBlockId) → get targets c ≡ some d → Jumps blocks c d

  add_target :
      (c : BasicBlockId) (r : Option BasicBlockId) (rest : Targets)
      → ((d : BasicBlockId) → r ≡ some d → Jumps blocks c d)
      → AreJumps rest
      → AreJumps (elim r [ some target ↦ (c, target) ∷ rest | none ↦ rest ])
  add_target c none rest here all c' d e = all c' d e
  add_target c (some target) rest here all c' d e = elim (Bool-cases (c == c')) [
    | inl same ↦
        let f : c ≡ c' = (==_iff c c').0 same in
        let g : some target ≡ some d = rw same at e in rw (← f) (here d g)
    | inr other ↦ all c' d (rw other at e)
  ]

  collect_past-AreJumps :
      (cs : List BasicBlockId)
      → All (λ (c : ℕ). c < length blocks) cs
      → (targets : Targets) × (collect_past blocks preds cs ≡ ok targets) × AreJumps targets
  collect_past-AreJumps [] all = ([], refl, λ c d e. cc)
  collect_past-AreJumps (c ∷ cs) (here, all) =
      let (r, e, jumps) = past-Jumps c here in
      let (rest, e', all_jump) = collect_past-AreJumps cs all in
      (_, rw (e, e') refl, add_target c r rest jumps all_jump)

  get_or_self-skips :
      (targets : Targets)
      → AreJumps targets
      → (c : BasicBlockId) → (get_or_self targets c ≡ c) ⊎ Jumps blocks c (get_or_self targets c)
  get_or_self-skips targets all c = elim (Option-cases (get targets c)) [
    | inl e0 ↦ inl (rw (get_or_self, e0) refl)
    | inr (d, e) ↦ inr (rw (get_or_self, e) (all c d e))
  ]

-- On a graph, and where no-ops do nothing, the arm of `SimplifyCfg` that goes past blocks that only
-- jump returns for a block that ends with a switch, and from every block the ended runs are the same
-- before and after.
pub skip_jumps_preserves :
    (m : Machine) (blocks : List BasicBlock) (preds : List (List BasicBlockId)) (b : BasicBlockId)
    (block : BasicBlock) (last : Terminator) (o : Operand) (ts : SwitchTargets)
    → SkipsNoops m
    → IsGraph blocks
    → predecessors blocks ≡ ok preds
    → get_elem? blocks b ≡ some block
    → block.terminator ≡ some last
    → last.kind ≡ switch o ts
    → (turn : Turn) × (skip_jumps blocks preds b (switch o ts) ≡ ok turn)
      × ((c : BasicBlockId) (s u : m.State) (x : Final)
          → Finishes m blocks c s x u ↔ Finishes m turn.0 c s x u)
unfolding skip_jumps go_past set_kind successors
skip_jumps_preserves m blocks preds b block last o ts law graph counted at has kind =
    let (_, linked) =
      IsLinked-successors blocks (length blocks) b graph.linked (get_elem?-lt blocks b block at) in
    let out : next_of blocks b ≡ successors (switch o ts) =
      rw (next_of-get blocks b block at, has, kind) refl in
    let (targets, found, all) =
      collect_past-AreJumps blocks graph preds counted (successors (switch o ts))
        (rw out at linked) in
    let f = get_or_self targets in
    let skips = get_or_self-skips blocks graph preds counted targets all in
    let new = record block {
      terminator = some (record last { kind = map_successors f last.kind });
    } in
    (
      (set blocks b new, has_any targets (successors (switch o ts))),
      rw
          (
            skip_jumps,
            found,
            go_past,
            set_kind,
            block_at-get blocks b block at,
            expect_terminator-has block last has,
            kind,
          )
          refl,
      λ c s u x. (
        λ run. (Finishes-after m law blocks b block last at has f skips run).0,
        λ run. Finishes-after_inv m law blocks b block last at has f skips run,
      ),
    )
