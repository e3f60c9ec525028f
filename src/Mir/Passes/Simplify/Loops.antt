-- ===== src/Mir/Passes/Simplify/Loops.antt =====
-- `steal` in a turn of the loop of `SimplifyCfg`, and the loop on a body of one block.
use kli.Prelude.{
  ◌<◌, ℕ, zero, suc, ◌≡◌, ◌≢◌, ◌↔◌, inl, inr, refl, ap, sym, ◌∙◌, true, some, List, [], ◌∷◌, length,
  get_elem?, get_elem?-lt, get_elem?-some, All-get, All-In, arith, Bool-cases, ◌==◌, if◌then◌else◌,
  ==_iff, In,
}
use kli.Prelude.Outcome.{Outcome, ok, out_of_fuel, ◌>>=◌}
use kli.Types.Inhabited.{NoError}
use kli.Lex.Tokens.{SrcLoc}
use kli.Mir.Syntax.{Terminator, BasicBlockId, goto, Stmt, BasicBlock}
use kli.Mir.Graph.{predecessors}
use kli.Mir.Graph.Reach.{next_of}
use kli.Mir.Graph.Returns.{IsGraph, IsLinked, IsLinked-successors}
use kli.Mir.Graph.Incoming.{incoming, incoming-In, predecessors_sound}
use kli.Mir.Runs.{Machine, Final, Exit, go, Leaves, jumps, Finishes}
use kli.Mir.Passes.Simplify.{
  steal, steal_or, simplify_kind, simplify_block, simplify_blocks, simplify_loop, Turn,
  predecessor_count, retain_stmts, simplify_cfg,
}
use kli.Mir.Passes.Simplify.Steal.{steal_preserves}

pub goto_leads :
    (m : Machine) (b : BasicBlockId) (s : m.State) (x : Exit) → Leaves m (goto b) s x → x ≡ go b
goto_leads m b s x jumps = refl

pub goto-leads :
    (m : Machine) (b : BasicBlockId) (s : m.State) (x : Exit) → Leaves m (goto b) s x ↔ (x ≡ go b)
goto-leads m b s x = (goto_leads m b s x, λ e. rw e jumps)

single : (bs : List BasicBlockId) (b : BasicBlockId) → length bs ≡ 1 → In b bs → bs ≡ b ∷ []
single [] b h i = elim i [ ]
single (x ∷ []) b h (inl e) = ap (λ (y : BasicBlockId). y ∷ []) e
single (x ∷ []) b h (inr i) = elim i [ ]
single (x ∷ y ∷ bs) b h i = absurd (omega arith)

steal_or_count :
    (blocks : List BasicBlock) (preds : List (List BasicBlockId)) (target b : BasicBlockId)
    (ps : List BasicBlockId) (rest : Outcome NoError Turn)
    → get_elem? preds target ≡ some ps
    → steal_or blocks preds target b rest
      ≡ (if length ps == 1 then steal blocks target b >>= (λ blocks. ok (blocks, true)) else rest)
unfolding steal_or
steal_or_count blocks preds target b ps rest counted =
    rw (steal_or, predecessor_count, counted) refl

-- From the entry block the ended runs are the same.
abbrev pub Same : (m : Machine) → List BasicBlock → List BasicBlock → Type 0
Same m blocks blocks' =
    (s u : m.State) (x : Final) → Finishes m blocks 0 s x u ↔ Finishes m blocks' 0 s x u

-- A turn that returns, and keeps the ended runs of the body.
abbrev pub Keeps : Machine → List BasicBlock → Outcome NoError Turn → Type 0
Keeps m blocks run = (turn : Turn) × (run ≡ ok turn) × Same m blocks turn.0

-- `steal` for a block from which control goes to `target`, which is neither the block nor the entry.
pub steal_or-Keeps :
    (m : Machine) (blocks : List BasicBlock) (preds : List (List BasicBlockId))
    (b target : BasicBlockId) (block : BasicBlock) (last : Terminator) (rest : Outcome NoError Turn)
    → IsGraph blocks
    → predecessors blocks ≡ ok preds
    → get_elem? blocks b ≡ some block
    → block.terminator ≡ some last
    → ((s : m.State) (x : Exit) → Leaves m last.kind s x ↔ (x ≡ go target))
    → In target (next_of blocks b)
    → target ≢ b
    → target ≢ 0
    → Keeps m blocks rest
    → Keeps m blocks (steal_or blocks preds target b rest)
steal_or-Keeps m blocks preds b target block last rest graph e at has leads edge ne not_entry
      (turn, ends, keeps) =
    let (_, linked) =
      IsLinked-successors blocks (length blocks) b graph.linked (get_elem?-lt blocks b block at) in
    let below = All-In (λ (c : ℕ). c < length blocks) (next_of blocks b) target linked edge in
    let counted = predecessors_sound blocks preds target e below in
    let from_b = incoming-In target 0 b b blocks (omega arith) edge in
    let turn_is = steal_or_count blocks preds target b (incoming target 0 blocks) rest counted in
    elim (Bool-cases (length (incoming target 0 blocks) == 1)) [
      | inl one ↦
          let alone = single (incoming target 0 blocks) b ((==_iff _ _).0 one) from_b in
          let (second, at') = get_elem?-some blocks target below in
          let (t', has', _) =
            All-get (IsLinked (length blocks)) blocks target second graph.linked at' in
          let (blocks', steals, same) =
            steal_preserves m blocks preds target b block second last t' e (rw alone at counted) at
              at' has has' leads ne in
          (
            (blocks', true),
            turn_is ∙ (rw (one, steals) refl),
            λ s u x. same 0 s u x (λ z. not_entry (sym z)),
          )
      | inr more ↦ (turn, turn_is ∙ rw more ends, keeps)
    ]

loop_block : List Stmt → SrcLoc → List BasicBlock
loop_block stmts src_info =
    record { stmts = stmts; terminator = some (record { src_info = src_info; kind = goto 0 }) } ∷ []

loop_block-out_of_fuel :
    (stmts : List Stmt) (src_info : SrcLoc) (fuel : ℕ)
    → simplify_loop fuel (loop_block stmts src_info) ≡ out_of_fuel
unfolding simplify_loop simplify_blocks simplify_block simplify_kind steal_or steal loop_block
loop_block-out_of_fuel stmts src_info zero = refl
loop_block-out_of_fuel stmts src_info (suc fuel) = loop_block-out_of_fuel stmts src_info fuel

-- The loop of `SimplifyCfg` does not end, whatever the number of rounds, on a body of one block that
-- jumps to itself.
pub simplify_cfg_diverges :
    (stmts : List Stmt) (src_info : SrcLoc) (fuel : ℕ)
    → simplify_cfg fuel (
        record { stmts = stmts; terminator = some (record { src_info = src_info; kind = goto 0 }) }
        ∷ [])
      ≡ out_of_fuel
unfolding simplify_cfg loop_block
simplify_cfg_diverges stmts src_info fuel =
    rw (simplify_cfg, loop_block-out_of_fuel (retain_stmts stmts) src_info fuel) refl
