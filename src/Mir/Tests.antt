-- ===== src/Mir/Tests.antt =====
-- The theorems of `Mir` at concrete bodies.
use kli.Prelude.{
  ℕ, suc, ◌<◌, ◌≡◌, ◌↔◌, ◌⊎◌, inl, inr, refl, true, false, none, some, List, [], ◌∷◌, map, length,
  get_elem?, arith, In,
}
use kli.Prelude.Int.{pos}
use kli.Prelude.Outcome.{ok, out_of_fuel}
use kli.Types.{Ty}
use kli.Lex.Tokens.{SrcLoc}
use kli.Mir.Syntax.{
  constant, ConstValue, SwitchTargets, switch, BasicBlockId, Local, Operand, load, PlaceBase,
  TerminatorKind, return, goto, Terminator, print, BasicBlock, temp, Body,
}
use kli.Mir.Places.{as_scalar, params_from}
use kli.Mir.Graph.{branch_for_value, contains, successors, predecessors, reachable}
use kli.Mir.Graph.Reach.{Reachable, Distinct, reachable_sound_complete}
use kli.Mir.Graph.Returns.{IsGraph, reachable_returns}
use kli.Mir.Graph.Incoming.{incoming, predecessors_sound, predecessors_returns}
use kli.Mir.Runs.{Machine, Final, Finishes}
use kli.Mir.Visit.{visit_body}
use kli.Mir.Visit.Mentions.{collect, in_blocks}
use kli.Mir.Passes.Unreachable.{remove_unreachable}
use kli.Mir.Passes.Unreachable.Linked.{remove_unreachable-IsGraph}
use kli.Mir.Passes.Unreachable.Preserves.{
  remove_unreachable_preserves, remove_unreachable-Reachable,
}
use kli.Mir.Passes.Simplify.Found.{skip_jumps_preserves}
use kli.Mir.Passes.Simplify.{
  skip_jumps, is_noop, constant_scalar, steal, simplify_block, simplify_cfg, Turn,
}
use kli.Mir.Passes.Simplify.Steal.{steal_preserves}
use kli.Mir.Passes.Simplify.Loops.{goto-leads, Same, simplify_cfg_diverges}
use kli.Mir.Passes.Simplify.Turn.{IsLawful, IsSafe, simplify_block_preserves}
use kli.Mir.Passes.UnusedLocals.{remove_unused_locals}
use kli.Mir.Passes.UnusedLocals.Moves.{used_below}
use kli.Mir.Passes.UnusedLocals.Renumbered.{IsScoped, remove_unused_locals_sound}

abbrev somewhere : SrcLoc
somewhere = record { line = 1; file = 0 }

abbrev ending : TerminatorKind → Terminator
ending kind = record { src_info = somewhere; kind = kind }

abbrev bare : TerminatorKind → BasicBlock
bare kind = record { stmts = []; terminator = some (ending kind) }

-- A block that jumps over the next to the last.
abbrev three : List BasicBlock
three = bare (goto 2) ∷ bare return ∷ bare return ∷ []

abbrev two : List BasicBlock
two = bare (goto 1) ∷ bare return ∷ []

-- The state counts the statements.
abbrev counter : Machine
counter = record {
  State = ℕ;
  exec = λ _ s t. t ≡ suc s;
  eval = λ _ s v. v ≡ pos s;
  check = λ _ _ _ b. b ≡ true;
}

IsGraph-three : IsGraph three
unfolding successors
IsGraph-three = record {
  nonempty = omega arith;
  linked = (
    (ending (goto 2), refl, (omega arith, tt)),
    ((ending return, refl, tt), ((ending return, refl, tt), tt)),
  );
}

IsGraph-two : IsGraph two
unfolding successors
IsGraph-two = record {
  nonempty = omega arith;
  linked = ((ending (goto 1), refl, (omega arith, tt)), ((ending return, refl, tt), tt));
}

reachable-three : reachable three ≡ ok (0 ∷ 2 ∷ [])
unfolding reachable
reachable-three = refl

predecessors-three : predecessors three ≡ ok ([] ∷ [] ∷ (0 ∷ []) ∷ [])
unfolding predecessors
predecessors-three = refl

predecessors-two : predecessors two ≡ ok ([] ∷ (0 ∷ []) ∷ [])
unfolding predecessors
predecessors-two = refl

remove_unreachable-three : remove_unreachable three ≡ ok two
unfolding remove_unreachable
remove_unreachable-three = refl

reachable_sound_complete_example :
    Distinct (0 ∷ 2 ∷ []) × ((b : BasicBlockId) → In b (0 ∷ 2 ∷ []) ↔ Reachable three b)
reachable_sound_complete_example = reachable_sound_complete three (0 ∷ 2 ∷ []) reachable-three

reachable_returns_example : (bs : List BasicBlockId) × (reachable three ≡ ok bs)
reachable_returns_example = reachable_returns three IsGraph-three

predecessors_sound_example : get_elem? ([] ∷ [] ∷ (0 ∷ []) ∷ []) 2 ≡ some (incoming 2 0 three)
predecessors_sound_example =
    predecessors_sound three ([] ∷ [] ∷ (0 ∷ []) ∷ []) 2 predecessors-three (omega arith)

predecessors_returns_example : (preds : List (List BasicBlockId)) × (predecessors three ≡ ok preds)
predecessors_returns_example = predecessors_returns three IsGraph-three

remove_unreachable_preserves_example :
    (blocks : List BasicBlock) × (remove_unreachable three ≡ ok blocks)
    × ((s u : ℕ) (x : Final) → Finishes counter three 0 s x u ↔ Finishes counter blocks 0 s x u)
remove_unreachable_preserves_example = remove_unreachable_preserves counter three IsGraph-three

remove_unreachable-Reachable_example : Reachable two 1
remove_unreachable-Reachable_example =
    remove_unreachable-Reachable three two 1 IsGraph-three remove_unreachable-three (omega arith)

steal_preserves_example :
    (blocks : List BasicBlock) × (steal two 1 0 ≡ ok blocks)
    × ((b : BasicBlockId) (s u : ℕ) (x : Final)
        → ¬ (b ≡ 1)
        → Finishes counter two b s x u ↔ Finishes counter blocks b s x u)
steal_preserves_example =
    steal_preserves counter two ([] ∷ (0 ∷ []) ∷ []) 1 0 (bare (goto 1)) (bare return)
      (ending (goto 1)) (ending return) predecessors-two refl refl refl refl refl
      (goto-leads counter 1) (omega arith)

-- A machine that knows its constants, and on which a no-op does nothing.
abbrev lawful : Machine
lawful = record {
  State = ℕ;
  exec = λ k s t. elim (is_noop k) [ true ↦ t ≡ s | false ↦ t ≡ suc s ];
  eval = λ o s v. elim (constant_scalar o) [ some w ↦ v ≡ w | none ↦ v ≡ pos s ];
  check = λ _ _ _ b. b ≡ true;
}

IsLawful-lawful : IsLawful lawful
IsLawful-lawful = record {
  noops = λ s t. (λ e. e, λ e. e);
  constants = λ o v s z e. (λ f. rw (lawful, e) at f, λ f. rw (lawful, e) f);
}

abbrev one : Operand
one = constant (record { ty = Ty.bool; value = ConstValue.scalar (pos 1) })

abbrev on_one : SwitchTargets
on_one = record { targets = record { value = pos 1; target = 1 } ∷ []; otherwise = 2 }

-- The switch always goes to the second block.
abbrev switching : List BasicBlock
switching = bare (switch one on_one) ∷ bare return ∷ bare return ∷ []

IsGraph-switching : IsGraph switching
unfolding successors
IsGraph-switching = record {
  nonempty = omega arith;
  linked = (
    (ending (switch one on_one), refl, (omega arith, (omega arith, tt))),
    ((ending return, refl, tt), ((ending return, refl, tt), tt)),
  );
}

IsSafe-switching : IsSafe 0 (switch one on_one)
unfolding as_scalar branch_for_value
IsSafe-switching v e = let f : pos 1 ≡ v = cc in rw (← f) (omega arith, omega arith)

simplify_block-switching : (turn : Turn) × (simplify_block switching 0 ≡ ok turn) × (turn.1 ≡ true)
unfolding simplify_block
simplify_block-switching = (_, refl, refl)

simplify_block_preserves_example :
    (turn : Turn) × (simplify_block switching 0 ≡ ok turn) × Same lawful switching turn.0
simplify_block_preserves_example =
    simplify_block_preserves lawful switching 0 (bare (switch one on_one))
      (ending (switch one on_one)) IsLawful-lawful IsGraph-switching refl refl IsSafe-switching

simplify_cfg_diverges_example : simplify_cfg 3 (bare (goto 0) ∷ []) ≡ out_of_fuel
simplify_cfg_diverges_example = simplify_cfg_diverges [] somewhere 3

-- Of three locals the second is printed.
abbrev second : Operand
second = load (record { base = PlaceBase.local 1; projections = [] })

abbrev printing : Body
printing = record {
  src = 0;
  return_type = Ty.bool;
  locals =
      record { ty = Ty.bool; kind = temp }
      ∷ record { ty = Ty.char; kind = temp }
      ∷ record { ty = Ty.bool; kind = temp }
      ∷ [];
  blocks =
      record {
        stmts = record { loc = somewhere; kind = print second false } ∷ [];
        terminator = some (ending return);
      }
      ∷ [];
}

-- One local too many is kept.
remove_unused_locals-printing :
    (body : Body) × (remove_unused_locals printing ≡ ok body) × (length body.locals ≡ 2)
unfolding remove_unused_locals params_from
remove_unused_locals-printing = (_, refl, refl)

IsScoped-printing : IsScoped printing
IsScoped-printing = record {
  ended = ((ending return, refl), tt);
  scoped = λ l i. elim i [ inl e ↦ omega arith | inr n ↦ elim n [ ] ];
}

remove_unused_locals_sound_example :
    (body : Body) × (used : List Local) × (visit_body collect printing
        (params_from 0 printing.locals)
      ≡ ok used)
    × (remove_unused_locals printing ≡ ok body)
    × (in_blocks body.blocks ≡ map (used_below used) (in_blocks printing.blocks))
    × ((l : Local)
        → In l (in_blocks printing.blocks) ⊎ In l (params_from 0 printing.locals)
        → l < length printing.locals
        → (contains l used ≡ true)
          × (get_elem? body.locals (used_below used l) ≡ get_elem? printing.locals l))
    × ((k l : Local)
        → contains k used ≡ true
        → contains l used ≡ true
        → used_below used k ≡ used_below used l
        → k ≡ l)
remove_unused_locals_sound_example = remove_unused_locals_sound printing IsScoped-printing

-- A switch on the state whose targets both jump to the last block.
abbrev hopping : List BasicBlock
hopping = bare (switch second on_one) ∷ bare (goto 3) ∷ bare (goto 3) ∷ bare return ∷ []

IsGraph-hopping : IsGraph hopping
unfolding successors
IsGraph-hopping = record {
  nonempty = omega arith;
  linked = (
    (ending (switch second on_one), refl, (omega arith, (omega arith, tt))),
    (
      (ending (goto 3), refl, (omega arith, tt)),
      ((ending (goto 3), refl, (omega arith, tt)), ((ending return, refl, tt), tt)),
    ),
  );
}

abbrev into_hopping : List (List BasicBlockId)
into_hopping = [] ∷ (0 ∷ []) ∷ (0 ∷ []) ∷ (1 ∷ 2 ∷ []) ∷ []

predecessors-hopping : predecessors hopping ≡ ok into_hopping
unfolding predecessors
predecessors-hopping = refl

skip_jumps_preserves_example :
    (turn : Turn) × (skip_jumps hopping into_hopping 0 (switch second on_one) ≡ ok turn)
    × ((c : BasicBlockId) (s u : ℕ) (x : Final)
        → Finishes lawful hopping c s x u ↔ Finishes lawful turn.0 c s x u)
skip_jumps_preserves_example =
    skip_jumps_preserves lawful hopping into_hopping 0 (bare (switch second on_one))
      (ending (switch second on_one)) second on_one (λ s t. (λ e. e, λ e. e)) IsGraph-hopping
      predecessors-hopping refl refl refl

remove_unreachable-IsGraph_example : IsGraph two
remove_unreachable-IsGraph_example =
    remove_unreachable-IsGraph three two IsGraph-three remove_unreachable-three
