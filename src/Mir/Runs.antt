-- ===== src/Mir/Runs.antt =====
-- What a body of src/mir/mod.rs does when it is run, over any meaning of its statements and operands.
--
-- The passes move statements and change the edges between the blocks, so that a run is described by
-- the edges it takes; what a statement does to the state, which value an operand has and whether an
-- assertion holds are relations of a `Machine`.
use mathlib.Core.Path.{subst}
use kli.Prelude.{
  sym, ◌≡◌, refl, ap, Bool, true, false, some, List, [], ◌∷◌, ◌++◌, get_elem?, In, inl, inr,
  Bool-cases,
}
use kli.Prelude.Int.{ℤ, int_eq}
use kli.Mir.Syntax.{
  BasicBlockId, Operand, SwitchTarget, SwitchTargets, AssertKind, TerminatorKind, assert, switch,
  unreachable, return, goto, Terminator, StmtKind, Stmt, BasicBlock,
}
use kli.Mir.Graph.{
  target_blocks, succesors_iter, successors, branch_in, branch_for_value, map_targets,
  map_successors,
}

pub record Machine : Type 1 where
  pub State : Type 0
  pub exec : StmtKind → State → State → Type 0
  pub eval : Operand → State → ℤ → Type 0
  pub check : Operand → AssertKind → State → Bool → Type 0

pub data Final : Type 0 where
  returned panicked : Final
  failed : AssertKind → Final

-- Where control goes from a terminator.
pub data Exit : Type 0 where
  go : BasicBlockId → Exit
  stop : Final → Exit

branch_in_other :
    (v : ℤ) (t : SwitchTarget) (ts : List SwitchTarget) (d : BasicBlockId)
    → int_eq t.value v ≡ false
    → branch_in v (t ∷ ts) d ≡ branch_in v ts d
branch_in_other v t ts d e = rw e refl

pub branch_in-In :
    (v : ℤ) (ts : List SwitchTarget) (d : BasicBlockId)
    → In (branch_in v ts d) (target_blocks ts ++ d ∷ [])
branch_in-In v [] d = inl refl
branch_in-In v (t ∷ ts) d = elim (Bool-cases (int_eq t.value v)) [
  | inl e ↦ inl (rw e refl)
  | inr e ↦ inr (
      subst (λ b. In b (target_blocks ts ++ d ∷ [])) (sym (branch_in_other v t ts d e))
        (branch_in-In v ts d))
]

-- Renaming the targets renames the branch that is taken.
branch_in-map :
    (f : BasicBlockId → BasicBlockId) (v : ℤ) (ts : List SwitchTarget) (d : BasicBlockId)
    → branch_in v (map_targets f ts) (f d) ≡ f (branch_in v ts d)
branch_in-map f v [] d = refl
branch_in-map f v (t ∷ ts) d = elim (Bool-cases (int_eq t.value v)) [
  | inl e ↦ rw e refl
  | inr e ↦ rw e (branch_in-map f v ts d)
]

unfoldable pub map_exit : (BasicBlockId → BasicBlockId) → Exit → Exit
map_exit f (go b) = go (f b)
map_exit f (stop e) = stop e

module _ (m : Machine) where
  pub data Executes : List Stmt → m.State → m.State → Type 0 where
    finished : {s : m.State} → Executes [] s s
    next :
        {stmt : Stmt} {stmts : List Stmt} {s t u : m.State}
        → m.exec stmt.kind s t
        → Executes stmts t u
        → Executes (stmt ∷ stmts) s u

  -- There is no exit from `unreachable`.
  pub data Leaves : TerminatorKind → m.State → Exit → Type 0 where
    jumps : {s : m.State} {b : BasicBlockId} → Leaves (goto b) s (go b)
    branches :
        {s : m.State} {o : Operand} {ts : SwitchTargets} {v : ℤ}
        → m.eval o s v
        → Leaves (switch o ts) s (go (branch_for_value ts v))
    holds :
        {s : m.State} {o : Operand} {k : AssertKind} {b : BasicBlockId}
        → m.check o k s true
        → Leaves (assert o k b) s (go b)
    fails :
        {s : m.State} {o : Operand} {k : AssertKind} {b : BasicBlockId}
        → m.check o k s false
        → Leaves (assert o k b) s (stop (failed k))
    returns : {s : m.State} → Leaves return s (stop returned)
    panics : {s : m.State} → Leaves TerminatorKind.panic s (stop panicked)

  -- The run from the start of a block ends, and in which state.
  pub data Finishes (blocks : List BasicBlock)
      : BasicBlockId → m.State → Final → m.State → Type 0 where
    ends :
        {b : BasicBlockId} {block : BasicBlock} {t : Terminator} {s u : m.State} {e : Final}
        → get_elem? blocks b ≡ some block
        → block.terminator ≡ some t
        → Executes block.stmts s u
        → Leaves t.kind u (stop e)
        → Finishes blocks b s e u
    continues :
        {b c : BasicBlockId} {block : BasicBlock} {t : Terminator} {s u w : m.State} {e : Final}
        → get_elem? blocks b ≡ some block
        → block.terminator ≡ some t
        → Executes block.stmts s u
        → Leaves t.kind u (go c)
        → Finishes blocks c u e w
        → Finishes blocks b s e w

  pub Executes-append :
      {xs ys : List Stmt} {s t u : m.State}
      → Executes xs s t
      → Executes ys t u
      → Executes (xs ++ ys) s u
  Executes-append finished b = b
  Executes-append (next x a) b = next x (Executes-append a b)

  pub Executes-append_cases :
      (xs ys : List Stmt) {s u : m.State}
      → Executes (xs ++ ys) s u
      → (t : m.State) × Executes xs s t × Executes ys t u
  Executes-append_cases [] ys {s} a = (s, finished, a)
  Executes-append_cases (x ∷ xs) ys (next e a) =
      let (t, b, c) = Executes-append_cases xs ys a in (t, next e b, c)

  -- Control goes to a successor.
  pub Leaves-In :
      {k : TerminatorKind} {s : m.State} {b : BasicBlockId}
      → Leaves k s (go b)
      → In b (successors k)
  unfolding successors succesors_iter branch_for_value
  Leaves-In jumps = inl refl
  Leaves-In (branches {ts} {v} _) = branch_in-In v ts.targets ts.otherwise
  Leaves-In (holds _) = inl refl

  pub Leaves-map :
      (f : BasicBlockId → BasicBlockId) {k : TerminatorKind} {s : m.State} {x : Exit}
      → Leaves k s x
      → Leaves (map_successors f k) s (map_exit f x)
  unfolding map_successors map_exit branch_for_value
  Leaves-map f jumps = jumps
  Leaves-map f (branches {ts} {v} e) = rw (← branch_in-map f v ts.targets ts.otherwise) (branches e)
  Leaves-map f (holds c) = holds c
  Leaves-map f (fails c) = fails c
  Leaves-map f returns = returns
  Leaves-map f panics = panics

  -- A renamed terminator goes where the terminator goes.
  pub Leaves-map_inv :
      (f : BasicBlockId → BasicBlockId) (k : TerminatorKind) {s : m.State} {x : Exit}
      → Leaves (map_successors f k) s x
      → (y : Exit) × (x ≡ map_exit f y) × Leaves k s y
  unfolding map_successors map_exit branch_for_value
  Leaves-map_inv f (goto b) jumps = (go b, refl, jumps)
  Leaves-map_inv f (switch o ts) (branches {v} e) =
      (go (branch_for_value ts v), ap go (branch_in-map f v ts.targets ts.otherwise), branches e)
  Leaves-map_inv f (assert o k b) (holds c) = (go b, refl, holds c)
  Leaves-map_inv f (assert o k b) (fails c) = (stop (failed k), refl, fails c)
  Leaves-map_inv f return returns = (stop returned, refl, returns)
  Leaves-map_inv f TerminatorKind.panic panics = (stop panicked, refl, panics)
  Leaves-map_inv f unreachable a = elim a [ ]

  pub Leaves-map_stop :
      (f : BasicBlockId → BasicBlockId) (k : TerminatorKind) {s : m.State} {e : Final}
      → Leaves (map_successors f k) s (stop e)
      → Leaves k s (stop e)
  unfolding map_exit
  Leaves-map_stop f k {s} {e} l = let (y, same, l') = Leaves-map_inv f k l in stops y same l'
    where
      stops : (y : Exit) → stop e ≡ map_exit f y → Leaves k s y → Leaves k s (stop e)
      stops (go b) same l = cc
      stops (stop e') same l = rw same l

  pub Leaves-map_go :
      (f : BasicBlockId → BasicBlockId) (k : TerminatorKind) {s : m.State} {c : BasicBlockId}
      → Leaves (map_successors f k) s (go c)
      → (b : BasicBlockId) × (f b ≡ c) × Leaves k s (go b)
  unfolding map_exit
  Leaves-map_go f k {s} {c} l = let (y, same, l') = Leaves-map_inv f k l in goes y same l'
    where
      goes :
          (y : Exit)
          → go c ≡ map_exit f y
          → Leaves k s y
          → (b : BasicBlockId) × (f b ≡ c) × Leaves k s (go b)
      goes (go b) same l = (b, cc, l)
      goes (stop e') same l = cc
