-- ===== src/Mir/Passes/DeadStore/Agrees.antt =====
-- `DeadStoreElim`, and machines whose statements depend on no local but those that `depends_stmt` names.
use kli.Prelude.{
  ◌⊎◌, ◌≡◌, inl, inr, refl, Bool, true, false, ◌&&◌, &&-left, &&-right, some, List, [], ◌∷◌, ◌++◌,
  map, get_elem?, In, In-append-left, In-append-right, Bool-cases,
}
use kli.Prelude.Outcome.{ok}
use kli.Prelude.Int.{ℤ}
use kli.Mir.Syntax.{
  Local, BasicBlockId, PlaceBase, local, return_place, Place, Operand, Rvalue, AssertKind,
  TerminatorKind, StmtKind, noop, assign, print, copy, Stmt, BasicBlock, Body,
}
use kli.Mir.Places.{can_remove_if_unused, params_from}
use kli.Mir.Graph.{contains}
use kli.Mir.Runs.{
  Machine, Final, Exit, Executes, finished, next, Leaves, jumps, branches, holds, fails, returns,
  panics, Finishes, ends, continues,
}
use kli.Mir.Visit.{visit_body}
use kli.Mir.Visit.Mentions.{
  AreEnded, in_operand, in_terminator, in_ending, reads_blocks, depends_stmt, depends_stmts,
  depends_block, depends_blocks,
}
use kli.Mir.Passes.Unreachable.Keeps.{get-map}
use kli.Mir.Passes.DeadStore.{find_read, is_empty, is_unread_local, drop_store, dead_store_elim}
use kli.Mir.Passes.DeadStore.Walks.{
  find_read-Collects, depends_block-In, dropped, lighter, lighter_blocks,
}

-- All the locals of a list are in another.
abbrev pub Within : List Local → List Local → Type 0
Within xs ls = (l : Local) → In l xs → In l ls

pub Within-both : (xs ys ls : List Local) → Within (xs ++ ys) ls → Within xs ls × Within ys ls
Within-both xs ys ls h =
    (λ l i. h l (In-append-left l xs ys i), λ l i. h l (In-append-right l xs ys i))

-- `Agree ls` holds of states that have the same locals `ls`. An assignment to another local leaves
-- them; a statement, an operand and an assertion depend on locals as `depends_stmt` and `in_operand`
-- say, the pointer of a write included.
pub record Frames (m : Machine) (Agree : List Local → m.State → m.State → Type 0) : Type 0 where
  pub same : (ls : List Local) (s : m.State) → Agree ls s s
  pub nothing : (s : m.State) → m.exec noop s s
  pub ignores :
      (ls : List Local) (place : Place) (l : Local) (r : Rvalue) (s t u : m.State)
      → place.base ≡ local l
      → place.projections ≡ []
      → can_remove_if_unused r ≡ true
      → contains l ls ≡ false
      → m.exec (assign place r) s t
      → Agree ls s u
      → Agree ls t u
  pub follows :
      (ls : List Local) (k : StmtKind) (s t u : m.State)
      → Within (depends_stmt k) ls
      → m.exec k s t
      → Agree ls s u
      → (v : m.State) × m.exec k u v × Agree ls t v
  pub evals :
      (ls : List Local) (o : Operand) (s u : m.State) (v : ℤ)
      → Within (in_operand o) ls
      → m.eval o s v
      → Agree ls s u
      → m.eval o u v
  pub checks :
      (ls : List Local) (o : Operand) (k : AssertKind) (s u : m.State) (b : Bool)
      → Within (in_operand o) ls
      → m.check o k s b
      → Agree ls s u
      → m.check o k u b

-- A statement stays, or is an assignment to a local that is not read.
data Dropped (ls : List Local) : StmtKind → Type 0 where
  stays : {k : StmtKind} → drop_store ls k ≡ k → Dropped ls k
  goes :
      {place : Place} {r : Rvalue} (l : Local)
      → drop_store ls (assign place r) ≡ noop
      → place.base ≡ local l
      → place.projections ≡ []
      → can_remove_if_unused r ≡ true
      → contains l ls ≡ false
      → Dropped ls (assign place r)

empty-eq : (place : Place) → is_empty place.projections ≡ true → place.projections ≡ []
empty-eq place e = of_list place.projections e
  where
    of_list : (ps : _) → is_empty ps ≡ true → ps ≡ []
    of_list [] e = refl
    of_list (p ∷ ps) e = cc

unread-local :
    (ls : List Local) (base : PlaceBase)
    → is_unread_local ls base ≡ true
    → (l : Local) × (base ≡ local l) × (contains l ls ≡ false)
unread-local ls (local l) e = elim (Bool-cases (contains l ls)) [
  | inl f ↦ cc (rw f at e)
  | inr f ↦ (l, refl, f)
]
unread-local ls return_place e = cc

drop_store-Dropped : (ls : List Local) (k : StmtKind) → Dropped ls k
drop_store-Dropped ls (assign place r) =
    let test =
      is_empty place.projections && (can_remove_if_unused r && is_unread_local ls place.base) in
    elim (Bool-cases test) [
      | inl e ↦
          let rest = &&-right (is_empty place.projections) _ e in
          let (l, base, unread) =
            unread-local ls place.base (&&-right (can_remove_if_unused r) _ rest) in
          goes l (rw (drop_store, e) refl) base
            (empty-eq place (&&-left (is_empty place.projections) _ e))
            (&&-left (can_remove_if_unused r) _ rest) unread
      | inr e ↦ stays (rw (drop_store, e) refl)
    ]
drop_store-Dropped ls noop = stays refl
drop_store-Dropped ls (print _ _) = stays refl
drop_store-Dropped ls (copy _ _ _) = stays refl

module _ (m : Machine) (Agree : List Local → m.State → m.State → Type 0) (law : Frames m Agree)
    (ls : List Local) where
  exec-dropped :
      (k : StmtKind) (s t u : m.State)
      → Dropped ls k
      → Within (depends_stmt k) ls
      → m.exec k s t
      → Agree ls s u
      → (v : m.State) × m.exec (drop_store ls k) u v × Agree ls t v
  exec-dropped k s t u (stays e) reads run agree =
      let (v, run', agree') = law.follows ls k s t u reads run agree in (v, rw e run', agree')
  exec-dropped (assign place r) s t u (goes l e base bare pure unread) reads run agree =
      (u, rw e (law.nothing u), law.ignores ls place l r s t u base bare pure unread run agree)

  Executes-dropped :
      (ss : List Stmt) {s t : m.State} (u : m.State)
      → Within (depends_stmts ss) ls
      → Executes m ss s t
      → Agree ls s u
      → (v : m.State) × Executes m (map (dropped ls) ss) u v × Agree ls t v
  Executes-dropped [] u reads finished agree = (u, finished, agree)
  Executes-dropped (x ∷ ss) {s} u reads (next {t} run rest) agree =
      let (first, others) = Within-both (depends_stmt x.kind) (depends_stmts ss) ls reads in
      let (v, run', agree') =
        exec-dropped x.kind s t u (drop_store-Dropped ls x.kind) first run agree in
      let (w, rest', agree'') = Executes-dropped ss v others rest agree' in
      (w, next run' rest', agree'')

  Leaves-agree :
      {k : TerminatorKind} {s u : m.State} {x : Exit}
      → Within (in_terminator k) ls
      → Leaves m k s x
      → Agree ls s u
      → Leaves m k u x
  Leaves-agree reads jumps agree = jumps
  Leaves-agree reads (branches {s} {o} {v} e) agree = branches (law.evals ls o s _ v reads e agree)
  Leaves-agree reads (holds {s} {o} {k} c) agree = holds (law.checks ls o k s _ true reads c agree)
  Leaves-agree reads (fails {s} {o} {k} c) agree = fails (law.checks ls o k s _ false reads c agree)
  Leaves-agree reads returns agree = returns
  Leaves-agree reads panics agree = panics

  Within-block :
      (blocks : List BasicBlock) (b : BasicBlockId) (block : BasicBlock)
      → Within (depends_blocks blocks) ls
      → get_elem? blocks b ≡ some block
      → Within (depends_stmts block.stmts) ls × Within (in_ending block.terminator) ls
  Within-block blocks b block reads at =
      let here : Within (depends_block block) ls =
        λ l i. reads l (depends_block-In blocks b block l at i) in
      Within-both (depends_stmts block.stmts) (in_ending block.terminator) ls here

  Finishes-lighter :
      (blocks : List BasicBlock)
      → Within (depends_blocks blocks) ls
      → {b : BasicBlockId} {s w : m.State} {x : Final} (u : m.State) → Finishes m blocks b s x w
      → Agree ls s u
      → (v : m.State) × Finishes m (map (lighter ls) blocks) b u x v × Agree ls w v
  Finishes-lighter blocks reads u (ends {b} {block} {t} at has run l) agree =
      let (stmts, last) = Within-block blocks b block reads at in
      let (v, run', agree') = Executes-dropped block.stmts u stmts run agree in
      (
        v,
        ends (get-map (lighter ls) blocks b block at) has run'
            (Leaves-agree (rw has at last) l agree'),
        agree',
      )
  Finishes-lighter blocks reads u (continues {b} {block} {t} at has run l more) agree =
      let (stmts, last) = Within-block blocks b block reads at in
      let (v, run', agree') = Executes-dropped block.stmts u stmts run agree in
      let (w, more', agree'') = Finishes-lighter blocks reads v more agree' in
      (
        w,
        continues (get-map (lighter ls) blocks b block at) has run'
            (Leaves-agree (rw has at last) l agree') more',
        agree'',
      )

-- Let each block have a terminator, and let each local on which the effect of a statement or a
-- terminator depends, the pointer of a write and the array of an `array_ptr` included, be a parameter
-- or be read by the walk of the finder, which counts neither. Then `dead_store_elim` returns; and on a
-- machine that depends on locals only so, where no-ops do nothing and an assignment to a local that can
-- be left out changes no other local, each ended run of the body is one of its result from the same
-- state, to the same end and to a state that agrees on the locals that the finder found.
pub dead_store_elim_preserves :
    (m : Machine) (Agree : List Local → m.State → m.State → Type 0) (body : Body)
    → Frames m Agree
    → AreEnded body.blocks
    → ((l : Local)
        → In l (depends_blocks body.blocks)
        → In l (reads_blocks body.blocks) ⊎ In l (params_from 0 body.locals))
    → (locals : List Local) × (body' : Body) × (visit_body find_read body
          (params_from 0 body.locals)
        ≡ ok locals)
      × (dead_store_elim body ≡ ok body')
      × ((s w : m.State) (x : Final)
          → Finishes m body.blocks 0 s x w
          → (v : m.State) × Finishes m body'.blocks 0 s x v × Agree locals w v)
unfolding dead_store_elim visit_body
dead_store_elim_preserves m Agree body law ended reached =
    let (locals, found, all) = find_read-Collects 0 body.blocks (params_from 0 body.locals) ended in
    (
      locals,
      record body { blocks = map (lighter locals) body.blocks },
      found,
      rw (dead_store_elim, visit_body, found, lighter_blocks locals 0 body.blocks ended) refl,
      λ s w x run.
          Finishes-lighter m Agree law locals body.blocks (λ l i. all l (reached l i)) s run
            (law.same locals s),
    )
