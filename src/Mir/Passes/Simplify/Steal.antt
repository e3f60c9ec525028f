-- ===== src/Mir/Passes/Simplify/Steal.antt =====
-- `steal`: what it returns, and the runs of the body before and after it.
use kli.Prelude.{
  ◌≡◌, ◌≢◌, ◌↔◌, inl, inr, refl, sym, ◌∙◌, some, List, [], ◌∷◌, ◌++◌, arith, get_elem?,
  get_elem?-lt, set, get_elem?-set_self, get_elem?-set_ne, In,
}
use kli.Prelude.Outcome.{ok}
use kli.Mir.Syntax.{BasicBlockId, Terminator, unreachable, BasicBlock}
use kli.Mir.Graph.{block_at, expect_terminator, predecessors}
use kli.Mir.Graph.Reach.{next_of}
use kli.Mir.Graph.Incoming.{incoming, incoming-In, predecessors_sound}
use kli.Mir.Runs.{Machine, Final, Exit, go, Leaves, Finishes}
use kli.Mir.Passes.Simplify.{steal}
use kli.Mir.Passes.Simplify.Joined.{Joined, Finishes-joined, Finishes-joined_inv}

pub block_at-get :
    (blocks : List BasicBlock) (b : BasicBlockId) (x : BasicBlock)
    → get_elem? blocks b ≡ some x
    → block_at blocks b ≡ ok x
unfolding block_at
block_at-get blocks b x h = rw (h, block_at) refl

pub expect_terminator-has :
    (x : BasicBlock) (t : Terminator) → x.terminator ≡ some t → expect_terminator x ≡ ok t
unfolding expect_terminator
expect_terminator-has x t h = rw (h, expect_terminator) refl

In-single : (c b : BasicBlockId) (bs : List BasicBlockId) → bs ≡ b ∷ [] → In c bs → c ≡ b
In-single c b [] e i = cc
In-single c b (x ∷ []) e (inl f) = cc
In-single c b (x ∷ []) e (inr i) = elim i [ ]
In-single c b (x ∷ y ∷ bs) e i = cc

-- What `steal` returns on two blocks with terminators.
steal-get :
    (blocks : List BasicBlock) (target block : BasicBlockId) (first second : BasicBlock)
    (first_end second_end : Terminator)
    → get_elem? blocks block ≡ some first
    → get_elem? blocks target ≡ some second
    → first.terminator ≡ some first_end
    → second.terminator ≡ some second_end
    → target ≢ block
    → (blocks' : List BasicBlock) × (steal blocks target block ≡ ok blocks')
      × (get_elem? blocks' block
          ≡ some (record {
            stmts = first.stmts ++ second.stmts;
            terminator = some (record first_end { kind = second_end.kind });
          }))
      × ((c : BasicBlockId) → c ≢ block → c ≢ target → get_elem? blocks' c ≡ get_elem? blocks c)
unfolding steal
steal-get blocks target block first second first_end second_end at at' has has' ne =
    let away : block ≢ target = λ e. ne (sym e) in
    let emptied = record second { stmts = [] } in
    let b1 = set blocks target emptied in
    let block1 = get_elem?-set_ne blocks target block emptied ne ∙ at in
    let target1 =
      get_elem?-set_self blocks target emptied (get_elem?-lt blocks target second at') in
    let filled = record first { stmts = first.stmts ++ second.stmts } in
    let b2 = set b1 block filled in
    let block2 = get_elem?-set_self b1 block filled (get_elem?-lt b1 block first block1) in
    let target2 = get_elem?-set_ne b1 block target filled away ∙ target1 in
    let closed = record emptied { terminator = some (record second_end { kind = unreachable }) } in
    let b3 = set b2 target closed in
    let block3 = get_elem?-set_ne b2 target block closed ne ∙ block2 in
    let whole = record filled { terminator = some (record first_end { kind = second_end.kind }) } in
    let last = get_elem?-set_self b3 block whole (get_elem?-lt b3 block filled block3) in
    (
      set b3 block whole,
      rw
          (
            block_at-get blocks target second at',
            block_at-get b1 block first block1,
            block_at-get b2 target emptied target2,
            steal,
            expect_terminator-has emptied second_end has',
            block_at-get b3 block filled block3,
            expect_terminator-has filled first_end has,
          )
          refl,
      last,
      λ c no_block no_target.
          get_elem?-set_ne b3 block c whole (λ e. no_block (sym e))
          ∙ get_elem?-set_ne b2 target c closed (λ e. no_target (sym e))
          ∙ get_elem?-set_ne b1 block c filled (λ e. no_block (sym e))
          ∙ get_elem?-set_ne blocks target c emptied (λ e. no_target (sym e)),
    )

-- When `target` is another block than `block`, with no predecessor but `block`, whose terminator goes
-- to `target` whatever the state, then `steal` returns, and from any block but `target` the ended runs
-- are the same before and after.
pub steal_preserves :
    (m : Machine) (blocks : List BasicBlock) (preds : List (List BasicBlockId))
    (target block : BasicBlockId) (first second : BasicBlock) (first_end second_end : Terminator)
    → predecessors blocks ≡ ok preds
    → get_elem? preds target ≡ some (block ∷ [])
    → get_elem? blocks block ≡ some first
    → get_elem? blocks target ≡ some second
    → first.terminator ≡ some first_end
    → second.terminator ≡ some second_end
    → ((s : m.State) (x : Exit) → Leaves m first_end.kind s x ↔ (x ≡ go target))
    → target ≢ block
    → (blocks' : List BasicBlock) × (steal blocks target block ≡ ok blocks')
      × ((b : BasicBlockId) (s u : m.State) (x : Final)
          → b ≢ target
          → Finishes m blocks b s x u ↔ Finishes m blocks' b s x u)
steal_preserves m blocks preds target block first second first_end second_end h one at at' has has'
      leads ne =
    let (blocks', e, joined, others) =
      steal-get blocks target block first second first_end second_end at at' has has' ne in
    let counted =
      predecessors_sound blocks preds target h (get_elem?-lt blocks target second at') in
    let only : (c : BasicBlockId) → In target (next_of blocks c) → c ≡ block = λ c i.
      In-single c block (incoming target 0 blocks) (cc (counted, one))
        (incoming-In target 0 c c blocks (omega arith) i) in
    let j : Joined m blocks blocks' block target = record {
      first = first;
      second = second;
      first_end = first_end;
      second_end = second_end;
      first_at = at;
      second_at = at';
      first_has = has;
      second_has = has';
      leads = leads;
      only = only;
      different = ne;
      joined_at = joined;
      others = others;
    } in
    (
      blocks',
      e,
      λ b s u x other.
          (λ run. (Finishes-joined j run).0 other, λ run. Finishes-joined_inv j run other),
    )
