-- ===== src/Mir/Visit/Changed.antt =====
-- `MutVisit` with a visitor that renames locals.
use kli.Prelude.{
  suc, ◌≡◌, inl, inr, refl, none, some, List, [], ◌∷◌, ◌++◌, map, ap, In, In-append-left,
  In-append-right,
}
use kli.Prelude.Outcome.{Outcome, ok, ◌>>=◌}
use kli.Types.Inhabited.{NoError}
use kli.Mir.Syntax.{
  Local, BasicBlockId, StmtId, PlaceProjection, index, PlaceBase, local, return_place, Place,
  Operand, load, constant, Rvalue, read_line, uninit_zeroed, aggregate, use_of, call, binary,
  array_ptr, cast, len, discriminant, gc_alloc, TerminatorKind, assert, switch, Terminator,
  Location, StmtKind, noop, assign, print, copy, Stmt, BasicBlock,
}
use kli.Mir.Graph.{expect_terminator}
use kli.Mir.Visit.{
  mut_projections, mut_base, mut_place, mut_operand, mut_operands, mut_rvalue, mut_stmt,
  mut_terminator, mut_stmts, mut_block, mut_blocks,
}
use kli.Mir.Visit.Mentions.{
  in_projections, in_base, in_place, in_operand, in_operands, in_rvalue, in_stmt, in_stmts,
  in_terminator, in_ending, in_block, in_blocks, AreEnded,
}

module _ (f : Location → Local → Outcome NoError Local) where
  -- The methods of a visitor that overrides `visit_local` alone.
  abbrev pub stmt_of : Location → StmtKind → Outcome NoError StmtKind
  stmt_of = mut_stmt (mut_place f) (mut_operand f)

  abbrev pub terminator_of : Location → TerminatorKind → Outcome NoError TerminatorKind
  terminator_of = mut_terminator (mut_place f) (mut_operand f)

-- A run returns something that mentions the given locals.
abbrev Mentions : {A : Type 0} → (A → List Local) → List Local → Outcome NoError A → Type 0
Mentions {A} mentioned ls run = (a : A) × (run ≡ ok a) × (mentioned a ≡ ls)

Mentions-then :
    {A B : Type 0} (mentioned : A → List Local) (mentioned' : B → List Local) (ls ls' : List Local)
    (run : Outcome NoError A) (rest : A → Outcome NoError B)
    → Mentions mentioned ls run
    → ((a : A) → mentioned a ≡ ls → Mentions mentioned' ls' (rest a))
    → Mentions mentioned' ls' (run >>= rest)
Mentions-then mentioned mentioned' ls ls' run rest (a, e, same) h = rw e (h a same)

module _ (f : Location → Local → Outcome NoError Local) (g : Local → Local) where
  -- `f` gives the new name of each of the locals.
  abbrev pub IsRenaming : List Local → Type 0
  IsRenaming ls = (loc : Location) (l : Local) → In l ls → f loc l ≡ ok (g l)

  on_left : (xs ys : List Local) → IsRenaming (xs ++ ys) → IsRenaming xs
  on_left xs ys h loc l i = h loc l (In-append-left l xs ys i)

  on_right : (xs ys : List Local) → IsRenaming (xs ++ ys) → IsRenaming ys
  on_right xs ys h loc l i = h loc l (In-append-right l xs ys i)

  both :
      (xs ys : List Local) {xs' ys' : List Local}
      → xs' ≡ map g xs
      → ys' ≡ map g ys
      → xs' ++ ys' ≡ map g (xs ++ ys)
  both [] ys e e' = rw (e, e') refl
  both (x ∷ xs) ys e e' = rw e (ap (λ zs. g x ∷ zs) (both xs ys refl e'))

  -- The walk returns what has each local renamed.
  abbrev pub Renames : {A : Type 0} → (A → List Local) → A → Outcome NoError A → Type 0
  Renames mentioned x run = Mentions mentioned (map g (mentioned x)) run

  mut_projections-Renames :
      (loc : Location) (ps : List PlaceProjection)
      → IsRenaming (in_projections ps)
      → Renames in_projections ps (mut_projections f loc ps)
  mut_projections-Renames loc [] h = ([], refl, refl)
  mut_projections-Renames loc (index l ∷ ps) h = rw (h loc l (inl refl)) (
      Mentions-then _ _ _ _ (mut_projections f loc ps) _
        (mut_projections-Renames loc ps (λ loc l i. h loc l (inr i)))
        (λ ps e. (_, refl, ap (λ ls. g l ∷ ls) e)))
  mut_projections-Renames loc (PlaceProjection.field i ∷ ps) h =
      Mentions-then _ _ _ _ (mut_projections f loc ps) _ (mut_projections-Renames loc ps h)
        (λ ps e. (_, refl, e))
  mut_projections-Renames loc (PlaceProjection.constant_index i ∷ ps) h =
      Mentions-then _ _ _ _ (mut_projections f loc ps) _ (mut_projections-Renames loc ps h)
        (λ ps e. (_, refl, e))
  mut_projections-Renames loc (PlaceProjection.case_downcast i n ∷ ps) h =
      Mentions-then _ _ _ _ (mut_projections f loc ps) _ (mut_projections-Renames loc ps h)
        (λ ps e. (_, refl, e))
  mut_projections-Renames loc (PlaceProjection.deref ∷ ps) h =
      Mentions-then _ _ _ _ (mut_projections f loc ps) _ (mut_projections-Renames loc ps h)
        (λ ps e. (_, refl, e))

  mut_place-Renames :
      (loc : Location) (place : Place)
      → IsRenaming (in_place place)
      → Renames in_place place (mut_place f loc place)
  mut_place-Renames loc place h =
      Mentions-then _ _ _ _ (mut_base f loc place.base) _
        (base_returns place.base
          (on_left (in_base place.base) (in_projections place.projections) h))
        (λ base e0.
          Mentions-then _ _ _ _ (mut_projections f loc place.projections) _
            (mut_projections-Renames loc place.projections (on_right (in_base place.base) _ h))
            (λ ps e. (_, refl, both (in_base place.base) (in_projections place.projections) e0 e)))
    where
      base_returns :
          (base : PlaceBase)
          → IsRenaming (in_base base)
          → Renames in_base base (mut_base f loc base)
      base_returns (local l) h = rw (h loc l (inl refl)) (_, refl, refl)
      base_returns return_place h = (_, refl, refl)

  mut_operand-Renames :
      (loc : Location) (o : Operand)
      → IsRenaming (in_operand o)
      → Renames in_operand o (mut_operand f loc o)
  mut_operand-Renames loc (load place) h =
      Mentions-then _ _ _ _ (mut_place f loc place) _ (mut_place-Renames loc place h)
        (λ p e. (_, refl, e))
  mut_operand-Renames loc (constant c) h = (_, refl, refl)

  mut_operands-Renames :
      (loc : Location) (os : List Operand)
      → IsRenaming (in_operands os)
      → Renames in_operands os (mut_operands (mut_place f) (mut_operand f) loc os)
  mut_operands-Renames loc [] h = (_, refl, refl)
  mut_operands-Renames loc (o ∷ os) h =
      Mentions-then _ _ _ _ (mut_operand f loc o) _
        (mut_operand-Renames loc o (on_left _ (in_operands os) h))
        (λ o' e0.
          Mentions-then _ _ _ _ (mut_operands (mut_place f) (mut_operand f) loc os) _
            (mut_operands-Renames loc os (on_right (in_operand o) _ h))
            (λ os' e. (_, refl, both (in_operand o) (in_operands os) e0 e)))

  mut_rvalue-Renames :
      (loc : Location) (r : Rvalue)
      → IsRenaming (in_rvalue r)
      → Renames in_rvalue r (mut_rvalue (mut_place f) (mut_operand f) loc r)
  mut_rvalue-Renames loc (gc_alloc _ o) h =
      Mentions-then _ _ _ _ (mut_operand f loc o) _ (mut_operand-Renames loc o h)
        (λ o e. (_, refl, e))
  mut_rvalue-Renames loc (uninit_zeroed _) h = (_, refl, refl)
  mut_rvalue-Renames loc read_line h = (_, refl, refl)
  mut_rvalue-Renames loc (discriminant place) h =
      Mentions-then _ _ _ _ (mut_place f loc place) _ (mut_place-Renames loc place h)
        (λ p e. (_, refl, e))
  mut_rvalue-Renames loc (len place) h =
      Mentions-then _ _ _ _ (mut_place f loc place) _ (mut_place-Renames loc place h)
        (λ p e. (_, refl, e))
  mut_rvalue-Renames loc (use_of o) h =
      Mentions-then _ _ _ _ (mut_operand f loc o) _ (mut_operand-Renames loc o h)
        (λ o e. (_, refl, e))
  mut_rvalue-Renames loc (aggregate _ fields) h =
      Mentions-then _ _ _ _ (mut_operands (mut_place f) (mut_operand f) loc fields) _
        (mut_operands-Renames loc fields h) (λ os e. (_, refl, e))
  mut_rvalue-Renames loc (call o os) h =
      Mentions-then _ _ _ _ (mut_operand f loc o) _
        (mut_operand-Renames loc o (on_left _ (in_operands os) h))
        (λ o' e0.
          Mentions-then _ _ _ _ (mut_operands (mut_place f) (mut_operand f) loc os) _
            (mut_operands-Renames loc os (on_right (in_operand o) _ h))
            (λ os' e. (_, refl, both (in_operand o) (in_operands os) e0 e)))
  mut_rvalue-Renames loc (binary _ l r) h =
      Mentions-then _ _ _ _ (mut_operand f loc l) _
        (mut_operand-Renames loc l (on_left _ (in_operand r) h))
        (λ l' e0.
          Mentions-then _ _ _ _ (mut_operand f loc r) _
            (mut_operand-Renames loc r (on_right (in_operand l) _ h))
            (λ r' e. (_, refl, both (in_operand l) (in_operand r) e0 e)))
  mut_rvalue-Renames loc (array_ptr place) h =
      Mentions-then _ _ _ _ (mut_place f loc place) _ (mut_place-Renames loc place h)
        (λ p e. (_, refl, e))
  mut_rvalue-Renames loc (cast _ o _) h =
      Mentions-then _ _ _ _ (mut_operand f loc o) _ (mut_operand-Renames loc o h)
        (λ o e. (_, refl, e))

  mut_stmt-Renames :
      (loc : Location) (k : StmtKind)
      → IsRenaming (in_stmt k)
      → Renames in_stmt k (mut_stmt (mut_place f) (mut_operand f) loc k)
  mut_stmt-Renames loc noop h = (_, refl, refl)
  mut_stmt-Renames loc (assign place r) h =
      Mentions-then _ _ _ _ (mut_place f loc place) _
        (mut_place-Renames loc place (on_left _ (in_rvalue r) h))
        (λ p e0.
          Mentions-then _ _ _ _ (mut_rvalue (mut_place f) (mut_operand f) loc r) _
            (mut_rvalue-Renames loc r (on_right (in_place place) _ h))
            (λ r' e. (_, refl, both (in_place place) (in_rvalue r) e0 e)))
  mut_stmt-Renames loc (print o _) h =
      Mentions-then _ _ _ _ (mut_operand f loc o) _ (mut_operand-Renames loc o h)
        (λ o e. (_, refl, e))
  mut_stmt-Renames loc (copy dst src count) h =
      let rest = on_right (in_operand dst) (in_operand src ++ in_operand count) h in
      Mentions-then _ _ _ _ (mut_operand f loc dst) _
        (mut_operand-Renames loc dst (on_left _ (in_operand src ++ in_operand count) h))
        (λ d e0.
          Mentions-then _ _ _ _ (mut_operand f loc src) _
            (mut_operand-Renames loc src (on_left _ (in_operand count) rest))
            (λ s e1.
              Mentions-then _ _ _ _ (mut_operand f loc count) _
                (mut_operand-Renames loc count (on_right (in_operand src) _ rest))
                (λ c e. (
                  _,
                  refl,
                  both (in_operand dst) (in_operand src ++ in_operand count) e0
                      (both (in_operand src) (in_operand count) e1 e),
                ))))

  mut_terminator-Renames :
      (loc : Location) (k : TerminatorKind)
      → IsRenaming (in_terminator k)
      → Renames in_terminator k (mut_terminator (mut_place f) (mut_operand f) loc k)
  mut_terminator-Renames loc (switch o _) h =
      Mentions-then _ _ _ _ (mut_operand f loc o) _ (mut_operand-Renames loc o h)
        (λ o e. (_, refl, e))
  mut_terminator-Renames loc (assert o _ _) h =
      Mentions-then _ _ _ _ (mut_operand f loc o) _ (mut_operand-Renames loc o h)
        (λ o e. (_, refl, e))
  mut_terminator-Renames loc TerminatorKind.unreachable h = (_, refl, refl)
  mut_terminator-Renames loc TerminatorKind.return h = (_, refl, refl)
  mut_terminator-Renames loc (TerminatorKind.goto _) h = (_, refl, refl)
  mut_terminator-Renames loc TerminatorKind.panic h = (_, refl, refl)

  mut_stmts-Renames :
      (id : BasicBlockId) (i : StmtId) (stmts : List Stmt)
      → IsRenaming (in_stmts stmts)
      → Renames in_stmts stmts (mut_stmts (stmt_of f) (terminator_of f) id i stmts)
  mut_stmts-Renames id i [] h = (_, refl, refl)
  mut_stmts-Renames id i (stmt ∷ stmts) h =
      let loc : Location = record { block = id; stmt = some i } in
      Mentions-then _ _ _ _ (stmt_of f loc stmt.kind) _
        (mut_stmt-Renames loc stmt.kind (on_left _ (in_stmts stmts) h))
        (λ k e0.
          Mentions-then _ _ _ _ (mut_stmts (stmt_of f) (terminator_of f) id (suc i) stmts) _
            (mut_stmts-Renames id (suc i) stmts (on_right (in_stmt stmt.kind) _ h))
            (λ ss e. (_, refl, both (in_stmt stmt.kind) (in_stmts stmts) e0 e)))

  mut_block-Renames :
      (id : BasicBlockId) (block : BasicBlock) (t : Terminator)
      → block.terminator ≡ some t
      → IsRenaming (in_block block)
      → Renames in_block block (mut_block (stmt_of f) (terminator_of f) id block)
  unfolding mut_block expect_terminator
  mut_block-Renames id block t has h =
      let loc : Location = record { block = id; stmt = none } in
      let last : IsRenaming (in_terminator t.kind) =
        rw has at (on_right (in_stmts block.stmts) _ h) in
      Mentions-then _ _ _ _ (mut_stmts (stmt_of f) (terminator_of f) id 0 block.stmts) _
        (mut_stmts-Renames id 0 block.stmts (on_left _ (in_ending block.terminator) h))
        (λ ss e0.
          rw (has, expect_terminator)
            (Mentions-then _ _ _ _ (terminator_of f loc t.kind) _
              (mut_terminator-Renames loc t.kind last)
              (λ k e. (_, refl, both (in_stmts block.stmts) (in_terminator t.kind) e0 e))))

  pub mut_blocks-Renames :
      (id : BasicBlockId) (blocks : List BasicBlock)
      → AreEnded blocks
      → IsRenaming (in_blocks blocks)
      → Renames in_blocks blocks (mut_blocks (stmt_of f) (terminator_of f) id blocks)
  unfolding mut_blocks
  mut_blocks-Renames id [] ended h = (_, refl, refl)
  mut_blocks-Renames id (block ∷ blocks) ((t, has), ended) h =
      Mentions-then _ _ _ _ (mut_block (stmt_of f) (terminator_of f) id block) _
        (mut_block-Renames id block t has (on_left (in_block block) (in_blocks blocks) h))
        (λ b e0.
          Mentions-then _ _ _ _ (mut_blocks (stmt_of f) (terminator_of f) (suc id) blocks) _
            (mut_blocks-Renames (suc id) blocks ended (on_right (in_block block) _ h))
            (λ bs e. (_, refl, both (in_block block) (in_blocks blocks) e0 e)))
