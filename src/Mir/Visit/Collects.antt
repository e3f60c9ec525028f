-- ===== src/Mir/Visit/Collects.antt =====
-- `Visit` with a visitor that collects locals.
use kli.Prelude.{
  suc, ◌≡◌, ◌⊎◌, inl, inr, refl, none, some, List, [], ◌∷◌, ◌++◌, In, In-append_cases,
}
use kli.Prelude.Outcome.{ok}
use kli.Mir.Syntax.{
  Local, BasicBlockId, StmtId, PlaceProjection, index, PlaceBase, local, return_place, Place,
  Operand, load, constant, Rvalue, read_line, uninit_zeroed, aggregate, use_of, call, binary,
  array_ptr, cast, len, discriminant, gc_alloc, TerminatorKind, assert, switch, Location, StmtKind,
  noop, assign, print, copy, Stmt, BasicBlock,
}
use kli.Mir.Graph.{expect_terminator}
use kli.Mir.Visit.{
  PlaceCtxt, read, write, visit_projections, visit_base, visit_place, visit_operand, visit_operands,
  visit_rvalue, visit_stmt, visit_terminator, visit_stmts, visit_block, visit_blocks,
}
use kli.Mir.Visit.Mentions.{
  in_projections, in_base, in_place, in_operand, in_operands, all_rvalue, all_stmt, all_stmts,
  in_terminator, all_blocks, collect, AreEnded,
}

In-either :
    (l : Local) (xs ys s : List Local) → In l (xs ++ ys) ⊎ In l s → In l ys ⊎ (In l xs ⊎ In l s)
In-either l xs ys s (inr i) = inr (inr i)
In-either l xs ys s (inl i) = elim (In-append_cases l xs ys i) [
  | inl j ↦ inr (inl j)
  | inr j ↦ inl j
]

-- What a walk mentions is in the set after it, with what was there before.
abbrev pub Collects : (List Local → List Local) → List Local → Type 0
Collects walk mentioned = (l : Local) (s : List Local) → In l mentioned ⊎ In l s → In l (walk s)

pub Collects-both :
    (f g : List Local → List Local) (xs ys : List Local)
    → Collects f xs
    → Collects g ys
    → Collects (λ s. g (f s)) (xs ++ ys)
Collects-both f g xs ys p q l s i =
    q l (f s) (elim (In-either l xs ys s i) [ inl j ↦ inl j | inr j ↦ inr (p l s j) ])

pub Collects-nothing : Collects (λ s. s) []
Collects-nothing l s (inl i) = elim i [ ]
Collects-nothing l s (inr i) = i

pub Collects-local : (l : Local) → Collects (λ s. l ∷ s) (l ∷ [])
Collects-local l k s (inl (inl e)) = inl e
Collects-local l k s (inl (inr i)) = elim i [ ]
Collects-local l k s (inr i) = inr i

module _ (visit : PlaceCtxt → Location → Local → List Local → List Local)
    (takes : (loc : Location) (l : Local) → Collects (visit read loc l) (l ∷ [])) where
  pub Collects-projections :
      (loc : Location) (ps : List PlaceProjection)
      → Collects (visit_projections visit loc ps) (in_projections ps)
  Collects-projections loc [] = Collects-nothing
  Collects-projections loc (index l ∷ ps) =
      Collects-both (visit read loc l) _ (l ∷ []) _ (takes loc l) (Collects-projections loc ps)
  Collects-projections loc (PlaceProjection.field _ ∷ ps) = Collects-projections loc ps
  Collects-projections loc (PlaceProjection.constant_index _ ∷ ps) = Collects-projections loc ps
  Collects-projections loc (PlaceProjection.case_downcast _ _ ∷ ps) = Collects-projections loc ps
  Collects-projections loc (PlaceProjection.deref ∷ ps) = Collects-projections loc ps

-- A visitor that takes each local that is read, and of a place that is written what `written` says.
module _ (visit : PlaceCtxt → Location → Local → List Local → List Local)
    (written : Place → List Local)
    (takes : (loc : Location) (l : Local) → Collects (visit read loc l) (l ∷ []))
    (writes : (loc : Location) (place : Place)
      → Collects (visit_place visit write loc place) (written place)) where
  Collects-place :
      (loc : Location) (place : Place)
      → Collects (visit_place visit read loc place) (in_place place)
  Collects-place loc place =
      Collects-both (visit_base visit read loc place.base) _ (in_base place.base) _
        (Collects-base place.base) (Collects-projections visit takes loc place.projections)
    where
      Collects-base : (base : PlaceBase) → Collects (visit_base visit read loc base) (in_base base)
      Collects-base (local l) = takes loc l
      Collects-base return_place = Collects-nothing

  Collects-operand :
      (loc : Location) (o : Operand) → Collects (visit_operand visit loc o) (in_operand o)
  Collects-operand loc (load place) = Collects-place loc place
  Collects-operand loc (constant _) = Collects-nothing

  Collects-operands :
      (loc : Location) (os : List Operand) → Collects (visit_operands visit loc os) (in_operands os)
  Collects-operands loc [] = Collects-nothing
  Collects-operands loc (o ∷ os) =
      Collects-both (visit_operand visit loc o) _ (in_operand o) _ (Collects-operand loc o)
        (Collects-operands loc os)

  Collects-rvalue :
      (loc : Location) (r : Rvalue) → Collects (visit_rvalue visit loc r) (all_rvalue written r)
  Collects-rvalue loc (gc_alloc _ o) = Collects-operand loc o
  Collects-rvalue loc (uninit_zeroed _) = Collects-nothing
  Collects-rvalue loc read_line = Collects-nothing
  Collects-rvalue loc (discriminant place) = Collects-place loc place
  Collects-rvalue loc (len place) = Collects-place loc place
  Collects-rvalue loc (use_of o) = Collects-operand loc o
  Collects-rvalue loc (aggregate _ fields) = Collects-operands loc fields
  Collects-rvalue loc (call o os) = Collects-operands loc (o ∷ os)
  Collects-rvalue loc (binary _ l r) =
      Collects-both (visit_operand visit loc l) _ (in_operand l) _ (Collects-operand loc l)
        (Collects-operand loc r)
  Collects-rvalue loc (array_ptr place) = writes loc place
  Collects-rvalue loc (cast _ o _) = Collects-operand loc o

  Collects-stmt :
      (loc : Location) (k : StmtKind) → Collects (visit_stmt visit loc k) (all_stmt written k)
  Collects-stmt loc noop = Collects-nothing
  Collects-stmt loc (assign place rvalue) =
      Collects-both (visit_place visit write loc place) _ (written place) _ (writes loc place)
        (Collects-rvalue loc rvalue)
  Collects-stmt loc (print o _) = Collects-operand loc o
  Collects-stmt loc (copy dst src count) =
      Collects-both (visit_operand visit loc dst) _ (in_operand dst) _ (Collects-operand loc dst) (
        Collects-both (visit_operand visit loc src) _ (in_operand src) _ (Collects-operand loc src)
          (Collects-operand loc count))

  Collects-stmts :
      (id : BasicBlockId) (i : StmtId) (stmts : List Stmt)
      → Collects (visit_stmts visit id i stmts) (all_stmts written stmts)
  Collects-stmts id i [] = Collects-nothing
  Collects-stmts id i (stmt ∷ stmts) =
      let loc : Location = record { block = id; stmt = some i } in
      Collects-both (visit_stmt visit loc stmt.kind) (visit_stmts visit id (suc i) stmts)
        (all_stmt written stmt.kind) (all_stmts written stmts) (Collects-stmt loc stmt.kind)
        (Collects-stmts id (suc i) stmts)

  Collects-terminator :
      (loc : Location) (k : TerminatorKind)
      → Collects (visit_terminator visit loc k) (in_terminator k)
  Collects-terminator loc (switch o _) = Collects-operand loc o
  Collects-terminator loc (assert o _ _) = Collects-operand loc o
  Collects-terminator loc TerminatorKind.unreachable = Collects-nothing
  Collects-terminator loc TerminatorKind.return = Collects-nothing
  Collects-terminator loc (TerminatorKind.goto _) = Collects-nothing
  Collects-terminator loc TerminatorKind.panic = Collects-nothing

  -- On blocks with terminators the collecting walk returns, and finds what is mentioned.
  pub visit_blocks-Collects :
      (id : BasicBlockId) (blocks : List BasicBlock) (s : List Local)
      → AreEnded blocks
      → (s' : List Local) × (visit_blocks visit id blocks s ≡ ok s')
        × ((l : Local) → In l (all_blocks written blocks) ⊎ In l s → In l s')
  unfolding visit_blocks visit_block expect_terminator
  visit_blocks-Collects id [] s ended = (s, refl, λ l i. elim i [ inl j ↦ elim j [ ] | inr j ↦ j ])
  visit_blocks-Collects id (block ∷ blocks) s ((t, e), rest) =
      let loc : Location = record { block = id; stmt = none } in
      let mid = visit_terminator visit loc t.kind (visit_stmts visit id 0 block.stmts s) in
      let (s', e', found) = visit_blocks-Collects (suc id) blocks mid rest in
      (
        s',
        rw (visit_blocks, visit_block, expect_terminator, e) e',
        λ l i.
            let here : Collects
                (λ r. visit_terminator visit loc t.kind (visit_stmts visit id 0 block.stmts r))
                (all_stmts written block.stmts ++ in_terminator t.kind) =
              Collects-both (visit_stmts visit id 0 block.stmts) (visit_terminator visit loc t.kind)
                (all_stmts written block.stmts) (in_terminator t.kind)
                (Collects-stmts id 0 block.stmts) (Collects-terminator loc t.kind) in
            elim (In-either l _ (all_blocks written blocks) s i) [
              | inl j ↦ found l (inl j)
              | inr j ↦ found l (inr (here l s (rw e at j)))
            ],
      )

pub collect_written-Collects :
    (loc : Location) (place : Place)
    → Collects (visit_place collect write loc place) (in_place place)
collect_written-Collects loc place =
    Collects-both (visit_base collect write loc place.base) _ (in_base place.base) _
      (Collects-base place.base)
      (Collects-projections collect (λ loc l. Collects-local l) loc place.projections)
  where
    Collects-base : (base : PlaceBase) → Collects (visit_base collect write loc base) (in_base base)
    Collects-base (local l) = Collects-local l
    Collects-base return_place = Collects-nothing
