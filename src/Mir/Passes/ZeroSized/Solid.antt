-- ===== src/Mir/Passes/ZeroSized/Solid.antt =====
-- What `RemoveZst` leaves of the operands and assignments of a body.
use kli.Prelude.{
  ℕ, zero, suc, ◌≡◌, ◌<◌, ◌⊎◌, arith, inl, inr, refl, sym, ◌∙◌, Bool, true, false, some, none, List,
  [], ◌∷◌, All, Bool-cases,
}
use kli.Prelude.Outcome.{Outcome, ok, err, panic, out_of_fuel, ◌>>=◌, >>=-eq-ok}
use kli.Types.{Ty, Ctxt}
use kli.Types.Inhabited.{NoError}
use kli.Layout.Size.{LayoutError}
use kli.Layout.Defs.{Layout, layout, size, alignment, is_align_1_zst}
use kli.Layout.Of.{calculate_layout}
use kli.Mir.Syntax.{
  BasicBlockId, StmtId, Place, Operand, load, constant, Rvalue, read_line, uninit_zeroed, aggregate,
  use_of, call, binary, array_ptr, cast, len, discriminant, gc_alloc, TerminatorKind, assert,
  switch, Terminator, Location, StmtKind, noop, assign, print, copy, Stmt, BasicBlock, LocalInfo,
  Body,
}
use kli.Mir.Places.{place_type, can_remove_if_unused, const_zero_sized}
use kli.Mir.Graph.{expect_terminator}
use kli.Mir.Visit.{mut_place, mut_operands, mut_rvalue, mut_stmts, mut_block, mut_blocks}
use kli.Mir.Passes.DeadStore.{keep_local}
use kli.Mir.Passes.DeadStore.Walks.{keep_place}
use kli.Mir.Passes.ZeroSized.{
  is_zst, place_zst, zst_operand, super_stmt, zst_stmt, zst_terminator, remove_zst,
}

abbrev pub rvalue_operands : Rvalue → List Operand
rvalue_operands (gc_alloc _ o) = o ∷ []
rvalue_operands (use_of o) = o ∷ []
rvalue_operands (aggregate _ os) = os
rvalue_operands (call o os) = o ∷ os
rvalue_operands (binary _ l r) = l ∷ r ∷ []
rvalue_operands (cast _ o _) = o ∷ []
rvalue_operands _ = []

abbrev pub stmt_operands : StmtKind → List Operand
stmt_operands noop = []
stmt_operands (assign _ r) = rvalue_operands r
stmt_operands (print o _) = o ∷ []
stmt_operands (copy dst src count) = dst ∷ src ∷ count ∷ []

abbrev pub terminator_operands : TerminatorKind → List Operand
terminator_operands (switch o _) = o ∷ []
terminator_operands (assert o _ _) = o ∷ []
terminator_operands _ = []

abbrev found_zst : Outcome LayoutError Layout → Outcome NoError Bool
found_zst o = elim o [
  | ok l ↦ ok (is_align_1_zst l)
  | err _ ↦ ok false
  | panic ↦ panic
  | out_of_fuel ↦ out_of_fuel
]

-- A layout that is not zero-sized, or an error.
found-Solid :
    (o : Outcome LayoutError Layout) (t ty : Ty)
    → ◌≡◌ {A = Outcome NoError (Ty × Bool)} (found_zst o >>= λ z. ok (t, z)) (ok (ty, false))
    → ((e : LayoutError) × (o ≡ err e))
      ⊎ ((l : Layout) × (o ≡ ok l) × ((0 < size l) ⊎ (0 < alignment l)))
found-Solid (ok (layout zero zero k)) t ty h = cc
found-Solid (ok (layout zero (suc a) k)) t ty h =
    inr (layout zero (suc a) k, refl, inr (omega arith))
found-Solid (ok (layout (suc s) a k)) t ty h = inr (layout (suc s) a k, refl, inl (omega arith))
found-Solid (err e) t ty h = inl (e, refl)
found-Solid panic t ty h = cc
found-Solid out_of_fuel t ty h = cc

module _ (ctxt : Ctxt) (fuel : ℕ) (locals : List LocalInfo) (return_type : Ty) where
  -- The place has a type, and the layout of it is found or is an error.
  abbrev pub IsTyped : Operand → Type 0
  IsTyped (constant _) = Unit
  IsTyped (load place) = (r : Ty × Bool) × (place_zst ctxt fuel locals return_type place ≡ ok r)

  -- The type of the place has a size, or an alignment above one byte, or no layout.
  abbrev pub IsSolidPlace : Place → Type 0
  IsSolidPlace place =
      (ty : Ty) × (place_type ctxt locals return_type place ≡ ok ty)
      × (((e : LayoutError) × (calculate_layout ctxt fuel ty ≡ err e))
          ⊎ ((l : Layout) × (calculate_layout ctxt fuel ty ≡ ok l)
              × ((0 < size l) ⊎ (0 < alignment l))))

  abbrev pub IsSolid : Operand → Type 0
  IsSolid (constant _) = Unit
  IsSolid (load place) = IsSolidPlace place

  -- What the code does not find to be zero-sized.
  place_zst-IsSolidPlace :
      (place : Place) (ty : Ty)
      → place_zst ctxt fuel locals return_type place ≡ ok (ty, false)
      → IsSolidPlace place
  unfolding place_zst is_zst
  place_zst-IsSolidPlace place ty h =
      let (ty', typed, h') = >>=-eq-ok (place_type ctxt locals return_type place) _ h in
      (ty', typed, found-Solid (calculate_layout ctxt fuel ty') ty' ty h')

  abbrev pub IsTypedStmt : StmtKind → Type 0
  IsTypedStmt (assign place r) = IsTyped (load place) × All IsTyped (rvalue_operands r)
  IsTypedStmt k = All IsTyped (stmt_operands k)

  abbrev pub IsSolidStmt : StmtKind → Type 0
  IsSolidStmt (assign place r) =
      (can_remove_if_unused r ≡ true → IsSolid (load place)) × All IsSolid (rvalue_operands r)
  IsSolidStmt k = All IsSolid (stmt_operands k)

  zst_operand-IsSolid :
      (loc : Location) (o : Operand)
      → IsTyped o
      → (o' : Operand) × (zst_operand ctxt fuel locals return_type loc o ≡ ok o') × IsSolid o'
  unfolding zst_operand
  zst_operand-IsSolid loc (constant c) typed = (constant c, refl, tt)
  zst_operand-IsSolid loc (load place) ((ty, true), e) =
      (constant (const_zero_sized ty), rw (zst_operand, e) refl, tt)
  zst_operand-IsSolid loc (load place) ((ty, false), e) =
      (load place, rw (zst_operand, e) refl, place_zst-IsSolidPlace place ty e)

  operands-IsSolid :
      (loc : Location) (os : List Operand)
      → All IsTyped os
      → (os' : List Operand) × (mut_operands
            (mut_place keep_local)
            (zst_operand ctxt fuel locals return_type)
            loc
            os
          ≡ ok os')
        × All IsSolid os'
  operands-IsSolid loc [] typed = ([], refl, tt)
  operands-IsSolid loc (o ∷ os) (here, typed) =
      let (o', e, solid) = zst_operand-IsSolid loc o here in
      let (os', e', rest) = operands-IsSolid loc os typed in
      (o' ∷ os', rw (e, e') refl, (solid, rest))

  -- The operands are made solid, and what can be left out stays so.
  rvalue-IsSolid :
      (loc : Location) (r : Rvalue)
      → All IsTyped (rvalue_operands r)
      → (r' : Rvalue) × (mut_rvalue
            (mut_place keep_local)
            (zst_operand ctxt fuel locals return_type)
            loc
            r
          ≡ ok r')
        × All IsSolid (rvalue_operands r')
        × (can_remove_if_unused r' ≡ can_remove_if_unused r)
  unfolding can_remove_if_unused
  rvalue-IsSolid loc (gc_alloc ty o) (t, _) =
      let (o', e, s) = zst_operand-IsSolid loc o t in (gc_alloc ty o', rw e refl, (s, tt), refl)
  rvalue-IsSolid loc (uninit_zeroed ty) t = (uninit_zeroed ty, refl, tt, refl)
  rvalue-IsSolid loc read_line t = (read_line, refl, tt, refl)
  rvalue-IsSolid loc (discriminant place) t =
      (discriminant place, rw (keep_place loc place) refl, tt, refl)
  rvalue-IsSolid loc (len place) t = (len place, rw (keep_place loc place) refl, tt, refl)
  rvalue-IsSolid loc (use_of o) (t, _) =
      let (o', e, s) = zst_operand-IsSolid loc o t in (use_of o', rw e refl, (s, tt), refl)
  rvalue-IsSolid loc (aggregate k os) t =
      let (os', e, s) = operands-IsSolid loc os t in (aggregate k os', rw e refl, s, refl)
  rvalue-IsSolid loc (call o os) (t, ts) =
      let (o', e, s) = zst_operand-IsSolid loc o t in
      let (os', e', ss) = operands-IsSolid loc os ts in
      (call o' os', rw (e, e') refl, (s, ss), refl)
  rvalue-IsSolid loc (binary op l r) (t, (t', _)) =
      let (l', e, s) = zst_operand-IsSolid loc l t in
      let (r', e', s') = zst_operand-IsSolid loc r t' in
      (binary op l' r', rw (e, e') refl, (s, (s', tt)), refl)
  rvalue-IsSolid loc (array_ptr place) t =
      (array_ptr place, rw (keep_place loc place) refl, tt, refl)
  rvalue-IsSolid loc (cast k o ty) (t, _) =
      let (o', e, s) = zst_operand-IsSolid loc o t in (cast k o' ty, rw e refl, (s, tt), refl)

  super_assign :
      (loc : Location) (place : Place) (r : Rvalue)
      → All IsTyped (rvalue_operands r)
      → (can_remove_if_unused r ≡ true → IsSolid (load place))
      → (k : StmtKind) × (super_stmt ctxt fuel locals return_type loc (assign place r) ≡ ok k)
        × IsSolidStmt k
  super_assign loc place r typed stored =
      let (r', e, solid, same) = rvalue-IsSolid loc r typed in
      (assign place r', rw (keep_place loc place, e) refl, (λ f. stored (sym same ∙ f), solid))

  zst_stmt-IsSolidStmt :
      (loc : Location) (k : StmtKind)
      → IsTypedStmt k
      → (k' : StmtKind) × (zst_stmt ctxt fuel locals return_type loc k ≡ ok k') × IsSolidStmt k'
  zst_stmt-IsSolidStmt loc noop t = (noop, refl, tt)
  zst_stmt-IsSolidStmt loc (print o to_err) (t, _) =
      let (o', e, s) = zst_operand-IsSolid loc o t in (print o' to_err, rw e refl, (s, tt))
  zst_stmt-IsSolidStmt loc (copy dst src count) (t1, (t2, (t3, _))) =
      let (dst', e1, s1) = zst_operand-IsSolid loc dst t1 in
      let (src', e2, s2) = zst_operand-IsSolid loc src t2 in
      let (count', e3, s3) = zst_operand-IsSolid loc count t3 in
      (copy dst' src' count', rw (e1, e2, e3) refl, (s1, (s2, (s3, tt))))
  zst_stmt-IsSolidStmt loc (assign place r) (((ty, z), e), typed) =
      elim (Bool-cases (can_remove_if_unused r)) [
        | inr kept ↦
            let (k, e', s) = super_assign loc place r typed (λ f. cc) in
            (k, rw (zst_stmt, kept) e', s)
        | inl gone ↦ elim (Bool-cases z) [
          | inl sizeless ↦ (noop, rw (zst_stmt, gone, e) (rw sizeless refl), tt)
          | inr sized ↦
              let stored : IsSolid (load place) = place_zst-IsSolidPlace place ty (rw sized at e) in
              let (k, e', s) = super_assign loc place r typed (λ f. stored) in
              (k, rw (zst_stmt, gone, e) (rw sized e'), s)
        ]
      ]

  zst_terminator-IsSolid :
      (loc : Location) (k : TerminatorKind)
      → All IsTyped (terminator_operands k)
      → (k' : TerminatorKind) × (zst_terminator ctxt fuel locals return_type loc k ≡ ok k')
        × All IsSolid (terminator_operands k')
  zst_terminator-IsSolid loc (switch o ts) (t, _) =
      let (o', e, s) = zst_operand-IsSolid loc o t in (switch o' ts, rw e refl, (s, tt))
  zst_terminator-IsSolid loc (assert o k b) (t, _) =
      let (o', e, s) = zst_operand-IsSolid loc o t in (assert o' k b, rw e refl, (s, tt))
  zst_terminator-IsSolid loc TerminatorKind.unreachable t = (TerminatorKind.unreachable, refl, tt)
  zst_terminator-IsSolid loc TerminatorKind.return t = (TerminatorKind.return, refl, tt)
  zst_terminator-IsSolid loc (TerminatorKind.goto b) t = (TerminatorKind.goto b, refl, tt)
  zst_terminator-IsSolid loc TerminatorKind.panic t = (TerminatorKind.panic, refl, tt)

  -- Each statement and the terminator satisfy what is asked of them.
  abbrev pub IsTypedBlock : BasicBlock → Type 0
  IsTypedBlock block =
      All (λ (s : Stmt). IsTypedStmt s.kind) block.stmts
      × ((t : Terminator) × (block.terminator ≡ some t) × All IsTyped (terminator_operands t.kind))

  abbrev pub IsSolidBlock : BasicBlock → Type 0
  IsSolidBlock block =
      All (λ (s : Stmt). IsSolidStmt s.kind) block.stmts
      × ((t : Terminator) × (block.terminator ≡ some t) × All IsSolid (terminator_operands t.kind))

  abbrev visit_stmt : Location → StmtKind → Outcome NoError StmtKind
  visit_stmt = zst_stmt ctxt fuel locals return_type

  abbrev visit_end : Location → TerminatorKind → Outcome NoError TerminatorKind
  visit_end = zst_terminator ctxt fuel locals return_type

  stmts-IsSolidStmt :
      (id : BasicBlockId) (i : StmtId) (ss : List Stmt)
      → All (λ (s : Stmt). IsTypedStmt s.kind) ss
      → (ss' : List Stmt) × (mut_stmts visit_stmt visit_end id i ss ≡ ok ss')
        × All (λ (s : Stmt). IsSolidStmt s.kind) ss'
  stmts-IsSolidStmt id i [] t = ([], refl, tt)
  stmts-IsSolidStmt id i (x ∷ ss) (here, t) =
      let (k, e, s) = zst_stmt-IsSolidStmt (record { block = id; stmt = some i }) x.kind here in
      let (ss', e', rest) = stmts-IsSolidStmt id (suc i) ss t in
      (record x { kind = k } ∷ ss', rw (e, e') refl, (s, rest))

  block-IsSolidBlock :
      (id : BasicBlockId) (block : BasicBlock)
      → IsTypedBlock block
      → (block' : BasicBlock) × (mut_block visit_stmt visit_end id block ≡ ok block')
        × IsSolidBlock block'
  unfolding mut_block expect_terminator
  block-IsSolidBlock id block (typed, (t, has, ending)) =
      let (ss, e, solid) = stmts-IsSolidStmt id 0 block.stmts typed in
      let (k, e', last) =
        zst_terminator-IsSolid (record { block = id; stmt = none }) t.kind ending in
      let t' = record t { kind = k } in
      (
        record { stmts = ss; terminator = some t' },
        rw e (rw (has, expect_terminator) (rw e' refl)),
        (solid, (t', refl, last)),
      )

  blocks-IsSolidBlock :
      (id : BasicBlockId) (blocks : List BasicBlock)
      → All IsTypedBlock blocks
      → (blocks' : List BasicBlock) × (mut_blocks visit_stmt visit_end id blocks ≡ ok blocks')
        × All IsSolidBlock blocks'
  unfolding mut_blocks
  blocks-IsSolidBlock id [] t = ([], refl, tt)
  blocks-IsSolidBlock id (block ∷ blocks) (here, t) =
      let (block', e, s) = block-IsSolidBlock id block here in
      let (blocks', e', rest) = blocks-IsSolidBlock (suc id) blocks t in
      (block' ∷ blocks', rw (mut_blocks, e, e') refl, (s, rest))

-- When each block has a terminator, and each place that is loaded or assigned has a type whose layout
-- is found or is an error, `remove_zst` returns. In its result each place that is loaded, and each
-- place to which something is assigned that could be left out, has a type that has a size, or an
-- alignment above one byte, or whose layout is an error.
pub remove_zst-IsSolidBlock :
    (ctxt : Ctxt) (fuel : ℕ) (body : Body)
    → All (IsTypedBlock ctxt fuel body.locals body.return_type) body.blocks
    → (body' : Body) × (remove_zst ctxt fuel body ≡ ok body')
      × All (IsSolidBlock ctxt fuel body.locals body.return_type) body'.blocks
unfolding remove_zst
remove_zst-IsSolidBlock ctxt fuel body typed =
    let (blocks, e, solid) =
      blocks-IsSolidBlock ctxt fuel body.locals body.return_type 0 body.blocks typed in
    (record body { blocks = blocks }, rw (remove_zst, e) refl, solid)
