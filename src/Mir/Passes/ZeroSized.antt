-- ===== src/Mir/Passes/ZeroSized.antt =====
-- src/mir/passes/remove_zst.rs: what has a type without a size is not loaded, nor stored.
--
-- `calculate_layout` has the fuel `fuel`.
pub mod Solid
mod Tests
use kli.Prelude.{ℕ, Bool, true, false, Option, none, some, List, [], ◌∷◌}
use kli.Prelude.Outcome.{Outcome, ok, err, panic, out_of_fuel, ◌>>=◌}
use kli.Types.{Ty, Ctxt}
use kli.Types.Inhabited.{NoError}
use kli.Layout.Defs.{is_align_1_zst}
use kli.Layout.Of.{calculate_layout}
use kli.Mir.Syntax.{
  Location, Place, Operand, load, constant, StmtKind, noop, assign, print, copy, TerminatorKind,
  LocalInfo, Body,
}
use kli.Mir.Places.{place_type, const_zero_sized, can_remove_if_unused}
use kli.Mir.Visit.{mut_place, mut_stmt, mut_terminator, mut_blocks}
use kli.Mir.Passes.DeadStore.{keep_local}

module _ (ctxt : Ctxt) (fuel : ℕ) where
  -- `RemoveZst::is_zst`.
  unfoldable pub is_zst : Ty → Outcome NoError Bool
  unfolding calculate_layout
  is_zst ty = elim (calculate_layout ctxt fuel ty) [
    | ok l ↦ ok (is_align_1_zst l)
    | err _ ↦ ok false
    | panic ↦ panic
    | out_of_fuel ↦ out_of_fuel
  ]

  module _ (locals : List LocalInfo) (return_type : Ty) where
    -- The type of a place, and whether it is a type without a size.
    unfoldable pub place_zst : Place → Outcome NoError (Ty × Bool)
    unfolding is_zst place_type
    place_zst place = do ty ← place_type ctxt locals return_type place; z ← is_zst ty; ok (ty, z)

    -- `visit_operand`.
    unfoldable pub zst_operand : Location → Operand → Outcome NoError Operand
    unfolding place_zst const_zero_sized
    zst_operand loc (constant c) = ok (constant c)
    zst_operand loc (load place) = place_zst place >>= λ r. elim r.1 [
      | true ↦ ok (constant (const_zero_sized r.0))
      | false ↦ ok (load place)
    ]

    -- `super_visit_stmt` and `super_visit_terminator` with it.
    abbrev pub super_stmt : Location → StmtKind → Outcome NoError StmtKind
    super_stmt = mut_stmt (mut_place keep_local) zst_operand

    abbrev pub zst_terminator : Location → TerminatorKind → Outcome NoError TerminatorKind
    zst_terminator = mut_terminator (mut_place keep_local) zst_operand

    -- `visit_stmt`.
    abbrev pub zst_stmt : Location → StmtKind → Outcome NoError StmtKind
    zst_stmt loc (assign place rvalue) = elim (can_remove_if_unused rvalue) [
      | true ↦ place_zst place >>= λ r. elim r.1 [
        | true ↦ ok noop
        | false ↦ super_stmt loc (assign place rvalue)
      ]
      | false ↦ super_stmt loc (assign place rvalue)
    ]
    zst_stmt loc kind = super_stmt loc kind

-- `RemoveZst::run`.
unfoldable pub remove_zst : Ctxt → ℕ → Body → Outcome NoError Body
unfolding mut_blocks zst_operand can_remove_if_unused
remove_zst ctxt fuel body =
    mut_blocks (zst_stmt ctxt fuel body.locals body.return_type)
      (zst_terminator ctxt fuel body.locals body.return_type) 0 body.blocks
    >>= λ blocks. ok (record body { blocks = blocks })
