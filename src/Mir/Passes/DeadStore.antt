-- ===== src/Mir/Passes/DeadStore.antt =====
-- src/mir/passes/dead_store.rs: an assignment to a local that is never read becomes a no-op.
pub mod Walks
pub mod Agrees
mod Tests
use kli.Prelude.{Bool, true, false, not, ◌&&◌, List, [], ◌∷◌}
use kli.Prelude.Outcome.{Outcome, ok, ◌>>=◌}
use kli.Types.Inhabited.{NoError}
use kli.Mir.Syntax.{
  Local, local, PlaceBase, PlaceProjection, Location, StmtKind, noop, assign, Body,
}
use kli.Mir.Places.{can_remove_if_unused, params_from}
use kli.Mir.Graph.{contains}
use kli.Mir.Visit.{
  PlaceCtxt, read, visit_body, mut_place, mut_operand, mut_stmt, mut_terminator, mut_blocks,
}

-- `LocalFinder::visit_local`.
abbrev pub find_read : PlaceCtxt → Location → Local → List Local → List Local
find_read read _ l s = l ∷ s
find_read _ _ l s = s

abbrev pub is_empty : List PlaceProjection → Bool
is_empty [] = true
is_empty (_ ∷ _) = false

abbrev pub is_unread_local : List Local → PlaceBase → Bool
is_unread_local locals (local l) = not (contains l locals)
is_unread_local locals _ = false

-- The first half of `LocalReplacer::visit_stmt`.
abbrev pub drop_store : List Local → StmtKind → StmtKind
drop_store locals (assign place rvalue) =
    elim (is_empty place.projections
      && (can_remove_if_unused rvalue && is_unread_local locals place.base)) [
        | true ↦ noop
        | false ↦ assign place rvalue
      ]
drop_store locals kind = kind

-- A local is left as it is.
abbrev pub keep_local : Location → Local → Outcome NoError Local
keep_local _ l = ok l

-- `LocalReplacer::visit_stmt`, `super_visit_stmt` included.
abbrev pub replace_stmt : List Local → Location → StmtKind → Outcome NoError StmtKind
replace_stmt locals loc kind =
    mut_stmt (mut_place keep_local) (mut_operand keep_local) loc (drop_store locals kind)

-- `DeadStoreElim::run`.
unfoldable pub dead_store_elim : Body → Outcome NoError Body
unfolding visit_body mut_blocks params_from can_remove_if_unused
dead_store_elim body = do
  locals ← visit_body find_read body (params_from 0 body.locals)
  blocks ←
      mut_blocks (replace_stmt locals)
        (mut_terminator (mut_place keep_local) (mut_operand keep_local)) 0 body.blocks
  ok (record body { blocks = blocks })
