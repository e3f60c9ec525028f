-- ===== src/Mir/Passes/UnusedLocals.antt =====
-- src/mir/passes/remove_unused_locals.rs: the locals that are used are moved to the front, and the
-- others are dropped, all but the first of them.
--
-- What is printed when the body is to be dumped is not modelled.
pub mod Moves
pub mod Renumbered
use kli.Prelude.{
  ℕ, zero, suc, Bool, true, false, not, Option, none, some, List, [], ◌∷◌, length, get_elem?, set,
  take, ◌==◌, if◌then◌else◌,
}
use kli.Prelude.Outcome.{Outcome, ok, panic, ◌>>=◌}
use kli.Types.Inhabited.{NoError}
use kli.Mir.Syntax.{Local, Location, LocalInfo, Body}
use kli.Mir.Graph.{contains}
use kli.Mir.Visit.{visit_body, mut_blocks}
use kli.Mir.Visit.Mentions.{collect}
use kli.Mir.Visit.Changed.{stmt_of, terminator_of}
use kli.Mir.Places.{params_from}

-- `IndexVec::swap` of src/index_vec/mod.rs, which changes nothing when the positions are equal or one
-- of them is out of range.
unfoldable pub swap : List LocalInfo → Local → Local → List LocalInfo
swap xs a b = elim (a == b) [
  | true ↦ xs
  | false ↦ elim (get_elem? xs a) [
    | none ↦ xs
    | some x ↦ elim (get_elem? xs b) [ none ↦ xs | some y ↦ set (set xs a y) b x ]
  ]
]

-- The map of the locals, the locals after the swaps, and `next_local`.
pub record Renumbering : Type 0 where
  pub local_map : List (Option Local)
  pub locals : List LocalInfo
  pub next_local : Local

-- The closure over the ids, for the `n` ids from `l` on.
unfoldable pub renumber :
    List Local → ℕ → Local → List LocalInfo → Local → Outcome NoError Renumbering
unfolding swap
renumber used zero l locals next_local =
    ok (record { local_map = []; locals = locals; next_local = next_local })
renumber used (suc n) l locals next_local = elim (contains l used) [
  | true ↦ do
    let moved = if l == next_local then locals else swap locals l next_local
    rest ← renumber used n (suc l) moved (suc next_local)
    ok (record rest { local_map = some next_local ∷ rest.local_map })
  | false ↦ do
    rest ← renumber used n (suc l) locals next_local
    ok (record rest { local_map = none ∷ rest.local_map })
]

-- `LocalReplacer::visit_local`: `self.locals[*local].unwrap()`.
unfoldable pub replace_local : List (Option Local) → Location → Local → Outcome NoError Local
replace_local map loc l = elim (get_elem? map l) [
  | none ↦ panic
  | some entry ↦ elim entry [ none ↦ panic | some id ↦ ok id ]
]

-- `RemoveUnusedLocals::run`.
unfoldable pub remove_unused_locals : Body → Outcome NoError Body
unfolding visit_body renumber replace_local mut_blocks params_from
remove_unused_locals body = do
  used ← visit_body collect body (params_from 0 body.locals)
  r ← renumber used (length body.locals) 0 body.locals 0
  let f = replace_local r.local_map
  blocks ← mut_blocks (stmt_of f) (terminator_of f) 0 body.blocks
  ok (record body { locals = take (suc r.next_local) r.locals; blocks = blocks })
