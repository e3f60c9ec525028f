-- ===== src/Patterns/Pat.antt =====
-- The patterns of src/patterns/pat.rs, `specialize` and `split_constructors`.
use kli.Prelude.{
  ℕ, suc, Bool, true, false, List, [], ◌∷◌, ◌++◌, map, ltb, ◌||◌, if◌then◌else◌, length, set,
}
use kli.Prelude.Outcome.{Outcome, ok, panic, ◌>>=◌}
use kli.Types.{Ty}
use kli.Types.Inhabited.{NoError}
use kli.Patterns.Ctors.{
  Constructor, bool, wildcard, record_ctor, case, non_exhaustive, ctor_eq, ConstructorSet, bools,
  never, open_set, record_set, cases,
}

-- `Pat`, and its fields as `PatWithIndex`.
mutual
  pub data Pat : Type 0 where
    pat : Ty → Constructor → Fields → Pat

  pub data Fields : Type 0 where
    nil : Fields
    cons : Pat → ℕ → Fields → Fields

abbrev pub ctor : Pat → Constructor
ctor (pat _ c _) = c

abbrev pub fields : Pat → Fields
fields (pat _ _ fs) = fs

abbrev pub Row : Type 0
Row = List Pat

-- `Pat::wildcard`.
abbrev pub wild : Ty → Pat
wild t = pat t wildcard nil

-- `pats.enumerate().map(|(i, pat)| pat.with_index(i))`, from `i` on.
unfoldable pub with_indices : ℕ → List Pat → Fields
with_indices i [] = nil
with_indices i (p ∷ ps) = cons p i (with_indices (suc i) ps)

-- `new_row[indexed_pat.index] = indexed_pat.pat` for each field, which panics out of range.
unfoldable pub place_patterns : Fields → Row → Outcome NoError Row
place_patterns nil row = ok row
place_patterns (cons p i fs) row =
    if ltb i (length row) then place_patterns fs (set row i p) else panic

-- What the closure of `specialize` makes of a row; no row at all is the empty list.
unfoldable pub specialize_row : Constructor → List Ty → Row → Outcome NoError (List Row)
unfolding ctor_eq
specialize_row c ts [] = ok []
specialize_row c ts (first ∷ row) =
    if ctor_eq (ctor first) c
    then (place_patterns (fields first) (map wild ts) >>= λ new. ok ((new ++ row) ∷ []))
    else if ctor_eq (ctor first) wildcard
    then ok ((map wild ts ++ row) ∷ [])
    else ok []

unfoldable pub specialize : Constructor → List Ty → List Row → Outcome NoError (List Row)
specialize c ts [] = ok []
specialize c ts (row ∷ matrix) = do
  first ← specialize_row c ts row
  rest ← specialize c ts matrix
  ok (first ++ rest)

-- The constructors of the first column; the source collects them in a set.
unfoldable pub seen_constructors : List Row → List Constructor
seen_constructors [] = []
seen_constructors ([] ∷ matrix) = seen_constructors matrix
seen_constructors ((first ∷ _) ∷ matrix) = ctor first ∷ seen_constructors matrix

unfoldable pub contains : List Constructor → Constructor → Bool
contains [] c = false
contains (d ∷ ds) c = ctor_eq d c || contains ds c

-- The constructors of the set in their order, those that were seen apart from those that were not.
abbrev pub all_constructors : ConstructorSet → List Constructor
all_constructors never = []
all_constructors open_set = []
all_constructors bools = bool true ∷ bool false ∷ []
all_constructors record_set = record_ctor ∷ []
all_constructors (cases names) = map case names

unfoldable pub partition : List Constructor → List Constructor → List Constructor × List Constructor
partition seen [] = ([], [])
partition seen (c ∷ cs) =
    let (present, absent) = partition seen cs in
    if contains seen c then (c ∷ present, absent) else (present, c ∷ absent)

-- `split_constructors`: a set that cannot be listed is always missing something.
unfoldable pub split_constructors :
    ConstructorSet → List Constructor → List Constructor × List Constructor
unfolding partition
split_constructors open_set seen = ([], non_exhaustive ∷ [])
split_constructors s seen = partition seen (all_constructors s)
