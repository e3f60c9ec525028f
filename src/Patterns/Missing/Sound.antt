-- ===== src/Patterns/Missing/Sound.antt =====
-- If no pattern is missing, every value is matched.
use Prim.Native.Nat.add
use kli.Prelude.{
  ℕ, zero, suc, ◌≡◌, ◌≢◌, ◌⊎◌, inl, inr, refl, ap, ◌∙◌, true, false, List, [], ◌∷◌, ◌++◌, map,
  arith, length, length-append, All, Bool-cases, &&-left, In, In-append-left, In-append-right,
}
use kli.Prelude.Outcome.{Outcome, ok, ◌>>=◌, >>=-eq-ok, map_m}
use kli.Types.{DefId, Ty, tuple, named, to_list, Ctxt, field_type}
use kli.Types.Inhabited.{NoError}
use kli.Patterns.Ctors.{
  case_fields, payload_types, Constructor, record_ctor, case, missing, ctor_eq, constructors_of_ty,
  fields_of,
}
use kli.Patterns.Pat.{Pat, Row, seen_constructors, split_constructors, specialize}
use kli.Patterns.Values.{
  Value, Values, con, none_left, next, append, count, head_of, parts_of, HasType, bool_value, atom,
  boxed, tuple_value, record_value, case_value, HasTypes, done, more, IsAtomic, matches,
  matches_row, HasMatch, IsPattern, IsMatrix,
}
use kli.Patterns.Covered.{split-In, constructors_of_ty-covers}
use kli.Patterns.Missing.{
  concat, absent_pattern, rebuild, missing_for, with_missing, missing_patterns_inner, first_of_row,
  missing_patterns,
}
use kli.Patterns.Missing.Rows.{specialize-HasMatch, specialize-missing}
use kli.Patterns.Missing.Shape.{specialize-IsMatrix}

atomic-fields :
    (ctxt : Ctxt) (t : Ty) (d : Constructor) (ts : List Ty)
    → IsAtomic t
    → fields_of ctxt t d ≡ ok ts
    → ts ≡ []
unfolding fields_of
atomic-fields ctxt t (case name) ts a h = atomic_case t a h
  where
    atomic_case : (t : Ty) → IsAtomic t → fields_of ctxt t (case name) ≡ ok ts → ts ≡ []
    atomic_case (tuple _) a h = absurd a
    atomic_case (named _ _ _) a h = absurd a
    atomic_case _ a h = cc
atomic-fields ctxt t record_ctor ts a h = atomic_record t a h
  where
    atomic_record : (t : Ty) → IsAtomic t → fields_of ctxt t record_ctor ≡ ok ts → ts ≡ []
    atomic_record (tuple _) a h = absurd a
    atomic_record (named _ _ _) a h = absurd a
    atomic_record _ a h = cc
atomic-fields ctxt t _ ts a h = cc

-- The parts of a value have the types that `fields_of` gives for its constructor.
fields_of-HasTypes :
    (ctxt : Ctxt) (t : Ty) (v : Value) (ts : List Ty)
    → HasType ctxt t v
    → fields_of ctxt t (head_of v) ≡ ok ts
    → HasTypes ctxt ts (parts_of v)
unfolding fields_of
fields_of-HasTypes ctxt t v ts (bool_value b) h = let made : [] ≡ ts = cc in rw (← made) done
fields_of-HasTypes ctxt t v ts (atom _ d a n) h = rw (atomic-fields ctxt t d ts a h) done
fields_of-HasTypes ctxt t v ts (boxed w) h = let made : [] ≡ ts = cc in rw (← made) done
fields_of-HasTypes ctxt t v ts (tuple_value {ts = us} w) h =
    let made : to_list us ≡ ts = cc in rw (← made) w
fields_of-HasTypes ctxt t v ts (record_value {args} fs e w) h =
    let made : map (field_type ctxt args) fs ≡ ts = cc (rw (e, fields_of) at h) in rw (← made) w
fields_of-HasTypes ctxt t v ts (case_value {args} cs c name e found w) h =
    let made : payload_types ctxt args c ≡ ts = cc (rw (e, fields_of, case_fields, found) at h) in
    rw (← made) w

HasTypes-count :
    (ctxt : Ctxt) (ts : List Ty) (ws : Values) → HasTypes ctxt ts ws → length ts ≡ count ws
HasTypes-count ctxt ts ws done = refl
HasTypes-count ctxt ts ws (more {ts = us} {vs} w rest) = ap suc (HasTypes-count ctxt us vs rest)

HasTypes-append :
    (ctxt : Ctxt) (ts us : List Ty) (ws vs : Values)
    → HasTypes ctxt ts ws
    → HasTypes ctxt us vs
    → HasTypes ctxt (ts ++ us) (append ws vs)
HasTypes-append ctxt ts us ws vs done b = b
HasTypes-append ctxt ts us ws vs (more {ts = ts'} {vs = ws'} w rest) b =
    more w (HasTypes-append ctxt ts' us ws' vs rest b)

append-empty {ℓ} : {A : Type ℓ} (xs ys : List A) → xs ++ ys ≡ [] → (xs ≡ []) × (ys ≡ [])
append-empty [] ys h = (refl, h)
append-empty (x ∷ xs) ys h = cc

-- An empty concatenation of results has only empty results.
map_m-empty :
    (f : Constructor → Outcome NoError (List Row)) (cs : List Constructor) (rows : List (List Row))
    (d : Constructor)
    → map_m f cs ≡ ok rows
    → concat rows ≡ []
    → In d cs
    → f d ≡ ok []
map_m-empty f [] rows d h e i = elim i [ ]
map_m-empty f (c ∷ cs) rows d h e i =
    let (y, h₁, h₂) = >>=-eq-ok (f c) _ h in
    let (ys, h₃, h₄) = >>=-eq-ok (map_m f cs) _ h₂ in
    let made : y ∷ ys ≡ rows = cc in
    let (y_empty, ys_empty) = append-empty y (concat ys) (rw (← made) at e) in
    elim i [
      | inl same ↦ rw (← same) (rw y_empty at h₁)
      | inr there ↦ map_m-empty f cs ys d h₃ ys_empty there
    ]

value-ne-missing : (ctxt : Ctxt) (t : Ty) (v : Value) → HasType ctxt t v → head_of v ≢ missing
value-ne-missing ctxt t v (bool_value b) = λ e. cc
value-ne-missing ctxt t v (atom _ d a n) = n
value-ne-missing ctxt t v (boxed w) = λ e. cc
value-ne-missing ctxt t v (tuple_value w) = λ e. cc
value-ne-missing ctxt t v (record_value fs e w) = λ e'. cc
value-ne-missing ctxt t v (case_value cs c name e found w) = λ e'. cc

ctor_eq-missing : (c : Constructor) → ctor_eq c missing ≡ true → c ≡ missing
unfolding ctor_eq
ctor_eq-missing missing h = refl
ctor_eq-missing (Constructor.bool true) h = cc
ctor_eq-missing (Constructor.bool false) h = cc
ctor_eq-missing _ h = cc

-- A missing row of the specialized matrix gives at least one missing row.
rebuild-ne-nil :
    (ctxt : Ctxt) (head : Ty) (c : Constructor) (k : ℕ) (absent : List Constructor) (row : Row)
    (rows : List Row)
    → (c ≡ missing → absent ≢ [])
    → rebuild ctxt head c k absent row ≡ ok rows
    → rows ≢ []
unfolding rebuild
rebuild-ne-nil ctxt head c k [] row rows filled h e = elim (Bool-cases (ctor_eq c missing)) [
  | inl m ↦ filled (ctor_eq-missing c m) refl
  | inr n ↦ cc (rw (n, rebuild) at h)
]
rebuild-ne-nil ctxt head c k (a ∷ absent) row rows filled h e =
    elim (Bool-cases (ctor_eq c missing)) [
      | inl m ↦
          let (p, h₁, h₂) =
            >>=-eq-ok (absent_pattern ctxt head a >>= λ p. ok (p ∷ row)) _ (rw (m, rebuild) at h) in
          let (ps, h₃, h₄) =
            >>=-eq-ok (map_m (λ d. absent_pattern ctxt head d >>= λ p. ok (p ∷ row)) absent) _ h₂ in
          cc
      | inr n ↦ cc (rw (n, rebuild) at h)
    ]

module _ (ctxt : Ctxt) (rec : List Ty → List Row → Outcome NoError (List Row)) (head : Ty)
    (rest : List Ty) (matrix : List Row) (absent : List Constructor) (c : Constructor) where
  -- No missing row for a constructor: none for the specialized matrix.
  missing_for-empty :
      (c ≡ missing → absent ≢ [])
      → missing_for ctxt rec head rest matrix absent c ≡ ok []
      → (ts : List Ty) × (new : List Row) × (fields_of ctxt head c ≡ ok ts)
        × (specialize c ts matrix ≡ ok new)
        × (rec (ts ++ rest) new ≡ ok [])
  unfolding missing_for
  missing_for-empty filled h =
      let (ts, h₁, h₂) = >>=-eq-ok (fields_of ctxt head c) _ h in
      let (new, h₃, h₄) = >>=-eq-ok (specialize c ts matrix) _ h₂ in
      let (rows, h₅, h₆) = >>=-eq-ok (rec (ts ++ rest) new) _ h₄ in
      (ts, new, h₁, h₃, h₅ ∙ ap ok (no_rows ts rows h₆))
    where
      no_rows :
          (ts : List Ty) (rows : List Row)
          → (map_m (rebuild ctxt head c (length ts) absent) rows >>= λ r. ok (concat r)) ≡ ok []
          → rows ≡ []
      no_rows ts [] h = refl
      no_rows ts (row ∷ rows) h =
          let (all, h₁, h₂) =
            >>=-eq-ok (map_m (rebuild ctxt head c (length ts) absent) (row ∷ rows)) _ h in
          let (made, h₃, h₄) = >>=-eq-ok (rebuild ctxt head c (length ts) absent row) _ h₁ in
          let (others, h₅, h₆) =
            >>=-eq-ok (map_m (rebuild ctxt head c (length ts) absent) rows) _ h₄ in
          let listed : made ∷ others ≡ all = cc in
          let nothing : concat all ≡ [] = cc in
          absurd (
            rebuild-ne-nil ctxt head c (length ts) absent row made filled h₃
              (append-empty made (concat others) (rw (← listed) at nothing)).0)

In-with :
    (d : Constructor) (present absent : List Constructor)
    → In d present
    → In d (with_missing present absent)
In-with d present [] i = i
In-with d present (a ∷ absent) i = In-append-left d present (missing ∷ []) i

In-missing :
    (present absent : List Constructor) → absent ≢ [] → In missing (with_missing present absent)
In-missing present [] n = absurd (n refl)
In-missing present (a ∷ absent) n = In-append-right missing present (missing ∷ []) (inl refl)

missing-fields : (ctxt : Ctxt) (t : Ty) (ts : List Ty) → fields_of ctxt t missing ≡ ok ts → ts ≡ []
unfolding fields_of
missing-fields ctxt t [] h = refl
missing-fields ctxt t (u ∷ ts) h = cc

-- The rows for the missing constructors, which do not look at the first value.
missing-HasMatch :
    (v : Value) (vs : Values) (k : ℕ) (rec : List Ty → List Row → Outcome NoError (List Row))
    (rest ts : List Ty) (matrix new : List Row)
    → ts ≡ []
    → specialize missing ts matrix ≡ ok new
    → rec (ts ++ rest) new ≡ ok []
    → IsMatrix (suc k) matrix
    → ((row : List Row) → rec rest row ≡ ok [] → IsMatrix k row → HasMatch row vs)
    → HasMatch matrix (next v vs)
missing-HasMatch v vs k rec rest (t ∷ ts) matrix new e made left shape ih = cc
missing-HasMatch v vs k rec rest [] matrix new e made left shape ih =
    specialize-missing v vs (suc k) matrix new shape made
      (ih new left (rw add.zero at (specialize-IsMatrix missing [] k matrix new shape made)))

pub missing_patterns_inner_sound :
    (ctxt : Ctxt) (from : DefId) (fuel : ℕ) (ts : List Ty) (matrix : List Row) (vs : Values)
    → missing_patterns_inner ctxt from fuel ts matrix ≡ ok []
    → IsMatrix (length ts) matrix
    → HasTypes ctxt ts vs
    → HasMatch matrix vs
unfolding missing_patterns_inner matches_row
missing_patterns_inner_sound ctxt from zero ts matrix vs h shape w = cc
missing_patterns_inner_sound ctxt from (suc n) [] [] vs h shape done = cc
missing_patterns_inner_sound ctxt from (suc n) [] ([] ∷ matrix) vs h shape done = inl refl
missing_patterns_inner_sound ctxt from (suc n) [] ((p ∷ row) ∷ matrix) vs h shape done =
    absurd (omega (arith, shape.0.0))
missing_patterns_inner_sound ctxt from (suc n) (head ∷ rest) matrix vs h shape
      (more {v} {vs = vs'} w ws) =
    let (s, h₁, h₂) = >>=-eq-ok (constructors_of_ty ctxt n from head) _ h in
    let rec = missing_patterns_inner ctxt from n in
    let present = (split_constructors s (seen_constructors matrix)).0 in
    let absent = (split_constructors s (seen_constructors matrix)).1 in
    let (rows, h₃, h₄) =
      >>=-eq-ok (map_m (missing_for ctxt rec head rest matrix absent) (with_missing present absent))
        _ h₂ in
    let nothing : concat rows ≡ [] = cc in
    let none_for = λ (d : Constructor).
      map_m-empty (missing_for ctxt rec head rest matrix absent) (with_missing present absent) rows
        d h₃ nothing in
    elim (split-In s (seen_constructors matrix) (head_of v)
      (constructors_of_ty-covers ctxt n from head v s h₁ w)) [
        | inl i ↦
            let (ts, new, typed, made, left) =
              missing_for-empty ctxt rec head rest matrix absent (head_of v)
                (λ e. absurd (value-ne-missing ctxt head v w e))
                (none_for (head_of v) (In-with (head_of v) present absent i)) in
            let parts = fields_of-HasTypes ctxt head v ts w typed in
            let hit =
              missing_patterns_inner_sound ctxt from n (ts ++ rest) new (append (parts_of v) vs')
                left
                (rw length-append
                  (specialize-IsMatrix (head_of v) ts (length rest) matrix new shape made))
                (HasTypes-append ctxt ts rest (parts_of v) vs' parts ws) in
            whole v (
              specialize-HasMatch (head_of v) ts (parts_of v) vs' (length (head ∷ rest)) matrix new
                (HasTypes-count ctxt ts (parts_of v) parts) shape made hit)
        | inr a ↦
            let (ts, new, typed, made, left) =
              missing_for-empty ctxt rec head rest matrix absent missing (λ e. a)
                (none_for missing (In-missing present absent a)) in
            missing-HasMatch v vs' (length rest) rec rest ts matrix new
              (missing-fields ctxt head ts typed) made left shape
              (λ row left' shape'.
                missing_patterns_inner_sound ctxt from n rest row vs' left' shape' ws)
      ]
  where
    whole :
        (v : Value)
        → HasMatch matrix (next (con (head_of v) (parts_of v)) vs')
        → HasMatch matrix (next v vs')
    whole (con d us) h = h

-- Some pattern of the list matches the value.
abbrev pub AnyMatch : List Pat → Value → Type 0
AnyMatch [] v = ⊥
AnyMatch (p ∷ ps) v = (matches p v ≡ true) ⊎ AnyMatch ps v

abbrev column : List Pat → List Row
column = map (λ p. p ∷ [])

column-IsMatrix : (ps : List Pat) → All IsPattern ps → IsMatrix 1 (column ps)
column-IsMatrix [] a = tt
column-IsMatrix (p ∷ ps) (ip, a) = ((refl, (ip, tt)), column-IsMatrix ps a)

column-AnyMatch :
    (ps : List Pat) (v : Value) → HasMatch (column ps) (next v none_left) → AnyMatch ps v
unfolding matches_row
column-AnyMatch [] v h = h
column-AnyMatch (p ∷ ps) v (inl h) = inl (&&-left (matches p v) true h)
column-AnyMatch (p ∷ ps) v (inr h) = inr (column-AnyMatch ps v h)

no_first : (rows : List Row) → map_m first_of_row rows ≡ ok [] → rows ≡ []
no_first [] h = refl
no_first ([] ∷ rows) h = cc
no_first ((p ∷ row) ∷ rows) h = let (ps, h₁, h₂) = >>=-eq-ok (map_m first_of_row rows) _ h in cc

-- The check reports no missing pattern only if every value of the type is matched by one of them.
pub missing_patterns_sound :
    (ctxt : Ctxt) (from : DefId) (fuel : ℕ) (t : Ty) (ps : List Pat) (v : Value)
    → All IsPattern ps
    → missing_patterns ctxt from fuel t ps ≡ ok []
    → HasType ctxt t v
    → AnyMatch ps v
unfolding missing_patterns
missing_patterns_sound ctxt from fuel t ps v shape h w =
    let (rows, h₁, h₂) =
      >>=-eq-ok (missing_patterns_inner ctxt from fuel (t ∷ []) (column ps)) _ h in
    column-AnyMatch ps v (
      missing_patterns_inner_sound ctxt from fuel (t ∷ []) (column ps) (next v none_left)
        (rw (no_first rows h₂) at h₁) (column-IsMatrix ps shape) (more w done))
