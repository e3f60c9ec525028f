-- ===== src/Patterns/Missing/Rows.antt =====
-- Specialization: the rows that are left for a constructor match its fields exactly as the rows of
-- the matrix match the value.
use kli.Prelude.{
  ℕ, zero, suc, ◌≡◌, ◌⊎◌, inl, inr, refl, sym, ap, ◌∙◌, Bool, true, ◌&&◌, some, List, [], ◌∷◌, ◌++◌,
  map, arith, length, set, get_elem?, length-set, get_elem?-set_self, get_elem?-set_ne, All,
  Bool-cases, ltb, ltb→lt, &&-left, &&-right,
}
use kli.Prelude.Outcome.{Outcome, ok, >>=-eq-ok}
use kli.Types.{Ty}
use kli.Types.Inhabited.{NoError}
use kli.Patterns.Ctors.{Constructor, wildcard, missing, ctor_eq}
use kli.Patterns.Pat.{
  Pat, pat, Fields, nil, cons, Row, wild, place_patterns, specialize_row, specialize,
}
use kli.Patterns.Values.{
  Value, Values, con, none_left, next, append, value_at, count, matches, matches_fields,
  matches_row, HasMatch, IsAbsent, IsPattern, IsFields, IsMatrix,
}

matches_row-at :
    (row : Row) (ws : Values) (i : ℕ) (p : Pat)
    → matches_row row ws ≡ true
    → get_elem? row i ≡ some p
    → (w : Value) × (value_at ws i ≡ some w) × (matches p w ≡ true)
unfolding matches_row
matches_row-at [] ws i p h e = cc
matches_row-at (q ∷ row) none_left i p h e = cc
matches_row-at (q ∷ row) (next w ws) zero p h e =
    let same : q ≡ p = cc in (w, refl, rw same at (&&-left (matches q w) (matches_row row ws) h))
matches_row-at (q ∷ row) (next w ws) (suc i) p h e =
    matches_row-at row ws i p (&&-right (matches q w) (matches_row row ws) h) e

pub length-place :
    (fs : Fields) (row new : Row) → place_patterns fs row ≡ ok new → length new ≡ length row
unfolding place_patterns
length-place nil row new h = ap length {y = row} cc
length-place (cons p i fs) row new h = elim (Bool-cases (ltb i (length row))) [
  | inl e ↦ length-place fs (set row i p) new (rw e at h) ∙ length-set row i p
  | inr e ↦ cc (rw e at h)
]

-- A position that no field names keeps its pattern.
place-keeps :
    (fs : Fields) (row new : Row) (i : ℕ)
    → IsAbsent i fs
    → place_patterns fs row ≡ ok new
    → get_elem? new i ≡ get_elem? row i
unfolding place_patterns
place-keeps nil row new i a h = let e : row ≡ new = cc in rw e
place-keeps (cons p j fs) row new i (n, a) h = elim (Bool-cases (ltb j (length row))) [
  | inl e ↦
      place-keeps fs (set row j p) new i a (rw e at h)
      ∙ get_elem?-set_ne row j i p (λ eq. n (sym eq))
  | inr e ↦ cc (rw e at h)
]

&&-intro : (a b : Bool) → a ≡ true → b ≡ true → (a && b) ≡ true
&&-intro a b p q = ground arith

-- If the placed row matches, so do the fields at their places.
place-matches :
    (fs : Fields) (row new : Row) (ws : Values)
    → IsFields fs
    → place_patterns fs row ≡ ok new
    → matches_row new ws ≡ true
    → matches_fields fs ws ≡ true
unfolding place_patterns matches IsPattern
place-matches nil row new ws f h m = refl
place-matches (cons p i fs) row new ws (ip, a, f) h m = elim (Bool-cases (ltb i (length row))) [
  | inl e ↦
      let h' = rw e at h in
      let at =
        place-keeps fs (set row i p) new i a h'
        ∙ get_elem?-set_self row i p (ltb→lt i (length row) e) in
      let (w, found, hit) = matches_row-at new ws i p m at in
      rw (found, hit) (place-matches fs (set row i p) new ws f h' m)
  | inr e ↦ cc (rw e at h)
]

and_assoc : (a b c : Bool) → (a && (b && c)) ≡ ((a && b) && c)
and_assoc a b c = ground arith

-- A row in two parts matches values in two parts.
matches_row-append :
    (ps qs : Row) (ws vs : Values)
    → length ps ≡ count ws
    → matches_row (ps ++ qs) (append ws vs) ≡ (matches_row ps ws && matches_row qs vs)
unfolding matches_row
matches_row-append [] qs none_left vs h = refl
matches_row-append [] qs (next w ws) vs h = absurd (omega arith)
matches_row-append (p ∷ ps) qs none_left vs h = absurd (omega arith)
matches_row-append (p ∷ ps) qs (next w ws) vs h =
    rw (matches_row-append ps qs ws vs (omega arith))
      (and_assoc (matches p w) (matches_row ps ws) (matches_row qs vs))

matches_row-split :
    (ps qs : Row) (ws vs : Values)
    → length ps ≡ count ws
    → matches_row (ps ++ qs) (append ws vs) ≡ true
    → (matches_row ps ws ≡ true) × (matches_row qs vs ≡ true)
matches_row-split ps qs ws vs long h =
    let both = rw (matches_row-append ps qs ws vs long) at h in
    (
      &&-left (matches_row ps ws) (matches_row qs vs) both,
      &&-right (matches_row ps ws) (matches_row qs vs) both,
    )

pub length-map : (ts : List Ty) → length (map wild ts) ≡ length ts
length-map [] = refl
length-map (t ∷ ts) = ap suc (length-map ts)

HasMatch-one :
    (row : Row) (new : List Row) (vs : Values)
    → ◌≡◌ {A = Outcome NoError (List Row)} (ok (row ∷ [])) (ok new)
    → HasMatch new vs
    → matches_row row vs ≡ true
HasMatch-one row new vs h m =
    let e : row ∷ [] ≡ new = cc in elim (rw (← e) at m) [ inl p ↦ p | inr n ↦ absurd n ]

HasMatch-none :
    (new : List Row) (vs : Values)
    → ◌≡◌ {A = Outcome NoError (List Row)} (ok []) (ok new)
    → ¬ HasMatch new vs
HasMatch-none new vs h m = let e : [] ≡ new = cc in rw (← e) at m

module _ (c : Constructor) (ts : List Ty) (ws vs : Values) (long : length ts ≡ count ws) where
  -- A row that `specialize` leaves for the constructor of the value, and that matches the fields of
  -- the value, comes from a row that matches the value.
  specialize_row-HasMatch :
      (row : Row) (new : List Row)
      → All IsPattern row
      → specialize_row c ts row ≡ ok new
      → HasMatch new (append ws vs)
      → matches_row row (next (con c ws) vs) ≡ true
  unfolding specialize_row matches_row matches IsPattern
  specialize_row-HasMatch [] new shape h m = absurd (HasMatch-none new (append ws vs) h m)
  specialize_row-HasMatch (pat t k fs ∷ row) new shape h m = elim (Bool-cases (ctor_eq k c)) [
    | inl e ↦
        let (placed, h₁, h₂) =
          >>=-eq-ok (place_patterns fs (map wild ts)) _ (rw (e, specialize_row) at h) in
        let (inside, behind) =
          matches_row-split placed row ws vs
            (length-place fs (map wild ts) placed h₁ ∙ length-map ts ∙ long)
            (HasMatch-one (placed ++ row) new (append ws vs) h₂ m) in
        let hit = place-matches fs (map wild ts) placed ws shape.0.1 h₁ inside in ground arith
    | inr e ↦ elim (Bool-cases (ctor_eq k wildcard)) [
      | inl w ↦
          let (inside, behind) = matches_row-split (map wild ts) row ws vs (length-map ts ∙ long) (
            HasMatch-one (map wild ts ++ row) new (append ws vs) (rw (e, w, specialize_row) at h)
              m) in
          ground arith
      | inr n ↦ absurd (HasMatch-none new (append ws vs) (rw (e, n, specialize_row) at h) m)
    ]
  ]

-- The rows that are left for the missing constructors match whatever the first value is.
specialize_row-missing :
    (row : Row) (new : List Row) (v : Value) (vs : Values)
    → All IsPattern row
    → specialize_row missing [] row ≡ ok new
    → HasMatch new vs
    → matches_row row (next v vs) ≡ true
unfolding specialize_row matches_row matches IsPattern
specialize_row-missing [] new v vs shape h m = absurd (HasMatch-none new vs h m)
specialize_row-missing (pat t k fs ∷ row) new (con d ws) vs shape h m =
    elim (Bool-cases (ctor_eq k wildcard)) [
      | inl w ↦
          let behind = HasMatch-one row new vs (rw (shape.0.0, w, specialize_row) at h) m in
          ground arith
      | inr n ↦ absurd (HasMatch-none new vs (rw (shape.0.0, n, specialize_row) at h) m)
    ]

HasMatch-append :
    (xs ys : List Row) (vs : Values) → HasMatch (xs ++ ys) vs → HasMatch xs vs ⊎ HasMatch ys vs
HasMatch-append [] ys vs h = inr h
HasMatch-append (x ∷ xs) ys vs (inl h) = inl (inl h)
HasMatch-append (x ∷ xs) ys vs (inr h) = elim (HasMatch-append xs ys vs h) [
  | inl m ↦ inl (inr m)
  | inr m ↦ inr m
]

-- Specialization to the constructor of a value keeps what matches it.
pub specialize-HasMatch :
    (c : Constructor) (ts : List Ty) (ws vs : Values) (k : ℕ) (matrix new : List Row)
    → length ts ≡ count ws
    → IsMatrix k matrix
    → specialize c ts matrix ≡ ok new
    → HasMatch new (append ws vs)
    → HasMatch matrix (next (con c ws) vs)
unfolding specialize
specialize-HasMatch c ts ws vs k [] new long shape h m =
    absurd (HasMatch-none new (append ws vs) h m)
specialize-HasMatch c ts ws vs k (row ∷ matrix) new long (sh, shape) h m =
    let (first, h₁, h₂) = >>=-eq-ok (specialize_row c ts row) _ h in
    let (rest, h₃, h₄) = >>=-eq-ok (specialize c ts matrix) _ h₂ in
    let e : first ++ rest ≡ new = cc in
    elim (HasMatch-append first rest (append ws vs) (rw (← e) at m)) [
      | inl hit ↦ inl (specialize_row-HasMatch c ts ws vs long row first sh.1 h₁ hit)
      | inr hit ↦ inr (specialize-HasMatch c ts ws vs k matrix rest long shape h₃ hit)
    ]

pub specialize-missing :
    (v : Value) (vs : Values) (k : ℕ) (matrix new : List Row)
    → IsMatrix k matrix
    → specialize missing [] matrix ≡ ok new
    → HasMatch new vs
    → HasMatch matrix (next v vs)
unfolding specialize
specialize-missing v vs k [] new shape h m = absurd (HasMatch-none new vs h m)
specialize-missing v vs k (row ∷ matrix) new (sh, shape) h m =
    let (first, h₁, h₂) = >>=-eq-ok (specialize_row missing [] row) _ h in
    let (rest, h₃, h₄) = >>=-eq-ok (specialize missing [] matrix) _ h₂ in
    let e : first ++ rest ≡ new = cc in
    elim (HasMatch-append first rest vs (rw (← e) at m)) [
      | inl hit ↦ inl (specialize_row-missing row first v vs sh.1 h₁ hit)
      | inr hit ↦ inr (specialize-missing v vs k matrix rest shape h₃ hit)
    ]
