-- ===== src/Patterns/Missing/Shape.antt =====
-- Specialization keeps a matrix rectangular, and its patterns of the kind that the conversion makes.
use kli.Prelude.{
  ℕ, suc, ◌+◌, ◌≡◌, refl, ◌∙◌, inl, inr, List, [], ◌∷◌, ◌++◌, map, arith, length, length-append,
  set, All, All-append, All-set, Bool-cases, ltb,
}
use kli.Prelude.Outcome.{ok, >>=-eq-ok}
use kli.Types.{Ty}
use kli.Patterns.Ctors.{Constructor, wildcard, ctor_eq}
use kli.Patterns.Pat.{pat, Fields, nil, cons, Row, wild, place_patterns, specialize_row, specialize}
use kli.Patterns.Values.{IsPattern, IsFields, IsMatrix}
use kli.Patterns.Missing.Rows.{length-place, length-map}

All-wild : (ts : List Ty) → All IsPattern (map wild ts)
unfolding IsPattern ctor_eq
All-wild [] = tt
All-wild (t ∷ ts) = ((refl, tt), All-wild ts)

place-All :
    (fs : Fields) (row new : Row)
    → IsFields fs
    → All IsPattern row
    → place_patterns fs row ≡ ok new
    → All IsPattern new
unfolding place_patterns IsPattern
place-All nil row new f a h = let e : row ≡ new = cc in rw (← e) a
place-All (cons p i fs) row new (ip, absent, f) a h = elim (Bool-cases (ltb i (length row))) [
  | inl e ↦ place-All fs (set row i p) new f (All-set IsPattern row i p ip a) (rw e at h)
  | inr e ↦ cc (rw e at h)
]

abbrev IsRow : ℕ → Row → Type 0
IsRow k row = (length row ≡ k) × All IsPattern row

IsRow-append : (j k : ℕ) (ps qs : Row) → IsRow j ps → IsRow k qs → IsRow (j + k) (ps ++ qs)
IsRow-append j k ps qs (l, a) (m, b) =
    (length-append ps qs ∙ rw (l, m), All-append IsPattern ps qs a b)

specialize_row-IsMatrix :
    (c : Constructor) (ts : List Ty) (k : ℕ) (row : Row) (new : List Row)
    → IsRow (suc k) row
    → specialize_row c ts row ≡ ok new
    → IsMatrix (length ts + k) new
unfolding specialize_row IsPattern
specialize_row-IsMatrix c ts k [] new shape h = absurd (omega (arith, shape.0))
specialize_row-IsMatrix c ts k (pat t d fs ∷ row) new (l, (p, a)) h =
    let behind : IsRow k row = (omega arith, a) in
    elim (Bool-cases (ctor_eq d c)) [
      | inl e ↦
          let (placed, h₁, h₂) =
            >>=-eq-ok (place_patterns fs (map wild ts)) _ (rw (e, specialize_row) at h) in
          let made : (placed ++ row) ∷ [] ≡ new = cc in
          rw (← made) (
            IsRow-append (length ts) k placed row
                (
                  length-place fs (map wild ts) placed h₁ ∙ length-map ts,
                  place-All fs (map wild ts) placed p.1 (All-wild ts) h₁,
                )
                behind,
            tt,
          )
      | inr e ↦ elim (Bool-cases (ctor_eq d wildcard)) [
        | inl w ↦
            let made : (map wild ts ++ row) ∷ [] ≡ new = cc (rw (e, w, specialize_row) at h) in
            rw (← made)
              (IsRow-append (length ts) k (map wild ts) row (length-map ts, All-wild ts) behind, tt)
        | inr n ↦ let made : [] ≡ new = cc (rw (e, n, specialize_row) at h) in rw (← made) tt
      ]
    ]

pub specialize-IsMatrix :
    (c : Constructor) (ts : List Ty) (k : ℕ) (matrix new : List Row)
    → IsMatrix (suc k) matrix
    → specialize c ts matrix ≡ ok new
    → IsMatrix (length ts + k) new
unfolding specialize
specialize-IsMatrix c ts k [] new shape h = let made : [] ≡ new = cc in rw (← made) tt
specialize-IsMatrix c ts k (row ∷ matrix) new (sh, shape) h =
    let (first, h₁, h₂) = >>=-eq-ok (specialize_row c ts row) _ h in
    let (rest, h₃, h₄) = >>=-eq-ok (specialize c ts matrix) _ h₂ in
    let made : first ++ rest ≡ new = cc in
    rw (← made) (
      All-append (IsRow (length ts + k)) first rest (specialize_row-IsMatrix c ts k row first sh h₁)
        (specialize-IsMatrix c ts k matrix rest shape h₃))
