-- ===== src/Patterns/Covered.antt =====
-- The constructor of a value is one of those that `split_constructors` lists, or something is missing.
use kli.Prelude.{
  ℕ, ◌≡◌, ◌≢◌, ◌⊎◌, inl, inr, refl, ap, true, false, not, ◌&&◌, some, List, [], ◌∷◌, map, ◌==◌,
  ==_iff, Bool-cases, In, if◌then◌else◌,
}
use kli.Prelude.Outcome.{ok, >>=-eq-ok}
use kli.Types.{
  Symbol, DefId, Ty, Tys, named, Ctxt, Field, Case, TypeDefKind, record_def, variant_def,
  field_type,
}
use kli.Types.Inhabited.{any_m, case_uninhabited, is_uninhabited}
use kli.Patterns.Ctors.{
  Constructor, record_ctor, case, ConstructorSet, bools, open_set, record_set, cases,
  inhabited_cases, def_constructors, constructors_of_ty, find_case, payload_types,
}
use kli.Patterns.Pat.{contains, all_constructors, partition, split_constructors}
use kli.Patterns.Values.{
  Value, Values, head_of, HasType, bool_value, atom, boxed, tuple_value, record_value, case_value,
  HasTypes, IsAtomic,
}
use kli.Patterns.Inhabited.{is_uninhabited_sound, any_fields_sound, payload_sound}

pub partition-In :
    (seen cs : List Constructor) (d : Constructor)
    → In d cs
    → In d (partition seen cs).0 ⊎ ((partition seen cs).1 ≢ [])
unfolding partition
partition-In seen [] d i = elim i [ ]
partition-In seen (c ∷ cs) d i = elim (Bool-cases (contains seen c)) [
  | inl e ↦
      rw (e, partition)
        (elim i [
          | inl same ↦ inl (inl same)
          | inr there ↦ elim (partition-In seen cs d there) [ inl p ↦ inl (inr p) | inr a ↦ inr a ]
        ])
  | inr e ↦ rw (e, partition) (inr (λ eq. cc))
]

-- The values of a set: one of its constructors, or any if it cannot be listed.
abbrev pub Listed : ConstructorSet → Constructor → Type 0
Listed open_set d = Unit
Listed s d = In d (all_constructors s)

pub split-In :
    (s : ConstructorSet) (seen : List Constructor) (d : Constructor)
    → Listed s d
    → In d (split_constructors s seen).0 ⊎ ((split_constructors s seen).1 ≢ [])
unfolding split_constructors
split-In open_set seen d i = inr (λ eq. cc)
split-In bools seen d i = partition-In seen (all_constructors bools) d i
split-In ConstructorSet.never seen d i =
    partition-In seen (all_constructors ConstructorSet.never) d i
split-In record_set seen d i = partition-In seen (all_constructors record_set) d i
split-In (cases names) seen d i = partition-In seen (all_constructors (cases names)) d i

module _ (ctxt : Ctxt) (fuel : ℕ) where
  -- A case with a value is among the names that are listed.
  inhabited_cases-In :
      (args : Tys) (cs : List Case) (name : Symbol) (c : Case) (ws : Values) (names : List Symbol)
      → inhabited_cases ctxt fuel args cs ≡ ok names
      → find_case name cs ≡ some c
      → HasTypes ctxt (payload_types ctxt args c) ws
      → In (case name) (map case names)
  unfolding inhabited_cases
  inhabited_cases-In args [] name c ws names h found w = cc
  inhabited_cases-In args (d ∷ cs) name c ws names h found w =
      let (empty, h₁, h₂) =
        >>=-eq-ok (case_uninhabited ctxt (is_uninhabited ctxt fuel) args d) _ h in
      let (rest, h₃, h₄) = >>=-eq-ok (inhabited_cases ctxt fuel args cs) _ h₂ in
      let made : (if empty then rest else d.name ∷ rest) ≡ names = cc in
      elim (Bool-cases (d.name == name)) [
        | inl same ↦
            let it : d ≡ c = cc (rw same at found) in
            elim (Bool-cases empty) [
              | inl e ↦ absurd (
                  payload_sound ctxt (is_uninhabited ctxt fuel) (is_uninhabited_sound ctxt fuel)
                    args c ws (rw (it, e) at h₁) w)
              | inr e ↦ rw (← made, e) (inl (ap case ((==_iff d.name name).0 same)))
            ]
        | inr other ↦
            let there = inhabited_cases-In args cs name c ws rest h₃ (rw other at found) w in
            elim (Bool-cases empty) [
              | inl e ↦ rw (← made, e) there
              | inr e ↦ rw (← made, e) (inr there)
            ]
      ]

  -- What a value of a named type is made of, in the terms of the check.
  def-covers :
      (args : Tys) (def : TypeDefKind) (s : ConstructorSet) (d : Constructor) (ws : Values)
      → def_constructors ctxt fuel args def ≡ ok s
      → ((fs : List Field) × (def ≡ record_def fs)
          × (d ≡ record_ctor)
          × HasTypes ctxt (map (field_type ctxt args) fs) ws)
        ⊎ ((cs : List Case) × (c : Case) × (name : Symbol) × (def ≡ variant_def cs)
            × (find_case name cs ≡ some c)
            × (d ≡ case name)
            × HasTypes ctxt (payload_types ctxt args c) ws)
      → Listed s d
  unfolding def_constructors
  def-covers args def s d ws h (inl (fs, e, ed, w)) =
      let (empty, h₁, h₂) =
        >>=-eq-ok (any_m (λ f. is_uninhabited ctxt fuel (field_type ctxt args f)) fs) _
          (rw (e, def_constructors) at h) in
      elim (Bool-cases empty) [
        | inl bad ↦ absurd (
            any_fields_sound ctxt (is_uninhabited ctxt fuel) (is_uninhabited_sound ctxt fuel) args
              fs ws (rw bad at h₁) w)
        | inr good ↦ let made : record_set ≡ s = cc (rw good at h₂) in rw (← made, ed) (inl refl)
      ]
  def-covers args def s d ws h (inr (cs, c, name, e, found, ed, w)) =
      let (names, h₁, h₂) =
        >>=-eq-ok (inhabited_cases ctxt fuel args cs) _ (rw (e, def_constructors) at h) in
      let made : cases names ≡ s = cc in
      rw (← made, ed) (inhabited_cases-In args cs name c ws names h₁ found w)

  named-covers :
      (from id : DefId) (name : Symbol) (args : Tys) (s : ConstructorSet) (d : Constructor)
      → constructors_of_ty ctxt fuel from (named id name args) ≡ ok s
      → ((s' : ConstructorSet)
          → def_constructors ctxt fuel args (ctxt.type_def id).kind ≡ ok s'
          → Listed s' d)
      → Listed s d
  unfolding constructors_of_ty
  named-covers from id name args s d h inside =
      elim (Bool-cases (not (ctxt.same_module id from) && ctxt.is_opaque id)) [
        | inl e ↦ let made : open_set ≡ s = cc (rw e at h) in rw (← made) tt
        | inr e ↦ inside s (rw e at h)
      ]

  atomic-open :
      (from : DefId) (t : Ty) → IsAtomic t → constructors_of_ty ctxt fuel from t ≡ ok open_set
  unfolding constructors_of_ty
  atomic-open from (Ty.int _) a = refl
  atomic-open from (Ty.int_var _) a = refl
  atomic-open from Ty.char a = refl
  atomic-open from Ty.unknown a = refl
  atomic-open from (Ty.param _ _) a = refl
  atomic-open from (Ty.function _ _) a = refl
  atomic-open from (Ty.array _) a = refl
  atomic-open from Ty.string a = refl
  atomic-open from (Ty.uninit _) a = refl
  atomic-open from (Ty.raw_ptr _) a = refl
  atomic-open from _ a = absurd a

  -- Every value of the type has a constructor of the set that the type is said to have.
  pub constructors_of_ty-covers :
      (from : DefId) (t : Ty) (v : Value) (s : ConstructorSet)
      → constructors_of_ty ctxt fuel from t ≡ ok s
      → HasType ctxt t v
      → Listed s (head_of v)
  unfolding constructors_of_ty
  constructors_of_ty-covers from t v s h (bool_value true) =
      let made : bools ≡ s = cc in rw (← made) (inl refl)
  constructors_of_ty-covers from t v s h (bool_value false) =
      let made : bools ≡ s = cc in rw (← made) (inr (inl refl))
  constructors_of_ty-covers from t v s h (atom _ d a n) =
      let made : open_set ≡ s = cc (atomic-open from t a) in rw (← made) tt
  constructors_of_ty-covers from t v s h (boxed w) = let made : open_set ≡ s = cc in rw (← made) tt
  constructors_of_ty-covers from t v s h (tuple_value w) =
      let made : record_set ≡ s = cc in rw (← made) (inl refl)
  constructors_of_ty-covers from t v s h (record_value {id} {name} {args} {ws} fs e w) =
      named-covers from id name args s record_ctor h (λ s' h'.
        def-covers args (ctxt.type_def id).kind s' record_ctor ws h' (inl (fs, e, refl, w)))
  constructors_of_ty-covers from t v s h (case_value {id} {name} {args} {ws} cs c label e found w) =
      named-covers from id name args s (case label) h (λ s' h'.
        def-covers args (ctxt.type_def id).kind s' (case label) ws h'
          (inr (cs, c, label, e, found, refl, w)))
