-- ===== src/Types/Cases.antt =====
-- The operations of `TypeDefInfo` and `Case` in src/collect/mod.rs: the cases and fields of a named
-- type, by their index or by their definition.
use Prim.Native.Nat.add
use kli.Prelude.{
  ℕ, suc, ◌+◌, ◌^◌, ◌≤◌, ◌<◌, ◌≡◌, refl, ◌∙◌, Option, none, some, List, [], ◌∷◌, ◌++◌, ◌==◌, ==_iff,
  arith, length, get_elem?, ltb, Bool-cases, inl, inr, if◌then◌else◌,
}
use kli.Prelude.Outcome.{Outcome, ok, panic, ◌>>=◌, >>=-eq-ok}
use kli.Types.{
  DefId, CaseId, Ty, Tys, tuple, from_list, Ctxt, Field, Case, TypeDefKind, record_def, variant_def,
  TypeDefInfo, TagType, tag_uint8, tag_uint64, tag_never, tag_type, field_type,
}
use kli.Types.Inhabited.{NoError}

abbrev expect {ℓ} : {A : Type ℓ} → Option A → Outcome NoError A
expect none = panic
expect (some a) = ok a

-- `expect_field` and `payload_type`: the payload of a case is a tuple of its field, if it has one.
unfoldable pub expect_field : Case → Outcome NoError Field
expect_field c = expect c.field

abbrev pub payload_fields : Option Field → List Field
payload_fields none = []
payload_fields (some f) = f ∷ []

unfoldable pub payload_type : Ctxt → Tys → Case → Ty
payload_type ctxt args c = tuple (from_list (map_fields (payload_fields c.field)))
  where
    map_fields : List Field → List Ty
    map_fields [] = []
    map_fields (f ∷ fs) = field_type ctxt args f ∷ map_fields fs

abbrev pub cases_of : TypeDefKind → Option (List Case)
cases_of (variant_def cs) = some cs
cases_of (record_def _) = none

-- `cases`, `expect_cases` and `fields`.
unfoldable pub cases : TypeDefInfo → Option (List Case)
cases info = cases_of info.kind

unfoldable pub expect_cases : TypeDefInfo → Outcome NoError (List Case)
expect_cases info = expect (cases_of info.kind)

abbrev pub fields_of_def : TypeDefKind → Outcome NoError (List Field)
fields_of_def (record_def fs) = ok fs
fields_of_def (variant_def _) = panic

unfoldable pub fields : TypeDefInfo → Outcome NoError (List Field)
fields info = fields_of_def info.kind

abbrev pub payloads_of : List Case → List Field
payloads_of [] = []
payloads_of (c ∷ cs) = payload_fields c.field ++ payloads_of cs

abbrev pub all_fields_of : TypeDefKind → List Field
all_fields_of (record_def fs) = fs
all_fields_of (variant_def cs) = payloads_of cs

-- `all_fields`.
unfoldable pub all_fields : TypeDefInfo → List Field
all_fields info = all_fields_of info.kind

-- `case_value`: a case id is a `u32` already.
unfoldable pub case_value : TypeDefInfo → CaseId → Outcome NoError (TagType × ℕ)
unfolding expect_cases
case_value info c = expect_cases info >>= λ cs. ok (tag_type cs, c)

-- `case`, which panics out of range.
unfoldable pub case_at : TypeDefInfo → CaseId → Outcome NoError Case
unfolding expect_cases
case_at info c = expect_cases info >>= λ cs. expect (get_elem? cs c)

-- The first of the cases with the definition, from the id `i` on.
unfoldable pub find_case_id : CaseId → DefId → List Case → Option (CaseId × Case)
find_case_id i id [] = none
find_case_id i id (c ∷ cs) = if c.id == id then some (i, c) else find_case_id (suc i) id cs

-- `case_with_id`.
unfoldable pub case_with_id : TypeDefInfo → DefId → Outcome NoError (CaseId × Case)
unfolding expect_cases find_case_id
case_with_id info id = expect_cases info >>= λ cs. expect (find_case_id 0 id cs)

-- One more than the greatest number that a tag of the type holds.
abbrev pub tag_bound : TagType → ℕ
tag_bound tag_uint8 = 2 ^ 8
tag_bound tag_uint64 = 2 ^ 64
tag_bound tag_never = 1

tag_type-fits :
    (cs : List Case) (c : ℕ) → c < length cs → length cs ≤ 2 ^ 32 → c < tag_bound (tag_type cs)
unfolding tag_type
tag_type-fits cs c inside few = elim (Bool-cases (ltb (length cs) 256)) [
  | inl e ↦ rw (e, tag_type) (ground arith)
  | inr e ↦ rw (e, tag_type) (omega arith)
]

-- The number that `case_value` gives a case fits the tag that it gives, for each case of a type of
-- at most 2 ^ 32 cases.
pub case_value-fits :
    (info : TypeDefInfo) (cs : List Case) (c : CaseId)
    → info.kind ≡ variant_def cs
    → c < length cs
    → length cs ≤ 2 ^ 32
    → (tag : TagType) × (n : ℕ) × (case_value info c ≡ ok (tag, n)) × (n < tag_bound tag)
unfolding case_value expect_cases
case_value-fits info cs c e inside few =
    (tag_type cs, c, rw (e, case_value, expect_cases) refl, tag_type-fits cs c inside few)

find_case_id-get :
    (i : CaseId) (id : DefId) (cs : List Case) (j : CaseId) (c : Case)
    → find_case_id i id cs ≡ some (j, c)
    → (k : ℕ) × (j ≡ i + k) × (get_elem? cs k ≡ some c) × (c.id ≡ id)
unfolding find_case_id
find_case_id-get i id [] j c h = cc
find_case_id-get i id (d ∷ cs) j c h = elim (Bool-cases (d.id == id)) [
  | inl e ↦
      let found : ◌≡◌ {A = Option (CaseId × Case)} (some (i, d)) (some (j, c)) = rw e at h in
      (0, omega (arith, first i d j c found), cc (found), cc (found, (==_iff d.id id).0 e))
  | inr e ↦
      let (k, at, got, same) = find_case_id-get (suc i) id cs j c (rw e at h) in
      (suc k, omega arith, got, same)
]
  where
    first :
        (i : ℕ) (d : Case) (j : ℕ) (c : Case)
        → ◌≡◌ {A = Option (CaseId × Case)} (some (i, d)) (some (j, c))
        → i ≡ j
    first i d j c h = cc

-- The case that `case_with_id` returns has that definition, and `case` finds it at the id returned.
pub case_with_id-found :
    (info : TypeDefInfo) (id : DefId) (i : CaseId) (c : Case)
    → case_with_id info id ≡ ok (i, c)
    → (case_at info i ≡ ok c) × (c.id ≡ id)
unfolding case_with_id case_at
case_with_id-found info id i c h =
    let (cs, h₁, h₂) = >>=-eq-ok (expect_cases info) _ h in
    let (k, at, got, same) =
      find_case_id-get 0 id cs i c (expect-some (find_case_id 0 id cs) (i, c) h₂) in
    let here : i ≡ k = at ∙ add.zero k in (rw (h₁, here, got) refl, same)
  where
    expect-some : {A : Type 0} (o : Option A) (a : A) → expect o ≡ ok a → o ≡ some a
    expect-some none a e = cc
    expect-some (some b) a e = cc
