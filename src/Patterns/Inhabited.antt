-- ===== src/Patterns/Inhabited.antt =====
-- A type that `is_uninhabited` reports has no value.
use kli.Prelude.{
  ℕ, zero, suc, ◌≡◌, inl, inr, Bool, true, false, some, List, [], ◌∷◌, map, ◌==◌, Bool-cases,
  Option-cases, refl,
}
use kli.Prelude.Outcome.{Outcome, ok, >>=-eq-ok}
use kli.Types.{Symbol, Ty, Tys, to_list, Ctxt, Field, Case, field_type}
use kli.Types.Inhabited.{NoError, any_m, all_m, case_uninhabited, is_uninhabited}
use kli.Patterns.Ctors.{find_case, payload_types}
use kli.Patterns.Values.{
  Value, Values, HasType, bool_value, atom, boxed, tuple_value, record_value, case_value, HasTypes,
  more, IsAtomic,
}

module _ (ctxt : Ctxt) (rec : Ty → Outcome NoError Bool)
    (sound : (t : Ty) (v : Value) → rec t ≡ ok true → ¬ HasType ctxt t v) where
  any_sound : (ts : List Ty) (ws : Values) → any_m rec ts ≡ ok true → ¬ HasTypes ctxt ts ws
  any_sound [] ws h w = cc
  any_sound (t ∷ ts) ws h (more {v} w rest) =
      let (b, h₁, h₂) = >>=-eq-ok (rec t) _ h in
      elim (Bool-cases b) [
        | inl e ↦ sound t v (rw e at h₁) w
        | inr e ↦ any_sound ts _ (rw e at h₂) rest
      ]

  pub any_fields_sound :
      (args : Tys) (fs : List Field) (ws : Values)
      → any_m (λ f. rec (field_type ctxt args f)) fs ≡ ok true
      → ¬ HasTypes ctxt (map (field_type ctxt args) fs) ws
  any_fields_sound args [] ws h w = cc
  any_fields_sound args (f ∷ fs) ws h (more {v} w rest) =
      let (b, h₁, h₂) = >>=-eq-ok (rec (field_type ctxt args f)) _ h in
      elim (Bool-cases b) [
        | inl e ↦ sound (field_type ctxt args f) v (rw e at h₁) w
        | inr e ↦ any_fields_sound args fs _ (rw e at h₂) rest
      ]

  all_cases_sound :
      (args : Tys) (cs : List Case) (name : Symbol) (c : Case)
      → all_m (case_uninhabited ctxt rec args) cs ≡ ok true
      → find_case name cs ≡ some c
      → case_uninhabited ctxt rec args c ≡ ok true
  all_cases_sound args [] name c h found = cc
  all_cases_sound args (d ∷ cs) name c h found =
      let (b, h₁, h₂) = >>=-eq-ok (case_uninhabited ctxt rec args d) _ h in
      elim (Bool-cases b) [
        | inl e ↦ elim (Bool-cases (d.name == name)) [
          | inl same ↦ let it : d ≡ c = cc (rw same at found) in rw it at (rw e at h₁)
          | inr other ↦ all_cases_sound args cs name c (rw e at h₂) (rw other at found)
        ]
        | inr e ↦ cc (rw e at h₂)
      ]

  pub one_sound : (t : Ty) (ws : Values) → rec t ≡ ok true → ¬ HasTypes ctxt (t ∷ []) ws
  one_sound t ws h (more {v} w rest) = sound t v h w

  pub payload_sound :
      (args : Tys) (c : Case) (ws : Values)
      → case_uninhabited ctxt rec args c ≡ ok true
      → ¬ HasTypes ctxt (payload_types ctxt args c) ws
  payload_sound args c ws h w = elim (Option-cases c.field) [
    | inl e ↦ cc (rw e at h)
    | inr (f, e) ↦ one_sound (field_type ctxt args f) ws (rw e at h) (rw e at w)
  ]

-- The atomic types are never reported.
atomic-inhabited :
    (ctxt : Ctxt) (n : ℕ) (t : Ty) → IsAtomic t → is_uninhabited ctxt (suc n) t ≡ ok false
unfolding is_uninhabited
atomic-inhabited ctxt n (Ty.int _) a = refl
atomic-inhabited ctxt n (Ty.int_var _) a = refl
atomic-inhabited ctxt n Ty.char a = refl
atomic-inhabited ctxt n Ty.unknown a = refl
atomic-inhabited ctxt n (Ty.param _ _) a = refl
atomic-inhabited ctxt n (Ty.function _ _) a = refl
atomic-inhabited ctxt n (Ty.array _) a = refl
atomic-inhabited ctxt n Ty.string a = refl
atomic-inhabited ctxt n (Ty.uninit _) a = refl
atomic-inhabited ctxt n (Ty.raw_ptr _) a = refl
atomic-inhabited ctxt n _ a = absurd a

-- By the fuel: a type that is reported has no value.
pub is_uninhabited_sound :
    (ctxt : Ctxt) (fuel : ℕ) (t : Ty) (v : Value)
    → is_uninhabited ctxt fuel t ≡ ok true
    → ¬ HasType ctxt t v
unfolding is_uninhabited
is_uninhabited_sound ctxt zero t v h w = cc
is_uninhabited_sound ctxt (suc n) t v h (bool_value b) = cc
is_uninhabited_sound ctxt (suc n) t v h (atom _ d a ne) = cc (atomic-inhabited ctxt n t a)
is_uninhabited_sound ctxt (suc n) t v h (boxed {t = s} {v = u} w) =
    is_uninhabited_sound ctxt n s u h w
is_uninhabited_sound ctxt (suc n) t v h (tuple_value {ts} {ws} w) =
    any_sound ctxt (is_uninhabited ctxt n) (is_uninhabited_sound ctxt n) (to_list ts) ws h w
is_uninhabited_sound ctxt (suc n) t v h (record_value {id} {args} {ws} fs e w) =
    elim (Bool-cases (ctxt.is_type_recursive id)) [
      | inl r ↦ cc (rw r at h)
      | inr r ↦
          any_fields_sound ctxt (is_uninhabited ctxt n) (is_uninhabited_sound ctxt n) args fs ws
            (rw (r, e) at h) w
    ]
is_uninhabited_sound ctxt (suc n) t v h (case_value {id} {args} {ws} cs c name e found w) =
    elim (Bool-cases (ctxt.is_type_recursive id)) [
      | inl r ↦ cc (rw r at h)
      | inr r ↦
          let it =
            all_cases_sound ctxt (is_uninhabited ctxt n) (is_uninhabited_sound ctxt n) args cs name
              c (rw (r, e) at h) found in
          payload_sound ctxt (is_uninhabited ctxt n) (is_uninhabited_sound ctxt n) args c ws it w
    ]
