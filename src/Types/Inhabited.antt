-- ===== src/Types/Inhabited.antt =====
-- `is_uninhabited` of src/types/mod.rs, on fuel: it looks through the definitions of the named
-- types that the context does not report as recursive.
use kli.Prelude.{ℕ, zero, suc, Bool, true, false, none, some, List, [], ◌∷◌, if◌then◌else◌}
use kli.Prelude.Outcome.{Outcome, ok, out_of_fuel, ◌>>=◌}
use kli.Types.{
  Ty, Tys, never, tuple, named, box, to_list, Ctxt, Case, TypeDefKind, record_def, variant_def,
  field_type,
}

-- The queries on types end in a value or a panic, with no error of their own.
pub data NoError : Type 0 where

-- `iter.any` and `iter.all`.
abbrev pub any_m {ℓ} : {A : Type ℓ} → (A → Outcome NoError Bool) → List A → Outcome NoError Bool
any_m f [] = ok false
any_m f (x ∷ xs) = f x >>= λ b. if b then ok true else any_m f xs

abbrev pub all_m {ℓ} : {A : Type ℓ} → (A → Outcome NoError Bool) → List A → Outcome NoError Bool
all_m f [] = ok true
all_m f (x ∷ xs) = f x >>= λ b. if b then all_m f xs else ok false

module _ (ctxt : Ctxt) (rec : Ty → Outcome NoError Bool) where
  abbrev pub case_uninhabited : Tys → Case → Outcome NoError Bool
  case_uninhabited args c = elim c.field [ some f ↦ rec (field_type ctxt args f) | none ↦ ok false ]

  abbrev pub def_uninhabited : Tys → TypeDefKind → Outcome NoError Bool
  def_uninhabited args (record_def fields) = any_m (λ f. rec (field_type ctxt args f)) fields
  def_uninhabited args (variant_def cases) = all_m (case_uninhabited args) cases

unfoldable pub is_uninhabited : Ctxt → ℕ → Ty → Outcome NoError Bool
is_uninhabited ctxt zero t = out_of_fuel
is_uninhabited ctxt (suc n) never = ok true
is_uninhabited ctxt (suc n) (tuple ts) = any_m (is_uninhabited ctxt n) (to_list ts)
is_uninhabited ctxt (suc n) (box t) = is_uninhabited ctxt n t
is_uninhabited ctxt (suc n) (named id _ args) =
    let inside = def_uninhabited ctxt (is_uninhabited ctxt n) args (ctxt.type_def id).kind in
    if ctxt.is_type_recursive id then ok false else inside
is_uninhabited ctxt (suc n) _ = ok false
