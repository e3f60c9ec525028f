-- ===== src/Patterns/Visit.antt =====
-- `check_patterns` of src/patterns/visit.rs: what it reports, and that a list of patterns which
-- passes covers the type.
use kli.Prelude.{ℕ, ◌≢◌, refl, true, false, List, map}
use kli.Prelude.Outcome.{Outcome}
use kli.Types.{DefId, Ty, Ctxt}
use kli.Types.Inhabited.{NoError}
use kli.Patterns.Ctors.{ctor_eq}
use kli.Patterns.Pat.{Pat}
use kli.Patterns.Missing.{missing_patterns}
use kli.Patterns.Convert.{
  Pattern, pattern_of, PatternKind, PatternFields, no_fields, pattern_field, record_pat, bare_case,
  binding, unit, pattern_to_pat, kind_to_pat, fields_to_pats,
}
use kli.Patterns.Values.{IsPattern, IsFields, IsAbsent}

-- The patterns that `check_patterns` reports, each in one diagnostic.
unfoldable pub check_patterns : Ctxt → DefId → ℕ → Ty → List Pattern → Outcome NoError (List Pat)
unfolding missing_patterns pattern_to_pat
check_patterns ctxt id fuel t patterns =
    missing_patterns ctxt id fuel t (map pattern_to_pat patterns)

-- No record pattern names a field twice: src/typecheck/pattern.rs reports a repeated field and leaves
-- it out.
abbrev pub IsFree : ℕ → PatternFields → Type 0
IsFree i no_fields = Unit
IsFree i (pattern_field j _ fs) = (i ≢ j) × IsFree i fs

unfoldable mutual
  pub IsLinear : Pattern → Type 0
  IsLinear (pattern_of _ k) = IsLinearKind k

  pub IsLinearKind : PatternKind → Type 0
  IsLinearKind (PatternKind.case _ p) = IsLinear p
  IsLinearKind (record_pat fs) = IsLinearFields fs
  IsLinearKind _ = Unit

  pub IsLinearFields : PatternFields → Type 0
  IsLinearFields no_fields = Unit
  IsLinearFields (pattern_field i p fs) = IsLinear p × IsFree i fs × IsLinearFields fs

mutual
  unfolding IsLinear IsPattern pattern_to_pat ctor_eq

  IsAbsent-convert : (fs : PatternFields) (i : ℕ) → IsFree i fs → IsAbsent i (fields_to_pats fs)
  IsAbsent-convert no_fields i h = tt
  IsAbsent-convert (pattern_field j p fs) i h = (h.0, IsAbsent-convert fs i h.1)

mutual
  unfolding IsLinear IsPattern pattern_to_pat ctor_eq

  convert-IsPattern : (p : Pattern) → IsLinear p → IsPattern (pattern_to_pat p)
  convert-IsPattern (pattern_of t k) h = kind-IsPattern k t h

  kind-IsPattern : (k : PatternKind) (t : Ty) → IsLinearKind k → IsPattern (kind_to_pat t k)
  kind-IsPattern (PatternKind.int n) t h = (refl, tt)
  kind-IsPattern unit t h = (refl, tt)
  kind-IsPattern (PatternKind.char c) t h = (refl, tt)
  kind-IsPattern (record_pat fs) t h = (refl, IsFields-convert fs h)
  kind-IsPattern (PatternKind.bool true) t h = (refl, tt)
  kind-IsPattern (PatternKind.bool false) t h = (refl, tt)
  kind-IsPattern (bare_case name) t h = (refl, tt)
  kind-IsPattern (PatternKind.case name p) t h = (refl, (convert-IsPattern p h, tt, tt))
  kind-IsPattern binding t h = (refl, tt)
  kind-IsPattern PatternKind.err t h = (refl, tt)

  IsFields-convert : (fs : PatternFields) → IsLinearFields fs → IsFields (fields_to_pats fs)
  IsFields-convert no_fields h = tt
  IsFields-convert (pattern_field i p fs) h =
      (convert-IsPattern p h.0, IsAbsent-convert fs i h.1, IsFields-convert fs h.2)
