-- ===== src/Patterns/Convert.antt =====
-- src/patterns/convert.rs: the patterns of the typed program as the patterns of the check.
use kli.Prelude.{ℕ, Bool}
use kli.Types.{Symbol, Ty}
use kli.Patterns.Ctors.{Constructor, wildcard, record_ctor}
use kli.Patterns.Pat.{Pat, pat, Fields}

-- `Pattern` and `PatternKind` of src/typed_ast.rs, with what the conversion reads: of a case the name
-- that `expect_ident` gives its definition, and of a binding nothing.
mutual
  pub data Pattern : Type 0 where
    pattern_of : Ty → PatternKind → Pattern

  pub data PatternKind : Type 0 where
    err : PatternKind
    unit : PatternKind
    int : ℕ → PatternKind
    bool : Bool → PatternKind
    char : ℕ → PatternKind
    bare_case : Symbol → PatternKind
    case : Symbol → Pattern → PatternKind
    binding : PatternKind
    record_pat : PatternFields → PatternKind

  pub data PatternFields : Type 0 where
    no_fields : PatternFields
    pattern_field : ℕ → Pattern → PatternFields → PatternFields

unfoldable mutual
  pub pattern_to_pat : Pattern → Pat
  pattern_to_pat (pattern_of t k) = kind_to_pat t k

  pub kind_to_pat : Ty → PatternKind → Pat
  kind_to_pat t (int n) = pat t (Constructor.int n) Fields.nil
  kind_to_pat t unit = pat t record_ctor Fields.nil
  kind_to_pat t (char c) = pat t (Constructor.char c) Fields.nil
  kind_to_pat t (record_pat fs) = pat t record_ctor (fields_to_pats fs)
  kind_to_pat t (bool b) = pat t (Constructor.bool b) Fields.nil
  kind_to_pat t (bare_case name) = pat t (Constructor.case name) Fields.nil
  kind_to_pat t (case name inner) =
      pat t (Constructor.case name) (Fields.cons (pattern_to_pat inner) 0 Fields.nil)
  kind_to_pat t binding = pat t wildcard Fields.nil
  kind_to_pat t err = pat t wildcard Fields.nil

  pub fields_to_pats : PatternFields → Fields
  fields_to_pats no_fields = Fields.nil
  fields_to_pats (pattern_field i p fs) = Fields.cons (pattern_to_pat p) i (fields_to_pats fs)
