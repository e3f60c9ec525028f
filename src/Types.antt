-- ===== src/Types.antt =====
-- src/types/mod.rs and src/scheme.rs: the types of the language as the compiler holds them, the
-- integer kinds and their ranges, and the substitution of generic arguments; from
-- src/collect/mod.rs the definitions of named types and the queries on them.
--
-- A `Symbol`, a `DefId` and a `FieldId` are the numbers that the source wraps. Interning gives a
-- type one address; the model compares by structure, as the derived `Eq` of `TypeKind` does.
pub mod Integer
pub mod Inhabited
pub mod Cases
mod Tests
use kli.Prelude.{ℕ, Bool, Option, none, some, List, [], ◌∷◌, ltb, if◌then◌else◌, length, get_elem?}
use Integer.{IntegerKind}

abbrev pub Symbol : Type 0
Symbol = ℕ

abbrev pub DefId : Type 0
DefId = ℕ

abbrev pub FieldId : Type 0
FieldId = ℕ

abbrev pub CaseId : Type 0
CaseId = ℕ

-- `TypeKind`. A generic argument is a type, so `GenericArgs` is a list of types.
mutual
  pub data Ty : Type 0 where
    infer : ℕ → Ty
    unknown : Ty
    int : IntegerKind → Ty
    int_var : ℕ → Ty
    bool : Ty
    char : Ty
    never : Ty
    param : Symbol → ℕ → Ty
    function : Tys → Ty → Ty
    tuple : Tys → Ty
    array : Ty → Ty
    named : DefId → Symbol → Tys → Ty
    string : Ty
    box : Ty → Ty
    uninit : Ty → Ty
    raw_ptr : Ty → Ty

  pub data Tys : Type 0 where
    nil : Tys
    cons : Ty → Tys → Tys

abbrev pub to_list : Tys → List Ty
to_list nil = []
to_list (cons t ts) = t ∷ to_list ts

abbrev pub from_list : List Ty → Tys
from_list [] = nil
from_list (t ∷ ts) = cons t (from_list ts)

-- `collect::Field`, `collect::Case`, `TypeDefKind` and `TypeDefInfo`.
pub record Field : Type 0 where
  pub id : DefId
  pub name : Symbol

pub record Case : Type 0 where
  pub id : DefId
  pub name : Symbol
  pub field : Option Field

pub data TypeDefKind : Type 0 where
  record_def : List Field → TypeDefKind
  variant_def : List Case → TypeDefKind

pub record TypeDefInfo : Type 0 where
  pub name : Symbol
  pub kind : TypeDefKind

pub data TagType : Type 0 where
  tag_uint8 tag_uint64 tag_never : TagType

-- The answers of the global context to the queries of this development: the lowered definition of
-- a named type, the declared type of a field (its `Scheme`), whether two definitions stand in one
-- module, whether a type is annotated opaque, and whether it is recursive.
pub record Ctxt : Type 0 where
  pub type_def : DefId → TypeDefInfo
  pub type_of : DefId → Ty
  pub same_module : DefId → DefId → Bool
  pub is_opaque : DefId → Bool
  pub is_type_recursive : DefId → Bool

-- `TypeDefInfo::tag_type`, at the cases that `expect_cases` found.
unfoldable pub tag_type : List Case → TagType
tag_type cases = if ltb (length cases) 256 then tag_uint8 else tag_uint64

-- `Scheme::bind`: each parameter is replaced by the generic argument at its index, or by the
-- unknown type where there is none.
unfoldable mutual
  pub bind : List Ty → Ty → Ty
  bind args (infer n) = infer n
  bind args unknown = unknown
  bind args (int k) = int k
  bind args (int_var n) = int_var n
  bind args bool = bool
  bind args char = char
  bind args never = never
  bind args (param name index) = elim (get_elem? args index) [ some t ↦ t | none ↦ unknown ]
  bind args (function ps r) = function (bind_all args ps) (bind args r)
  bind args (tuple ts) = tuple (bind_all args ts)
  bind args (array t) = array (bind args t)
  bind args (named id name ts) = named id name (bind_all args ts)
  bind args string = string
  bind args (box t) = box (bind args t)
  bind args (uninit t) = uninit (bind args t)
  bind args (raw_ptr t) = raw_ptr (bind args t)

  pub bind_all : List Ty → Tys → Tys
  bind_all args nil = nil
  bind_all args (cons t ts) = cons (bind args t) (bind_all args ts)

-- `Field::type_of`.
abbrev pub field_type : Ctxt → Tys → Field → Ty
field_type ctxt args f = bind (to_list args) (ctxt.type_of f.id)
