-- ===== src/Types/Integer.antt =====
-- `IntegerSize` and `IntegerKind` of src/types/mod.rs, and the range check of
-- src/literal_check.rs.
use kli.Prelude.{ℕ, ◌-◌, ◌^◌, ◌<◌, ◌≡◌, Bool, true, false, arith, ltb, ◌↔◌}

pub data IntegerSize : Type 0 where
  int8 int32 int64 : IntegerSize

pub data IntegerKind : Type 0 where
  signed unsigned : IntegerSize → IntegerKind

unfoldable pub bit_width : IntegerSize → ℕ
bit_width int8 = 8
bit_width int32 = 32
bit_width int64 = 64

unfoldable pub signed_and_size : IntegerKind → Bool × IntegerSize
signed_and_size (signed size) = (true, size)
signed_and_size (unsigned size) = (false, size)

-- `max_value_scalar`; every maximum is positive.
unfoldable pub max_value_scalar : IntegerKind → ℕ
max_value_scalar (signed int64) = 0x7fff_ffff_ffff_ffff
max_value_scalar (signed int8) = 0x7f
max_value_scalar (signed int32) = 0x7fff_ffff
max_value_scalar (unsigned int8) = 0xff
max_value_scalar (unsigned int64) = 0xffff_ffff_ffff_ffff
max_value_scalar (unsigned int32) = 0xffff_ffff

-- `visit_lit` of the literal check: whether it reports the literal.
unfoldable pub literal_too_large : ℕ → IntegerKind → Bool
unfolding max_value_scalar
literal_too_large lit kind = ltb (max_value_scalar kind) lit

-- The number of values of the kind that are not negative: one bit of a signed kind is the sign.
unfoldable pub modulus : IntegerKind → ℕ
unfolding bit_width
modulus (signed size) = 2 ^ (bit_width size - 1)
modulus (unsigned size) = 2 ^ bit_width size

-- A literal passes the check exactly if the kind has it as a value: it lies below 2 to the number
-- of bits, less the sign's for a signed kind.
pub literal_check-exact :
    (lit : ℕ) (kind : IntegerKind) → (literal_too_large lit kind ≡ false) ↔ (lit < modulus kind)
unfolding literal_too_large modulus
literal_check-exact lit (signed int8) = ground arith
literal_check-exact lit (signed int32) = ground arith
literal_check-exact lit (signed int64) = ground arith
literal_check-exact lit (unsigned int8) = ground arith
literal_check-exact lit (unsigned int32) = ground arith
literal_check-exact lit (unsigned int64) = ground arith
