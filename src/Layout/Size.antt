-- ===== src/Layout/Size.antt =====
-- `Size` and `Align` of src/layout/mod.rs, with the panics of the checked `u64` arithmetic.
--
-- A `Size` is its number of bytes. An `Align` is the exponent that the source stores; it comes from
-- the constants or from `Align::from_bytes`, so it is below 64 and `2u64.pow` does not overflow.
use native.Mathlib.Nat.{mul-add-mod_self_right, mul-mod_left}
use kli.Prelude.{
  ℕ, ◌+◌, ◌-◌, ◌*◌, ◌/◌, ◌%◌, ◌^◌, ◌≤◌, ◌<◌, ◌≡◌, Option, none, some, arith, ltb, ◌==◌,
  if◌then◌else◌, Bool-cases, inl, inr, ==_iff,
}
use kli.Prelude.Arith.{IsMultiple, IsMultiple-of_mod, IsMultiple-next, IsMultiple-next_le, pow2_pos}
use kli.Prelude.Outcome.{Outcome, ok, panic}

abbrev pub Size : Type 0
Size = ℕ

abbrev pub Align : Type 0
Align = ℕ

pub data LayoutError : Type 0 where
  too_generic unknown too_big : LayoutError

abbrev pub u64_bound : ℕ
u64_bound = 2 ^ 64

-- `Size::from_bytes`.
unfoldable pub from_bytes : ℕ → Option Size
from_bytes bytes = if ltb (2 ^ 63 - 1) bytes then none else some bytes

-- `Size::from_bits`.
unfoldable pub from_bits : ℕ → Option Size
unfolding from_bytes
from_bits bits = from_bytes (bits / 8)

-- `Size::add`, on `u64::strict_add`.
unfoldable pub add : Size → Size → Outcome LayoutError Size
add a b = if ltb (a + b) u64_bound then ok (a + b) else panic

-- `Size::checked_mul` and `Size::mul`.
unfoldable pub checked_mul : Size → ℕ → Option Size
checked_mul a n = if ltb (a * n) u64_bound then some (a * n) else none

unfoldable pub mul : Size → ℕ → Outcome LayoutError Size
unfolding checked_mul
mul a n = elim (checked_mul a n) [ some s ↦ ok s | none ↦ panic ]

-- `Size::in_bits`.
unfoldable pub in_bits : Size → Outcome LayoutError ℕ
in_bits a = if ltb (a * 8) u64_bound then ok (a * 8) else panic

-- `Size::in_bytes_u32` and the other casts, which panic at the greatest number of their type.
abbrev pub below : ℕ → Size → Outcome LayoutError ℕ
below greatest a = if ltb a greatest then ok a else panic

unfoldable pub in_bytes_u32 : Size → Outcome LayoutError ℕ
in_bytes_u32 a = below (2 ^ 32 - 1) a

unfoldable pub in_bytes_i32 : Size → Outcome LayoutError ℕ
in_bytes_i32 a = below (2 ^ 31 - 1) a

unfoldable pub in_bytes_i64 : Size → Outcome LayoutError ℕ
in_bytes_i64 a = below (2 ^ 63 - 1) a

-- On a machine with words of 64 bits.
unfoldable pub in_bytes_usize : Size → Outcome LayoutError ℕ
in_bytes_usize a = below (2 ^ 64 - 1) a

-- `Align::in_bytes`.
abbrev pub in_bytes : Align → ℕ
in_bytes a = 2 ^ a

-- `u64::next_multiple_of`, which adds what the remainder lacks and panics on overflow.
unfoldable pub next_multiple_of : ℕ → ℕ → Outcome LayoutError ℕ
next_multiple_of s m =
    if s % m == 0
    then ok s
    else if ltb (s + (m - s % m)) u64_bound
    then ok (s + (m - s % m))
    else panic

-- `Size::align_to`.
unfoldable pub align_to : Size → Align → Outcome LayoutError Size
unfolding next_multiple_of
align_to s a = if s % in_bytes a == 0 then ok s else next_multiple_of s (in_bytes a)

-- The least multiple of the alignment that is no smaller than the size: what `align_to` returns
-- where it does not panic.
abbrev pub round_up : Size → Align → Size
round_up s a = if s % in_bytes a == 0 then s else s + (in_bytes a - s % in_bytes a)

pub round_up-IsMultiple : (s : Size) (a : Align) → IsMultiple (in_bytes a) (round_up s a)
round_up-IsMultiple s a = elim (Bool-cases (s % in_bytes a == 0)) [
  | inl even ↦ rw even (IsMultiple-of_mod (in_bytes a) s ((==_iff _ _).0 even))
  | inr odd ↦ rw odd (IsMultiple-next (in_bytes a) s (pow2_pos a))
]

pub le-round_up : (s : Size) (a : Align) → s ≤ round_up s a
le-round_up s a = ground arith

pub round_up-lt : (s : Size) (a : Align) → round_up s a < s + in_bytes a
round_up-lt s a = ground (arith, pow2_pos a)

pub round_up-least :
    (s : Size) (a : Align) (t : Size) → IsMultiple (in_bytes a) t → s ≤ t → round_up s a ≤ t
round_up-least s a t mt h = elim (Bool-cases (s % in_bytes a == 0)) [
  | inl even ↦ rw even h
  | inr odd ↦ rw odd (IsMultiple-next_le (in_bytes a) s t (pow2_pos a) (λ e. ground arith) mt h)
]

pub align_to-eq_ok : (s : Size) (a : Align) {r : Size} → align_to s a ≡ ok r → r ≡ round_up s a
unfolding align_to
align_to-eq_ok s a h = ground arith

pub add-eq_ok : (a b : Size) {r : Size} → add a b ≡ ok r → r ≡ a + b
unfolding add
add-eq_ok a b h = ground arith

pub align_to-ok :
    (s : Size) (a : Align) → round_up s a < u64_bound → align_to s a ≡ ok (round_up s a)
unfolding align_to
align_to-ok s a h = ground arith

pub align_to-at :
    (s : Size) (a : Align) (r : Size) → round_up s a ≡ r → r < u64_bound → align_to s a ≡ ok r
unfolding align_to
align_to-at s a r e h = ground arith

pub add-ok : (a b : Size) → a + b < u64_bound → add a b ≡ ok (a + b)
unfolding add
add-ok a b h = ground arith

pub round_up_at_multiple :
    (o s : Size) (a : Align) → IsMultiple (in_bytes a) o → round_up (o + s) a ≡ o + round_up s a
round_up_at_multiple o s a (k, e) =
    let m : (o + s) % in_bytes a ≡ s % in_bytes a =
      rw e (mul-add-mod_self_right k (in_bytes a) s) in
    ground (arith, m)

pub round_up_multiple : (o : Size) (a : Align) → IsMultiple (in_bytes a) o → round_up o a ≡ o
round_up_multiple o a (k, e) =
    let m : o % in_bytes a ≡ 0 = rw e (mul-mod_left k (in_bytes a)) in ground (arith, m)

-- Aligning a size that does not come near the end of the address space returns the least multiple
-- of the alignment at or above it.
pub align_to-least :
    (s : Size) (a : Align)
    → s + in_bytes a ≤ u64_bound
    → (r : Size) × (align_to s a ≡ ok r)
      × IsMultiple (in_bytes a) r
      × (s ≤ r)
      × ((t : ℕ) → IsMultiple (in_bytes a) t → s ≤ t → r ≤ t)
align_to-least s a h = (
  round_up s a,
  align_to-ok s a (omega (arith, round_up-lt s a)),
  round_up-IsMultiple s a,
  le-round_up s a,
  λ t mt st. round_up-least s a t mt st,
)
