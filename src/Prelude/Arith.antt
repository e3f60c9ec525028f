-- ===== src/Prelude/Arith.antt =====
-- Multiples and powers of two.
use native.Mathlib.Nat.{
  div-add-mod, div-add-mod', pow-suc, mod-lt, lt_of_mul-lt-mul_right, mul-le-mul_right,
}
use Prim.Native.Nat.{ℕ, zero, suc, ◌+◌, ◌-◌, ◌*◌, ◌/◌, ◌%◌, ◌^◌, ◌≤◌, ◌<◌}
use mathlib.Core.Path.{◌≡◌, ap}
use mathlib.Core.Logic.{◌≢◌}
use native.Mathlib.Omega.{arith}

-- `s` is a multiple of `m`.
abbrev pub IsMultiple : ℕ → ℕ → Type 0
IsMultiple m s = (k : ℕ) × (s ≡ k * m)

pub IsMultiple-of_mod : (m s : ℕ) → s % m ≡ 0 → IsMultiple m s
IsMultiple-of_mod m s h = (s / m, omega (arith, div-add-mod s m))

pub IsMultiple-next : (m s : ℕ) → 0 < m → IsMultiple m (s + (m - s % m))
IsMultiple-next m s h = (s / m + 1, omega (arith, div-add-mod s m, mod-lt s h))

pub pow2_pos : (a : ℕ) → 0 < 2 ^ a
pow2_pos zero = omega arith
pow2_pos (suc a) = rw pow-suc (omega (arith, pow2_pos a))

pub IsMultiple-trans : (m n s : ℕ) → IsMultiple m n → IsMultiple n s → IsMultiple m s
IsMultiple-trans m n s (j, p) (k, q) = (k * j, omega (arith, q, ap (λ (t : ℕ). k * t) p))

pub IsMultiple-pow2 : (a b : ℕ) → a ≤ b → IsMultiple (2 ^ a) (2 ^ b)
IsMultiple-pow2 zero b h = (2 ^ b, omega arith)
IsMultiple-pow2 (suc a) zero h = absurd (omega arith)
IsMultiple-pow2 (suc a) (suc b) h =
    let (k, e) = IsMultiple-pow2 a b (omega arith) in
    (
      k,
      omega (
        arith,
        pow-suc 2 a,
        pow-suc 2 b,
        ap (λ (t : ℕ). t * 2) e,
        ap (λ (t : ℕ). k * t) (pow-suc 2 a),
      ),
    )

pub IsMultiple-add : (m s t : ℕ) → IsMultiple m s → IsMultiple m t → IsMultiple m (s + t)
IsMultiple-add m s t (j, p) (k, q) = (j + k, omega arith)

pub multiple-gap : (q k m : ℕ) → q * m < k * m → q * m + m ≤ k * m
multiple-gap q k m h =
    let below : suc q ≤ k = lt_of_mul-lt-mul_right m h in omega (arith, mul-le-mul_right m below)

-- Between a number and the next multiple of `m` there is no multiple.
pub IsMultiple-next_le :
    (m s t : ℕ) → 0 < m → s % m ≢ 0 → IsMultiple m t → s ≤ t → s + (m - s % m) ≤ t
IsMultiple-next_le m s t p odd (k, e) h =
    omega (arith, div-add-mod' s m, mod-lt s p, multiple-gap (s / m) k m)

pub pow2-le : (a b : ℕ) → a ≤ b → 2 ^ a ≤ 2 ^ b
pow2-le zero b h = pow2_pos b
pow2-le (suc a) zero h = absurd (omega arith)
pow2-le (suc a) (suc b) h = omega (arith, pow-suc 2 a, pow-suc 2 b, pow2-le a b (omega arith))
