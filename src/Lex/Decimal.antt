-- ===== src/Lex/Decimal.antt =====
-- The decimal text of a number, which `num_token` writes for a radix and parses again.
use native.Mathlib.Nat.{pow-suc}
use kli.Prelude.{
  ℕ, zero, suc, ◌+◌, ◌-◌, ◌*◌, ◌/◌, ◌%◌, ◌^◌, ◌<◌, ◌≡◌, refl, ap, ◌∙◌, inl, inr, Bool-cases, ==_iff,
  ◌==◌, [], ◌∷◌, arith, lt→ltb,
}
use kli.Lex.Tokens.{Text, decimal_onto, to_string}
use kli.Lex.Number.{decimal_value, parsed, parse_u64}

-- The digits of a number, in front of a text, put its value in front of what the text adds.
decimal_value-onto :
    (k n : ℕ) (rest : Text)
    → n < 10 ^ k
    → decimal_value 0 (decimal_onto k n rest) ≡ decimal_value n rest
unfolding decimal_onto decimal_value
decimal_value-onto zero n rest h = let e : n ≡ 0 = omega arith in rw e refl
decimal_value-onto (suc k) n rest h = elim (Bool-cases (n / 10 == 0)) [
  | inl small ↦
      let digit : 0 * 10 + (b'0' + n % 10 - b'0') ≡ n = omega (arith, (==_iff _ _).0 small) in
      rw small (ap (λ m. decimal_value m rest) digit)
  | inr large ↦
      let joined : n / 10 * 10 + (b'0' + n % 10 - b'0') ≡ n = omega arith in
      rw large (
        decimal_value-onto k (n / 10) ((b'0' + n % 10) ∷ rest) (omega (arith, pow-suc 10 k))
        ∙ ap (λ m. decimal_value m rest) joined)
]

decimal_onto-cons :
    (k n : ℕ) (rest : Text) → (c : ℕ) × (cs : Text) × (decimal_onto (suc k) n rest ≡ c ∷ cs)
unfolding decimal_onto
decimal_onto-cons zero n rest = elim (Bool-cases (n / 10 == 0)) [
  | inl small ↦ (b'0' + n % 10, rest, rw small refl)
  | inr large ↦ (b'0' + n % 10, rest, rw large refl)
]
decimal_onto-cons (suc k) n rest = elim (Bool-cases (n / 10 == 0)) [
  | inl small ↦ (b'0' + n % 10, rest, rw small refl)
  | inr large ↦
      let (c, cs, e) = decimal_onto-cons k (n / 10) ((b'0' + n % 10) ∷ rest) in (c, cs, rw large e)
]

parse_u64-at :
    (n : ℕ) (text : Text) (c : ℕ) (cs : Text)
    → text ≡ c ∷ cs
    → decimal_value 0 text ≡ n
    → n < 2 ^ 64
    → parse_u64 text ≡ parsed n
unfolding parse_u64
parse_u64-at n text c cs e v h = rw e (rw (rw e at v, lt→ltb n (2 ^ 64) h) refl)

-- A number below 2 ^ 64 is read back from the decimal text that is written for it.
pub parse_u64-to_string : (n : ℕ) → n < 2 ^ 64 → parse_u64 (to_string n) ≡ parsed n
unfolding to_string decimal_value
parse_u64-to_string n h =
    let (c, cs, e) = decimal_onto-cons 19 n [] in
    parse_u64-at n (to_string n) c cs e (decimal_value-onto 20 n [] (omega arith)) h
