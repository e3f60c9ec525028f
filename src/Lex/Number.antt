-- ===== src/Lex/Number.antt =====
-- `num_token` and `parse_size` of src/parsing/lex.rs.
use kli.Prelude.{
  ℕ, zero, suc, ◌+◌, ◌-◌, ◌*◌, ◌^◌, Bool, true, false, ◌&&◌, Option, none, some, [], ◌∷◌, ltb, leb,
  ◌==◌, if◌then◌else◌, length,
}
use kli.Prelude.Outcome.{out_of_fuel}
use kli.Lex.Tokens.{
  Text, codes, text_eq, Token, IntegerSize, int64, int32, int8, NumberKind, unsigned, signed,
  number, to_string,
}
use kli.Lex.State.{
  Run, pure, ◌>>=◌, ◌>>◌, next_char, peek_char, match_char, match_char_mapped, new_token,
  add_diagnostic, fail, while_matching, integer_too_large, expected_uint, expected_int,
  invalid_integer_literal_size,
}

-- `char::to_digit`, for a radix up to 16.
abbrev pub digit_value : ℕ → Option ℕ
digit_value c =
    if leb b'0' c && leb c b'9'
    then some (c - b'0')
    else if leb b'a' c && leb c b'f'
    then some (c - b'a' + 10)
    else if leb b'A' c && leb c b'F'
    then some (c - b'A' + 10)
    else none

abbrev pub to_digit : ℕ → ℕ → Option ℕ
to_digit radix c = elim (digit_value c) [
  | none ↦ none
  | some d ↦ if ltb d radix then some d else none
]

abbrev pub is_digit : ℕ → Bool
is_digit c = leb b'0' c && leb c b'9'

-- The value goes on where there is one, as `?` does.
abbrev pub and_then : {A B : Type 0} → Run (Option A) → (A → Run (Option B)) → Run (Option B)
and_then m f = m >>= λ o. elim o [ none ↦ pure none | some a ↦ f a ]

-- `match_char` on one character after the other, until one does not match.
unfoldable pub match_all : Text → Run Bool
match_all [] = pure true
match_all (c ∷ cs) = match_char c >>= λ o. elim o [ none ↦ pure false | some _ ↦ match_all cs ]

abbrev pub size_after : Text → IntegerSize → Run (Option IntegerSize)
size_after text size =
    match_all text >>= λ b. if b then pure (some size) else fail invalid_integer_literal_size

abbrev pub size_from : Option ℕ → Run (Option IntegerSize)
size_from none = fail invalid_integer_literal_size
size_from (some c) =
    if c == b'6'
    then (next_char >> size_after (codes "4") int64)
    else if c == b'3'
    then (next_char >> size_after (codes "2") int32)
    else if c == b'8'
    then (next_char >> pure (some int8))
    else fail invalid_integer_literal_size

unfoldable pub parse_size : Run (Option IntegerSize)
unfolding match_all
parse_size = peek_char >>= size_from

-- `checked_mul` and `checked_add` on a `u32`.
abbrev pub checked_push : ℕ → ℕ → ℕ → Option ℕ
checked_push radix num d = if ltb (num * radix + d) (2 ^ 32) then some (num * radix + d) else none

-- The loop over the digits of a radix, from the number read so far.
unfoldable pub radix_digits : ℕ → ℕ → ℕ → Run (Option ℕ)
radix_digits radix zero num = λ l. out_of_fuel
radix_digits radix (suc n) num = match_char_mapped (to_digit radix) >>= λ o. elim o [
  | none ↦ pure (some num)
  | some d ↦ elim (checked_push radix num d) [
    | none ↦ fail integer_too_large
    | some next ↦ radix_digits radix n next
  ]
]

abbrev pub radix_number : ℕ → Run (Option Text)
radix_number radix =
    and_then (λ l. radix_digits radix (suc (length l.chars)) 0 l)
      (λ num. pure (some (to_string num)))

-- The radix that the character after a single zero gives.
unfoldable pub radix_of : Run (Option ℕ)
radix_of = match_char b'x' >>= λ o. elim o [
  | some _ ↦ pure (some 16)
  | none ↦ match_char b'b' >>= λ o. elim o [ some _ ↦ pure (some 2) | none ↦ pure none ]
]

abbrev pub after_zero : Text → Run (Option Text)
after_zero src =
    radix_of >>= λ o. elim o [ none ↦ pure (some src) | some radix ↦ radix_number radix ]

unfoldable pub number_text : Text → Run (Option Text)
unfolding radix_of radix_digits
number_text src = if text_eq src (codes "0") then after_zero src else pure (some src)

-- A suffix that does not match its word ends the token.
abbrev pub sized :
    Text
    → (IntegerSize → NumberKind)
    → Run (Option (Option NumberKind))
    → Run (Option (Option NumberKind))
sized word kind otherwise = match_all word >>= λ b.
    if b then and_then parse_size (λ size. pure (some (some (kind size)))) else otherwise

abbrev pub suffix_from : Option ℕ → Run (Option (Option NumberKind))
suffix_from none = pure (some none)
suffix_from (some c) =
    if c == b'U'
    then (next_char >> sized (codes "Int") unsigned (fail expected_uint))
    else if c == b'I'
    then (next_char >> sized (codes "nt") signed (fail expected_int))
    else pure (some none)

unfoldable pub number_suffix : Run (Option (Option NumberKind))
unfolding match_all parse_size
number_suffix = peek_char >>= suffix_from

-- `str::parse::<u64>` on decimal digits: the value from the digits read so far, and the two errors
-- that such a text can give.
unfoldable pub decimal_value : ℕ → Text → ℕ
decimal_value n [] = n
decimal_value n (c ∷ cs) = decimal_value (n * 10 + (c - b'0')) cs

pub data Parsed : Type 0 where
  parsed : ℕ → Parsed
  pos_overflow empty : Parsed

unfoldable pub parse_u64 : Text → Parsed
unfolding decimal_value
parse_u64 [] = empty
parse_u64 (c ∷ cs) =
    if ltb (decimal_value 0 (c ∷ cs)) (2 ^ 64)
    then parsed (decimal_value 0 (c ∷ cs))
    else pos_overflow

abbrev pub number_token : Option NumberKind → Parsed → Run (Option Token)
number_token kind (parsed n) = new_token (number n kind)
number_token kind pos_overflow =
    add_diagnostic integer_too_large >> new_token (number (2 ^ 64 - 1) kind)
number_token kind empty = pure none

unfoldable pub num_token : Run (Option Token)
unfolding number_text number_suffix parse_u64
num_token = while_matching is_digit >>= λ digits.
    and_then (number_text digits)
      (λ src. and_then number_suffix (λ kind. number_token kind (parse_u64 src)))
