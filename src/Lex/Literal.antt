-- ===== src/Lex/Literal.antt =====
-- `string_token`, `char_escape` and `char_literal` of src/parsing/lex.rs.
use kli.Prelude.{
  ℕ, zero, suc, ◌+◌, ◌*◌, Bool, false, ◌&&◌, Option, none, some, [], ◌∷◌, ltb, leb, ◌==◌,
  if◌then◌else◌, length, reverse,
}
use kli.Prelude.Outcome.{panic, out_of_fuel}
use kli.Lex.Tokens.{Text, Token, string_literal, char_literal}
use kli.Lex.State.{
  Run, pure, ◌>>=◌, ◌>>◌, next_char, peek_char, match_char, match_char_mapped, new_token,
  add_diagnostic, fail, invalid_escape_character, expected_end_of_string, invalid_character_escape,
  expected_end_of_char,
}
use kli.Lex.Number.{to_digit, and_then}

-- The text so far stands in reverse, so that `push` and `pop` are at its head.
abbrev pub pop : Text → Text
pop [] = []
pop (_ ∷ cs) = cs

-- The escapes of a string.
abbrev pub string_escape : ℕ → Option ℕ
string_escape c =
    if c == b'\\'
    then some b'\\'
    else if c == b'n'
    then some b'\n'
    else if c == b't'
    then some b'\t'
    else none

abbrev pub is_backslash : Option ℕ → Bool
is_backslash none = false
is_backslash (some c) = c == b'\\'

-- The body of the loop at `c`, before `next_char`: the text with what `c` adds to it.
abbrev pub push_escaped : ℕ → Text → Run Text
push_escaped c src = elim (string_escape c) [
  | some e ↦ pure (e ∷ pop src)
  | none ↦ add_diagnostic (invalid_escape_character c) >> pure (pop src)
]

abbrev pub string_step : Option ℕ → ℕ → Text → Run Text
string_step prev c src = if is_backslash prev then push_escaped c src else pure (c ∷ src)

abbrev pub in_string : Option ℕ → Option ℕ
in_string none = none
in_string (some c) = if c == b'"' then none else some c

unfoldable pub string_chars : ℕ → Option ℕ → Text → Run Text
string_chars zero prev src = λ l. out_of_fuel
string_chars (suc n) prev src = peek_char >>= λ o. elim (in_string o) [
  | none ↦ pure src
  | some c ↦ string_step prev c src >>= λ src'. next_char >> string_chars n (some c) src'
]

unfoldable pub string_token : Run (Option Token)
unfolding string_chars
string_token =
    next_char
    >> ((λ l. string_chars (suc (length l.chars)) none [] l) >>= λ src. match_char b'"' >>= λ o.
        elim o [
          | some _ ↦ new_token (string_literal (reverse src))
          | none ↦ fail expected_end_of_string
        ])

-- `char::from_u32`.
unfoldable pub from_u32 : ℕ → Option ℕ
from_u32 c =
    if ltb c 0xd800 then some c else if leb 0xe000 c && ltb c 0x11_0000 then some c else none

abbrev pub hex_digit : Run (Option ℕ)
hex_digit = match_char_mapped (to_digit 16)

abbrev pub digit_or : Run (Option ℕ) → (ℕ → Run (Option ℕ)) → Run (Option ℕ)
digit_or otherwise f = hex_digit >>= λ o. elim o [ none ↦ otherwise | some d ↦ f d ]

-- A shift by 3 is a product with 8. After a sixth digit `encode_utf8` panics, since the buffer that it
-- is given is empty.
unfoldable pub char_escape : Run (Option ℕ)
unfolding from_u32
char_escape = and_then hex_digit (λ a. digit_or (pure (from_u32 a)) (λ b.
    digit_or (pure (from_u32 (a * 8 + b))) (λ c.
      digit_or (pure (from_u32 (a * 64 + b * 8 + c))) (λ d.
        digit_or (pure (from_u32 (a * 512 + b * 64 + c * 8 + d))) (λ e.
          digit_or (pure (from_u32 (a * 4096 + b * 512 + c * 64 + d * 8 + e))) (λ _ _. panic))))))

-- The character that follows a backslash.
abbrev pub escaped : ℕ → Run (Option ℕ)
escaped c =
    if c == b'n'
    then pure (some b'\n')
    else if c == b't'
    then pure (some b'\t')
    else if c == b'r'
    then pure (some b'\r')
    else if c == b'\\'
    then pure (some b'\\')
    else if c == b'\''
    then pure (some b'\'')
    else if c == b'u'
    then (char_escape >>= λ o. elim o [
      | some e ↦ pure (some e)
      | none ↦ fail invalid_character_escape
    ])
    else fail invalid_character_escape

abbrev pub literal_char : Option ℕ → Run (Option ℕ)
literal_char (some _) = and_then next_char escaped
literal_char none = next_char

abbrev pub close_char : ℕ → Run (Option Token)
close_char c = match_char b'\'' >>= λ o. elim o [
  | some _ ↦ new_token (char_literal c)
  | none ↦ fail expected_end_of_char
]

unfoldable pub char_literal_token : Run (Option Token)
unfolding char_escape
char_literal_token =
    and_then next_char (λ _. and_then (match_char b'\\' >>= literal_char) close_char)
