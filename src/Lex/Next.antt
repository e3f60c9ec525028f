-- ===== src/Lex/Next.antt =====
-- `skip_whitespace`, `ident_token`, `next_token` and `lex` of src/parsing/lex.rs.
use kli.Prelude.{
  ℕ, zero, suc, ◌-◌, Bool, true, false, not, ◌&&◌, ◌||◌, Option, none, some, List, [], ◌∷◌, ltb,
  leb, ◌==◌, if◌then◌else◌, length,
}
use kli.Prelude.Outcome.{Outcome, ok, panic, out_of_fuel}
use kli.Types.Inhabited.{NoError}
use kli.Lex.Tokens.{
  Text, Token, TokenKind, at, dot, dot_dot, equal, thick_arrow, double_equal, left_paren,
  right_paren, left_brace, right_brace, left_bracket, right_bracket, plus, minus, arrow, slash,
  star, coma, semi, colon, caret, pipe, lesser, greater, error, eof,
}
use kli.Lex.Words.{word_kind}
use kli.Lex.State.{
  Lexer, new, Run, pure, ◌>>=◌, ◌>>◌, len_utf8, next_char, peek_char, match_char, match_char_with,
  new_token, current_loc, add_diagnostic, while_matching, unrecognised_char,
}
use kli.Lex.Number.{is_digit, and_then, num_token}
use kli.Lex.Literal.{string_token, char_literal_token}

-- `char::is_whitespace`: the property White_Space.
unfoldable pub is_whitespace : ℕ → Bool
is_whitespace c =
    (leb 0x9 c && leb c 0xd)
    || c == 0x20
    || c == 0x85
    || c == 0xa0
    || c == 0x1680
    || (leb 0x2000 c && leb c 0x200a)
    || c == 0x2028
    || c == 0x2029
    || c == 0x202f
    || c == 0x205f
    || c == 0x3000

unfoldable pub skip_spaces : ℕ → Run (Unit {0})
unfolding is_whitespace
skip_spaces zero = λ l. out_of_fuel
skip_spaces (suc n) = match_char_with is_whitespace >>= λ o. elim o [
  | some _ ↦ skip_spaces n
  | none ↦ match_char b'#' >>= λ o. elim o [
    | some _ ↦ while_matching (λ c. not (c == b'\n')) >> skip_spaces n
    | none ↦ pure tt
  ]
]

abbrev pub skip_whitespace : Run (Unit {0})
skip_whitespace l = skip_spaces (suc (length l.chars)) l

abbrev pub is_start_char : ℕ → Bool
is_start_char c = (leb b'a' c && leb c b'z') || (leb b'A' c && leb c b'Z') || c == b'_'

abbrev pub is_ident_char : ℕ → Bool
is_ident_char c = is_start_char c || is_digit c

-- `&text[start..end]` in bytes, which panics off the boundaries of the characters.
unfoldable pub drop_bytes : ℕ → Text → Option Text
unfolding len_utf8
drop_bytes zero cs = some cs
drop_bytes (suc n) [] = none
drop_bytes (suc n) (c ∷ cs) =
    let rest = drop_bytes (suc n - len_utf8 c) cs in if leb (len_utf8 c) (suc n) then rest else none

unfoldable pub take_bytes : ℕ → Text → Option Text
unfolding len_utf8
take_bytes zero cs = some []
take_bytes (suc n) [] = none
take_bytes (suc n) (c ∷ cs) =
    let rest = take_bytes (suc n - len_utf8 c) cs in
    if leb (len_utf8 c) (suc n) then elim rest [ none ↦ none | some cs' ↦ some (c ∷ cs') ] else none

abbrev pub slice : ℕ → ℕ → Text → Option Text
slice start end text =
    if leb start end
    then elim (drop_bytes start text) [ none ↦ none | some cs ↦ take_bytes (end - start) cs ]
    else none

unfoldable pub current_token_src : Run Text
unfolding drop_bytes take_bytes
current_token_src l = elim (slice l.start_index l.index l.src) [
  | none ↦ panic
  | some text ↦ ok (text, l)
]

unfoldable pub ident_token : Run (Option Token)
unfolding current_token_src
ident_token =
    and_then next_char (λ _.
      while_matching is_ident_char >> current_token_src >>= λ text. new_token (word_kind text))

-- `next_token_from_char` and `next_token_from_char_or_chars`.
abbrev pub single : TokenKind → Run (Option Token)
single kind = next_char >> new_token kind

abbrev pub single_or : TokenKind → List (ℕ × TokenKind) → Run (Option Token)
single_or kind [] = new_token kind
single_or kind ((c, longer) ∷ others) =
    match_char c >>= λ o. elim o [ some _ ↦ new_token longer | none ↦ single_or kind others ]

-- `next_token_from_char_or_char_match`: the first of the characters that follows.
abbrev pub one_of : TokenKind → List (ℕ × TokenKind) → Run (Option Token)
one_of kind others = next_char >> single_or kind others

-- The tokens of one character.
unfoldable pub punctuation : ℕ → Option TokenKind
punctuation c =
    if c == b'@'
    then some at
    else if c == b'('
    then some left_paren
    else if c == b')'
    then some right_paren
    else if c == b'{'
    then some left_brace
    else if c == b'}'
    then some right_brace
    else if c == b'['
    then some left_bracket
    else if c == b']'
    then some right_bracket
    else if c == b'+'
    then some plus
    else if c == b'/'
    then some slash
    else if c == b'*'
    then some star
    else if c == b','
    then some coma
    else if c == b';'
    then some semi
    else if c == b':'
    then some colon
    else if c == b'^'
    then some caret
    else if c == b'|'
    then some pipe
    else if c == b'<'
    then some lesser
    else if c == b'>'
    then some greater
    else none

-- `char::is_numeric`, at an answer for the characters beyond ASCII.
abbrev pub is_numeric : (ℕ → Bool) → ℕ → Bool
is_numeric beyond_ascii c = if ltb c 0x80 then is_digit c else beyond_ascii c

abbrev pub token_at : (ℕ → Bool) → ℕ → Run (Option Token)
token_at beyond_ascii c =
    if c == b'.'
    then one_of dot ((b'.', dot_dot) ∷ [])
    else if c == b'='
    then one_of equal ((b'>', thick_arrow) ∷ (b'=', double_equal) ∷ [])
    else if c == b'-'
    then one_of minus ((b'>', arrow) ∷ [])
    else if c == b'\''
    then char_literal_token
    else if is_start_char c
    then ident_token
    else if is_numeric beyond_ascii c
    then num_token
    else if c == b'"'
    then string_token
    else (add_diagnostic (unrecognised_char c) >> single error)

abbrev pub start_token : Run (Unit {0})
start_token l = ok (tt, record l { start_line = l.line; start_index = l.index })

unfoldable pub next_token : (ℕ → Bool) → Run (Option Token)
unfolding skip_spaces punctuation
next_token beyond_ascii =
    skip_whitespace
    >> and_then peek_char (λ c.
      start_token
      >> elim (punctuation c) [ some kind ↦ single kind | none ↦ token_at beyond_ascii c ])

unfoldable pub tokens : (ℕ → Bool) → ℕ → Run (List Token)
tokens beyond_ascii zero = λ l. out_of_fuel
tokens beyond_ascii (suc n) = next_token beyond_ascii >>= λ o. elim o [
  | none ↦ pure []
  | some token ↦ tokens beyond_ascii n >>= λ rest. pure (token ∷ rest)
]

abbrev pub is_reported {ℓ} : {A : Type ℓ} → List A → Bool
is_reported [] = false
is_reported (_ ∷ _) = true

abbrev pub finish :
    Outcome NoError (List Token × Lexer) → Outcome NoError (Bool × List Token × Token)
finish (ok (ts, l)) = ok (is_reported l.diag, ts, record { loc = current_loc l; kind = eof })
finish panic = panic
finish out_of_fuel = out_of_fuel
finish (Outcome.err e) = Outcome.err e

-- `lex`: whether a diagnostic was reported, the tokens, and the one at the end of the file.
unfoldable pub lex : (ℕ → Bool) → ℕ → Text → Outcome NoError (Bool × List Token × Token)
unfolding tokens
lex beyond_ascii file src = finish (tokens beyond_ascii (suc (length src)) (new file src))
