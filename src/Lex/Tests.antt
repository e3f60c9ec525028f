-- ===== src/Lex/Tests.antt =====
-- The lexer on concrete texts, and the theorems of `Lex` at them.
use kli.Prelude.{ℕ, ◌≡◌, ◌⊎◌, arith, refl, Bool, false, none, some, List, [], ◌∷◌, map}
use kli.Prelude.Outcome.{Outcome, ok, panic}
use kli.Types.Inhabited.{NoError}
use kli.Lex.Tokens.{
  Text, codes, Token, TokenKind, IntegerSize, unsigned, number, ident, let_word, double_equal,
  char_literal, to_string, display, semi,
}
use kli.Lex.Words.{word_kind, word_kind-display}
use kli.Lex.State.{
  Lexer, new, match_char, next_char, match_char_with, match_char_mapped, take_matching, len_utf8,
}
use kli.Lex.Number.{
  num_token, number_suffix, parse_size, match_all, radix_digits, radix_of, number_text, parse_u64,
  decimal_value,
}
use kli.Lex.Literal.{char_escape, char_literal_token, from_u32}
use kli.Lex.Ends.{Yields}
use kli.Lex.Ends.Next.{next_token-Yields, lex-ends}
use kli.Lex.Radix.{num_token-value}
use kli.Lex.Escape.{char_escape_panics}
use kli.Lex.Next.{
  lex, tokens, next_token, ident_token, skip_spaces, current_token_src, is_whitespace, punctuation,
}

abbrev kinds : Outcome NoError (Bool × List Token × Token) → List TokenKind
kinds (ok (_, ts, _)) = map (λ t. t.kind) ts
kinds _ = []

abbrev ascii_only : ℕ → Bool
ascii_only c = false

abbrev statement : Text
statement = codes "let x == 0xffUInt8; # the rest"

statement-tokens :
    kinds (lex ascii_only 0 statement)
    ≡ let_word
      ∷ ident (codes "x")
      ∷ double_equal
      ∷ number 255 (some (unsigned IntegerSize.int8))
      ∷ semi
      ∷ []
unfolding lex next_token tokens skip_spaces punctuation next_char match_char match_char_with
    take_matching num_token number_suffix parse_size match_all radix_digits radix_of number_text
    parse_u64 decimal_value ident_token current_token_src word_kind to_string match_char_mapped
    is_whitespace len_utf8
statement-tokens = refl

lex-ends_example :
    (lex ascii_only 0 statement ≡ panic)
    ⊎ ((result : Bool × List Token × Token) × (lex ascii_only 0 statement ≡ ok result))
lex-ends_example = lex-ends ascii_only 0 statement

next_token-Yields_example : Yields (next_token ascii_only) (new 0 statement)
next_token-Yields_example = next_token-Yields ascii_only (new 0 statement)

num_token-value_example :
    (t : Token) × (l : Lexer) × (num_token (new 0 (codes "0x1Fe;")) ≡ ok (some t, l))
    × (t.kind ≡ number 510 none)
    × (l.chars ≡ codes ";")
num_token-value_example =
    num_token-value (new 0 (codes "0x1Fe;")) b'x' 16 510 (codes "1Fe") (codes ";") refl refl refl
      (omega arith) (refl, refl, refl)

word_kind-display_example : word_kind (display let_word) ≡ let_word
word_kind-display_example = word_kind-display let_word tt

-- The literal '\u01F600'.
abbrev six_digits : Lexer
six_digits = new 0 (codes "01F600'")

char_escape_panics_example : char_escape six_digits ≡ panic
char_escape_panics_example =
    char_escape_panics six_digits b'0' b'1' b'F' b'6' b'0' b'0' (codes "'") refl (0, refl) (1, refl)
      (15, refl) (6, refl) (0, refl) (0, refl)

-- Two digits are joined as if a digit had three bits: 41 gives 33.
escape_of_41 : kinds (lex ascii_only 0 (codes "'\\u41'")) ≡ char_literal 33 ∷ []
unfolding lex next_token tokens skip_spaces punctuation next_char match_char match_char_with
    char_literal_token char_escape from_u32 match_char_mapped is_whitespace len_utf8
escape_of_41 = refl
