-- ===== src/Lex/Ends/Number.antt =====
-- `num_token` ends, and takes a digit from the text if it returns a token.
use kli.Prelude.{
  ℕ, suc, ◌-◌, ◌^◌, ◌<◌, ◌≡◌, refl, ◌⊎◌, inl, inr, true, false, Option, none, some, [], ◌∷◌, arith,
  length, ◌==◌,
}
use kli.Lex.Tokens.{
  Text, codes, text_eq, Token, IntegerSize, int64, int32, int8, NumberKind, unsigned, signed,
  number, to_string,
}
use kli.Lex.State.{
  Lexer, Run, pure, next_char, peek_char, match_char, add_diagnostic, fail, while_matching,
  invalid_integer_literal_size, expected_uint, expected_int, integer_too_large,
}
use kli.Lex.Number.{
  is_digit, and_then, match_all, size_after, size_from, parse_size, radix_number, radix_digits,
  radix_of, after_zero, number_text, sized, suffix_from, number_suffix, Parsed, parsed,
  pos_overflow, empty, parse_u64, number_token, num_token,
}
use kli.Lex.Ends.{
  Ends, left, Kept, Yields, ends_bind, ends_mono, pure-Kept, bind-Kept, then-Kept, if-Kept,
  and_then-Kept, option-Kept, next_char-Kept, peek_char-Kept, match_char-Kept, new_token-Kept,
  add_diagnostic-Kept, fail-Kept,
}
use kli.Lex.Ends.Loop.{while_matching-Ends, radix_digits-Ends}

match_all-Kept : (text : Text) → Kept (match_all text)
unfolding match_all
match_all-Kept [] = pure-Kept true
match_all-Kept (c ∷ cs) =
    bind-Kept (match_char c) _ (match_char-Kept c) (λ o.
      option-Kept o (pure false) (λ _. match_all cs) (pure-Kept false) (λ _. match_all-Kept cs))

size_after-Kept : (text : Text) (size : IntegerSize) → Kept (size_after text size)
size_after-Kept text size = bind-Kept (match_all text) _ (match_all-Kept text) (λ b.
    if-Kept b (pure (some size)) (fail invalid_integer_literal_size) (pure-Kept (some size))
      (fail-Kept invalid_integer_literal_size))

size_from-Kept : (o : Option ℕ) → Kept (size_from o)
size_from-Kept none = fail-Kept invalid_integer_literal_size
size_from-Kept (some c) =
    if-Kept (c == b'6') _ _
      (then-Kept next_char _ next_char-Kept (size_after-Kept (codes "4") int64))
      (if-Kept (c == b'3') _ _
        (then-Kept next_char _ next_char-Kept (size_after-Kept (codes "2") int32))
        (if-Kept (c == b'8') _ _ (then-Kept next_char _ next_char-Kept (pure-Kept (some int8)))
          (fail-Kept invalid_integer_literal_size)))

parse_size-Kept : Kept parse_size
unfolding parse_size
parse_size-Kept = bind-Kept peek_char size_from peek_char-Kept size_from-Kept

radix_number-Kept : (radix : ℕ) → Kept (radix_number radix)
radix_number-Kept radix =
    and_then-Kept (λ l. radix_digits radix (suc (length l.chars)) 0 l) _
      (λ l. radix_digits-Ends radix (suc (left l)) 0 l (omega arith))
      (λ num. pure-Kept (some (to_string num)))

radix_of-Kept : Kept radix_of
unfolding radix_of
radix_of-Kept = bind-Kept (match_char b'x') _ (match_char-Kept b'x') (λ o.
    option-Kept o _ (λ _. pure (some 16))
      (bind-Kept (match_char b'b') _ (match_char-Kept b'b') (λ o.
        option-Kept o (pure none) (λ _. pure (some 2)) (pure-Kept none) (λ _. pure-Kept (some 2))))
      (λ _. pure-Kept (some 16)))

number_text-Kept : (src : Text) → Kept (number_text src)
unfolding number_text
number_text-Kept src =
    if-Kept (text_eq src (codes "0")) (after_zero src) (pure (some src))
      (bind-Kept radix_of _ radix_of-Kept (λ o.
        option-Kept o (pure (some src)) radix_number (pure-Kept (some src)) radix_number-Kept))
      (pure-Kept (some src))

sized-Kept :
    (word : Text) (kind : IntegerSize → NumberKind) (otherwise : Run (Option (Option NumberKind)))
    → Kept otherwise
    → Kept (sized word kind otherwise)
sized-Kept word kind otherwise h = bind-Kept (match_all word) _ (match_all-Kept word) (λ b.
    if-Kept b _ otherwise
      (and_then-Kept parse_size _ parse_size-Kept (λ size. pure-Kept (some (some (kind size))))) h)

suffix_from-Kept : (o : Option ℕ) → Kept (suffix_from o)
suffix_from-Kept none = pure-Kept (some none)
suffix_from-Kept (some c) =
    if-Kept (c == b'U') _ _
      (then-Kept next_char _ next_char-Kept
        (sized-Kept (codes "Int") unsigned (fail expected_uint) (fail-Kept expected_uint)))
      (if-Kept (c == b'I') _ _
        (then-Kept next_char _ next_char-Kept
          (sized-Kept (codes "nt") signed (fail expected_int) (fail-Kept expected_int)))
        (pure-Kept (some none)))

number_suffix-Kept : Kept number_suffix
unfolding number_suffix
number_suffix-Kept = bind-Kept peek_char suffix_from peek_char-Kept suffix_from-Kept

number_token-Kept : (kind : Option NumberKind) (p : Parsed) → Kept (number_token kind p)
number_token-Kept kind (parsed n) = new_token-Kept (number n kind)
number_token-Kept kind pos_overflow =
    then-Kept (add_diagnostic integer_too_large) _ (add_diagnostic-Kept integer_too_large)
      (new_token-Kept (number (2 ^ 64 - 1) kind))
number_token-Kept kind empty = pure-Kept none

-- What follows the digits.
abbrev after_digits : Text → Run (Option Token)
after_digits digits =
    and_then (number_text digits)
      (λ src. and_then number_suffix (λ kind. number_token kind (parse_u64 src)))

after_digits-Kept : (digits : Text) → Kept (after_digits digits)
after_digits-Kept digits = and_then-Kept (number_text digits) _ (number_text-Kept digits) (λ src.
    and_then-Kept number_suffix _ number_suffix-Kept
      (λ kind. number_token-Kept kind (parse_u64 src)))

-- With no digit there is no token.
no_digits_kind :
    (o : Option (Option NumberKind)) (l l' : Lexer)
    → Ends {A = Option Token}
        (elim o [ none ↦ pure none | some kind ↦ number_token kind (parse_u64 []) ])
        l'
        (λ t l''. (t ≡ none) ⊎ (left l'' < left l))
unfolding parse_u64
no_digits_kind none l l' = inr (none, l', refl, inl refl)
no_digits_kind (some kind) l l' = inr (none, l', refl, inl refl)

no_digits : (l : Lexer) → Yields (after_digits []) l
unfolding number_text
no_digits l = ends_bind number_suffix _ l (number_suffix-Kept l) (λ o l' p. no_digits_kind o l l')

pub num_token-Yields : (l : Lexer) → Yields num_token l
unfolding num_token
num_token-Yields l =
    ends_bind (while_matching is_digit) after_digits l (while_matching-Ends is_digit l)
      (λ digits l' p. elim p [
        | inl (e, kept) ↦ rw e (
            ends_mono (after_digits []) l' (no_digits l')
              (λ o l'' q. elim q [ inl e' ↦ inl e' | inr less ↦ inr (omega arith) ]))
        | inr less ↦
            ends_mono (after_digits digits) l' (after_digits-Kept digits l')
              (λ o l'' q. inr (omega arith))
      ])
