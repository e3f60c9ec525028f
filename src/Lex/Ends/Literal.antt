-- ===== src/Lex/Ends/Literal.antt =====
-- The literals of strings and characters end, and no more of the text is left behind them.
use kli.Prelude.{
  ℕ, zero, suc, ◌≤◌, ◌<◌, ◌≡◌, refl, ap, ◌∙◌, inl, inr, Option, none, some, [], ◌∷◌, arith, length,
  ◌==◌, reverse,
}
use kli.Lex.Tokens.{Text, Token, string_literal, char_literal}
use kli.Lex.State.{
  Lexer, Run, pure, ◌>>=◌, ◌>>◌, next_char, peek_char, first_char, match_char, new_token,
  add_diagnostic, fail, invalid_escape_character, expected_end_of_string, invalid_character_escape,
  expected_end_of_char,
}
use kli.Lex.Number.{to_digit, and_then}
use kli.Lex.Literal.{
  pop, string_escape, push_escaped, is_backslash, string_step, in_string, string_chars, hex_digit,
  digit_or, char_escape, escaped, literal_char, close_char,
}
use kli.Lex.Ends.{
  Ends, left, Kept, ends_bind, ends_mono, ends_if, ends_option, pure-Kept, bind-Kept, then-Kept,
  if-Kept, and_then-Kept, option-Kept, next_char-Kept, next_char-some, match_char-Kept,
  match_char_mapped-Kept, new_token-Kept, add_diagnostic-Kept, fail-Kept,
}

push_escaped-Kept : (c : ℕ) (src : Text) → Kept (push_escaped c src)
push_escaped-Kept c src =
    option-Kept (string_escape c) _ (λ e. pure (e ∷ pop src))
      (then-Kept (add_diagnostic (invalid_escape_character c)) _
        (add_diagnostic-Kept (invalid_escape_character c)) (pure-Kept (pop src)))
      (λ e. pure-Kept (e ∷ pop src))

string_step-Kept : (prev : Option ℕ) (c : ℕ) (src : Text) → Kept (string_step prev c src)
string_step-Kept prev c src =
    if-Kept (is_backslash prev) _ _ (push_escaped-Kept c src) (pure-Kept (c ∷ src))

-- The step at a character leaves it for `next_char`.
string_step-same :
    (prev : Option ℕ) (c : ℕ) (src : Text) (l : Lexer)
    → Ends (string_step prev c src) l (λ _ l'. l'.chars ≡ l.chars)
string_step-same prev c src l =
    ends_if (is_backslash prev) (push_escaped c src) (pure (c ∷ src)) l
      (ends_option (string_escape c) _ (λ e. pure (e ∷ pop src)) l (inr (pop src, _, refl, refl))
        (λ e h. inr (e ∷ pop src, l, refl, refl)))
      (inr (c ∷ src, l, refl, refl))

in_string-some :
    (text : Text) (d : ℕ)
    → in_string (first_char text) ≡ some d
    → (c : ℕ) × (rest : Text) × (text ≡ c ∷ rest)
in_string-some [] d h = cc
in_string-some (c ∷ rest) d h = (c, rest, refl)

abbrev after_step : ℕ → Option ℕ → ℕ → Text → Run Text
after_step n prev c src =
    string_step prev c src >>= λ src'. next_char >> string_chars n (some c) src'

string_chars-Ends :
    (n : ℕ) (prev : Option ℕ) (src : Text) (l : Lexer)
    → left l < n
    → Ends (string_chars n prev src) l (λ _ l'. left l' ≤ left l)
unfolding string_chars
string_chars-Ends zero prev src l h = absurd (omega (arith, h))
string_chars-Ends (suc n) prev src l h =
    ends_bind peek_char
      (λ o. elim (in_string o) [ none ↦ pure src | some c ↦ after_step n prev c src ]) l
      {P = λ o l₀. (l₀.chars ≡ l.chars) × (o ≡ first_char l.chars)}
      (inr (first_char l.chars, l, refl, (refl, refl)))
      (λ o l₀ p.
        ends_option (in_string o) (pure src) (λ c. after_step n prev c src) l₀
          (inr (src, l₀, refl, omega (arith, ap length p.0)))
          (λ d on.
            let (c, cs, e) = in_string-some l.chars d (rw p.1 at on) in
            ends_bind (string_step prev d src) _ l₀ (string_step-same prev d src l₀) (λ src' l₁ q.
              ends_bind next_char (λ _. string_chars n (some d) src') l₁
                (next_char-some l₁ c cs (q ∙ p.0 ∙ e))
                (λ o' l₂ r.
                  let less : left l₂ < left l = omega (arith, ap length e, ap length r.1) in
                  ends_mono (string_chars n (some d) src') l₂
                    (string_chars-Ends n (some d) src' l₂ (omega arith)) (λ _ l₃ s. omega arith)))))

-- What follows the opening quote of a string.
abbrev pub string_rest : Run (Option Token)
string_rest = (λ l. string_chars (suc (length l.chars)) none [] l) >>= λ src.
    match_char b'"' >>= λ o. elim o [
      | some _ ↦ new_token (string_literal (reverse src))
      | none ↦ fail expected_end_of_string
    ]

pub string_rest-Kept : Kept string_rest
string_rest-Kept =
    bind-Kept (λ l. string_chars (suc (length l.chars)) none [] l) _
      (λ l. string_chars-Ends (suc (left l)) none [] l (omega arith))
      (λ src. bind-Kept (match_char b'"') _ (match_char-Kept b'"') (λ o.
        option-Kept o (fail expected_end_of_string) (λ _. new_token (string_literal (reverse src)))
          (fail-Kept expected_end_of_string) (λ _. new_token-Kept (string_literal (reverse src)))))

digit_or-Kept :
    (otherwise : Run (Option ℕ)) (f : ℕ → Run (Option ℕ))
    → Kept otherwise
    → ((d : ℕ) → Kept (f d))
    → Kept (digit_or otherwise f)
digit_or-Kept otherwise f h hf =
    bind-Kept hex_digit _ (match_char_mapped-Kept (to_digit 16))
      (λ o. option-Kept o otherwise f h hf)

char_escape-Kept : Kept char_escape
unfolding char_escape
char_escape-Kept = and_then-Kept hex_digit _ (match_char_mapped-Kept (to_digit 16)) (λ a.
    digit_or-Kept _ _ (pure-Kept _) (λ b. digit_or-Kept _ _ (pure-Kept _) (λ c.
      digit_or-Kept _ _ (pure-Kept _) (λ d.
        digit_or-Kept _ _ (pure-Kept _) (λ e. digit_or-Kept _ _ (pure-Kept _) (λ f l. inl refl))))))

escaped-Kept : (c : ℕ) → Kept (escaped c)
escaped-Kept c = if-Kept (c == b'n') _ _ (pure-Kept _) (
    if-Kept (c == b't') _ _ (pure-Kept _) (
      if-Kept (c == b'r') _ _ (pure-Kept _) (
        if-Kept (c == b'\\') _ _ (pure-Kept _) (
          if-Kept (c == b'\'') _ _ (pure-Kept _) (
            if-Kept (c == b'u') _ _
              (bind-Kept char_escape _ char_escape-Kept (λ o.
                option-Kept o (fail invalid_character_escape) (λ e. pure (some e))
                  (fail-Kept invalid_character_escape) (λ e. pure-Kept (some e))))
              (fail-Kept invalid_character_escape))))))

literal_char-Kept : (o : Option ℕ) → Kept (literal_char o)
literal_char-Kept (some _) = and_then-Kept next_char escaped next_char-Kept escaped-Kept
literal_char-Kept none = next_char-Kept

close_char-Kept : (c : ℕ) → Kept (close_char c)
close_char-Kept c = bind-Kept (match_char b'\'') _ (match_char-Kept b'\'') (λ o.
    option-Kept o (fail expected_end_of_char) (λ _. new_token (char_literal c))
      (fail-Kept expected_end_of_char) (λ _. new_token-Kept (char_literal c)))

-- Behind its opening quote.
pub literal_rest-Kept : Kept (and_then (match_char b'\\' >>= literal_char) close_char)
literal_rest-Kept =
    and_then-Kept (match_char b'\\' >>= literal_char) close_char
      (bind-Kept (match_char b'\\') literal_char (match_char-Kept b'\\') literal_char-Kept)
      close_char-Kept
