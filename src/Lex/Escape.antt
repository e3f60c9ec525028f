-- ===== src/Lex/Escape.antt =====
-- The escape of a character by its code point, at six digits.
use kli.Prelude.{
  ℕ, ◌≡◌, refl, ap, ◌∙◌, Option, none, some, ◌∷◌, inl, inr, false, Bool-cases, ◌==◌, ==_iff,
}
use kli.Prelude.Outcome.{ok, panic}
use kli.Lex.Tokens.{Text}
use kli.Lex.State.{
  Lexer, Run, pure, next_char, moved, advance, continue, match_char_mapped, mapped, first_char,
}
use kli.Lex.Number.{to_digit}
use kli.Lex.Literal.{char_escape, digit_or, hex_digit}

-- A hexadecimal digit.
abbrev pub IsHex : ℕ → Type 0
IsHex c = (d : ℕ) × (to_digit 16 c ≡ some d)

not_newline : (c : ℕ) → IsHex c → (c == b'\n') ≡ false
not_newline c (d, h) = elim (Bool-cases (c == b'\n')) [
  | inr e ↦ e
  | inl e ↦ cc (rw ((==_iff c b'\n').0 e) at h)
]

advance-eq :
    (c : ℕ) (cs : Text) (l : Lexer)
    → (c == b'\n') ≡ false
    → advance (c ∷ cs) l ≡ ok (some c, moved c cs l.line l)
advance-eq c cs l n = rw n refl

hex_digit-eq :
    (l : Lexer) (c : ℕ) (cs : Text) (d : ℕ)
    → l.chars ≡ c ∷ cs
    → to_digit 16 c ≡ some d
    → (l' : Lexer) × (hex_digit l ≡ ok (some d, l')) × (l'.chars ≡ cs)
unfolding match_char_mapped next_char
hex_digit-eq l c cs d e h =
    let step : next_char l ≡ ok (some c, moved c cs l.line l) =
      ap (λ text. advance text l) e ∙ advance-eq c cs l (not_newline c (d, h)) in
    let peeked : mapped (to_digit 16) (first_char l.chars) ≡ some d =
      ap (λ text. mapped (to_digit 16) (first_char text)) e ∙ h in
    (
      moved c cs l.line l,
      rw (peeked, match_char_mapped) (ap (λ o. continue o (λ _. pure (some d))) step),
      refl,
    )

-- A panic behind a digit is a panic in front of it.
digit_or-panic :
    (otherwise : Run (Option ℕ)) (f : ℕ → Run (Option ℕ)) (l : Lexer) (c : ℕ) (cs : Text)
    → l.chars ≡ c ∷ cs
    → IsHex c
    → ((d : ℕ) (l' : Lexer) → l'.chars ≡ cs → f d l' ≡ panic)
    → digit_or otherwise f l ≡ panic
digit_or-panic otherwise f l c cs e (d, h) rest =
    let (l', step, left) = hex_digit-eq l c cs d e h in rw step (rest d l' left)

-- On six hexadecimal digits the escape panics, whatever they are and whatever follows them.
pub char_escape_panics :
    (l : Lexer) (a b c d e f : ℕ) (rest : Text)
    → l.chars ≡ a ∷ b ∷ c ∷ d ∷ e ∷ f ∷ rest
    → IsHex a
    → IsHex b
    → IsHex c
    → IsHex d
    → IsHex e
    → IsHex f
    → char_escape l ≡ panic
unfolding char_escape
char_escape_panics l a b c d e f rest text ha hb hc hd he hf =
    digit_or-panic (pure none) _ l a _ text ha (λ _ l₁ t₁.
      digit_or-panic _ _ l₁ b _ t₁ hb (λ _ l₂ t₂. digit_or-panic _ _ l₂ c _ t₂ hc (λ _ l₃ t₃.
        digit_or-panic _ _ l₃ d _ t₃ hd (λ _ l₄ t₄.
          digit_or-panic _ _ l₄ e _ t₄ he
            (λ _ l₅ t₅. digit_or-panic _ _ l₅ f rest t₅ hf (λ _ l₆ t₆. refl))))))
