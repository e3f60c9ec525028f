-- ===== src/Lex/Ends/Next.antt =====
-- `next_token` takes a character from the text with each token, so that `lex` ends.
use kli.Prelude.{
  ℕ, zero, suc, ◌<◌, ◌≡◌, refl, ap, ◌∙◌, ◌⊎◌, inl, inr, Bool, Option, none, some, List, [], ◌∷◌,
  arith, length, ◌==◌, Option-cases,
}
use kli.Prelude.Outcome.{ok, panic}
use kli.Lex.Tokens.{
  Text, Token, TokenKind, dot, dot_dot, equal, thick_arrow, double_equal, minus, arrow, error,
}
use kli.Lex.Words.{word_kind}
use kli.Lex.State.{
  Lexer, new, Run, pure, ◌>>=◌, ◌>>◌, next_char, peek_char, first_char, match_char, new_token,
  add_diagnostic, unrecognised_char, while_matching,
}
use kli.Lex.Literal.{string_token, char_literal_token}
use kli.Lex.Next.{
  skip_whitespace, slice, current_token_src, is_ident_char, is_start_char, ident_token, single,
  single_or, is_numeric, token_at, start_token, punctuation, next_token, tokens, finish, lex,
}
use kli.Lex.Ends.{
  Ends, left, Kept, Yields, ends_bind, ends_mono, ends_if, ends_option, pure-Kept, bind-Kept,
  then-Kept, option-Kept, next_char-some, Text-cases, match_char-Kept, new_token-Kept,
}
use kli.Lex.Ends.Loop.{while_matching-Kept, skip_whitespace-Kept}
use kli.Lex.Ends.Number.{num_token-Yields}
use kli.Lex.Ends.Literal.{string_rest, string_rest-Kept, literal_rest-Kept}

-- After a character is taken, whatever keeps to the rest yields.
next_char-Yields :
    (m : Option ℕ → Run (Option Token)) (l : Lexer) (c : ℕ) (cs : Text)
    → l.chars ≡ c ∷ cs
    → ((o : Option ℕ) → Kept (m o))
    → Yields (next_char >>= m) l
next_char-Yields m l c cs e h = ends_bind next_char m l (next_char-some l c cs e) (λ o l' p.
    ends_mono (m o) l' (h o l') (λ t l'' q. inr (omega (arith, ap length e, ap length p.1))))

current_token_src-Kept : Kept current_token_src
unfolding current_token_src
current_token_src-Kept l = elim (Option-cases (slice l.start_index l.index l.src)) [
  | inl e ↦ inl (rw (e, current_token_src) refl)
  | inr (text, e) ↦ inr (text, l, rw (e, current_token_src) refl, omega arith)
]

ident_rest-Kept :
    Kept (while_matching is_ident_char >> current_token_src >>= λ text. new_token (word_kind text))
ident_rest-Kept =
    bind-Kept (while_matching is_ident_char >> current_token_src) _
      (then-Kept (while_matching is_ident_char) current_token_src
        (while_matching-Kept is_ident_char) current_token_src-Kept)
      (λ text. new_token-Kept (word_kind text))

single_or-Kept : (kind : TokenKind) (others : List (ℕ × TokenKind)) → Kept (single_or kind others)
single_or-Kept kind [] = new_token-Kept kind
single_or-Kept kind ((c, longer) ∷ others) = bind-Kept (match_char c) _ (match_char-Kept c) (λ o.
    option-Kept o (single_or kind others) (λ _. new_token longer) (single_or-Kept kind others)
      (λ _. new_token-Kept longer))

module _ (beyond_ascii : ℕ → Bool) where
  token_at-Yields :
      (l : Lexer) (c : ℕ) (cs : Text) → l.chars ≡ c ∷ cs → Yields (token_at beyond_ascii c) l
  unfolding string_token char_literal_token ident_token
  token_at-Yields l c cs e =
      let one = λ (kind : TokenKind) (others : List (ℕ × TokenKind)).
        next_char-Yields (λ _. single_or kind others) l c cs e (λ _. single_or-Kept kind others) in
      ends_if (c == b'.') _ _ l (one dot ((b'.', dot_dot) ∷ [])) (
        ends_if (c == b'=') _ _ l (one equal ((b'>', thick_arrow) ∷ (b'=', double_equal) ∷ [])) (
          ends_if (c == b'-') _ _ l (one minus ((b'>', arrow) ∷ [])) (
            ends_if (c == b'\'') _ _ l
              (next_char-Yields _ l c cs e
                (λ o. option-Kept o _ _ (pure-Kept none) (λ _. literal_rest-Kept)))
              (ends_if (is_start_char c) _ _ l
                (next_char-Yields _ l c cs e
                  (λ o. option-Kept o _ _ (pure-Kept none) (λ _. ident_rest-Kept)))
                (ends_if (is_numeric beyond_ascii c) _ _ l (num_token-Yields l) (
                  ends_if (c == b'"') _ _ l
                    (next_char-Yields (λ _. string_rest) l c cs e (λ _. string_rest-Kept))
                    (ends_bind (add_diagnostic (unrecognised_char c)) (λ _. single error) l
                      {P = λ _ l'. l'.chars ≡ l.chars} (inr (tt, _, refl, refl))
                      (λ _ l' p.
                        ends_mono (single error) l'
                          (next_char-Yields (λ _. new_token error) l' c cs (p ∙ e)
                            (λ _. new_token-Kept error))
                          (λ t l'' q. elim q [
                            | inl n ↦ inl n
                            | inr less ↦ inr (omega (arith, ap length p))
                          ])))))))))

  start_token-Kept : Kept start_token
  start_token-Kept l = inr (tt, _, refl, omega arith)

  abbrev dispatch : ℕ → Run (Option Token)
  dispatch c = elim (punctuation c) [ some kind ↦ single kind | none ↦ token_at beyond_ascii c ]

  abbrev at_first : Option ℕ → Run (Option Token)
  at_first o = elim o [ none ↦ pure none | some c ↦ start_token >> dispatch c ]

  -- Every token takes at least one character.
  pub next_token-Yields : (l : Lexer) → Yields (next_token beyond_ascii) l
  unfolding next_token
  next_token-Yields l =
      ends_bind skip_whitespace (λ _. peek_char >>= at_first) l (skip_whitespace-Kept l)
        (λ _ l₁ kept. elim (Text-cases l₁.chars) [
          | inl e ↦ at_end l l₁ e
          | inr (c, cs, e) ↦
              ends_bind peek_char at_first l₁ {P = λ o l₂. (o ≡ some c) × (l₂.chars ≡ l₁.chars)}
                (inr (first_char l₁.chars, l₁, refl, (ap first_char e, refl)))
                (λ o l₂ p. rw p.0 (
                  ends_bind start_token (λ _. dispatch c) l₂ {P = λ _ l₃. l₃.chars ≡ l₁.chars}
                    (inr (tt, _, refl, p.1))
                    (λ _ l₃ q. ends_mono (dispatch c) l₃ (at_char l₃ c cs (q ∙ e)) (λ t l₄ r.
                      elim r [ inl n ↦ inl n | inr less ↦ inr (omega (arith, ap length q)) ]))))
        ])
    where
      at_char : (l : Lexer) (c : ℕ) (cs : Text) → l.chars ≡ c ∷ cs → Yields (dispatch c) l
      at_char l c cs e =
          ends_option (punctuation c) (token_at beyond_ascii c) single l (token_at-Yields l c cs e)
            (λ kind _. next_char-Yields (λ _. new_token kind) l c cs e (λ _. new_token-Kept kind))

      at_end :
          (l l₁ : Lexer)
          → l₁.chars ≡ []
          → Ends (peek_char >>= at_first) l₁ (λ o l'. (o ≡ none) ⊎ (left l' < left l))
      at_end l l₁ e = inr (none, l₁, ap (λ cs. at_first (first_char cs) l₁) e, inl refl)

  abbrev more : ℕ → Token → Run (List Token)
  more n token = tokens beyond_ascii n >>= λ rest. pure (token ∷ rest)

  -- On more fuel than characters are left, the loop ends.
  tokens-Ends : (n : ℕ) (l : Lexer) → left l < n → Ends (tokens beyond_ascii n) l (λ _ l'. Unit)
  unfolding tokens
  tokens-Ends zero l h = absurd (omega (arith, h))
  tokens-Ends (suc n) l h =
      ends_bind (next_token beyond_ascii)
        (λ o. elim o [ none ↦ pure [] | some token ↦ more n token ]) l (next_token-Yields l)
        (λ o l' p. ends_option o (pure []) (more n) l' (inr ([], l', refl, tt)) (λ token e. elim p [
          | inl stop ↦ cc (stop, e)
          | inr less ↦
              ends_bind (tokens beyond_ascii n) (λ rest. pure (token ∷ rest)) l'
                (tokens-Ends n l' (omega arith)) (λ rest l'' _. inr (token ∷ rest, l'', refl, tt))
        ]))

-- Whatever the text, `lex` ends: it returns its tokens or panics.
pub lex-ends :
    (beyond_ascii : ℕ → Bool) (file : ℕ) (src : Text)
    → (lex beyond_ascii file src ≡ panic)
      ⊎ ((result : Bool × List Token × Token) × (lex beyond_ascii file src ≡ ok result))
unfolding lex
lex-ends beyond_ascii file src =
    elim (tokens-Ends beyond_ascii (suc (length src)) (new file src) (omega arith)) [
      | inl e ↦ inl (ap finish e)
      | inr (ts, l, e, _) ↦ inr (_, ap finish e)
    ]
