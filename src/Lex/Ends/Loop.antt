-- ===== src/Lex/Ends/Loop.antt =====
-- The loops over the characters end within the fuel that they are given.
use kli.Prelude.{
  ℕ, zero, suc, ◌≤◌, ◌<◌, ◌≡◌, refl, ◌⊎◌, inl, inr, Bool, not, some, [], ◌∷◌, arith, Option-cases,
  ◌==◌,
}
use kli.Lex.State.{
  Lexer, pure, match_char_with, match_char, match_char_mapped, fail, take_matching, while_matching,
  integer_too_large,
}
use kli.Lex.Number.{to_digit, checked_push, radix_digits}
use kli.Lex.Next.{skip_spaces, skip_whitespace, is_whitespace}
use kli.Lex.Ends.{
  Ends, left, Kept, ends_bind, ends_mono, match_char_with-Yields, match_char_mapped-Yields,
  fail-Kept,
}

-- Enough fuel ends the loop, and a character that it passes leaves less of the text.
pub take_matching-Ends :
    (f : ℕ → Bool) (n : ℕ) (l : Lexer)
    → left l < n
    → Ends (take_matching f n) l (λ cs l'. ((cs ≡ []) × (left l' ≤ left l)) ⊎ (left l' < left l))
unfolding take_matching
take_matching-Ends f zero l h = absurd (omega (arith, h))
take_matching-Ends f (suc n) l h =
    ends_bind (match_char_with f) _ l (match_char_with-Yields f l) (λ o l' p. elim p [
      | inl (e, kept) ↦ rw e (inr ([], l', refl, inl (refl, kept)))
      | inr (c, e, less) ↦ rw e (
          ends_bind (take_matching f n) (λ rest. pure (c ∷ rest)) l'
            (take_matching-Ends f n l' (omega arith))
            (λ cs l'' q. inr (
              c ∷ cs,
              l'',
              refl,
              inr (elim q [ inl r ↦ omega (arith, r.1) | inr r ↦ omega arith ]),
            )))
    ])

pub while_matching-Ends :
    (f : ℕ → Bool) (l : Lexer)
    → Ends (while_matching f) l (λ cs l'. ((cs ≡ []) × (left l' ≤ left l)) ⊎ (left l' < left l))
while_matching-Ends f l = take_matching-Ends f (suc (left l)) l (omega arith)

pub while_matching-Kept : (f : ℕ → Bool) → Kept (while_matching f)
while_matching-Kept f l =
    ends_mono (while_matching f) l (while_matching-Ends f l)
      (λ cs l' p. elim p [ inl q ↦ q.1 | inr q ↦ omega arith ])

pub radix_digits-Ends :
    (radix n num : ℕ) (l : Lexer)
    → left l < n
    → Ends (radix_digits radix n num) l (λ o l'. left l' ≤ left l)
unfolding radix_digits
radix_digits-Ends radix zero num l h = absurd (omega (arith, h))
radix_digits-Ends radix (suc n) num l h =
    ends_bind (match_char_mapped (to_digit radix)) _ l (match_char_mapped-Yields (to_digit radix) l)
      (λ o l' p. elim p [
        | inl (e, kept) ↦ rw e (inr (some num, l', refl, kept))
        | inr (d, e, less) ↦ rw e (elim (Option-cases (checked_push radix num d)) [
          | inl big ↦ rw big (
              ends_mono (fail integer_too_large) l' (fail-Kept integer_too_large l')
                (λ o l'' q. omega arith))
          | inr (next, fits) ↦ rw fits (
              ends_mono (radix_digits radix n next) l'
                (radix_digits-Ends radix n next l' (omega arith)) (λ o l'' q. omega arith))
        ])
      ])

pub skip_spaces-Ends :
    (n : ℕ) (l : Lexer) → left l < n → Ends (skip_spaces n) l (λ _ l'. left l' ≤ left l)
unfolding skip_spaces match_char
skip_spaces-Ends zero l h = absurd (omega (arith, h))
skip_spaces-Ends (suc n) l h =
    ends_bind (match_char_with is_whitespace) _ l (match_char_with-Yields is_whitespace l)
      (λ o l' p. elim p [
        | inr (c, e, less) ↦ rw e (
            ends_mono (skip_spaces n) l' (skip_spaces-Ends n l' (omega arith))
              (λ _ l'' q. omega arith))
        | inl (e, kept) ↦ rw e (
            ends_bind (match_char b'#') _ l' (match_char_with-Yields (λ p. p == b'#') l') (λ o l₂ q.
              elim q [
                | inl (e', kept') ↦ rw e' (inr (tt, l₂, refl, omega arith))
                | inr (c, e', less) ↦ rw e' (
                    ends_bind (while_matching (λ c. not (c == b'\n'))) (λ _. skip_spaces n) l₂
                      (while_matching-Kept (λ c. not (c == b'\n')) l₂)
                      (λ _ l₃ r.
                        ends_mono (skip_spaces n) l₃ (skip_spaces-Ends n l₃ (omega arith))
                          (λ _ l₄ s. omega arith)))
              ]))
      ])

pub skip_whitespace-Kept : Kept skip_whitespace
skip_whitespace-Kept l = skip_spaces-Ends (suc (left l)) l (omega arith)
