-- ===== src/Lex/Radix.antt =====
-- Number literals with a radix, `0x…` and `0b…`, in `num_token` of src/parsing/lex.rs: their digits are
-- pushed into a `u32`, which is written as decimal text and parsed again.
use mathlib.Core.Path.{subst}
use kli.Prelude.{
  ℕ, zero, suc, ◌+◌, ◌*◌, ◌^◌, ◌≤◌, ◌<◌, ◌≡◌, refl, ap, sym, ◌∙◌, inl, inr, true, false, Option,
  none, some, [], ◌∷◌, ◌++◌, arith, ltb, lt→ltb, ◌==◌, ==_iff, length, length-append, Bool-cases,
  Option-cases,
}
use kli.Prelude.Outcome.{Outcome, ok}
use kli.Types.Inhabited.{NoError}
use kli.Lex.Tokens.{Text, Token, number}
use kli.Lex.State.{
  Lexer, moved, first_char, mapped, next_char, match_char, match_char_mapped, take_matching,
  current_loc, Run, continue, pure, fail, integer_too_large,
}
use kli.Lex.Number.{
  to_digit, checked_push, radix_digits, number_suffix, parse_u64, num_token, suffix_from, and_then,
  radix_number, number_token,
}
use kli.Lex.Decimal.{parse_u64-to_string}

-- The number that digits of a radix stand for, behind digits of the value `v`.
abbrev pub value_in : ℕ → ℕ → Text → Option ℕ
value_in radix v [] = some v
value_in radix v (c ∷ cs) = elim (to_digit radix c) [
  | none ↦ none
  | some d ↦ value_in radix (v * radix + d) cs
]

-- The radix of a letter behind the zero.
abbrev pub letter_radix : ℕ → Option ℕ
letter_radix c = elim (c == b'x') [
  | true ↦ some 16
  | false ↦ elim (c == b'b') [ true ↦ some 2 | false ↦ none ]
]

-- A text that begins with no digit of the radix, and with no suffix.
abbrev pub Follows : ℕ → Text → Type 0
Follows radix [] = Unit
Follows radix (c ∷ _) = (to_digit radix c ≡ none) × ((c == b'U') ≡ false) × ((c == b'I') ≡ false)

le-value_in : (radix v n : ℕ) (ds : Text) → 1 ≤ radix → value_in radix v ds ≡ some n → v ≤ n
le-value_in radix v n [] pos h = ground arith
le-value_in radix v n (c ∷ cs) pos h = elim (Option-cases (to_digit radix c)) [
  | inl e ↦ cc (rw (e, value_in) at h)
  | inr (d, e) ↦
      let more = le-value_in radix (v * radix + d) n cs pos (rw (e, value_in) at h) in
      let grows : v ≤ v * radix = grind arith in omega (arith, more, grows)
]

next_char-at :
    (l : Lexer) (c : ℕ) (cs : Text)
    → l.chars ≡ c ∷ cs
    → (c == b'\n') ≡ false
    → next_char l ≡ ok (some c, moved c cs l.line l)
unfolding next_char
next_char-at l c cs h e = rw (h, e) refl

digit-line : (radix c d : ℕ) → to_digit radix c ≡ some d → (c == b'\n') ≡ false
digit-line radix c d h = ground arith

first-Follows :
    (radix : ℕ) (rest : Text)
    → Follows radix rest
    → mapped (to_digit radix) (first_char rest) ≡ none
first-Follows radix [] h = refl
first-Follows radix (c ∷ cs) h = h.0

match_char_mapped-none :
    (f : ℕ → Option ℕ) (l : Lexer)
    → mapped f (first_char l.chars) ≡ none
    → match_char_mapped f l ≡ ok (none, l)
unfolding match_char_mapped
match_char_mapped-none f l h = rw (match_char_mapped, h) refl

match_char_mapped-some :
    (f : ℕ → Option ℕ) (l : Lexer) (c d : ℕ) (cs : Text)
    → l.chars ≡ c ∷ cs
    → f c ≡ some d
    → (c == b'\n') ≡ false
    → match_char_mapped f l ≡ ok (some d, moved c cs l.line l)
unfolding match_char_mapped
match_char_mapped-some f l c d cs at e line =
    let hit : mapped f (first_char l.chars) ≡ some d = ap (λ t. mapped f (first_char t)) at ∙ e in
    rw (match_char_mapped, hit) (rw (next_char-at l c cs at line) refl)

-- One round of the loop.
digit_step :
    (radix f v d v' : ℕ) (l l₁ : Lexer) (r : Outcome NoError (Option ℕ × Lexer))
    → match_char_mapped (to_digit radix) l ≡ ok (some d, l₁)
    → checked_push radix v d ≡ some v'
    → radix_digits radix f v' l₁ ≡ r
    → radix_digits radix (suc f) v l ≡ r
unfolding radix_digits
digit_step radix f v d v' l l₁ r hit pushed run =
    ap
      (λ o. continue o (λ x. elim x [
        | none ↦ pure (some v)
        | some d ↦ elim (checked_push radix v d) [
          | none ↦ fail integer_too_large
          | some next ↦ radix_digits radix f next
        ]
      ]))
      hit
    ∙ ap
        (λ (o : Option ℕ).
          the_run
            (elim o [ none ↦ fail integer_too_large | some next ↦ radix_digits radix f next ]))
        pushed
    ∙ run
  where
    the_run : Run (Option ℕ) → Outcome NoError (Option ℕ × Lexer)
    the_run m = m l₁

-- The loop over the digits stops behind them, with their value.
radix_digits-value :
    (radix : ℕ) (ds rest : Text) (f v n : ℕ) (l : Lexer)
    → 1 ≤ radix
    → l.chars ≡ ds ++ rest
    → length ds < f
    → value_in radix v ds ≡ some n
    → n < 2 ^ 32
    → Follows radix rest
    → (l' : Lexer) × (radix_digits radix f v l ≡ ok (some n, l')) × (l'.chars ≡ rest)
unfolding radix_digits
radix_digits-value radix ds rest zero v n l pos at long value room last = absurd (omega arith)
radix_digits-value radix [] rest (suc f) v n l pos at long value room last =
    let stop : mapped (to_digit radix) (first_char l.chars) ≡ none =
      ap (λ t. mapped (to_digit radix) (first_char t)) at ∙ first-Follows radix rest last in
    (
      l,
      rw (match_char_mapped-none (to_digit radix) l stop, radix_digits) (ap (λ o. ok (o, l)) value),
      at,
    )
radix_digits-value radix (c ∷ cs) rest (suc f) v n l pos at long value room last =
    elim (Option-cases (to_digit radix c)) [
      | inl e ↦ cc (rw (e, value_in) at value)
      | inr (d, e) ↦
          let value' = rw (e, value_in) at value in
          let below = le-value_in radix (v * radix + d) n cs pos value' in
          let (l', run, end) =
            radix_digits-value radix cs rest f (v * radix + d) n (moved c (cs ++ rest) l.line l) pos
              refl (omega arith) value' room last in
          let hit =
            match_char_mapped-some (to_digit radix) l c d (cs ++ rest) at e
              (digit-line radix c d e) in
          let fits : ltb (v * radix + d) (2 ^ 32) ≡ true = lt→ltb _ _ (omega arith) in
          let pushed : checked_push radix v d ≡ some (v * radix + d) = rw fits refl in
          (l', digit_step radix f v d (v * radix + d) l _ (ok (some n, l')) hit pushed run, end)
    ]

number_suffix-none :
    (radix : ℕ) (l : Lexer) → Follows radix l.chars → number_suffix l ≡ ok (some none, l)
unfolding number_suffix
number_suffix-none radix l last = at_first l.chars last
  where
    at_first : (t : Text) → Follows radix t → suffix_from (first_char t) l ≡ ok (some none, l)
    at_first [] last = refl
    at_first (c ∷ cs) (_, no_u, no_i) = rw (no_u, no_i) refl

-- What is left to do behind the radix.
abbrev rest_of : ℕ → Run (Option Token)
rest_of radix =
    and_then (radix_number radix)
      (λ src. and_then number_suffix (λ kind. number_token kind (parse_u64 src)))

-- The lexer behind a zero and a letter.
abbrev behind : ℕ → Text → Lexer → Lexer
behind c cs l = moved c cs l.line (moved b'0' (c ∷ cs) l.line l)

num_token-x :
    (l : Lexer) (cs : Text)
    → num_token (record l { chars = b'0' ∷ b'x' ∷ cs }) ≡ rest_of 16 (behind b'x' cs l)
unfolding num_token take_matching match_char
num_token-x l cs = refl

num_token-b :
    (l : Lexer) (cs : Text)
    → num_token (record l { chars = b'0' ∷ b'b' ∷ cs }) ≡ rest_of 2 (behind b'b' cs l)
unfolding num_token take_matching match_char
num_token-b l cs = refl

-- Behind the zero and the letter the number is read with the radix.
num_token-letter :
    (l : Lexer) (c radix : ℕ) (cs : Text)
    → l.chars ≡ b'0' ∷ c ∷ cs
    → letter_radix c ≡ some radix
    → (num_token l ≡ rest_of radix (behind c cs l)) × (1 ≤ radix)
num_token-letter l c radix cs at letter = elim (Bool-cases (c == b'x')) [
  | inl e ↦
      let same : c ≡ b'x' = (==_iff c b'x').0 e in
      let radix' : 16 ≡ radix = cc (rw (e, letter_radix) at letter) in
      let at' : l.chars ≡ b'0' ∷ b'x' ∷ cs = at ∙ ap (λ k. b'0' ∷ k ∷ cs) same in
      (
        ap (λ t. num_token (record l { chars = t })) at'
            ∙ num_token-x l cs
            ∙ ap (λ k. rest_of 16 (behind k cs l)) (sym same)
            ∙ ap (λ r. rest_of r (behind c cs l)) radix',
        omega arith,
      )
  | inr n ↦ elim (Bool-cases (c == b'b')) [
    | inl e ↦
        let same : c ≡ b'b' = (==_iff c b'b').0 e in
        let radix' : 2 ≡ radix = cc (rw (n, e, letter_radix) at letter) in
        let at' : l.chars ≡ b'0' ∷ b'b' ∷ cs = at ∙ ap (λ k. b'0' ∷ k ∷ cs) same in
        (
          ap (λ t. num_token (record l { chars = t })) at'
              ∙ num_token-b l cs
              ∙ ap (λ k. rest_of 2 (behind k cs l)) (sym same)
              ∙ ap (λ r. rest_of r (behind c cs l)) radix',
          omega arith,
        )
    | inr n' ↦ cc (rw (n, n', letter_radix) at letter)
  ]
]

-- On a zero, a letter for a radix (x for 16, b for 2) and digits of it, with a value below 2 ^ 32 and
-- with neither a digit of the radix nor a suffix behind them, `num_token` returns the token of that
-- value, without a size, and stops behind the digits.
pub num_token-value :
    (l : Lexer) (c radix n : ℕ) (ds rest : Text)
    → l.chars ≡ b'0' ∷ c ∷ (ds ++ rest)
    → letter_radix c ≡ some radix
    → value_in radix 0 ds ≡ some n
    → n < 2 ^ 32
    → Follows radix rest
    → (t : Token) × (l' : Lexer) × (num_token l ≡ ok (some t, l'))
      × (t.kind ≡ number n none)
      × (l'.chars ≡ rest)
num_token-value l c radix n ds rest at letter value room last =
    let (begun, pos) = num_token-letter l c radix (ds ++ rest) at letter in
    let start = behind c (ds ++ rest) l in
    let (l', run, end) =
      radix_digits-value radix ds rest (suc (length start.chars)) 0 n start pos refl
        (omega (arith, length-append ds rest)) value room last in
    let none_behind : number_suffix l' ≡ ok (some none, l') =
      number_suffix-none radix l' (subst (Follows radix) (sym end) last) in
    let read = parse_u64-to_string n (omega arith) in
    (
      record { loc = current_loc l'; kind = number n none },
      l',
      begun ∙ rw (run, none_behind, read) refl,
      refl,
      end,
    )
