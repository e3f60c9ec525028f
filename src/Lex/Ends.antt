-- ===== src/Lex/Ends.antt =====
-- What the runs of the lexer do to the rest of the text: they end, and none makes it longer.
--
-- `Ends` is the logic, `Kept` is the rule of a run that leaves at most the text that it was given.
pub mod Loop
pub mod Number
pub mod Literal
pub mod Next
use kli.Prelude.{
  ℕ, zero, suc, ◌+◌, ◌^◌, ◌≤◌, ◌<◌, ◌≡◌, refl, ◌∙◌, ap, ◌⊎◌, inl, inr, Bool, true, false, Option,
  none, some, List, [], ◌∷◌, arith, length, if◌then◌else◌, Bool-cases, Option-cases, ◌==◌, ltb,
}
use kli.Prelude.Outcome.{Outcome, ok, panic, out_of_fuel}
use kli.Types.Inhabited.{NoError}
use kli.Lex.Tokens.{Text, Token, TokenKind}
use kli.Lex.State.{
  Lexer, Run, pure, ◌>>=◌, ◌>>◌, continue, advance, moved, next_char, peek_char, first_char, holds,
  mapped, match_char_with, match_char, match_char_mapped, new_token, Message, add_diagnostic, fail,
  take_matching, while_matching, len_utf8,
}
use kli.Lex.Number.{and_then}

-- The run panics, or returns a value and a lexer of which `Q` holds: it does not run out of fuel.
abbrev pub Ends : {A : Type 0} → Run A → Lexer → (A → Lexer → Type 0) → Type 0
Ends {A = A} m l Q = (m l ≡ panic) ⊎ ((a : A) × (l' : Lexer) × (m l ≡ ok (a, l')) × Q a l')

abbrev pub left : Lexer → ℕ
left l = length l.chars

abbrev pub Kept : {A : Type 0} → Run A → Type 0
Kept m = (l : Lexer) → Ends m l (λ _ l'. left l' ≤ left l)

-- The run takes a character from the text, or returns nothing.
abbrev pub Yields : {A : Type 0} → Run (Option A) → Lexer → Type 0
Yields m l = Ends m l (λ o l'. (o ≡ none) ⊎ (left l' < left l))

pub ends_bind :
    {A B : Type 0} (m : Run A) (f : A → Run B) (l : Lexer) {P : A → Lexer → Type 0}
    {Q : B → Lexer → Type 0}
    → Ends m l P
    → ((a : A) (l' : Lexer) → P a l' → Ends (f a) l' Q)
    → Ends (m >>= f) l Q
ends_bind m f l (inl e) h = inl (rw e refl)
ends_bind m f l (inr (a, l', e, p)) h = elim (h a l' p) [
  | inl e' ↦ inl (rw e e')
  | inr (b, l'', e', q) ↦ inr (b, l'', rw e e', q)
]

pub ends_mono :
    {A : Type 0} (m : Run A) (l : Lexer) {P Q : A → Lexer → Type 0}
    → Ends m l P
    → ((a : A) (l' : Lexer) → P a l' → Q a l')
    → Ends m l Q
ends_mono m l (inl e) h = inl e
ends_mono m l (inr (a, l', e, p)) h = inr (a, l', e, h a l' p)

pub pure-Kept : {A : Type 0} (a : A) → Kept (pure a)
pure-Kept a l = inr (a, l, refl, omega arith)

pub bind-Kept :
    {A B : Type 0} (m : Run A) (f : A → Run B) → Kept m → ((a : A) → Kept (f a)) → Kept (m >>= f)
bind-Kept m f hm hf l =
    ends_bind m f l (hm l) (λ a l' p. ends_mono (f a) l' (hf a l') (λ b l'' q. omega arith))

pub then-Kept : {A B : Type 0} (m : Run A) (k : Run B) → Kept m → Kept k → Kept (m >> k)
then-Kept m k hm hk = bind-Kept m (λ _. k) hm (λ _. hk)

pub if-Kept : {A : Type 0} (b : Bool) (m k : Run A) → Kept m → Kept k → Kept (if b then m else k)
if-Kept true m k hm hk = hm
if-Kept false m k hm hk = hk

pub and_then-Kept :
    {A B : Type 0} (m : Run (Option A)) (f : A → Run (Option B))
    → Kept m
    → ((a : A) → Kept (f a))
    → Kept (and_then m f)
and_then-Kept {A = A} {B = B} m f hm hf = bind-Kept m _ hm per
  where
    per : (o : Option A) → Kept {A = Option B} (elim o [ none ↦ pure none | some a ↦ f a ])
    per none = pure-Kept none
    per (some a) = hf a

pub ends_if :
    {A : Type 0} (b : Bool) (m k : Run A) (l : Lexer) {Q : A → Lexer → Type 0}
    → Ends m l Q
    → Ends k l Q
    → Ends (if b then m else k) l Q
ends_if true m k l hm hk = hm
ends_if false m k l hm hk = hk

pub ends_option :
    {A B : Type 0} (o : Option A) (m : Run B) (f : A → Run B) (l : Lexer) {Q : B → Lexer → Type 0}
    → Ends m l Q
    → ((a : A) → o ≡ some a → Ends (f a) l Q)
    → Ends (elim o [ none ↦ m | some a ↦ f a ]) l Q
ends_option none m f l hm hf = hm
ends_option (some a) m f l hm hf = hf a refl

pub option-Kept :
    {A B : Type 0} (o : Option A) (m : Run B) (f : A → Run B)
    → Kept m
    → ((a : A) → Kept (f a))
    → Kept (elim o [ none ↦ m | some a ↦ f a ])
option-Kept none m f hm hf = hm
option-Kept (some a) m f hm hf = hf a

-- The next character is taken, if there is one.
pub next_char-some :
    (l : Lexer) (c : ℕ) (cs : Text)
    → l.chars ≡ c ∷ cs
    → Ends next_char l (λ o l'. (o ≡ some c) × (l'.chars ≡ cs))
unfolding next_char
next_char-some l c cs e = rw e (elim (Bool-cases (c == b'\n')) [
  | inl nl ↦ elim (Bool-cases (ltb (l.line + 1) (2 ^ 32))) [
    | inl small ↦ rw (nl, small) (inr (some c, moved c cs (l.line + 1) l, refl, (refl, refl)))
    | inr large ↦ rw (nl, large) (inl refl)
  ]
  | inr other ↦ rw other (inr (some c, moved c cs l.line l, refl, (refl, refl)))
])

pub Text-cases : (cs : Text) → (cs ≡ []) ⊎ ((c : ℕ) × (rest : Text) × (cs ≡ c ∷ rest))
Text-cases [] = inl refl
Text-cases (c ∷ rest) = inr (c, rest, refl)

next_char-none : (l : Lexer) → l.chars ≡ [] → next_char l ≡ ok (none, l)
unfolding next_char
next_char-none l e = rw e refl

pub next_char-Kept : Kept next_char
next_char-Kept l = elim (Text-cases l.chars) [
  | inl e ↦ inr (none, l, next_char-none l e, omega arith)
  | inr (c, cs, e) ↦
      ends_mono next_char l (next_char-some l c cs e)
        (λ o l' p. omega (arith, ap length e, ap length p.1))
]

-- `match_char_with` takes a character or returns nothing.
pub match_char_with-Yields :
    (f : ℕ → Bool) (l : Lexer)
    → Ends
        (match_char_with f)
        l
        (λ o l'. ((o ≡ none) × (left l' ≤ left l)) ⊎ ((c : ℕ) × (o ≡ some c) × (left l' < left l)))
unfolding match_char_with
match_char_with-Yields f l = elim (Bool-cases (holds f (first_char l.chars))) [
  | inr e ↦ rw e (inr (none, l, refl, inl (refl, omega arith)))
  | inl e ↦ elim (Text-cases l.chars) [
    | inl nil ↦ cc (rw nil at e)
    | inr (c, cs, more) ↦ rw e (
        ends_mono next_char l (next_char-some l c cs more)
          (λ o l' p. inr (c, p.0, omega (arith, ap length more, ap length p.1))))
  ]
]

pub match_char_with-Kept : (f : ℕ → Bool) → Kept (match_char_with f)
match_char_with-Kept f l =
    ends_mono (match_char_with f) l (match_char_with-Yields f l)
      (λ o l' p. elim p [ inl q ↦ q.1 | inr (c, e, less) ↦ omega arith ])

pub match_char-Kept : (c : ℕ) → Kept (match_char c)
unfolding match_char
match_char-Kept c = match_char_with-Kept (λ p. p == c)

pub match_char_mapped-Yields :
    {A : Type 0} (f : ℕ → Option A) (l : Lexer)
    → Ends
        (match_char_mapped f)
        l
        (λ o l'. ((o ≡ none) × (left l' ≤ left l)) ⊎ ((a : A) × (o ≡ some a) × (left l' < left l)))
unfolding match_char_mapped
match_char_mapped-Yields f l = elim (Option-cases (mapped f (first_char l.chars))) [
  | inl e ↦ rw (e, match_char_mapped) (inr (none, l, refl, inl (refl, omega arith)))
  | inr (a, e) ↦ elim (Text-cases l.chars) [
    | inl nil ↦ cc (rw nil at e)
    | inr (c, cs, more) ↦
        rw (e, match_char_mapped)
          (ends_bind next_char (λ _. pure (some a)) l (next_char-some l c cs more)
            (λ o l' p.
              inr (some a, l', refl, inr (a, refl, omega (arith, ap length more, ap length p.1)))))
  ]
]

pub match_char_mapped-Kept : {A : Type 0} (f : ℕ → Option A) → Kept (match_char_mapped f)
match_char_mapped-Kept f l =
    ends_mono (match_char_mapped f) l (match_char_mapped-Yields f l)
      (λ o l' p. elim p [ inl q ↦ q.1 | inr (c, e, less) ↦ omega arith ])

pub peek_char-Kept : Kept peek_char
peek_char-Kept l = inr (first_char l.chars, l, refl, omega arith)

pub new_token-Kept : (kind : TokenKind) → Kept (new_token kind)
new_token-Kept kind l = inr (_, l, refl, omega arith)

pub add_diagnostic-Kept : (msg : Message) → Kept (add_diagnostic msg)
add_diagnostic-Kept msg l = inr (tt, _, refl, omega arith)

pub fail-Kept : {A : Type 0} (msg : Message) → Kept (fail {A = A} msg)
fail-Kept msg =
    then-Kept (add_diagnostic msg) (pure none) (add_diagnostic-Kept msg) (pure-Kept none)
