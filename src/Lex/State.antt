-- ===== src/Lex/State.antt =====
-- The `Lexer` of src/parsing/lex.rs and the operations that move it.
--
-- A run changes the lexer and returns a value, panics, or runs out of fuel. `chars` is the rest of
-- the text with the byte offset at which it begins; `index` is a `u32`, so an offset wraps in it.
use kli.Prelude.{
  ℕ, zero, suc, ◌+◌, ◌%◌, ◌^◌, Bool, false, Option, none, some, List, [], ◌∷◌, ltb, ◌==◌,
  if◌then◌else◌, length,
}
use kli.Prelude.Outcome.{Outcome, ok, panic, out_of_fuel}
use kli.Types.Inhabited.{NoError}
use kli.Lex.Tokens.{Text, SrcLoc, Token, TokenKind}

-- The messages that the lexer gives the reporter.
pub data Message : Type 0 where
  invalid_integer_literal_size integer_too_large expected_uint expected_int : Message
  invalid_escape_character : ℕ → Message
  expected_end_of_string invalid_character_escape expected_end_of_char : Message
  unrecognised_char : ℕ → Message

pub record Diagnostic : Type 0 where
  pub msg : Message
  pub loc : SrcLoc

pub record Lexer : Type 0 where
  pub offset : ℕ
  pub chars : Text
  pub src : Text
  pub file : ℕ
  pub line : ℕ
  pub index : ℕ
  pub start_line : ℕ
  pub start_index : ℕ
  pub diag : List Diagnostic

-- `Lexer::new`.
abbrev pub new : ℕ → Text → Lexer
new file src = record {
  offset = 0;
  chars = src;
  src = src;
  file = file;
  line = 1;
  index = 0;
  start_line = 1;
  start_index = 0;
  diag = [];
}

abbrev pub Run : Type 0 → Type 0
Run A = Lexer → Outcome NoError (A × Lexer)

abbrev pub pure : {A : Type 0} → A → Run A
pure a l = ok (a, l)

abbrev pub continue :
    {A B : Type 0} → Outcome NoError (A × Lexer) → (A → Run B) → Outcome NoError (B × Lexer)
continue panic f = panic
continue out_of_fuel f = out_of_fuel
continue (Outcome.err e) f = Outcome.err e
continue (ok (a, l)) f = f a l

infixl 1 ◌>>=◌ ◌>>◌
abbrev pub ◌>>=◌ : {A B : Type 0} → Run A → (A → Run B) → Run B
(m >>= f) l = continue (m l) f

abbrev pub ◌>>◌ : {A B : Type 0} → Run A → Run B → Run B
m >> k = m >>= λ _. k

-- `char::len_utf8`.
unfoldable pub len_utf8 : ℕ → ℕ
len_utf8 c = if ltb c 0x80 then 1 else if ltb c 0x800 then 2 else if ltb c 0x1_0000 then 3 else 4

abbrev pub moved : ℕ → Text → ℕ → Lexer → Lexer
moved c cs line l = record l {
  offset = l.offset + len_utf8 c;
  chars = cs;
  index = (l.offset + len_utf8 c) % 2 ^ 32;
  line = line;
}

abbrev pub advance : Text → Run (Option ℕ)
advance [] l = ok (none, l)
advance (c ∷ cs) l =
    if c == b'\n'
    then (if ltb (l.line + 1) (2 ^ 32) then ok (some c, moved c cs (l.line + 1) l) else panic)
    else ok (some c, moved c cs l.line l)

unfoldable pub next_char : Run (Option ℕ)
unfolding len_utf8
next_char l = advance l.chars l

abbrev pub first_char : Text → Option ℕ
first_char [] = none
first_char (c ∷ _) = some c

abbrev pub peek_char : Run (Option ℕ)
peek_char l = ok (first_char l.chars, l)

abbrev pub holds : (ℕ → Bool) → Option ℕ → Bool
holds f none = false
holds f (some c) = f c

-- `match_char_with`, and `match_char` and `match_char_mapped` by it.
unfoldable pub match_char_with : (ℕ → Bool) → Run (Option ℕ)
unfolding next_char
match_char_with f l = if holds f (first_char l.chars) then next_char l else ok (none, l)

unfoldable pub match_char : ℕ → Run (Option ℕ)
unfolding match_char_with
match_char c = match_char_with (λ p. p == c)

abbrev pub mapped : {A : Type 0} → (ℕ → Option A) → Option ℕ → Option A
mapped f none = none
mapped f (some c) = f c

unfoldable pub match_char_mapped : {A : Type 0} → (ℕ → Option A) → Run (Option A)
unfolding next_char
match_char_mapped f l = elim (mapped f (first_char l.chars)) [
  | none ↦ ok (none, l)
  | some a ↦ (next_char >> pure (some a)) l
]

abbrev pub current_loc : Lexer → SrcLoc
current_loc l = record { line = l.start_line; file = l.file }

abbrev pub new_token : TokenKind → Run (Option Token)
new_token kind l = ok (some (record { loc = current_loc l; kind = kind }), l)

abbrev pub add_diagnostic : Message → Run (Unit {0})
add_diagnostic msg l =
    ok (tt, record l { diag = record { msg = msg; loc = current_loc l } ∷ l.diag })

-- A diagnostic, and no token.
abbrev pub fail : {A : Type 0} → Message → Run (Option A)
fail msg = add_diagnostic msg >> pure none

-- `while let Some(c) = self.match_char_with(f)`, with the characters that it passes.
unfoldable pub take_matching : (ℕ → Bool) → ℕ → Run Text
unfolding match_char_with
take_matching f zero = λ l. out_of_fuel
take_matching f (suc n) = match_char_with f >>= λ o. elim o [
  | none ↦ pure []
  | some c ↦ take_matching f n >>= λ rest. pure (c ∷ rest)
]

-- The fuel of such a loop: one step for each character that is left, and the one that stops.
abbrev pub while_matching : (ℕ → Bool) → Run Text
while_matching f l = take_matching f (suc (length l.chars)) l
