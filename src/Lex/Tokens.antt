-- ===== src/Lex/Tokens.antt =====
-- src/parsing/tokens.rs: the tokens and what they print. A `char` is its code point, and a `String` the
-- list of its code points. The token of a keyword is named for its word.
use Prim.Native.Char.{code}
use Prim.Native.String.{String}
use kli.Prelude.{
  ℕ, zero, suc, ◌+◌, ◌/◌, ◌%◌, Bool, true, false, ◌&&◌, Option, none, some, List, [], ◌∷◌, ◌++◌,
  ◌==◌, if◌then◌else◌,
}

abbrev pub Text : Type 0
Text = List ℕ

abbrev pub codes : String → Text
codes String.[] = []
codes (String.◌∷◌ c s) = code c ∷ codes s

-- The derived equality of texts.
abbrev pub text_eq : Text → Text → Bool
text_eq [] [] = true
text_eq [] (_ ∷ _) = false
text_eq (_ ∷ _) [] = false
text_eq (c ∷ s) (d ∷ t) = c == d && text_eq s t

pub record SrcLoc : Type 0 where
  pub line : ℕ
  pub file : ℕ

pub data IntegerSize : Type 0 where
  int64 int32 int8 : IntegerSize

pub data NumberKind : Type 0 where
  unsigned signed : IntegerSize → NumberKind

pub data TokenKind : Type 0 where
  left_brace right_brace equal coma plus minus slash dot_dot star caret dot lesser greater :
      TokenKind
  left_paren right_paren left_bracket right_bracket pipe semi colon arrow thick_arrow : TokenKind
  double_equal at error eof addr_of_word fun_word imm_word mut_word borrow_word in_word : TokenKind
  for_word panic_word unsafe_word string_word bool_word let_word case_word static_word : TokenKind
  ref_word impl_word char_word true_word false_word end_word do_word type_word while_word :
      TokenKind
  with_word import_word as_word and_word return_word or_word bor_word band_word : TokenKind
  number : ℕ → Option NumberKind → TokenKind
  ident : Text → TokenKind
  string_literal : Text → TokenKind
  char_literal : ℕ → TokenKind

pub record Token : Type 0 where
  pub loc : SrcLoc
  pub kind : TokenKind

abbrev pub size_str : IntegerSize → Text
size_str int32 = codes "32"
size_str int64 = codes "64"
size_str int8 = codes "8"

-- A number in decimal, on as many steps as it has digits at most.
unfoldable pub decimal_onto : ℕ → ℕ → Text → Text
decimal_onto zero n rest = rest
decimal_onto (suc k) n rest =
    let more = decimal_onto k (n / 10) ((b'0' + n % 10) ∷ rest) in
    if n / 10 == 0 then (b'0' + n % 10) ∷ rest else more

-- `to_string` of a `u64`, which has at most 20 digits.
unfoldable pub to_string : ℕ → Text
unfolding decimal_onto
to_string n = decimal_onto 20 n []

abbrev pub suffix : Option NumberKind → Text
suffix none = []
suffix (some (signed size)) = size_str size
suffix (some (unsigned size)) = size_str size

-- `Display`.
unfoldable pub display : TokenKind → Text
unfolding to_string
display (char_literal c) = b'\'' ∷ c ∷ b'\'' ∷ []
display (string_literal s) = b'"' ∷ s ++ b'"' ∷ []
display (number n kind) = to_string n ++ suffix kind
display (ident name) = name
display left_brace = codes "{"
display right_brace = codes "}"
display equal = codes "="
display coma = codes ","
display plus = codes "+"
display minus = codes "-"
display slash = codes "/"
display dot_dot = codes ".."
display star = codes "*"
display caret = codes "^"
display dot = codes "."
display lesser = codes "<"
display greater = codes ">"
display left_paren = codes "("
display right_paren = codes ")"
display left_bracket = codes "["
display right_bracket = codes "]"
display pipe = codes "|"
display semi = codes ";"
display colon = codes ":"
display arrow = codes "->"
display thick_arrow = codes "=>"
display double_equal = codes "=="
display at = codes "@"
display error = codes "{error}"
display eof = codes "EOF"
display addr_of_word = codes "addr_of"
display fun_word = codes "fun"
display imm_word = codes "imm"
display mut_word = codes "mut"
display borrow_word = codes "borrow"
display in_word = codes "in"
display for_word = codes "for"
display panic_word = codes "panic"
display unsafe_word = codes "unsafe"
display string_word = codes "string"
display bool_word = codes "bool"
display let_word = codes "let"
display case_word = codes "case"
display static_word = codes "static"
display ref_word = codes "ref"
display impl_word = codes "impl"
display char_word = codes "char"
display true_word = codes "true"
display false_word = codes "false"
display end_word = codes "end"
display do_word = codes "do"
display type_word = codes "type"
display while_word = codes "while"
display with_word = codes "with"
display import_word = codes "import"
display as_word = codes "as"
display and_word = codes "and"
display return_word = codes "return"
display or_word = codes "or"
display bor_word = codes "bor"
display band_word = codes "band"
