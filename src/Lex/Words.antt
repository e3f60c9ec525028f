-- ===== src/Lex/Words.antt =====
-- The keyword table of `ident_token` in src/parsing/lex.rs.
use kli.Prelude.{◌≡◌, refl, if◌then◌else◌}
use kli.Lex.Tokens.{
  Text, codes, text_eq, TokenKind, ident, display, addr_of_word, fun_word, imm_word, mut_word,
  borrow_word, in_word, for_word, panic_word, unsafe_word, string_word, bool_word, let_word,
  case_word, static_word, ref_word, impl_word, char_word, true_word, false_word, end_word, do_word,
  type_word, while_word, with_word, import_word, as_word, and_word, return_word, or_word, bor_word,
  band_word,
}

-- The kind of the token that a word makes.
unfoldable pub word_kind : Text → TokenKind
word_kind text =
    if text_eq text (codes "addr_of")
    then addr_of_word
    else if text_eq text (codes "fun")
    then fun_word
    else if text_eq text (codes "imm")
    then imm_word
    else if text_eq text (codes "mut")
    then mut_word
    else if text_eq text (codes "borrow")
    then borrow_word
    else if text_eq text (codes "in")
    then in_word
    else if text_eq text (codes "for")
    then for_word
    else if text_eq text (codes "panic")
    then panic_word
    else if text_eq text (codes "unsafe")
    then unsafe_word
    else if text_eq text (codes "string")
    then string_word
    else if text_eq text (codes "bool")
    then bool_word
    else if text_eq text (codes "let")
    then let_word
    else if text_eq text (codes "case")
    then case_word
    else if text_eq text (codes "static")
    then static_word
    else if text_eq text (codes "ref")
    then ref_word
    else if text_eq text (codes "impl")
    then impl_word
    else if text_eq text (codes "char")
    then char_word
    else if text_eq text (codes "true")
    then true_word
    else if text_eq text (codes "false")
    then false_word
    else if text_eq text (codes "end")
    then end_word
    else if text_eq text (codes "do")
    then do_word
    else if text_eq text (codes "type")
    then type_word
    else if text_eq text (codes "while")
    then while_word
    else if text_eq text (codes "with")
    then with_word
    else if text_eq text (codes "import")
    then import_word
    else if text_eq text (codes "as")
    then as_word
    else if text_eq text (codes "and")
    then and_word
    else if text_eq text (codes "return")
    then return_word
    else if text_eq text (codes "or")
    then or_word
    else if text_eq text (codes "bor")
    then bor_word
    else if text_eq text (codes "band")
    then band_word
    else ident text

-- The words that the table names.
abbrev pub IsKeyword : TokenKind → Type 0
IsKeyword addr_of_word = Unit
IsKeyword fun_word = Unit
IsKeyword imm_word = Unit
IsKeyword mut_word = Unit
IsKeyword borrow_word = Unit
IsKeyword in_word = Unit
IsKeyword for_word = Unit
IsKeyword panic_word = Unit
IsKeyword unsafe_word = Unit
IsKeyword string_word = Unit
IsKeyword bool_word = Unit
IsKeyword let_word = Unit
IsKeyword case_word = Unit
IsKeyword static_word = Unit
IsKeyword ref_word = Unit
IsKeyword impl_word = Unit
IsKeyword char_word = Unit
IsKeyword true_word = Unit
IsKeyword false_word = Unit
IsKeyword end_word = Unit
IsKeyword do_word = Unit
IsKeyword type_word = Unit
IsKeyword while_word = Unit
IsKeyword with_word = Unit
IsKeyword import_word = Unit
IsKeyword as_word = Unit
IsKeyword and_word = Unit
IsKeyword return_word = Unit
IsKeyword or_word = Unit
IsKeyword bor_word = Unit
IsKeyword band_word = Unit
IsKeyword _ = ⊥

-- What a keyword's token prints is the word that lexes to it.
pub word_kind-display : (kind : TokenKind) → IsKeyword kind → word_kind (display kind) ≡ kind
unfolding word_kind display
word_kind-display addr_of_word h = refl
word_kind-display fun_word h = refl
word_kind-display imm_word h = refl
word_kind-display mut_word h = refl
word_kind-display borrow_word h = refl
word_kind-display in_word h = refl
word_kind-display for_word h = refl
word_kind-display panic_word h = refl
word_kind-display unsafe_word h = refl
word_kind-display string_word h = refl
word_kind-display bool_word h = refl
word_kind-display let_word h = refl
word_kind-display case_word h = refl
word_kind-display static_word h = refl
word_kind-display ref_word h = refl
word_kind-display impl_word h = refl
word_kind-display char_word h = refl
word_kind-display true_word h = refl
word_kind-display false_word h = refl
word_kind-display end_word h = refl
word_kind-display do_word h = refl
word_kind-display type_word h = refl
word_kind-display while_word h = refl
word_kind-display with_word h = refl
word_kind-display import_word h = refl
word_kind-display as_word h = refl
word_kind-display and_word h = refl
word_kind-display return_word h = refl
word_kind-display or_word h = refl
word_kind-display bor_word h = refl
word_kind-display band_word h = refl
word_kind-display _ h = absurd h
