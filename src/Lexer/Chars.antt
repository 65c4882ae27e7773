-- ===== src/Lexer/Chars.antt =====
-- compiler/gof-compiler/src/lexer.rs: the classes of characters, number literals and the words
-- of the language.
use gof_lang.Prelude.{
  ℕ, ◌^◌, ℤ, pos, Bool, ◌||◌, List, [], ◌∷◌, Option, none, some, Text, codes, text_eq, digits_value,
  ltb, within, ◌==◌, if◌then◌else◌,
}
use gof_lang.Token.{
  TokenKind, module_kw, import_kw, test_kw, fixture_kw, fn_kw, if_kw, else_kw, while_kw, for_kw,
  in_kw, break_kw, continue_kw, go_kw, return_kw, struct_kw, enum_kw, protocol_kw, match_kw,
  async_kw, await_kw, select_kw, default_kw, defer_kw, unsafe_kw, mut_kw, and_kw, or_kw, not_kw,
  true_kw, false_kw, ident,
}

-- `char::is_ascii_digit`, `is_ascii_alphabetic` and `is_ascii_alphanumeric`.
abbrev pub is_ascii_digit : ℕ → Bool
is_ascii_digit c = within b'0' b'9' c

abbrev pub is_ascii_alphabetic : ℕ → Bool
is_ascii_alphabetic c = within b'a' b'z' c || within b'A' b'Z' c

abbrev pub is_ascii_alphanumeric : ℕ → Bool
is_ascii_alphanumeric c = is_ascii_alphabetic c || is_ascii_digit c

unfoldable pub is_ident_start : ℕ → Bool
is_ident_start c = c == b'_' || is_ascii_alphabetic c

unfoldable pub is_ident_continue : ℕ → Bool
is_ident_continue c = c == b'_' || is_ascii_alphanumeric c

-- `str::parse::<i64>` on digits, with `unwrap_or_default`: 0 if the number does not fit.
unfoldable pub parse_i64_or_default : Text → ℤ
parse_i64_or_default digits =
    let value = digits_value 0 digits in if ltb value (2 ^ 63) then pos value else pos 0

-- The words of the `match value.as_str()`.
unfoldable pub keywords : List (Text × TokenKind)
keywords =
    (codes "module", module_kw)
    ∷ (codes "import", import_kw)
    ∷ (codes "test", test_kw)
    ∷ (codes "fixture", fixture_kw)
    ∷ (codes "fn", fn_kw)
    ∷ (codes "if", if_kw)
    ∷ (codes "else", else_kw)
    ∷ (codes "while", while_kw)
    ∷ (codes "for", for_kw)
    ∷ (codes "in", in_kw)
    ∷ (codes "break", break_kw)
    ∷ (codes "continue", continue_kw)
    ∷ (codes "go", go_kw)
    ∷ (codes "return", return_kw)
    ∷ (codes "struct", struct_kw)
    ∷ (codes "enum", enum_kw)
    ∷ (codes "protocol", protocol_kw)
    ∷ (codes "match", match_kw)
    ∷ (codes "async", async_kw)
    ∷ (codes "await", await_kw)
    ∷ (codes "select", select_kw)
    ∷ (codes "default", default_kw)
    ∷ (codes "defer", defer_kw)
    ∷ (codes "unsafe", unsafe_kw)
    ∷ (codes "mut", mut_kw)
    ∷ (codes "and", and_kw)
    ∷ (codes "or", or_kw)
    ∷ (codes "not", not_kw)
    ∷ (codes "true", true_kw)
    ∷ (codes "false", false_kw)
    ∷ []

unfoldable pub find_keyword : Text → List (Text × TokenKind) → Option TokenKind
find_keyword w [] = none
find_keyword w ((k, kind) ∷ rest) = if text_eq w k then some kind else find_keyword w rest

unfoldable pub word_kind : Text → TokenKind
word_kind w = elim (find_keyword w keywords) [ none ↦ ident w | some kind ↦ kind ]
