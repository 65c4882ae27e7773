-- ===== src/Lexer/Lex.antt =====
-- compiler/gof-compiler/src/lexer.rs: `lex` and `count_indent`.
-- A vector that a function only pushes to is modelled by the list of what is pushed. The stack of
-- indentations is the list of them, the last pushed first; `none` stands for the panic of
-- `expect` on an empty stack.
pub mod Nesting
pub mod Stack
pub mod Layout
use gof_lang.Prelude.{
  ℕ, ◌+◌, ◌%◌, Bool, true, false, not, ◌||◌, List, [], ◌∷◌, ◌++◌, Option, none, some, Text, codes,
  byte_len, trim_start, lines, length, drop, is_empty, ltb, ◌==◌, if◌then◌else◌, ◌>>=◌,
}
use Prim.Native.Nat.{max}
use gof_lang.Source.{span}
use gof_lang.Diagnostics.{Diagnostic, Diagnostics, error, with_fix_it}
use gof_lang.Token.{Token, token, newline, indent, dedent, eof}
use gof_lang.Lexer.Line.{lex_line}

unfoldable pub tab_diagnostic : ℕ → ℕ → Diagnostic
tab_diagnostic line_number count =
    with_fix_it
      (error (codes "GOF1001") (codes "tabs are not allowed for indentation")
        (codes "gof uses spaces only for indentation-sensitive blocks")
        (span line_number (count + 1) (count + 2)))
      (codes "replace the tab with four spaces")

unfoldable pub multiple_diagnostic : ℕ → ℕ → Diagnostic
multiple_diagnostic line_number count =
    with_fix_it
      (error (codes "GOF1001") (codes "indentation is not a multiple of four spaces")
        (codes "every indentation level in gof must use four spaces")
        (span line_number 1 (max count 1)))
      (codes "pad or trim the leading spaces to a multiple of four")

unfoldable pub step_diagnostic : ℕ → ℕ → Diagnostic
step_diagnostic line_number width =
    with_fix_it
      (error (codes "GOF1001") (codes "invalid indentation step")
        (codes "indentation must grow in blocks of exactly 4 spaces")
        (span line_number 1 (max width 1)))
      (codes "use four spaces for each nested block")

unfoldable pub dedent_diagnostic : ℕ → ℕ → Diagnostic
dedent_diagnostic line_number width =
    with_fix_it
      (error (codes "GOF1002") (codes "inconsistent dedent")
        (codes "dedent must match a previous indentation level") (span line_number 1 (width + 1)))
      (codes "align this line with a previous block start")

-- `count_indent`: the width, and what is pushed to the diagnostics.
abbrev pub end_indent : ℕ → ℕ → ℕ × Diagnostics
end_indent line_number count =
    (count, if not (count % 4 == 0) then multiple_diagnostic line_number count ∷ [] else [])

unfoldable pub count_from : ℕ → ℕ → Text → ℕ × Diagnostics
count_from line_number count [] = end_indent line_number count
count_from line_number count (c ∷ cs) =
    let more = count_from line_number (count + 1) cs in
    if c == b' '
    then more
    else if c == b'\t'
    then (count, tab_diagnostic line_number count ∷ [])
    else end_indent line_number count

abbrev pub count_indent : Text → ℕ → ℕ × Diagnostics
count_indent raw_line line_number = count_from line_number 0 raw_line

-- `while indent < *indent_stack.last().expect(…)`: the stack that is left, and the tokens.
unfoldable pub pop_indents : ℕ → ℕ → List ℕ → Option (List ℕ × List Token)
pop_indents line_number width [] = none
pop_indents line_number width (top ∷ below) =
    let popped =
      (pop_indents line_number width below >>= λ r.
      some (r.0, token dedent (span line_number 1 (width + 1)) ∷ r.1)) in
    if ltb width top then popped else some (top ∷ below, [])

pub record LexState : Type 0 where
  pub indent_stack : List ℕ
  pub tokens : List Token
  pub diagnostics : Diagnostics

abbrev pub push_tokens : LexState → List Token → LexState
push_tokens st ts = record st { tokens = st.tokens ++ ts }

abbrev pub report : LexState → Diagnostics → LexState
report st ds = record st { diagnostics = st.diagnostics ++ ds }

-- The end of the loop's body: the tokens of the line, and the token of its end.
abbrev pub failures : Option Diagnostic → Diagnostics
failures none = []
failures (some d) = d ∷ []

unfoldable pub lex_rest : ℕ → ℕ → Text → LexState → LexState
lex_rest line_number width raw_line st =
    let lexed = lex_line line_number (width + 1) (drop width raw_line) in
    let end_column = byte_len raw_line + 1 in
    push_tokens (report (push_tokens st lexed.0) (failures lexed.1))
      (token newline (span line_number end_column end_column) ∷ [])

-- The comparison with the last indentation on the stack.
abbrev pub open_block : ℕ → ℕ → ℕ → Text → LexState → LexState
open_block line_number width current raw_line st =
    if not (width == current + 4)
    then report st (step_diagnostic line_number width ∷ [])
    else lex_rest line_number width raw_line (
        push_tokens (record st { indent_stack = width ∷ st.indent_stack })
          (token indent (span line_number 1 width) ∷ []))

abbrev pub top_is : ℕ → List ℕ → Option Bool
top_is width [] = none
top_is width (top ∷ _) = some (width == top)

abbrev pub close_blocks : ℕ → ℕ → Text → LexState → Option LexState
close_blocks line_number width raw_line st = do
  (stack, ts) ← pop_indents line_number width st.indent_stack
  let closed = push_tokens (record st { indent_stack = stack }) ts
  matches ← top_is width stack
  some (
      if not matches
      then report closed (dedent_diagnostic line_number width ∷ [])
      else lex_rest line_number width raw_line closed)

unfoldable pub layout : ℕ → ℕ → Text → LexState → List ℕ → Option LexState
layout line_number width raw_line st [] = none
layout line_number width raw_line st (current ∷ _) =
    if ltb current width
    then some (open_block line_number width current raw_line st)
    else if ltb width current
    then close_blocks line_number width raw_line st
    else some (lex_rest line_number width raw_line st)

-- The body of `for (index, raw_line) in source.text().lines().enumerate()`.
abbrev pub starts_comment : Text → Bool
starts_comment [] = false
starts_comment (c ∷ _) = c == b'#'

abbrev pub is_ignored : Text → Bool
is_ignored text = is_empty text || starts_comment text

unfoldable pub lex_source_line : ℕ → Text → LexState → Option LexState
lex_source_line line_number raw_line st =
    if is_ignored (trim_start raw_line)
    then some st
    else let (width, ds) = count_indent raw_line line_number in
      let st' = report st ds in
      if not (is_empty st'.diagnostics)
      then some st'
      else layout line_number width raw_line st' st'.indent_stack

unfoldable pub lex_lines : ℕ → List Text → LexState → Option LexState
lex_lines line_number [] st = some st
lex_lines line_number (l ∷ ls) st = do
  st' ← lex_source_line line_number l st
  lex_lines (line_number + 1) ls st'

-- `while indent_stack.len() > 1`
unfoldable pub close_all : ℕ → List ℕ → List Token
close_all last_line [] = []
close_all last_line (top ∷ below) =
    let rest = close_all last_line below in
    if is_empty below then [] else token dedent (span last_line 1 1) ∷ rest

pub data LexResult : Type 0 where
  ok : List Token → LexResult
  err : Diagnostics → LexResult

abbrev pub initial : LexState
initial = record { indent_stack = 0 ∷ []; tokens = []; diagnostics = [] }

unfoldable pub finish : ℕ → LexState → LexResult
finish last_line st =
    if not (is_empty st.diagnostics)
    then err st.diagnostics
    else ok
        (st.tokens ++ (close_all last_line st.indent_stack ++ token eof (span last_line 1 1) ∷ []))

unfoldable pub lex : Text → Option LexResult
lex text = do st ← lex_lines 1 (lines text) initial; some (finish (max (length (lines text)) 1) st)
