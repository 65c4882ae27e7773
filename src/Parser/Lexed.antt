-- ===== src/Parser/Lexed.antt =====
-- The lexer and the parser together: `parse` answers on the tokens of every text.
mod Closed
use gof_lang.Prelude.{
  ℕ, ◌+◌, ◌*◌, ◌≡◌, refl, sym, ap, subst, ◌∙◌, ◌≢◌, Bool, false, not, List, [], ◌∷◌, ◌++◌, Option,
  none, some, Text, All, is_empty, length, length-append, ltb, if_cases, ◌>>=◌, arith, append_assoc,
  ◌==◌, lines, trim_start, drop, byte_len,
}
use Prim.Native.Nat.{max}
use mathlib.Core.Option.{some-injective}
use gof_lang.Source.{span}
use gof_lang.Token.{TokenKind, Token, token, newline, dedent, eof}
use gof_lang.Lexer.Line.{lex_line}
use gof_lang.Lexer.Lex.{
  LexState, LexResult, lex, lex_lines, lex_source_line, layout, lex_rest, close_blocks, pop_indents,
  close_all, finish, initial, report, top_is, is_ignored, count_indent,
}
use gof_lang.Lexer.Lex.Stack.{AreInner}
use gof_lang.Lexer.Lex.Layout.{lex-IsSound, IsSound}
use gof_lang.Ast.Item.{Module}
use gof_lang.Parser.State.{Parser, is_eof, split_eof, new_parser}
use gof_lang.Parser.Progress.{is_opener, last_or, EndsClosed, IsParseError, Extends}
use gof_lang.Parser.Module.{ParseResult, parse_result, parse, parse_module, empty_module}
use gof_lang.Parser.Module.Fuel.{items-Ended}
use gof_lang.Parser.Lexed.Closed.{
  Holds, EndClosed, init_tokens, init-append, ResultClosed, lex-closed,
}

ne-is_eof : (kind : TokenKind) → kind ≢ eof → is_eof kind ≡ false
ne-is_eof eof h = absurd (h refl)
ne-is_eof _ h = refl

inner-NoEof : (ts : List Token) → AreInner ts → All (λ t. is_eof t.kind ≡ false) ts
inner-NoEof [] h = tt
inner-NoEof (t ∷ ts) h = (ne-is_eof t.kind h.0, inner-NoEof ts h.1)

-- The tokens before the one `eof`, at the end.
split_eof-append :
    (body : List Token) (last : Token)
    → All (λ t. is_eof t.kind ≡ false) body
    → last.kind ≡ eof
    → split_eof (body ++ last ∷ []) ≡ some (body, last)
unfolding split_eof
split_eof-append [] last h e = rw e refl
split_eof-append (t ∷ ts) last h e = rw (h.0, split_eof-append ts last h.1 e) refl

new_parser-EndsClosed :
    (body : List Token) (last : Token)
    → EndClosed body
    → last.kind ≡ eof
    → EndsClosed (new_parser body last)
new_parser-EndsClosed [] last h e = ap is_opener e
new_parser-EndsClosed (t ∷ ts) last h e = h last (ap is_opener e)

-- What `parse` returns: a module, or the errors of the parser, of which there is one at least.
abbrev pub IsAnswer : ParseResult → Type 0
IsAnswer (ParseResult.ok m) = Unit
IsAnswer (ParseResult.err ds) = (ds ≢ []) × All IsParseError ds

parse_result-IsAnswer :
    (parsed : Module × Parser) → Extends [] parsed.1.diagnostics → IsAnswer (parse_result parsed)
parse_result-IsAnswer (m, p) h =
    if_cases IsAnswer (is_empty p.diagnostics) (λ _. tt)
      (λ e. (
        λ none_left. cc (e, ap is_empty none_left),
        subst (All IsParseError) (sym h.appended) h.errors,
      ))

-- If `lex` succeeds on a text, then `parse` returns on its tokens, with fuel for thirty steps a
-- token and twenty-nine more: with a module, or with at least one diagnostic, all of them errors
-- with the code GOF2001 or GOF2002.
pub parse-answers :
    (text : Text) (tokens : List Token)
    → lex text ≡ some (LexResult.ok tokens)
    → (r : ParseResult) × (parse (30 * length tokens + 29) tokens ≡ some r) × IsAnswer r
unfolding parse
parse-answers text tokens lexed =
    let (found, same, sound) = lex-IsSound text in
    let is_found = some-injective (LexResult.ok tokens) found (sym lexed ∙ same) in
    let (_, (body, last, parts, ends, inner)) = subst IsSound (sym is_found) sound in
    let closed : EndClosed (init_tokens tokens) =
      subst (Holds ResultClosed) lexed (lex-closed text) in
    let body_closed : EndClosed body =
      subst EndClosed (ap init_tokens parts ∙ init-append body last) closed in
    let no_eof = inner-NoEof body inner in
    let start = new_parser body last in
    let split = ap split_eof parts ∙ split_eof-append body last no_eof ends in
    let (r, returned, _, c) =
      items-Ended (30 * length tokens + 29) empty_module start
        (
          new_parser-EndsClosed body last body_closed ends,
          omega (arith, ap length parts, length-append body (last ∷ [])),
        )
        no_eof in
    (
      parse_result r,
      ap
            (λ o. o >>= λ s. parse_module (30 * length tokens + 29) (new_parser s.0 s.1) >>= λ q.
              some (parse_result q))
            split
          ∙ ap (λ o. o >>= λ q. some (parse_result q)) returned,
      parse_result-IsAnswer r c.2,
    )
