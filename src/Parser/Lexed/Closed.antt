-- ===== src/Parser/Lexed/Closed.antt =====
-- The tokens of a text never end in an open bracket.
use gof_lang.Prelude.{
  ℕ, ◌+◌, ◌≡◌, refl, sym, ap, subst, ◌∙◌, Bool, false, not, List, [], ◌∷◌, ◌++◌, Option, none, some,
  Text, is_empty, length, ltb, if_cases, ◌>>=◌, append_assoc, ◌==◌, lines, trim_start, drop,
  byte_len,
}
use Prim.Native.Nat.{max}
use gof_lang.Source.{span}
use gof_lang.Token.{Token, token, newline, dedent, eof}
use gof_lang.Lexer.Line.{lex_line}
use gof_lang.Lexer.Lex.{
  LexState, LexResult, lex, lex_lines, lex_source_line, layout, lex_rest, close_blocks, pop_indents,
  close_all, finish, initial, report, top_is, is_ignored, count_indent,
}
use gof_lang.Parser.Progress.{is_opener, last_or}

-- After a token that opens no bracket, neither does the last of these.
abbrev pub EndClosed : List Token → Type 0
EndClosed ts = (t : Token) → is_opener t.kind ≡ false → is_opener (last_or t ts).kind ≡ false

last_or-append : (t : Token) (xs ys : List Token) → last_or t (xs ++ ys) ≡ last_or (last_or t xs) ys
last_or-append t [] ys = refl
last_or-append t (x ∷ xs) ys = last_or-append x xs ys

append-EndClosed : (xs ys : List Token) → EndClosed xs → EndClosed ys → EndClosed (xs ++ ys)
append-EndClosed xs ys h k t e =
    ap (λ (u : Token). is_opener u.kind) (last_or-append t xs ys) ∙ k (last_or t xs) (h t e)

-- Whatever stands before, a last token of the line's end closes.
ended-EndClosed :
    (xs : List Token) (t : Token) → is_opener t.kind ≡ false → EndClosed (xs ++ t ∷ [])
ended-EndClosed xs t e u h = ap (λ (u : Token). is_opener u.kind) (last_or-append u xs (t ∷ [])) ∙ e

abbrev pub Holds {ℓ κ} : {A : Type ℓ} → (A → Type κ) → Option A → Type κ
Holds P none = Unit
Holds P (some a) = P a

Holds-bind {ℓ κ μ ν} :
    {A : Type ℓ} {B : Type μ} (P : A → Type κ) (Q : B → Type ν) (o : Option A) (f : A → Option B)
    → Holds P o
    → ((a : A) → P a → Holds Q (f a))
    → Holds Q (o >>= f)
Holds-bind P Q none f h k = tt
Holds-bind P Q (some a) f h k = k a h

abbrev StateClosed : LexState → Type 0
StateClosed st = EndClosed st.tokens

lex_rest-StateClosed :
    (line width : ℕ) (raw : Text) (st : LexState) → StateClosed (lex_rest line width raw st)
unfolding lex_rest
lex_rest-StateClosed line width raw st =
    let lexed = lex_line line (width + 1) (drop width raw) in
    let column = byte_len raw + 1 in
    ended-EndClosed (st.tokens ++ lexed.0) (token newline (span line column column)) refl

abbrev PoppedClosed : List ℕ × List Token → Type 0
PoppedClosed (stack, ts) = EndClosed ts

pop_indents-closed :
    (line width : ℕ) (stack : List ℕ) → Holds PoppedClosed (pop_indents line width stack)
unfolding pop_indents
pop_indents-closed line width [] = tt
pop_indents-closed line width (top ∷ below) =
    if_cases (Holds PoppedClosed) (ltb width top)
      (λ _.
        Holds-bind PoppedClosed PoppedClosed (pop_indents line width below) _
          (pop_indents-closed line width below)
          (λ r h.
            append-EndClosed (token dedent (span line 1 (width + 1)) ∷ []) r.1 (λ t e. refl) h))
      (λ _. λ t e. e)

close_all-closed : (line : ℕ) (stack : List ℕ) → EndClosed (close_all line stack)
unfolding close_all
close_all-closed line [] = λ t e. e
close_all-closed line (top ∷ below) =
    if_cases EndClosed (is_empty below) (λ _ t e. e)
      (λ _.
        append-EndClosed (token dedent (span line 1 1) ∷ []) (close_all line below) (λ t e. refl)
          (close_all-closed line below))

abbrev Anything : Bool → Type 0
Anything _ = Unit

close_blocks-closed :
    (line width : ℕ) (raw : Text) (st : LexState)
    → StateClosed st
    → Holds StateClosed (close_blocks line width raw st)
close_blocks-closed line width raw st h =
    Holds-bind PoppedClosed StateClosed (pop_indents line width st.indent_stack) _
      (pop_indents-closed line width st.indent_stack)
      λ r k.
        let closed = append-EndClosed st.tokens r.1 h k in
        Holds-bind Anything StateClosed (top_is width r.0) _ (any (top_is width r.0)) (λ matches _.
          if_cases StateClosed (not matches) (λ _. closed)
            (λ _. lex_rest-StateClosed line width raw _))
  where
    any : (o : Option Bool) → Holds Anything o
    any none = tt
    any (some b) = tt

layout-closed :
    (line width : ℕ) (raw : Text) (st : LexState) (stack : List ℕ)
    → StateClosed st
    → Holds StateClosed (layout line width raw st stack)
unfolding layout
layout-closed line width raw st [] h = tt
layout-closed line width raw st (current ∷ below) h =
    if_cases (Holds StateClosed) (ltb current width)
      (λ _.
        if_cases StateClosed (not (width == current + 4)) (λ _. h)
          (λ _. lex_rest-StateClosed line width raw _))
      λ _.
        if_cases (Holds StateClosed) (ltb width current)
          (λ _. close_blocks-closed line width raw st h)
          (λ _. lex_rest-StateClosed line width raw st)

lines-closed :
    (line : ℕ) (ls : List Text) (st : LexState)
    → StateClosed st
    → Holds StateClosed (lex_lines line ls st)
unfolding lex_lines lex_source_line
lines-closed line [] st h = h
lines-closed line (l ∷ ls) st h =
    Holds-bind StateClosed StateClosed (lex_source_line line l st) _ one
      (λ st' k. lines-closed (line + 1) ls st' k)
  where
    one : Holds StateClosed (lex_source_line line l st)
    one =
        if_cases (Holds StateClosed) (is_ignored (trim_start l)) (λ _. h)
          λ _.
            let counted = count_indent l line in
            if_cases (Holds StateClosed) (not (is_empty (st.diagnostics ++ counted.1))) (λ _. h)
              (λ _. layout-closed line counted.0 l (report st counted.1) _ h)

abbrev pub init_tokens : List Token → List Token
init_tokens [] = []
init_tokens (t ∷ []) = []
init_tokens (t ∷ u ∷ us) = t ∷ init_tokens (u ∷ us)

pub init-append : (xs : List Token) (t : Token) → init_tokens (xs ++ t ∷ []) ≡ xs
init-append [] t = refl
init-append (x ∷ []) t = refl
init-append (x ∷ y ∷ ys) t = ap (◌∷◌ x) (init-append (y ∷ ys) t)

abbrev pub ResultClosed : LexResult → Type 0
ResultClosed (LexResult.ok ts) = EndClosed (init_tokens ts)
ResultClosed (LexResult.err ds) = Unit

finish-closed : (line : ℕ) (st : LexState) → StateClosed st → ResultClosed (finish line st)
unfolding finish
finish-closed line st h =
    if_cases ResultClosed (not (is_empty st.diagnostics)) (λ _. tt)
      λ _.
        let last = token eof (span line 1 1) in
        let closing = close_all line st.indent_stack in
        subst EndClosed
          (sym (init-append (st.tokens ++ closing) last)
            ∙ ap init_tokens (append_assoc st.tokens closing (last ∷ [])))
          (append-EndClosed st.tokens closing h (close_all-closed line st.indent_stack))

pub lex-closed : (text : Text) → Holds ResultClosed (lex text)
unfolding lex
lex-closed text =
    Holds-bind StateClosed ResultClosed (lex_lines 1 (lines text) initial) _
      (lines-closed 1 (lines text) initial (λ t e. e))
      (λ st h. finish-closed (max (length (lines text)) 1) st h)
