-- ===== src/Lexer/Lex/Layout.antt =====
-- `lex` never panics, its blocks are balanced, and its errors have two codes.
use gof_lang.Prelude.{
  ℕ, zero, suc, ◌+◌, ◌*◌, ◌/◌, ◌%◌, ◌≤◌, ◌≡◌, refl, ◌≢◌, inl, inr, ◌∙◌, ap, sym, subst, true, false,
  not, List, [], ◌∷◌, ◌++◌, Option, none, some, Text, byte_len, drop, All, All-append, All-weaken,
  ltb, ◌==◌, if_cases, Bool-cases, arith, is_empty, ◌>>=◌, trim_start, lines, length, append_assoc,
}
use Prim.Native.Nat.{max}
use gof_lang.Source.{span}
use gof_lang.Diagnostics.{Diagnostics}
use gof_lang.Token.{Token, token, newline, indent, eof}
use gof_lang.Lexer.Line.{Lexed, lex_line}
use gof_lang.Lexer.Line.Kinds.{IsLineKind, IsLexed, lex_line-IsLexed}
use gof_lang.Lexer.Lex.{
  top_is, LexState, push_tokens, report, failures, lex_rest, open_block, close_blocks, layout,
  is_ignored, count_indent, lex_source_line, lex_lines, initial, finish, LexResult, ok, err, lex,
  step_diagnostic, close_all,
}
use gof_lang.Lexer.Lex.Nesting.{
  shift, nesting, nesting-append, nesting-IsLineKind, IsLineKind-ne-eof,
}
use gof_lang.Lexer.Lex.Stack.{
  ladder, AreInner, pop_indents-ladder, close_all-ladder, IsLexCode, count_from-IsCounted,
}

-- Between two lines: the stack has a step of four for each open block, the tokens so far open
-- those blocks, none of them is `eof`, and what was reported has one of the lexer's codes.
pub record IsValid (st : LexState) : Type 0 where
  pub depth : ℕ
  pub stack_is : st.indent_stack ≡ ladder depth
  pub nested : nesting 0 st.tokens ≡ some depth
  pub inner : AreInner st.tokens
  pub coded : All IsLexCode st.diagnostics

push_tokens-IsValid :
    (st : LexState) (ts : List Token) (stack : List ℕ) (k : ℕ) (v : IsValid st)
    → stack ≡ ladder k
    → nesting v.depth ts ≡ some k
    → AreInner ts
    → IsValid (push_tokens (record st { indent_stack = stack }) ts)
push_tokens-IsValid st ts stack k v s n i = record {
  depth = k;
  stack_is = s;
  nested = nesting-append 0 st.tokens ts v.nested ∙ n;
  inner = All-append _ st.tokens ts v.inner i;
  coded = v.coded;
}

report-IsValid :
    (st : LexState) (ds : Diagnostics) → IsValid st → All IsLexCode ds → IsValid (report st ds)
report-IsValid st ds v h = record {
  depth = v.depth;
  stack_is = v.stack_is;
  nested = v.nested;
  inner = v.inner;
  coded = All-append _ st.diagnostics ds v.coded h;
}

lex_rest-IsValid :
    (line width : ℕ) (raw : Text) (st : LexState)
    → IsValid st
    → IsValid (lex_rest line width raw st)
unfolding lex_rest
lex_rest-IsValid line width raw st v =
    go (lex_line line (width + 1) (drop width raw))
      (lex_line-IsLexed line (width + 1) (drop width raw))
  where
    end_column : ℕ
    end_column = byte_len raw + 1

    pushed : (ts : List Token) → All (λ t. IsLineKind t.kind) ts → IsValid (push_tokens st ts)
    pushed ts h =
        push_tokens-IsValid st ts st.indent_stack v.depth v v.stack_is
          (nesting-IsLineKind v.depth ts h)
          (All-weaken _ _ ts (λ t k. IsLineKind-ne-eof t.kind k) h)

    ended :
        (st' : LexState)
        → IsValid st'
        → IsValid (push_tokens st' (token newline (span line end_column end_column) ∷ []))
    ended st' w =
        push_tokens-IsValid st' _ st'.indent_stack w.depth w w.stack_is
          (unfold nesting shift in refl) (cc, tt)

    go :
        (l : Lexed)
        → IsLexed l
        → IsValid (
            push_tokens
              (report (push_tokens st l.0) (failures l.1))
              (token newline (span line end_column end_column) ∷ []))
    go (ts, none) h = ended _ (report-IsValid _ [] (pushed ts h) tt)
    go (ts, some d) h = ended _ (report-IsValid _ (d ∷ []) (pushed ts h.0) (inr h.1, tt))

open_block-IsValid :
    (line width current : ℕ) (raw : Text) (st : LexState) (v : IsValid st)
    → current ≡ 4 * v.depth
    → IsValid (open_block line width current raw st)
open_block-IsValid line width current raw st v e = elim (Bool-cases (width == current + 4)) [
  | inl good ↦
      let pushed =
        push_tokens-IsValid st (token indent (span line 1 width) ∷ []) (width ∷ st.indent_stack)
          (suc v.depth) v
          (ap (λ w. w ∷ st.indent_stack) (ground arith) ∙ ap (◌∷◌ (4 * suc v.depth)) v.stack_is)
          (unfold nesting shift in refl) (cc, tt) in
      rw good (lex_rest-IsValid line width raw _ pushed)
  | inr bad ↦ rw bad (report-IsValid st _ v (unfold step_diagnostic in (inl refl, tt)))
]

-- A step of the lexer that does not panic, and leaves a valid state.
abbrev pub Steps : Option LexState → Type 0
Steps none = ⊥
Steps (some st) = IsValid st

top_is-ladder : (j : ℕ) → top_is (4 * j) (ladder j) ≡ some true
top_is-ladder zero = refl
top_is-ladder (suc j) = ground arith

close_blocks-Steps :
    (line j : ℕ) (raw : Text) (st : LexState) (v : IsValid st)
    → j ≤ v.depth
    → Steps (close_blocks line (4 * j) raw st)
close_blocks-Steps line j raw st v h =
    let (ts, popped, nested, inner) = pop_indents-ladder line j v.depth h in
    let closed = push_tokens-IsValid st ts (ladder j) j v refl nested inner in
    rw (v.stack_is, popped, top_is-ladder j) (lex_rest-IsValid line (4 * j) raw _ closed)

layout-Steps :
    (line width : ℕ) (raw : Text) (st : LexState) (v : IsValid st)
    → width % 4 ≡ 0
    → Steps (layout line width raw st st.indent_stack)
unfolding layout
layout-Steps line width raw st v h =
    subst (λ s. Steps (layout line width raw st s)) (sym v.stack_is) (go v.depth refl)
  where
    closed : (j : ℕ) → width ≡ 4 * j → j ≤ v.depth → Steps (close_blocks line width raw st)
    closed j e k = rw e (close_blocks-Steps line j raw st v k)

    under :
        (current : ℕ) (below : List ℕ)
        → current ≡ 4 * v.depth
        → Steps (layout line width raw st (current ∷ below))
    under current below e =
        if_cases Steps (ltb current width) (λ _. open_block-IsValid line width current raw st v e)
          λ _.
            if_cases Steps (ltb width current)
              (λ lower. closed (width / 4) (omega arith) (ground arith))
              λ _. lex_rest-IsValid line width raw st v

    go : (k : ℕ) → k ≡ v.depth → Steps (layout line width raw st (ladder k))
    go zero e = under 0 [] (omega arith)
    go (suc k) e = under (4 * suc k) (ladder k) (omega arith)

is_empty-append {ℓ} : {A : Type ℓ} (xs ys : List A) → not (is_empty (xs ++ ys)) ≡ false → ys ≡ []
is_empty-append [] [] h = refl
is_empty-append [] (y ∷ ys) h = cc
is_empty-append (x ∷ xs) ys h = cc

lex_source_line-Steps :
    (line : ℕ) (raw : Text) (st : LexState) → IsValid st → Steps (lex_source_line line raw st)
unfolding lex_source_line
lex_source_line-Steps line raw st v =
    let counted = count_from-IsCounted line 0 raw in
    let ds = (count_indent raw line).1 in
    let reported = report-IsValid st ds v counted.0 in
    if_cases Steps (is_ignored (trim_start raw)) (λ _. v)
      λ _.
        if_cases Steps (not (is_empty (st.diagnostics ++ ds))) (λ _. reported)
          λ clean.
            layout-Steps line (count_indent raw line).0 raw (report st ds) reported
              (counted.1 (is_empty-append st.diagnostics ds clean))

lex_lines-Steps :
    (line : ℕ) (ls : List Text) (st : LexState) → IsValid st → Steps (lex_lines line ls st)
unfolding lex_lines
lex_lines-Steps line [] st v = v
lex_lines-Steps line (l ∷ ls) st v =
    go (lex_source_line line l st) (lex_source_line-Steps line l st v)
      (λ st' w. lex_lines-Steps (line + 1) ls st' w)
  where
    go :
        (o : Option LexState)
        → Steps o
        → ((st' : LexState) → IsValid st' → Steps (lex_lines (line + 1) ls st'))
        → Steps (o >>= λ st'. lex_lines (line + 1) ls st')
    go none w k = w
    go (some st') w k = k st' w

initial-IsValid : IsValid initial
unfolding nesting
initial-IsValid = record { depth = 0; stack_is = refl; nested = refl; inner = tt; coded = tt }

-- What `lex` returns: tokens whose layout is balanced with one `eof`, at the end, or at least one
-- diagnostic, each with the code of a wrong indentation or of an unexpected token.
abbrev pub IsSound : LexResult → Type 0
IsSound (ok ts) =
    (nesting 0 ts ≡ some 0)
    × ((body : List Token) × (last : Token) × (ts ≡ body ++ last ∷ [])
        × (last.kind ≡ eof)
        × AreInner body)
IsSound (err ds) = (ds ≢ []) × All IsLexCode ds

closed_tokens : (line : ℕ) (st : LexState) → List Token
closed_tokens line st = st.tokens ++ close_all line st.indent_stack

closed_tokens-balanced :
    (line : ℕ) (st : LexState)
    → IsValid st
    → (nesting 0 (closed_tokens line st) ≡ some 0) × AreInner (closed_tokens line st)
unfolding closed_tokens
closed_tokens-balanced line st v =
    let (nested, inner) = close_all-ladder line v.depth in
    (
      nesting-append 0 st.tokens _ v.nested
          ∙ subst (λ s. nesting v.depth (close_all line s) ≡ some 0) (sym v.stack_is) nested,
      All-append _ st.tokens _ v.inner
          (subst (λ s. AreInner (close_all line s)) (sym v.stack_is) inner),
    )

finish-IsSound : (last_line : ℕ) (st : LexState) → IsValid st → IsSound (finish last_line st)
unfolding finish closed_tokens
finish-IsSound line st v =
    if_cases IsSound (not (is_empty st.diagnostics)) (λ failed. (λ e. cc (rw e at failed), v.coded))
      λ _.
        let (balanced, inner) = closed_tokens-balanced line st v in
        let last = token eof (span line 1 1) in
        let joined = append_assoc st.tokens (close_all line st.indent_stack) (last ∷ []) in
        (
          ap (nesting 0) (sym joined)
              ∙ nesting-append 0 (closed_tokens line st) (last ∷ []) balanced
              ∙ unfold nesting shift in refl,
          (closed_tokens line st, last, sym joined, refl, inner),
        )

-- `lex` returns on every text, with no panic. If it succeeds, every `indent` is closed by a
-- `dedent`, none of which comes before it, and the tokens end with the only `eof`. If it fails, it
-- reports at least one diagnostic, and only with the codes GOF1001 and GOF2001.
pub lex-IsSound : (text : Text) → (r : LexResult) × (lex text ≡ some r) × IsSound r
unfolding lex
lex-IsSound text =
    go (lex_lines 1 (lines text) initial) (lex_lines-Steps 1 (lines text) initial initial-IsValid)
  where
    last_line : ℕ
    last_line = max (length (lines text)) 1

    go :
        (o : Option LexState)
        → Steps o
        → (r : LexResult) × ((o >>= λ st. some (finish last_line st)) ≡ some r) × IsSound r
    go none w = absurd w
    go (some st) w = (finish last_line st, refl, finish-IsSound last_line st w)
