-- ===== src/Lexer/Lex/Nesting.antt =====
-- The layout tokens as brackets.
use gof_lang.Prelude.{
  ℕ, zero, suc, ◌≡◌, refl, ◌≢◌, List, [], ◌∷◌, ◌++◌, Option, none, some, All, steps, steps-append,
}
use gof_lang.Token.{TokenKind, Token, indent, dedent, eof}
use gof_lang.Lexer.Line.Kinds.{IsLineKind}

-- An `indent` opens a block, a `dedent` closes one; none, if no block is open.
unfoldable pub shift : TokenKind → ℕ → Option ℕ
shift indent d = some (suc d)
shift dedent zero = none
shift dedent (suc d) = some d
shift _ d = some d

-- The number of open blocks after some tokens, from the number before.
abbrev pub shift_token : ℕ → Token → Option ℕ
shift_token d t = shift t.kind d

unfoldable pub nesting : ℕ → List Token → Option ℕ
nesting = steps shift_token

pub nesting-append :
    (d : ℕ) (xs ys : List Token) {e : ℕ}
    → nesting d xs ≡ some e
    → nesting d (xs ++ ys) ≡ nesting e ys
unfolding nesting
nesting-append d xs ys h = steps-append shift_token d xs ys h

shift-IsLineKind : (kind : TokenKind) (d : ℕ) → IsLineKind kind → shift kind d ≡ some d
unfolding shift
shift-IsLineKind indent d h = absurd h
shift-IsLineKind dedent d h = absurd h
shift-IsLineKind _ d h = refl

-- The tokens of a line leave the blocks as they are.
pub nesting-IsLineKind :
    (d : ℕ) (ts : List Token) → All (λ t. IsLineKind t.kind) ts → nesting d ts ≡ some d
unfolding nesting
nesting-IsLineKind d [] h = refl
nesting-IsLineKind d (t ∷ ts) h = rw (shift-IsLineKind t.kind d h.0) (nesting-IsLineKind d ts h.1)

pub IsLineKind-ne-eof : (kind : TokenKind) → IsLineKind kind → kind ≢ eof
IsLineKind-ne-eof eof h = absurd h
IsLineKind-ne-eof _ h = cc
