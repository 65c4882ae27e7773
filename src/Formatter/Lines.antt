-- ===== src/Formatter/Lines.antt =====
-- The formatter prints the lines of a block, and the lexer measures their indentation.
use gof_lang.Prelude.{
  ℕ, zero, suc, ◌+◌, ◌*◌, ◌≡◌, refl, ap, true, ◌∙◌, false, [], ◌∷◌, ◌++◌, Text, codes, ◌==◌, arith,
  ◌%◌,
}
use gof_lang.Ast.Statement.{Stmt, Block, MatchArms, SelectArms}
use gof_lang.Lexer.Lex.{count_from, count_indent}
use gof_lang.Formatter.Statement.{
  indentation, format_match_pattern, format_select_head, format_if, format_while, format_for,
  format_match, format_block, format_rest, format_stmt, format_else, format_arms, format_more_arms,
  format_select_arms, format_more_select_arms,
}
use gof_lang.Formatter.Layout.{
  line, unlines, block_lines, rest_lines, stmt_lines, else_lines, arm_lines, more_arm_lines,
  select_lines, more_select_lines,
}
use gof_lang.Formatter.Fits.{
  Fits, Prints, Follows, one-Prints, blank-Prints, none-Follows, then-Prints, newline-Follows,
  headed-Prints, below-Prints,
}

module _ (debug : Text → Text) where
  mutual
    unfolding format_block block_lines

    pub block-Prints :
        (b : Block) (k : ℕ) → Prints k (format_block debug b k) (block_lines debug b k)
    block-Prints Block.nil k = blank-Prints k
    block-Prints (Block.cons s b) k = then-Prints k _ _ _ _ (stmt-Prints s k) (rest-Follows b k)

    rest-Follows : (b : Block) (k : ℕ) → Follows k (format_rest debug b k) (rest_lines debug b k)
    rest-Follows Block.nil k = none-Follows k
    rest-Follows (Block.cons s b) k =
        newline-Follows k _ _ (then-Prints k _ _ _ _ (stmt-Prints s k) (rest-Follows b k))

    stmt-Prints : (s : Stmt) (k : ℕ) → Prints k (format_stmt debug s k) (stmt_lines debug s k)
    stmt-Prints (Stmt.return value _) k = one-Prints k _
    stmt-Prints (Stmt.bind name mutable ty value _) k = one-Prints k _
    stmt-Prints (Stmt.assign name value _) k = one-Prints k _
    stmt-Prints (Stmt.break _) k = one-Prints k _
    stmt-Prints (Stmt.continue _) k = one-Prints k _
    stmt-Prints (Stmt.if_stmt condition then_body else_body _) k =
        headed-Prints k (format_if debug condition) _ _ _ _ (block-Prints then_body (suc k))
          (else-Follows else_body k)
    stmt-Prints (Stmt.while condition body _) k =
        below-Prints k (format_while debug condition) _ _ (block-Prints body (suc k))
    stmt-Prints (Stmt.for binding iterable body _) k =
        below-Prints k (format_for debug binding iterable) _ _ (block-Prints body (suc k))
    stmt-Prints (Stmt.match value arms _) k =
        below-Prints k (format_match debug value) _ _ (arms-Prints arms (suc k))
    stmt-Prints (Stmt.select arms _) k =
        below-Prints k (codes "select:") _ _ (select_arms-Prints arms (suc k))
    stmt-Prints (Stmt.expr value _) k = one-Prints k _

    else-Follows : (b : Block) (k : ℕ) → Follows k (format_else debug b k) (else_lines debug b k)
    else-Follows Block.nil k = none-Follows k
    else-Follows (Block.cons s b) k =
        newline-Follows k _
          (line k (codes "else:") ∷ (stmt_lines debug s (suc k) ++ rest_lines debug b (suc k)))
          (below-Prints k (codes "else:") _ _
            (then-Prints (suc k) _ _ _ _ (stmt-Prints s (suc k)) (rest-Follows b (suc k))))

    arms-Prints : (a : MatchArms) (k : ℕ) → Prints k (format_arms debug a k) (arm_lines debug a k)
    arms-Prints MatchArms.no_arms k = blank-Prints k
    arms-Prints (MatchArms.arm pattern body _ rest) k =
        headed-Prints k _ _ _ _ _ (block-Prints body (suc k)) (more_arms-Follows rest k)

    more_arms-Follows :
        (a : MatchArms) (k : ℕ) → Follows k (format_more_arms debug a k) (more_arm_lines debug a k)
    more_arms-Follows MatchArms.no_arms k = none-Follows k
    more_arms-Follows (MatchArms.arm pattern body _ rest) k =
        newline-Follows k _
          (line k (format_match_pattern pattern ++ codes ":")
            ∷ (block_lines debug body (suc k) ++ more_arm_lines debug rest k))
          (headed-Prints k _ _ _ _ _ (block-Prints body (suc k)) (more_arms-Follows rest k))

    select_arms-Prints :
        (a : SelectArms) (k : ℕ) → Prints k (format_select_arms debug a k) (select_lines debug a k)
    select_arms-Prints SelectArms.no_select_arms k = blank-Prints k
    select_arms-Prints (SelectArms.select_arm binding kind body _ rest) k =
        headed-Prints k _ _ _ _ _ (block-Prints body (suc k)) (more_select_arms-Follows rest k)

    more_select_arms-Follows :
        (a : SelectArms) (k : ℕ)
        → Follows k (format_more_select_arms debug a k) (more_select_lines debug a k)
    more_select_arms-Follows SelectArms.no_select_arms k = none-Follows k
    more_select_arms-Follows (SelectArms.select_arm binding kind body _ rest) k =
        newline-Follows k _
          (line k (format_select_head debug binding kind ++ codes ":")
            ∷ (block_lines debug body (suc k) ++ more_select_lines debug rest k))
          (headed-Prints k _ _ _ _ _ (block-Prints body (suc k)) (more_select_arms-Follows rest k))

-- The text of a block is that of its lines, each statement, `else` and arm on a line of its own,
-- bodies one level further in, and arms' bodies two. The first line has at most one level more
-- than what is before, no line has more than one level more than the line before it, and none less
-- than the block. A body without statements is one empty line.
pub format_block-lines :
    (debug : Text → Text) (b : Block) (k : ℕ)
    → (format_block debug b k ++ codes "\n" ≡ unlines (block_lines debug b k))
      × Fits k (block_lines debug b k)
format_block-lines debug b k = block-Prints debug b k

count_from-indentation :
    (number count k c : ℕ) (cs : Text)
    → (c == b' ') ≡ false
    → (c == b'\t') ≡ false
    → count % 4 ≡ 0
    → count_from number count (indentation k ++ c ∷ cs) ≡ (count + 4 * k, [])
unfolding count_from
count_from-indentation number count zero c cs h t m =
    let multiple : (count % 4 == 0) ≡ true = ap (λ n. n == 0) m in
    rw (h, t, multiple) (ap (λ n. (n, [])) (omega arith))
count_from-indentation number count (suc k) c cs h t m =
    count_from-indentation number (count + 1 + 1 + 1 + 1) k c cs h t (omega arith)
    ∙ ap (λ n. (n, [])) (omega arith)

-- For a line that the formatter has printed at a level, and that starts with neither a space nor a
-- tab, the lexer counts four columns a level, and reports nothing.
pub count_indent-indentation :
    (number k c : ℕ) (cs : Text)
    → (c == b' ') ≡ false
    → (c == b'\t') ≡ false
    → count_indent (indentation k ++ c ∷ cs) number ≡ (4 * k, [])
count_indent-indentation number k c cs h t =
    count_from-indentation number 0 k c cs h t refl ∙ ap (λ n. (n, [])) (omega arith)
