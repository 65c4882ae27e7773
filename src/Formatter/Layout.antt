-- ===== src/Formatter/Layout.antt =====
-- The lines that a block is printed as: an independent description of what
-- compiler/gof-compiler/src/formatter.rs prints.
use gof_lang.Prelude.{ℕ, suc, List, [], ◌∷◌, ◌++◌, Text, codes}
use gof_lang.Ast.Statement.{Stmt, Block, MatchArms, SelectArms}
use gof_lang.Formatter.{format_expr}
use gof_lang.Formatter.Statement.{
  indentation, format_match_pattern, format_select_head, format_binding, format_if, format_while,
  format_for, format_match,
}

-- A line at a level of indentation; a body without statements is printed as an empty line.
pub data Line : Type 0 where
  blank : Line
  line : ℕ → Text → Line

abbrev pub unlines : List Line → Text
unlines [] = []
unlines (blank ∷ ls) = codes "\n" ++ unlines ls
unlines (line k text ∷ ls) = (indentation k ++ text) ++ (codes "\n" ++ unlines ls)

module _ (debug : Text → Text) where
  unfoldable mutual
    pub block_lines : Block → ℕ → List Line
    block_lines Block.nil k = blank ∷ []
    block_lines (Block.cons s b) k = stmt_lines s k ++ rest_lines b k

    pub rest_lines : Block → ℕ → List Line
    rest_lines Block.nil k = []
    rest_lines (Block.cons s b) k = stmt_lines s k ++ rest_lines b k

    pub stmt_lines : Stmt → ℕ → List Line
    stmt_lines (Stmt.return value _) k = line k (codes "return " ++ format_expr debug value) ∷ []
    stmt_lines (Stmt.bind name mutable ty value _) k =
        line k (format_binding debug name mutable ty value) ∷ []
    stmt_lines (Stmt.assign name value _) k =
        line k (name ++ (codes " = " ++ format_expr debug value)) ∷ []
    stmt_lines (Stmt.break _) k = line k (codes "break") ∷ []
    stmt_lines (Stmt.continue _) k = line k (codes "continue") ∷ []
    stmt_lines (Stmt.if_stmt condition then_body else_body _) k =
        line k (format_if debug condition)
        ∷ (block_lines then_body (suc k) ++ else_lines else_body k)
    stmt_lines (Stmt.while condition body _) k =
        line k (format_while debug condition) ∷ block_lines body (suc k)
    stmt_lines (Stmt.for binding iterable body _) k =
        line k (format_for debug binding iterable) ∷ block_lines body (suc k)
    stmt_lines (Stmt.match value arms _) k =
        line k (format_match debug value) ∷ arm_lines arms (suc k)
    stmt_lines (Stmt.select arms _) k = line k (codes "select:") ∷ select_lines arms (suc k)
    stmt_lines (Stmt.expr value _) k = line k (format_expr debug value) ∷ []

    pub else_lines : Block → ℕ → List Line
    else_lines Block.nil k = []
    else_lines (Block.cons s b) k =
        line k (codes "else:") ∷ (stmt_lines s (suc k) ++ rest_lines b (suc k))

    pub arm_lines : MatchArms → ℕ → List Line
    arm_lines MatchArms.no_arms k = blank ∷ []
    arm_lines (MatchArms.arm pattern body _ rest) k =
        line k (format_match_pattern pattern ++ codes ":")
        ∷ (block_lines body (suc k) ++ more_arm_lines rest k)

    pub more_arm_lines : MatchArms → ℕ → List Line
    more_arm_lines MatchArms.no_arms k = []
    more_arm_lines (MatchArms.arm pattern body _ rest) k =
        line k (format_match_pattern pattern ++ codes ":")
        ∷ (block_lines body (suc k) ++ more_arm_lines rest k)

    pub select_lines : SelectArms → ℕ → List Line
    select_lines SelectArms.no_select_arms k = blank ∷ []
    select_lines (SelectArms.select_arm binding kind body _ rest) k =
        line k (format_select_head debug binding kind ++ codes ":")
        ∷ (block_lines body (suc k) ++ more_select_lines rest k)

    pub more_select_lines : SelectArms → ℕ → List Line
    more_select_lines SelectArms.no_select_arms k = []
    more_select_lines (SelectArms.select_arm binding kind body _ rest) k =
        line k (format_select_head debug binding kind ++ codes ":")
        ∷ (block_lines body (suc k) ++ more_select_lines rest k)
