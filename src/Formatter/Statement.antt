-- ===== src/Formatter/Statement.antt =====
-- compiler/gof-compiler/src/formatter.rs: the printing of written types, patterns and statements.
-- A list that is joined is printed from its first element on, with the separator before each other.
use gof_lang.Prelude.{
  ℕ, zero, suc, Bool, true, false, List, [], ◌∷◌, ◌++◌, Option, none, some, Text, codes,
}
use gof_lang.Ast.{Expr}
use gof_lang.Ast.Statement.{
  TypeRef, TypeRefs, MatchPattern, SelectArmKind, Stmt, Block, MatchArms, SelectArms,
}
use gof_lang.Formatter.{format_expr}

-- `join`
abbrev pub join : Text → List Text → Text
join separator [] = []
join separator (t ∷ ts) = t ++ each ts
  where
    each : List Text → Text
    each [] = []
    each (t ∷ ts) = separator ++ (t ++ each ts)

-- `"    ".repeat(indent_level)`
abbrev pub indentation : ℕ → Text
indentation zero = []
indentation (suc n) = codes "    " ++ indentation n

unfoldable mutual
  pub format_type_ref : TypeRef → Text
  format_type_ref (TypeRef.type_ref name TypeRefs.nil _) = name
  format_type_ref (TypeRef.type_ref name (TypeRefs.cons ty tys) _) =
      name ++ (codes "[" ++ (format_type_ref ty ++ (format_type_refs tys ++ codes "]")))

  pub format_type_refs : TypeRefs → Text
  format_type_refs TypeRefs.nil = []
  format_type_refs (TypeRefs.cons ty tys) =
      codes ", " ++ (format_type_ref ty ++ format_type_refs tys)

abbrev pub format_bindings : List Text → Text
format_bindings [] = []
format_bindings (b ∷ bs) = codes "(" ++ (join (codes ", ") (b ∷ bs) ++ codes ")")

abbrev pub format_match_pattern : MatchPattern → Text
format_match_pattern pattern =
    pattern.enum_name ++ (codes "." ++ (pattern.variant ++ format_bindings pattern.bindings))

abbrev pub format_mut : Bool → Text
format_mut true = codes "mut "
format_mut false = []

abbrev pub format_annotation : Text → Option TypeRef → Text
format_annotation before none = []
format_annotation before (some ty) = before ++ format_type_ref ty

module _ (debug : Text → Text) where
  abbrev pub format_select_head : Option Text → SelectArmKind → Text
  format_select_head binding SelectArmKind.default = codes "default"
  format_select_head (some name) (SelectArmKind.operation e) =
      name ++ (codes " = " ++ format_expr debug e)
  format_select_head none (SelectArmKind.operation e) = format_expr debug e

  -- What is printed before the body of a statement, without the indentation.
  abbrev pub format_binding : Text → Bool → Option TypeRef → Expr → Text
  format_binding name mutable ty value =
      format_mut mutable
      ++ (name ++ (format_annotation (codes ": ") ty ++ (codes " = " ++ format_expr debug value)))

  abbrev pub format_if : Expr → Text
  format_if condition = codes "if " ++ (format_expr debug condition ++ codes ":")

  abbrev pub format_while : Expr → Text
  format_while condition = codes "while " ++ (format_expr debug condition ++ codes ":")

  abbrev pub format_for : Text → Expr → Text
  format_for binding iterable =
      codes "for " ++ (binding ++ (codes " in " ++ (format_expr debug iterable ++ codes ":")))

  abbrev pub format_match : Expr → Text
  format_match value = codes "match " ++ (format_expr debug value ++ codes ":")

  unfoldable mutual
    pub format_block : Block → ℕ → Text
    format_block Block.nil k = []
    format_block (Block.cons s b) k = format_stmt s k ++ format_rest b k

    pub format_rest : Block → ℕ → Text
    format_rest Block.nil k = []
    format_rest (Block.cons s b) k = codes "\n" ++ (format_stmt s k ++ format_rest b k)

    pub format_stmt : Stmt → ℕ → Text
    format_stmt (Stmt.return value _) k =
        indentation k ++ (codes "return " ++ format_expr debug value)
    format_stmt (Stmt.bind name mutable ty value _) k =
        indentation k ++ format_binding name mutable ty value
    format_stmt (Stmt.assign name value _) k =
        indentation k ++ (name ++ (codes " = " ++ format_expr debug value))
    format_stmt (Stmt.break _) k = indentation k ++ codes "break"
    format_stmt (Stmt.continue _) k = indentation k ++ codes "continue"
    format_stmt (Stmt.if_stmt condition then_body else_body _) k =
        (indentation k ++ format_if condition)
        ++ (codes "\n" ++ (format_block then_body (suc k) ++ format_else else_body k))
    format_stmt (Stmt.while condition body _) k =
        (indentation k ++ format_while condition) ++ (codes "\n" ++ format_block body (suc k))
    format_stmt (Stmt.for binding iterable body _) k =
        (indentation k ++ format_for binding iterable) ++ (codes "\n" ++ format_block body (suc k))
    format_stmt (Stmt.match value arms _) k =
        (indentation k ++ format_match value) ++ (codes "\n" ++ format_arms arms (suc k))
    format_stmt (Stmt.select arms _) k =
        (indentation k ++ codes "select:") ++ (codes "\n" ++ format_select_arms arms (suc k))
    format_stmt (Stmt.expr value _) k = indentation k ++ format_expr debug value

    -- Nothing, if there is no `else` body.
    pub format_else : Block → ℕ → Text
    format_else Block.nil k = []
    format_else (Block.cons s b) k =
        codes "\n"
        ++ ((indentation k ++ codes "else:")
            ++ (codes "\n" ++ (format_stmt s (suc k) ++ format_rest b (suc k))))

    -- The arms stand one level further in, and their bodies one more.
    pub format_arms : MatchArms → ℕ → Text
    format_arms MatchArms.no_arms k = []
    format_arms (MatchArms.arm pattern body _ rest) k =
        (indentation k ++ (format_match_pattern pattern ++ codes ":"))
        ++ (codes "\n" ++ (format_block body (suc k) ++ format_more_arms rest k))

    pub format_more_arms : MatchArms → ℕ → Text
    format_more_arms MatchArms.no_arms k = []
    format_more_arms (MatchArms.arm pattern body _ rest) k =
        codes "\n"
        ++ ((indentation k ++ (format_match_pattern pattern ++ codes ":"))
            ++ (codes "\n" ++ (format_block body (suc k) ++ format_more_arms rest k)))

    pub format_select_arms : SelectArms → ℕ → Text
    format_select_arms SelectArms.no_select_arms k = []
    format_select_arms (SelectArms.select_arm binding kind body _ rest) k =
        (indentation k ++ (format_select_head binding kind ++ codes ":"))
        ++ (codes "\n" ++ (format_block body (suc k) ++ format_more_select_arms rest k))

    pub format_more_select_arms : SelectArms → ℕ → Text
    format_more_select_arms SelectArms.no_select_arms k = []
    format_more_select_arms (SelectArms.select_arm binding kind body _ rest) k =
        codes "\n"
        ++ ((indentation k ++ (format_select_head binding kind ++ codes ":"))
            ++ (codes "\n" ++ (format_block body (suc k) ++ format_more_select_arms rest k)))
