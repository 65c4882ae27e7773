-- ===== src/Formatter.antt =====
-- compiler/gof-compiler/src/formatter.rs: the printing of expressions. What `{:?}` prints of a
-- string is a parameter.
pub mod Parentheses
pub mod Module
pub mod Statement
pub mod Layout
pub mod Fits
pub mod Lines
mod Tests
use gof_lang.Prelude.{Bool, true, false, List, [], ◌∷◌, ◌++◌, Text, codes}
use gof_lang.Ast.{BinaryOp, UnaryOp, Expr, Exprs, DictEntries}
use gof_lang.Parser.Discriminant.{signed_decimal}

unfoldable pub format_op : BinaryOp → Text
format_op BinaryOp.add = codes "+"
format_op BinaryOp.sub = codes "-"
format_op BinaryOp.mul = codes "*"
format_op BinaryOp.div = codes "/"
format_op BinaryOp.mod_op = codes "%"
format_op BinaryOp.and_op = codes "and"
format_op BinaryOp.or_op = codes "or"
format_op BinaryOp.eq = codes "=="
format_op BinaryOp.ne = codes "!="
format_op BinaryOp.lt = codes "<"
format_op BinaryOp.le = codes "<="
format_op BinaryOp.gt = codes ">"
format_op BinaryOp.ge = codes ">="

abbrev format_bool : Bool → Text
format_bool true = codes "true"
format_bool false = codes "false"

abbrev format_unary : UnaryOp → Text → Text
format_unary UnaryOp.not_op value = codes "not " ++ value
format_unary UnaryOp.neg value = codes "-" ++ value

-- `join(", ")`, for what comes after the first.
abbrev with_comma : Text → Text → Text
with_comma item rest = codes ", " ++ (item ++ rest)

-- `format_dict_entry`, from what its key and its value are printed as.
abbrev format_dict_entry : Text → Text → Text
format_dict_entry key value = key ++ (codes ": " ++ value)

unfoldable mutual
  pub format_expr : (Text → Text) → Expr → Text
  format_expr debug (Expr.int value _) = signed_decimal value
  format_expr debug (Expr.string value _) = debug value
  format_expr debug (Expr.bool value _) = format_bool value
  format_expr debug (Expr.ident value _) = value
  format_expr debug (Expr.list items _) = codes "[" ++ (format_items debug items ++ codes "]")
  format_expr debug (Expr.dict entries _) = codes "{" ++ (format_entries debug entries ++ codes "}")
  format_expr debug (Expr.call callee args _) =
      callee ++ (codes "(" ++ (format_items debug args ++ codes ")"))
  format_expr debug (Expr.field target field _) = format_expr debug target ++ (codes "." ++ field)
  format_expr debug (Expr.method_call target method args _) =
      format_expr debug target
      ++ (codes "." ++ (method ++ (codes "(" ++ (format_items debug args ++ codes ")"))))
  format_expr debug (Expr.index target place _) =
      format_expr debug target ++ (codes "[" ++ (format_expr debug place ++ codes "]"))
  format_expr debug (Expr.go value _) = codes "go " ++ format_expr debug value
  format_expr debug (Expr.await value _) = codes "await " ++ format_expr debug value
  format_expr debug (Expr.propagate value _) = format_expr debug value ++ codes "?"
  format_expr debug (Expr.unary op value _) = format_unary op (format_expr debug value)
  format_expr debug (Expr.binary lhs op rhs _) =
      format_expr debug lhs ++ (codes " " ++ (format_op op ++ (codes " " ++ format_expr debug rhs)))

  pub format_items : (Text → Text) → Exprs → Text
  format_items debug Exprs.nil = []
  format_items debug (Exprs.cons e es) = format_expr debug e ++ format_more debug es

  pub format_more : (Text → Text) → Exprs → Text
  format_more debug Exprs.nil = []
  format_more debug (Exprs.cons e es) = with_comma (format_expr debug e) (format_more debug es)

  pub format_entries : (Text → Text) → DictEntries → Text
  format_entries debug DictEntries.no_entries = []
  format_entries debug (DictEntries.entry key value rest) =
      format_dict_entry (format_expr debug key) (format_expr debug value)
      ++ format_more_entries debug rest

  pub format_more_entries : (Text → Text) → DictEntries → Text
  format_more_entries debug DictEntries.no_entries = []
  format_more_entries debug (DictEntries.entry key value rest) =
      with_comma (format_dict_entry (format_expr debug key) (format_expr debug value))
        (format_more_entries debug rest)
