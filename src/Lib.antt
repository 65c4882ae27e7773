-- ===== src/Lib.antt =====
-- The gof compiler (compiler/gof-compiler/src): a lexer, a parser, a loader of modules, a type
-- checker, lowerings to linear code, a formatter, and an interpreter that runs the syntax tree. This
-- library models the parts below; each file's header says which code it is about.
--
-- A source text goes through `lex` (lexer.rs) and `parse` (ast.rs), once for each module that
-- module_graph.rs finds by the imports; the items of all modules are put together, and go through
-- `hir::lower`, the type checker (typed_hir.rs), `mir::lower`, `ssa::lower` and `backend::lower`
-- (pipeline.rs calls them in turn).
--
-- - Source, Diagnostics, Token: source.rs, diagnostics.rs, token.rs, the types that the passes share.
--   Source/Provider has `SourceProvider` as a record of operations, which the module graph takes as a
--   parameter, and the embedded provider as one implementation.
-- - Lexer: lexer.rs. Chars has the classes of characters and the words of the language, Line has
--   `lex_line` and `lex_string`, Lex has `count_indent` and `lex`. The loop of `lex_line` walks over
--   the characters by structural recursion: after a token of n characters it passes over the other
--   n - 1. So no fuel is needed.
-- - Ast, Ast/Statement, Ast/Item: the syntax tree of ast.rs. TypedHir: the types and the typed tree of
--   typed_hir.rs. A `Vec` inside a tree of its own type is a list type of the same `mutual` block.
-- - Parser: `Parser` of ast.rs. Discriminant and State have the tokens and `advance`, `check`,
--   `expect`; Expr, TypeRef, Statement, Item and Module have the functions of the grammar, and `parse`.
--   They are on fuel, and their Fuel modules say how much is enough: thirty steps for each token that
--   is left, since from one token to the next the descent through the grammar takes less than that.
--   Progress has what each of them keeps: no way back, the last token, only errors of its own added.
--   Print has the tokens of an expression, as the grammar that Print/Correct checks the parser
--   against. Lexed puts the lexer and the parser together.
-- - ModuleGraph: module_graph.rs. Resolve has the resolver's state and the path of an import, Load has
--   `load_source`, Collect has `collect_items`, Graph has `load_module_graph_with_provider`. The
--   recursion of `load_source` over imports is on fuel: the modules that are being loaded are
--   different files, so that one step more than there are files is enough (Load/Pigeonhole, Load/Fuel).
-- - Hir: hir.rs. Lower has `lower`, Raise reads a lowered module back.
-- - Mir: mir.rs. Instruction has the data, Builder the construction (`MirBuilder`), Numbering, Scopes
--   and Values the properties of the code. `eval` of Values is the order of evaluation of
--   interpreter.rs, with the operations as a parameter.
-- - Ssa: ssa.rs and backend.rs.
-- - Formatter: formatter.rs. Statement prints types, patterns and statements, Module items and modules;
--   Layout describes the lines of a block on its own, and Lines compares the two.
-- - Interpreter: interpreter.rs, of which the channels and the scopes are modelled. Channel/State has
--   `ChannelState`, Channel/Rounds what `send` and `recv` do between two waits, Channel/System threads
--   that share a channel: a schedule is a list of such steps, in any order; a select begins and ends a
--   wait for each of its guards (`SelectRecvWaitGuard`). Buffered, Waiting and Lost have the theorems
--   on schedules. Scopes has `ScopeStack` and the assignment to a name.
--
-- Conventions. A `char` is its code point, a `String` or `str` the list of its code points, a `PathBuf`
-- the text of the path; columns count characters, as in the source, and the column of a line's end
-- counts its bytes. A `usize` is a natural number: line numbers and columns stay far below 2^64. An
-- `i64` is an integer. A `HashMap` is an association list. A method that changes its object returns the
-- new one. A panic (`expect`, an index out of range) is `none`.
--
-- Not modelled: the provider that reads the file system and what the operating system does to make a
-- path canonical, and the manifests and lockfiles of packages; the rendering of diagnostics, which
-- reads the sources again; the rules of the type checker; the wake-up signals of channels; the
-- evaluation of programs and the standard library, which talks to the network, to files and to
-- processes; the command line, the test runner, the watcher and the pipeline's glue.
pub mod Prelude
pub mod Source
pub mod Diagnostics
pub mod Token
pub mod Lexer
pub mod Ast
pub mod Hir
pub mod TypedHir
pub mod Mir
pub mod Ssa
pub mod Parser
pub mod ModuleGraph
pub mod Formatter
pub mod Interpreter
