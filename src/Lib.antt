-- ===== src/Lib.antt =====
-- Verification of protosnirk, a compiler for an indentation based language.
--
-- The program reads a text with a tokenizer, which turns indentation into `BeginBlock` and
-- `EndBlock` tokens; a Pratt parser builds a syntax tree from the tokens, with lookahead and rules
-- that skip indentation; the passes of identify/ then give the names scoped ids, and later passes
-- infer types and generate code. Here the text is a list of code points, the tokenizer a state
-- passed from call to call, a panic a value, and the parser a function from its state to a result
-- and the next state.
--
-- The files, and what they model:
--   Prelude      shared names, tests, strings, results, association lists;
--   Lex          src/lex: `Span` (span.rs), `TextIter` (textiter.rs), `Token` (token.rs),
--                `Tokens` (tokens.rs: the tables and `get_type`), `Tokenizer` (tokenizer.rs: the
--                handlers `next_eof`, `next_indent`, `next_outdent`, `next_line` and the `parse_`
--                functions under their own names in Tokenizer/Handlers and Tokenizer/Symbol);
--   Ast          src/ast: identifiers, expressions, statements and items with their constructors,
--                and `Index` (index.rs: `ScopedId`);
--   Parse        src/parse: `State` (the methods of `Parser` on the lookahead), `Operators`,
--                `Expressions` (`Parser::expression` and parsers/expression), `Statements`
--                (parsers/statement) and `Items` (parsers/item and `parse_unit`);
--   Identify     src/identify: `ScopeBuilder` (scope_builder.rs), `OriginManager`
--                (names/origin_manager.rs), `Names` (names/item_namer.rs in Names/Items,
--                names/expr_namer.rs in Names/Expressions and Names/Statements), `TypeScope`
--                (type_scope_builder.rs), `Types` (types/type_identifier.rs in Types/Naming,
--                types/item_namer.rs in Types/Items, types/expr_namer.rs in Types/Exprs), `Passes`
--                (`ASTIdentifier` of mod.rs), `TypeGraph` (types/type_graph.rs) over the interface
--                `Petgraph`, and `Typographer` (`ASTTypeChecker` of types/mod.rs, with
--                types/item_typographer.rs and types/expr_typographer.rs);
--   Check        src/check: `Errors` (errors.rs, collector.rs) and `Concretifier`
--                (types/type_concretifier.rs);
--   Llvm         src/llvm: the wrappers that the compiler calls, `Values` (context.rs, module.rs,
--                types.rs, value.rs, basic_block.rs, pass_manager.rs), `Builder` (builder.rs) and
--                `Target` (target.rs), over the interface `Sys`; `Execution` has what LLVM's
--                reference says of code without branches, `Recorder` an implementation;
--   Compile      src/compile: `ModuleProvider` (module_provider.rs), and module_compiler.rs in
--                `State`, `Exprs`, `Blocks` (the basic blocks of an `if`), `Stmts` and `Items`;
--   Pipeline     src/pipeline/mod.rs: `IdentifyRunner`, `CheckRunner` and, in
--                Pipeline/CompileRunner.antt, `CompileRunner`.
-- A visitor is an action (Prelude/States): a function from its state to a result and the next
-- state, or to `none` where it panics. The dispatch and the walks of src/ast/visit are written into
-- its functions `visit_item`, `visit_stmt`, `visit_expression` and `walk_`. A pass that writes into
-- the cells of the tree returns the new node.
-- Tests in each part run the definitions and hold the examples of the results.
--
-- Numbers: `u32` and `u16` counters wrap at their width where the code adds, and saturate where it
-- says so. The stack of indentations and the scopes have their top first.
--
-- Parameters: the classes of characters of the crate unicode_categories (`CharClasses`), and the
-- graph of the crate petgraph (`Petgraph`), with what its documentation says of a depth first search
-- (`IsLawful`); Identify/Petgraph/History.antt has a graph that satisfies it. The functions of the
-- crate llvm_sys (`LlvmSys`): every call takes what LLVM keeps, the world, to a result and a new
-- world, and a pointer is its address. `View` says what values and cells of memory are worth when the
-- code in front of the builder has been run, with the arithmetic of `double` as a parameter
-- (`Arithmetic`), and `IsExecution` what instructions without branches do to them.
--
-- Fuel: a call of the tokenizer has a unit for each handler that it enters, 4 n + 4 for n
-- characters, and the loop over a text as many calls. A character is read once, and in front of it
-- come at most the handlers for a start, an indentation, an outdentation and a line. The parser
-- spends a unit for each call of one of its functions on fuel, and `parse` has 16 for each token.
--
-- Not modelled: logging; the printing of tokens, errors and graphs, where the text of an error is
-- its format with the arguments; debug assertions; src/lint, whose checker is not compiled;
-- `Runner::parse`, which reads the tokens from the tokenizer as it goes; the wrappers of src/llvm that
-- the compiler does not call, and the disposal of what LLVM has allocated. `parse_f64` reads decimal
-- numbers exactly and does not round.
pub mod Prelude
pub mod Lex
pub mod Ast
pub mod Parse
pub mod Identify
pub mod Check
pub mod Llvm
pub mod Compile
pub mod Pipeline
