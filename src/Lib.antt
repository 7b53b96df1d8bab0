-- ===== src/Lib.antt =====
-- The compiler of the BackAndForth language: src/lexer.c, src/parser.c, src/sema.c, the passes of
-- src/main.c and the types of include/baf.h; and runtime/i386-disk.c: the file system BAFS1.
--
-- The compiler reads a source file (src/main.c), expands its includes (src/include.c), cuts the text
-- into tokens (src/lexer.c), parses them (src/parser.c), analyses the tree (src/sema.c) and prints
-- LLVM IR (src/codegen.c), which is linked with one of the runtimes in runtime/. This library models
-- the lexer, the parser and the analyser (the checks of the declarations, the resolution of calls,
-- the inference of types, and the validation of the tree that comes out), and how main goes from one
-- to the other: it stops at the first pass that reports something. Of the i386 runtime, it models
-- BAFS1, which keeps files and directories on a disk: a superblock, 64 directory entries, and ranges
-- of sectors.
--
-- Files:
--   Prelude       tests on numbers, lists, byte strings (`strcmp(a, b) == 0` is `text_eq`), integers
--   Token         include/baf.h: `TokenKind`, `Token`; src/lexer.c: `token_kind_name`
--   Syntax        include/baf.h: the syntax tree; arrays are lists, NULL is a constructor
--   Diagnostic    src/util.c: `diag_error`; a list of reports stands for `Diagnostics`
--   Lexer         src/lexer.c. Chars: the position and the rest of the text; Words: names, keywords
--                 and numbers; Strings, Comments: their loops; Scan: `lex_source`
--   Parser        src/parser.c. Stream: the state, `match`, `consume` and their like; Expressions:
--                 `parse_expression`; Statements, Blocks: `parse_statement`, `parse_block`;
--                 Program: `parse_function`, `parse_program`
--   Driver        src/main.c: `check_source`, the passes up to the code generator
--   FileSystem    runtime/i386-disk.c. Layout, Encoding: the bytes of a sector; Directory: lookups;
--                 Allocate: `fs_allocate`; Operations, Files, Paths: the `baf_core_fs_` functions
--   Sema          src/sema.c. Builtins: the table; Env: the environment; Declarations:
--                 `validate_declarations`; Matching, Resolve: `resolve_call`, `resolve_block_calls`;
--                 Types, Validate: `validate_expr`; ValidateBlock: `validate_block`; Returns:
--                 `block_always_returns`; Infer: `infer_expr`, `infer_call`; InferBlock:
--                 `infer_block`; ValidateFunction, Analyze: `analyze_program`
--   Lexer/Trace, Rules, Place, Classes, Shapes, StringShape, Keywords, Arms, Order, Print, Literals, Lexemes,
--   RoundTrip, Parser/Safe, TotalExpressions,
--   TotalStatements, TotalBranches, TotalCases, TotalBlocks, Total, BeginBlock, Grammar, Reads, Shape,
--   Precedence, Operands, ExpressionTrees, Driver/Passes, FileSystem/FirstOverlap, FirstFit,
--   Splice, EntryBytes, Commit, WriteTotal and Sema/WellResolved, Assign, Supplied,
--   ResolveTree, Runs, LeavesByReturn, Reports, BlockReports, Jumps, StepScope, FunctionRuns,
--   DistinctNames, Kept, InferKept, InferBlockKept, Accepted, Typing,
--   OperatorTyping, WellTyped
--                 hold specifications and proofs
--   Tests, ParserTests, FileSystemTests
--                 runs at concrete inputs
--
-- State is passed on: a `Lexer` holds what is left of the source in place of an index, a `Parser` the
-- tokens from the current one on; the actions of the parser are functions on it, put together by
-- `>>=`. An `Environment` is a list whose newest binding is first, and a function that updates the tree
-- returns the new one. `Call.resolved_function` is an index into `Program.functions`, and an
-- external type of a binding is the index of a function and of its parameter. Bytes are numbers
-- below 256 as C's `unsigned char` holds them, and the classes of <ctype.h> are those of the C
-- locale. `strtoll` is the base-10 one, which stops at LLONG_MAX. A `Drive` is what the file system uses
-- of a disk, and `FileStore` holds the disk, the current directory and the read buffer; `uint32_t`
-- wraps around by `u32`. A line or a column, an `int` in the source, has no bound. A byte behind the end of a list counts as 0.
--
-- Fuel: `lex_loop` has the length of the source, and each of its rounds reads a byte;
-- `infer_rounds` has the 64 rounds of the source. The functions of the parser that recurse or loop have
-- one more than the number of tokens, and each step that spends fuel takes a token. `fs_allocate` has
-- one more than the number of sectors, and each round moves to a later sector; `climb`
-- has the bound of 64 of the source. All other loops are
-- recursions on what they read.
--
-- Not modelled: `Expr.inferred_type`, which only src/codegen.c reads; memory, its growth and its
-- release; the text of the messages (each format string is a constructor of `Message`); the copy of
-- a function's return type in each call and its share in `changed` (Sema/Infer says why the types
-- come out the same); the command line and the files of main; include expansion and
-- code generation; the drivers of the i386 runtime, its console and what it prints; the other
-- runtimes; the scripts and the editor.
pub mod Prelude
pub mod Token
pub mod Syntax
pub mod Diagnostic
pub mod Lexer
pub mod Parser
pub mod Sema
pub mod Driver
pub mod FileSystem
mod Tests
mod ParserTests
mod FileSystemTests
