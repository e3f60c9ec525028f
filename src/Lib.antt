-- ===== src/Lib.antt =====
-- The verification library of the compiler of kli, a small typed language.
--
-- The compiler (src/main.rs) reads the modules of a program, lexes and parses them (src/parsing),
-- resolves names (src/resolve), collects the definitions behind a context of cached queries
-- (src/collect), checks types (src/typecheck), patterns (src/patterns) and literals
-- (src/literal_check.rs), builds and simplifies a graph of blocks (src/mir), and emits code
-- through Cranelift (src/codegen), asking src/layout for the size and placement of each type. The
-- library models the parts below; each function of the source keeps its name.
--
-- Types (Types.antt): `TypeKind` of src/types/mod.rs is `Ty`; the definitions of named types are
-- those of src/collect/mod.rs; `Scheme::bind` of src/scheme.rs is `bind`. `Ctxt` holds the
-- queries of `CtxtRef` that these parts ask: `type_def`, `type_of`, `same_module`, `is_opaque`
-- and `is_type_recursive`. They are functions of which no law is assumed. Types/Integer.antt is
-- `IntegerKind` with the test of src/literal_check.rs, and Types/Inhabited.antt is
-- `is_uninhabited`; Types/Cases.antt has the operations of `TypeDefInfo` and `Case`.
--
-- Layouts (Layout.antt): src/layout/mod.rs. Layout/Size.antt has the arithmetic on `Size` with
-- its panics on overflow of 64 bits, Layout/Defs.antt the layouts, Layout/Aggregate.antt
-- `aggregate_layout` and `record_layout`, Layout/Variant.antt `variant_layout`, `prefixed_by` and
-- what `project_downcast` of src/codegen/mod.rs makes of them, Layout/Of.antt `calculate_layout`.
-- The theorems on each stand in its child modules.
--
-- Patterns (Patterns.antt): src/patterns. Patterns/Ctors.antt is ctors.rs, Patterns/Pat.antt and
-- Patterns/Missing.antt are pat.rs, Patterns/Convert.antt is convert.rs and Patterns/Visit.antt
-- has `check_patterns` of visit.rs. Patterns/Values.antt says independently of them what a value
-- of a type is and when a pattern of the check matches it, and Patterns/Source.antt when a pattern of
-- the typed program does.
--
-- Lexer (Lex.antt): src/parsing/lex.rs and tokens.rs. Lex/Tokens.antt has the tokens and what
-- they print, Lex/Words.antt the keyword table of `ident_token`, Lex/State.antt the `Lexer` as a
-- state that a run passes on, Lex/Number.antt `num_token`, Lex/Literal.antt `string_token`,
-- `char_escape` and `char_literal`, Lex/Next.antt `next_token` and `lex`. Characters are code
-- points and a text is their list. The answer of `char::is_numeric` beyond ASCII is a parameter
-- with no law. Each loop of the lexer runs on one step for each character that is left and one
-- more.
--
-- Intermediate representation (Mir.antt): src/mir. Mir/Syntax.antt has the data of mod.rs and
-- Mir/Places.antt its operations on places, constants and types. Mir/Graph.antt has the edges
-- between the blocks, `predecessors` of basic_blocks.rs, `preorder` of passes/mod.rs and
-- `reachable` of traversal.rs. Mir/Visit.antt is visitor/mod.rs: a method that a visitor
-- overrides is a parameter of the methods that call it. Mir/Passes/Unreachable.antt,
-- Mir/Passes/Simplify.antt, Mir/Passes/DeadStore.antt, Mir/Passes/UnusedLocals.antt and
-- Mir/Passes/ZeroSized.antt are the passes RemoveUnreachable, SimplifyCfg, DeadStoreElim,
-- RemoveUnusedLocals and RemoveZst. What a body does is described apart from the passes, in
-- Mir/Runs.antt: a run goes from block to block, and what a statement, an operand and an
-- assertion mean is a `Machine`; where a theorem needs a law of it, the law is a hypothesis of
-- the theorem. Only the runs that end are compared. The loop of `preorder` has one step for each
-- edge and one more; the rounds of the loop of `SimplifyCfg`, which has no bound of its own, are a
-- parameter. On which locals a statement depends is `depends_stmt` of Mir/Visit/Mentions.antt,
-- apart from the walks of the source.
--
-- A run of the code is an `Outcome` (Prelude/Outcome.antt): a value, an error, a panic, or fuel
-- run out. Fuel stands where the source recurs through the definitions of named types, on which
-- it has no bound of its own (`is_uninhabited`, `constructors_of_ty`, `missing_patterns_inner`,
-- `calculate_layout`): one unit for each level of the recursion. For `calculate_layout` the depth
-- to which types hold each other in place is enough, and Layout/Of/Enough.antt is about that. Of
-- the others the theorems speak of every amount of fuel on which they return.
--
-- Ids are natural numbers: that an id does not fit in its 32 bits, on which src/index_vec/mod.rs
-- panics, is left out.
--
-- Not modelled: the parser, name resolution, type checking, the construction of MIR, its
-- dominators, `Inline`, and code generation, which the library does not reach yet, and the input
-- and output of the driver. Printing is left out but for that of tokens.
pub mod Prelude
pub mod Types
pub mod Layout
pub mod Patterns
pub mod Lex
pub mod Mir
