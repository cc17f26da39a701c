-- ===== src/Lib.antt =====
-- online-dsl-forge: a small expression language, parsed, checked and evaluated under explicit
-- resource limits. The parts that are modelled, bottom up:
--
--   * Base: helpers. Text is a list of code points, `Result` has a third outcome for a loop that ran
--     out of fuel, `usize` is a natural number with the checked operations of a 64-bit target, and
--     `i64` is an integer with a range check.
--   * Syntax: source/src/parser/ast.rs, span.rs, diagnostics.rs and limits.rs. A message is a
--     constructor in place of its text. Syntax/Measure and Syntax/Serialized are reference measures
--     of an AST.
--   * Preflight: source/src/parser/preflight.rs, `preflight_ast` on its explicit stack.
--   * Validation: source/src/parser/validation.rs, `validate_ast_syntax_with_scalar_limit`.
--   * Formatter: source/src/parser/format.rs. Formatter/Print is the recursive printer that the
--     explicit stack is compared with.
--   * Lexer: source/src/parser/lexer.rs. The state is the source's record, with the input from
--     `position` on in place of the whole input.
--   * Parser: source/src/parser/parse.rs. A method of the parser is a function from its state to a
--     result and a new state; an error gives the state up, as `?` does.
--   * Value: source/src/value.rs, the type of values; Value/Measure has the reference measures.
--   * Verified: source/src/sema/verified.rs and schema.rs, the expression that the evaluator runs and
--     the capability tickets.
--   * Runtime: source/src/runtime.rs, errors, limits and `validate_value`; Runtime/Registry is the
--     registry of runtime.rs and the call context of source/src/runtime/context.rs, Runtime/Operators
--     is source/src/runtime/operators.rs, and Runtime/Evaluator is source/src/runtime/evaluator.rs. A
--     handler is a function that returns a value and the bytes processed by then. Runtime/Trusting is
--     the evaluator without its checks of tickets and arities, a reference. Runtime/Capabilities is
--     source/src/runtime/capability_check.rs and the entry point of runtime.rs that calls it before
--     the evaluator, and Runtime/Registration has the calls of runtime.rs that register handlers and
--     the schema that a registry exports.
--   * Profile: source/src/sema/profile.rs, the profiles and the body access that rules need and
--     profiles allow.
--   * Map: the ordered maps and sets of the standard library, as the list of their entries.
--   * Schema: source/src/sema/schema.rs, what a host declares. Schema/Functions is
--     source/src/sema/schema/expression_limits.rs, Schema/Integrity is schema/integrity.rs beside it,
--     Schema/Builders has the calls that fill a schema, and Schema/Presets the schemas of
--     schema.rs and schema/oxirule.rs.
--   * Analyzer: source/src/sema/analyzer.rs and the files below analyzer. Analyzer/State is the
--     `AnalyzeState` and the monad of its methods, Analyzer/Limits and Analyzer/Lowering are
--     analyzer/limits.rs, Analyzer/Checks is phase.rs and body_need.rs, Analyzer/Regex is regex.rs,
--     Analyzer/Expressions lowers an expression (analyzer.rs and functions.rs), Analyzer/Dialect is
--     source/src/sema/dialect.rs, Analyzer/Graph is the search for recursive functions in
--     functions.rs, and Analyzer/Program is `Analyzer::analyze`.
--   * Meter: source/src/rulepack_render/limits.rs, the limits and counters of rendering a rule pack.
--     Meter/Totals names the calls that change a meter, so that sequences of them can be spoken of.
--   * Template: source/src/rulepack_render/template.rs. A template is measured, the work is
--     reserved, and then it is rendered.
--   * Tests, here and below Profile, Schema, Analyzer, Meter and Template: runs of the definitions.
--
-- Parsing calls the lexer and then the parser; formatting calls the preflight and the syntax check
-- first; the evaluator checks and charges every value with `validate_value` and dispatches to the
-- registry. The loops of the checks and of the printer run on the number of nodes; the lexer runs on
-- one round for each character; the binary, argument and selector loops of the parser run on the
-- number of tokens, and its two mutually recursive functions on two calls for each of the 256
-- nestings that `parse_nested` admits; templates run on one round for each character. That this fuel
-- is enough is part of the theorems. The evaluator recurs on the expression. The analyzer checks its
-- schema and the expression, searches the expression functions for cycles, counts the lowered
-- program and then lowers it. An expression function is inlined or called in a frame, so the count
-- and the lowering recur on two calls for each level of the depth limit and one for each frame of
-- arguments; the search runs on two rounds for each edge; the walks over an expression on one for
-- each node.
--
-- Parsing the digits of a float, printing a float, the arithmetic of floats, the compilation of a
-- regex, the host's variables and its handlers are parameters. Allocation is taken to succeed, and
-- iterative teardown, which only frees memory, is left out. Not modelled: conversion from and to
-- JSON, the default handlers, setters that replace one field, and of
-- the rendering of rule packs all but the meter and the templates.
pub mod Base
pub mod Syntax
pub mod Preflight
pub mod Validation
pub mod Formatter
pub mod Lexer
pub mod Parser
pub mod Value
pub mod Verified
pub mod Runtime
pub mod Map
pub mod Schema
pub mod Analyzer
pub mod Meter
pub mod Profile
pub mod Template
pub mod Tests
