-- ===== src/Analyzer/Regex.antt =====
-- source/src/sema/analyzer/regex.rs: the admission of regex literals. The regex library is the
-- parameter `compile`: the error for a pattern, a flavor and a size limit, if there is one.
use online_dsl_forge.Analyzer.Limits.{within}
use online_dsl_forge.Base.{
  none, some, [], ◌∷◌, ◌++◌, Text, List, ℕ, Bool, Option, true, ◌&&◌, codes, false, text_eq, suc,
  leb, byte_length, zero,
}
use online_dsl_forge.Analyzer.{ExpressionFunctionMode, Analyzer}
use online_dsl_forge.Analyzer.State.{AnalyzeState, complain_if, complain, RegexKey, InlineFrame}
use online_dsl_forge.Schema.{RegexFlavor, RegexArgMeta}
use online_dsl_forge.Syntax.{
  AstExpression, ExprKind, Expressions, kind_of, cons, SourceSpan, span_of, nil,
}
use online_dsl_forge.Map.{contains_key, insert_key, insert, lookup, text_lt}
use online_dsl_forge.Profile.{RegexPolicy}
use online_dsl_forge.Base.Usize.{saturating_add}

abbrev pub flavor_eq : RegexFlavor → RegexFlavor → Bool
flavor_eq RegexFlavor.default RegexFlavor.default = true
flavor_eq RegexFlavor.header_name RegexFlavor.header_name = true
flavor_eq _ _ = false

-- A pattern that is looked up in the map of its flavor.
abbrev pub regex_key_eq : RegexKey → RegexKey → Bool
regex_key_eq a b = flavor_eq a.0 b.0 && text_eq a.1 b.1

abbrev pub regex_key_lt : RegexKey → RegexKey → Bool
regex_key_lt (RegexFlavor.default, a) (RegexFlavor.header_name, b) = true
regex_key_lt (RegexFlavor.header_name, a) (RegexFlavor.default, b) = false
regex_key_lt (f, a) (g, b) = text_lt a b

unfoldable pub string_literal : AstExpression → Option Text
string_literal e = elim (kind_of e) [ ExprKind.string value ↦ some value | _ ↦ none ]

unfoldable pub zip_lookup : Text → List Text → Expressions → Option AstExpression
zip_lookup name [] args = none
zip_lookup name (p ∷ ps) nil = none
zip_lookup name (p ∷ ps) (cons e es) = elim (text_eq p name) [
  | true ↦ some e
  | false ↦ zip_lookup name ps es
]

abbrev pub identifier_name : ExprKind → Option Text
identifier_name (ExprKind.identifier name) = some name
identifier_name _ = none

-- The argument that an identifier stands for in the frame.
unfoldable pub frame_argument : AstExpression → InlineFrame → Option AstExpression
frame_argument e frame = elim (identifier_name (kind_of e)) [
  | none ↦ none
  | some name ↦ zip_lookup name frame.0 frame.1
]

-- The loop of `resolve_inline_argument`.
unfoldable pub resolve_in : List InlineFrame → AstExpression → AstExpression
resolve_in [] e = e
resolve_in (frame ∷ frames) e = elim (frame_argument e frame) [
  | none ↦ e
  | some argument ↦ resolve_in frames argument
]

unfoldable pub nth_arg : ℕ → Expressions → Option AstExpression
nth_arg n nil = none
nth_arg zero (cons e es) = some e
nth_arg (suc n) (cons e es) = nth_arg n es

module _ (compile : RegexFlavor → Text → ℕ → Option Text) (analyzer : Analyzer) where
  unfoldable pub resolve_inline_argument : AstExpression → AnalyzeState → AstExpression
  resolve_inline_argument e σ = elim analyzer.expression_function_mode [
    | ExpressionFunctionMode.call_frame ↦ e
    | ExpressionFunctionMode.inline ↦ resolve_in σ.inline_bindings e
  ]

  unfoldable pub report_regex_source_limit : SourceSpan → AnalyzeState → AnalyzeState
  report_regex_source_limit span σ = elim σ.regex_source_limit_reported [
    | true ↦ σ
    | false ↦ record (complain (codes "total regex source byte limit exceeded") span σ) {
      regex_source_limit_reported = true;
    }
  ]

  unfoldable pub report_regex_count_limit : SourceSpan → AnalyzeState → AnalyzeState
  report_regex_count_limit span σ = elim σ.regex_count_limit_reported [
    | true ↦ σ
    | false ↦ record (complain (codes "unique regex literal limit exceeded") span σ) {
      regex_count_limit_reported = true;
    }
  ]

  unfoldable pub reserve_regex_source : ℕ → SourceSpan → AnalyzeState → Bool × AnalyzeState
  reserve_regex_source bytes span σ =
      elim (leb analyzer.regex_limits.max_unique_regexes σ.regex_attempt_count) [
        | true ↦ (false, report_regex_count_limit span σ)
        | false ↦
            elim (within σ.regex_source_bytes bytes
              analyzer.regex_limits.max_total_regex_source_bytes) [
                | none ↦ (false, report_regex_source_limit span σ)
                | some total ↦ (true, record σ { regex_source_bytes = total })
              ]
      ]

  abbrev pub invalid_regex : Text → Text
  invalid_regex error = codes "invalid regex pattern: " ++ error

  -- What an attempt leaves: an error, which is reported if it should be, or a literal.
  abbrev pub note_attempt :
      Option Text → Text → RegexFlavor → SourceSpan → Bool → AnalyzeState → AnalyzeState
  note_attempt (some error) pattern flavor span report_invalid σ =
      complain_if report_invalid (invalid_regex error) span σ
  note_attempt none pattern flavor span report_invalid σ = record σ {
    regex_literals =
        σ.regex_literals ++ record { pattern = pattern; flavor = flavor; span = span } ∷ [];
  }

  -- `CompiledRegexCache::insert_with_size_limit`: the error, or the pattern is in the cache.
  unfoldable pub insert_with_size_limit :
      Text → RegexFlavor → ℕ → List RegexKey → Option Text × List RegexKey
  insert_with_size_limit pattern flavor size_limit cache =
      elim (contains_key regex_key_eq (flavor, pattern) cache) [
        | true ↦ (none, cache)
        | false ↦ elim (compile flavor pattern size_limit) [
          | some error ↦ (some error, cache)
          | none ↦ (none, insert_key regex_key_eq regex_key_lt (flavor, pattern) cache)
        ]
      ]

  -- `admit_regex` behind the reservation.
  abbrev pub attempt_regex : Text → RegexFlavor → SourceSpan → Bool → AnalyzeState → AnalyzeState
  attempt_regex pattern flavor span report_invalid σ =
      let tried =
        insert_with_size_limit pattern flavor analyzer.regex_limits.max_compiled_regex_bytes
          σ.regex_cache in
      note_attempt tried.0 pattern flavor span report_invalid (record σ {
        regex_cache = tried.1;
        regex_attempts =
            insert regex_key_eq regex_key_lt (flavor, pattern) tried.0 σ.regex_attempts;
        regex_attempt_count = saturating_add σ.regex_attempt_count 1;
      })

  unfoldable pub admit_regex : Text → RegexFlavor → SourceSpan → Bool → AnalyzeState → AnalyzeState
  admit_regex pattern flavor span report_invalid σ =
      elim (lookup regex_key_eq (flavor, pattern) σ.regex_attempts) [
        | some error ↦ note_attempt error pattern flavor span report_invalid σ
        | none ↦
            let reserved = reserve_regex_source (byte_length pattern) span σ in
            elim reserved.0 [
              | false ↦ reserved.1
              | true ↦ attempt_regex pattern flavor span report_invalid reserved.1
            ]
      ]

  -- The regex argument `arg`, after its inline bindings.
  abbrev pub validate_regex_arg :
      RegexPolicy → RegexFlavor → AstExpression → SourceSpan → AnalyzeState → AnalyzeState
  validate_regex_arg RegexPolicy.forbid flavor arg span σ =
      complain (codes "regex arguments are forbidden by profile") span σ
  validate_regex_arg RegexPolicy.literal_only_precompiled flavor arg span σ =
      elim (string_literal arg) [
        | none ↦ complain (codes "regex argument must be a string literal") (span_of arg) σ
        | some pattern ↦ admit_regex pattern flavor (span_of arg) true σ
      ]
  validate_regex_arg RegexPolicy.dynamic_with_budget flavor arg span σ = elim (string_literal arg) [
    | none ↦ σ
    | some pattern ↦ admit_regex pattern flavor (span_of arg) false σ
  ]

  unfoldable pub validate_regex_args :
      List RegexArgMeta → Expressions → SourceSpan → AnalyzeState → AnalyzeState
  validate_regex_args [] args span σ = σ
  validate_regex_args (regex_arg ∷ rest) args span σ = elim (nth_arg regex_arg.index args) [
    | none ↦ validate_regex_args rest args span σ
    | some arg ↦ validate_regex_args rest args span (
        validate_regex_arg analyzer.profile.default_regex_policy regex_arg.flavor
          (resolve_inline_argument arg σ) span σ)
  ]
