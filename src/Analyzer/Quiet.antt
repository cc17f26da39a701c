-- ===== src/Analyzer/Quiet.antt =====
-- The checks only complain, require and admit regexes.
use online_dsl_forge.Analyzer.Limits.{within}
use online_dsl_forge.Base.{
  ◌≡◌, refl, none, some, [], ◌∷◌, true, false, inl, inr, Text, Option, ℕ, text_eq_iff, Option-cases,
  Bool, ==_iff, Bool-cases, List, leb, byte_length,
}
use online_dsl_forge.Analyzer.{Analyzer, ObjectOrigin}
use online_dsl_forge.Analyzer.State.{AnalyzeState}
use online_dsl_forge.Analyzer.Moves.{
  Quiet, stay, then, complain-Quiet, complain_if-Quiet, regex-Quiet, IsRequired, branch-Quiet,
}
use online_dsl_forge.Analyzer.Checks.{
  ticket_eq, require_capability, validate_variable_phase, validate_capability_phase,
  validate_capability, validate_origin_phase, ticket_lt,
}
use online_dsl_forge.Verified.{CapabilityTicket, CapabilityKind}
use online_dsl_forge.Schema.{RuntimeSchema, RegexFlavor, CapabilityMeta, ticket, RegexArgMeta}
use online_dsl_forge.Runtime.Evaluator.{kind_eq}
use online_dsl_forge.Map.Keys.{insert_key-kept, insert_key-same}
use online_dsl_forge.Syntax.{SourceSpan, AstExpression, Expressions, span_of}
use online_dsl_forge.Analyzer.Regex.{
  report_regex_source_limit, report_regex_count_limit, reserve_regex_source, admit_regex,
  validate_regex_args, note_attempt, regex_key_eq, validate_regex_arg, string_literal, nth_arg,
  resolve_inline_argument,
}
use online_dsl_forge.Profile.{RegexPolicy, active_phase}
use online_dsl_forge.Map.{lookup}

pub ticket_eq_refl : (t : CapabilityTicket) → ticket_eq t t ≡ true
unfolding ticket_eq
ticket_eq_refl t =
    rw (kind_refl t.kind, (text_eq_iff t.name t.name).1 refl, (==_iff t.arity t.arity).1 refl) refl
  where
    kind_refl : (k : CapabilityKind) → kind_eq k k ≡ true
    kind_refl CapabilityKind.function = refl
    kind_refl CapabilityKind.method = refl
    kind_refl CapabilityKind.unary_op = refl
    kind_refl CapabilityKind.binary_op = refl

pub require-Quiet : (c : CapabilityMeta) (σ : AnalyzeState) → Quiet σ (require_capability c σ)
unfolding require_capability
require-Quiet c σ = record {
  clean = λ h. h;
  kept = λ t h. insert_key-kept ticket_eq ticket_lt t (ticket c) σ.required_capabilities h;
  same_nodes = refl;
  same_node_flag = refl;
  same_depth_flag = refl;
  same_scalar_flag = refl;
  same_inline = refl;
  same_local = refl;
  same_active = refl;
}

pub require-IsRequired :
    (c : CapabilityMeta) (σ : AnalyzeState) → IsRequired (require_capability c σ) (ticket c)
unfolding require_capability
require-IsRequired c σ =
    insert_key-same ticket_eq ticket_lt (ticket c) σ.required_capabilities
      (ticket_eq_refl (ticket c))

module _ (analyzer : Analyzer) (schema : RuntimeSchema) where
  pub variable_phase-Quiet :
      (name : Text) (span : SourceSpan) (σ : AnalyzeState)
      → Quiet σ (validate_variable_phase analyzer schema name span σ)
  unfolding validate_variable_phase
  variable_phase-Quiet name span σ = elim (Option-cases (active_phase analyzer.profile)) [
    | inl e ↦ rw (e, validate_variable_phase) (stay σ)
    | inr (phase, e) ↦
        rw (e, validate_variable_phase)
          (then (complain_if-Quiet _ _ span _) (
            then (complain_if-Quiet _ _ span _)
              (then (complain_if-Quiet _ _ span _) (complain_if-Quiet _ _ span _))))
  ]

  capability_phase-Quiet :
      (c : CapabilityMeta) (span : SourceSpan) (σ : AnalyzeState)
      → Quiet σ (validate_capability_phase analyzer schema c span σ)
  unfolding validate_capability_phase
  capability_phase-Quiet c span σ = elim (Option-cases (active_phase analyzer.profile)) [
    | inl e ↦ rw (e, validate_capability_phase) (stay σ)
    | inr (phase, e) ↦ rw (e, validate_capability_phase) (complain_if-Quiet _ _ span _)
  ]

  pub capability-Quiet :
      (c : CapabilityMeta) (span : SourceSpan) (σ : AnalyzeState)
      → Quiet σ (validate_capability analyzer schema c span σ)
  unfolding validate_capability
  capability-Quiet c span σ =
      then (capability_phase-Quiet c span σ)
        (then (complain_if-Quiet _ _ span _) (complain_if-Quiet _ _ span _))

  pub origin_phase-Quiet :
      (origin : Option ObjectOrigin) (span : SourceSpan) (σ : AnalyzeState)
      → Quiet σ (validate_origin_phase analyzer schema origin span σ)
  unfolding validate_origin_phase
  origin_phase-Quiet origin span σ = complain_if-Quiet _ _ span σ

module _ (compile : RegexFlavor → Text → ℕ → Option Text) (analyzer : Analyzer) where
  source_limit-Quiet :
      (span : SourceSpan) (σ : AnalyzeState)
      → Quiet σ (report_regex_source_limit compile analyzer span σ)
  unfolding report_regex_source_limit
  source_limit-Quiet span σ =
      branch-Quiet σ.regex_source_limit_reported (stay σ)
        (then (complain-Quiet _ span σ) (regex-Quiet _))

  count_limit-Quiet :
      (span : SourceSpan) (σ : AnalyzeState)
      → Quiet σ (report_regex_count_limit compile analyzer span σ)
  unfolding report_regex_count_limit
  count_limit-Quiet span σ =
      branch-Quiet σ.regex_count_limit_reported (stay σ)
        (then (complain-Quiet _ span σ) (regex-Quiet _))

  reserve-Quiet :
      (bytes : ℕ) (span : SourceSpan) (σ : AnalyzeState)
      → Quiet σ (reserve_regex_source compile analyzer bytes span σ).1
  unfolding reserve_regex_source
  reserve-Quiet bytes span σ =
      elim (Bool-cases (leb analyzer.regex_limits.max_unique_regexes σ.regex_attempt_count)) [
        | inl e ↦ rw (e, reserve_regex_source) (count_limit-Quiet span σ)
        | inr e ↦
            rw (e, reserve_regex_source)
              (elim (Option-cases (
                within σ.regex_source_bytes bytes
                  analyzer.regex_limits.max_total_regex_source_bytes)) [
                    | inl over ↦ rw over (source_limit-Quiet span σ)
                    | inr (total, h) ↦ rw (h, reserve_regex_source) (regex-Quiet σ)
                  ])
      ]

  note-Quiet :
      (error : Option Text) (pattern : Text) (flavor : RegexFlavor) (span : SourceSpan) (b : Bool)
      (σ : AnalyzeState)
      → Quiet σ (note_attempt compile analyzer error pattern flavor span b σ)
  note-Quiet (some error) pattern flavor span b σ = complain_if-Quiet b _ span σ
  note-Quiet none pattern flavor span b σ = regex-Quiet σ

  admit-Quiet :
      (pattern : Text) (flavor : RegexFlavor) (span : SourceSpan) (b : Bool) (σ : AnalyzeState)
      → Quiet σ (admit_regex compile analyzer pattern flavor span b σ)
  unfolding admit_regex
  admit-Quiet pattern flavor span b σ =
      elim (Option-cases (lookup regex_key_eq (flavor, pattern) σ.regex_attempts)) [
        | inr (error, e) ↦ rw (e, admit_regex) (note-Quiet error pattern flavor span b σ)
        | inl e ↦
            rw (e, admit_regex)
              (elim (Bool-cases
                (reserve_regex_source compile analyzer (byte_length pattern) span σ).0) [
                  | inl accepted ↦ rw accepted (
                      then (reserve-Quiet (byte_length pattern) span σ)
                        (then (regex-Quiet _) (note-Quiet _ pattern flavor span b _)))
                  | inr refused ↦ rw refused (reserve-Quiet (byte_length pattern) span σ)
                ])
      ]

  regex_arg-Quiet :
      (policy : RegexPolicy) (flavor : RegexFlavor) (e : AstExpression) (span : SourceSpan)
      (σ : AnalyzeState)
      → Quiet σ (validate_regex_arg compile analyzer policy flavor e span σ)
  regex_arg-Quiet RegexPolicy.forbid flavor e span σ = complain-Quiet _ span σ
  regex_arg-Quiet RegexPolicy.literal_only_precompiled flavor e span σ =
      elim (Option-cases (string_literal e)) [
        | inl h ↦ rw (h, validate_regex_arg) (complain-Quiet _ (span_of e) σ)
        | inr (pattern, h) ↦
            rw (h, validate_regex_arg) (admit-Quiet pattern flavor (span_of e) true σ)
      ]
  regex_arg-Quiet RegexPolicy.dynamic_with_budget flavor e span σ =
      elim (Option-cases (string_literal e)) [
        | inl h ↦ rw (h, validate_regex_arg) (stay σ)
        | inr (pattern, h) ↦
            rw (h, validate_regex_arg) (admit-Quiet pattern flavor (span_of e) false σ)
      ]

  pub regex_args-Quiet :
      (regex_args : List RegexArgMeta) (args : Expressions) (span : SourceSpan) (σ : AnalyzeState)
      → Quiet σ (validate_regex_args compile analyzer regex_args args span σ)
  unfolding validate_regex_args
  regex_args-Quiet [] args span σ = stay σ
  regex_args-Quiet (r ∷ rest) args span σ = elim (Option-cases (nth_arg r.index args)) [
    | inl h ↦ rw (h, validate_regex_args) (regex_args-Quiet rest args span σ)
    | inr (e, h) ↦
        rw (h, validate_regex_args)
          (then
            (regex_arg-Quiet analyzer.profile.default_regex_policy r.flavor
              (resolve_inline_argument compile analyzer e σ) span σ)
            (regex_args-Quiet rest args span _))
  ]
