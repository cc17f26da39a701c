-- ===== src/Analyzer/Checks.antt =====
-- source/src/sema/analyzer.rs, analyzer/phase.rs and analyzer/body_need.rs: the checks of names and
-- capabilities, and the body access that an expression needs.
use online_dsl_forge.Base.{
  none, some, ◌++◌, Text, Bool, Option, ℕ, codes, true, List, if◌then◌else◌, text_eq, not, false,
  ◌&&◌, ◌||◌, ◌==◌, ltb,
}
use online_dsl_forge.Analyzer.{Analyzer, ObjectOrigin, body_target}
use online_dsl_forge.Analyzer.State.{AnalyzeState, complain_if, complain}
use online_dsl_forge.Profile.{
  Phase, Determinism, BodyNeedSummary, active_phase, BodyTarget, merge_target, BodyAccess,
}
use online_dsl_forge.Verified.{CapabilityKind, CapabilityTicket}
use online_dsl_forge.Schema.{
  RuntimeSchema, CapabilityMeta, phase_eq, variable_meta, SignatureMatch, ticket, is_available_in,
  body_access_for_path,
}
use online_dsl_forge.Syntax.{SourceSpan}
use online_dsl_forge.Map.{insert_key, insert, text_lt}
use online_dsl_forge.Runtime.Evaluator.{kind_eq}
use online_dsl_forge.Base.Decimal.{decimal}

-- `{phase:?}`.
unfoldable pub phase_debug : Phase → Text
phase_debug Phase.generic = codes "Generic"
phase_debug Phase.request = codes "Request"
phase_debug Phase.response = codes "Response"
phase_debug Phase.stream = codes "Stream"

unfoldable pub capability_kind_label : CapabilityKind → Text
capability_kind_label CapabilityKind.function = codes "function"
capability_kind_label CapabilityKind.method = codes "method"
capability_kind_label CapabilityKind.unary_op = codes "unary operator"
capability_kind_label CapabilityKind.binary_op = codes "binary operator"

abbrev pub same_phase : Phase → Phase → Bool
same_phase a b = phase_eq a b

module _ (analyzer : Analyzer) (schema : RuntimeSchema) where
  abbrev pub variable_available : Text → Phase → Bool
  variable_available name phase = elim (variable_meta schema name) [
    | none ↦ true
    | some variable ↦ is_available_in variable.phases phase
  ]

  unfoldable pub validate_variable_phase : Text → SourceSpan → AnalyzeState → AnalyzeState
  validate_variable_phase name span σ = elim (active_phase analyzer.profile) [
    | none ↦ σ
    | some phase ↦
        let response = text_eq name (codes "Response") in
        let stream = text_eq name (codes "Stream") in
        complain_if (not (variable_available name phase))
          (codes "variable "
            ++ name
            ++ codes " is unavailable in "
            ++ phase_debug phase
            ++ codes " phase")
          span
          (complain_if (same_phase phase Phase.stream && response)
            (codes "Response is unavailable in stream phase") span
            (complain_if (not (same_phase phase Phase.stream) && stream)
              (codes "Stream is available only in stream phase") span
              (complain_if (same_phase phase Phase.request && response)
                (codes "Response is unavailable in request phase") span σ)))
  ]

  unfoldable pub validate_capability_phase :
      CapabilityMeta → SourceSpan → AnalyzeState → AnalyzeState
  validate_capability_phase c span σ = elim (active_phase analyzer.profile) [
    | none ↦ σ
    | some phase ↦
        complain_if (not (is_available_in c.phases phase))
          (capability_kind_label c.kind
            ++ codes " "
            ++ c.name
            ++ codes " is unavailable in "
            ++ phase_debug phase
            ++ codes " phase")
          span σ
  ]

  abbrev pub reads_request_body : Option ObjectOrigin → Bool
  reads_request_body (some ObjectOrigin.request_body) = true
  reads_request_body (some ObjectOrigin.request_body_bytes) = true
  reads_request_body _ = false

  abbrev pub in_stream_phase : Option Phase → Bool
  in_stream_phase (some Phase.stream) = true
  in_stream_phase _ = false

  unfoldable pub validate_origin_phase :
      Option ObjectOrigin → SourceSpan → AnalyzeState → AnalyzeState
  validate_origin_phase origin span σ =
      complain_if (in_stream_phase (active_phase analyzer.profile) && reads_request_body origin)
        (codes "Request.Body is unavailable in stream phase") span σ

  abbrev pub requires_determinism : Determinism → Bool
  requires_determinism Determinism.required = true
  requires_determinism Determinism.best_effort = false

  unfoldable pub validate_capability : CapabilityMeta → SourceSpan → AnalyzeState → AnalyzeState
  validate_capability c span σ =
      let required = requires_determinism analyzer.profile.determinism in
      let label = capability_kind_label c.kind ++ codes " " ++ c.name in
      complain_if (required && not c.side_effect_free)
        (label ++ codes " has side effects but profile requires side-effect-free capabilities") span
        (complain_if (required && not c.deterministic)
          (label ++ codes " is non-deterministic but profile requires determinism") span
          (validate_capability_phase c span σ))

  -- What `validate_call` takes from the schema when the signature matches.
  unfoldable pub validate_call :
      Text
      → Text
      → ℕ
      → SignatureMatch
      → Option CapabilityMeta
      → Bool
      → SourceSpan
      → AnalyzeState
      → Option CapabilityMeta × AnalyzeState
  validate_call kind name arity SignatureMatch.matches declared allow_unknown span σ = (declared, σ)
  validate_call kind name arity SignatureMatch.unknown declared allow_unknown span σ =
      (none, complain_if (not allow_unknown) (codes "unknown " ++ kind ++ codes " " ++ name) span σ)
  validate_call kind name arity SignatureMatch.arity_mismatch declared allow_unknown span σ = (
    none,
    complain
        (kind
          ++ codes " "
          ++ name
          ++ codes " does not accept "
          ++ decimal arity
          ++ codes " arguments")
        span σ,
  )

  unfoldable pub merge_body_access_for_path : BodyNeedSummary → Option (List Text) → BodyNeedSummary
  merge_body_access_for_path need none = need
  merge_body_access_for_path need (some path) = elim (body_access_for_path schema path) [
    | none ↦ need
    | some (target, access) ↦ merge_target need target access
  ]

  -- `Size`, or what reads the payload of the body.
  abbrev pub merge_body_field : BodyNeedSummary → BodyTarget → Text → BodyNeedSummary
  merge_body_field need target field =
      if text_eq field (codes "Size")
      then merge_target need target BodyAccess.size_only
      else if text_eq field (codes "Bytes")
          || text_eq field (codes "Text")
          || text_eq field (codes "IsTruncated")
      then merge_target need target BodyAccess.prefix_bytes
      else need

  unfoldable pub merge_body_access_for_origin :
      BodyNeedSummary → Option ObjectOrigin → Text → BodyNeedSummary
  merge_body_access_for_origin need (some ObjectOrigin.request_body) field =
      merge_body_field need BodyTarget.request field
  merge_body_access_for_origin need (some ObjectOrigin.response_body) field =
      merge_body_field need BodyTarget.response field
  merge_body_access_for_origin need (some ObjectOrigin.stream) field =
      if text_eq field (codes "Payload")
      then merge_target need BodyTarget.stream BodyAccess.prefix_bytes
      else need
  merge_body_access_for_origin need _ field = need

  abbrev pub target_of : Option ObjectOrigin → Option BodyTarget
  target_of none = none
  target_of (some origin) = body_target origin

  unfoldable pub merge_body_access_for_exposed_origin :
      BodyNeedSummary → Option ObjectOrigin → BodyNeedSummary
  merge_body_access_for_exposed_origin need origin = elim (target_of origin) [
    | none ↦ need
    | some target ↦ merge_target need target BodyAccess.prefix_bytes
  ]

  abbrev pub body_need_for_consumed_analysis :
      BodyNeedSummary → Option ObjectOrigin → BodyNeedSummary
  body_need_for_consumed_analysis need origin = merge_body_access_for_exposed_origin need origin

  unfoldable pub merge_body_access_for_method :
      BodyNeedSummary → Option ObjectOrigin → CapabilityMeta → BodyNeedSummary
  merge_body_access_for_method need origin c = elim (target_of origin) [
    | none ↦ need
    | some target ↦ merge_target need target c.body_access
  ]

-- `Ord` of tickets.
abbrev pub kind_order : CapabilityKind → ℕ
kind_order CapabilityKind.function = 0
kind_order CapabilityKind.method = 1
kind_order CapabilityKind.unary_op = 2
kind_order CapabilityKind.binary_op = 3

unfoldable pub ticket_eq : CapabilityTicket → CapabilityTicket → Bool
ticket_eq a b = kind_eq a.kind b.kind && text_eq a.name b.name && a.arity == b.arity

unfoldable pub ticket_lt : CapabilityTicket → CapabilityTicket → Bool
ticket_lt a b =
    if kind_eq a.kind b.kind
    then (if text_eq a.name b.name then ltb a.arity b.arity else text_lt a.name b.name)
    else ltb (kind_order a.kind) (kind_order b.kind)

unfoldable pub require_capability : CapabilityMeta → AnalyzeState → AnalyzeState
require_capability c σ = record σ {
  required_capabilities = insert_key ticket_eq ticket_lt (ticket c) σ.required_capabilities;
  required_capability_metadata =
      insert ticket_eq ticket_lt (ticket c) c σ.required_capability_metadata;
}
