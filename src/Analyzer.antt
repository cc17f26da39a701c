-- ===== src/Analyzer.antt =====
-- source/src/sema/analyzer.rs and analyzer/support.rs: the data of the semantic analysis.
pub mod State
pub mod Limits
pub mod Checks
pub mod Regex
pub mod Expressions
pub mod Moves
pub mod Quiet
pub mod Tickets
pub mod Charges
pub mod Parts
pub mod Calls
pub mod Functions
pub mod Sound
pub mod Dialect
pub mod Graph
pub mod Lowering
pub mod Counted
pub mod Walks
pub mod Cycles
pub mod Searches
pub mod Program
pub mod Verified
pub mod Evaluated
mod Tests
use online_dsl_forge.Base.{
  none, some, Bool, false, Text, Option, if◌then◌else◌, true, text_eq, List, codes, ℕ,
}
use online_dsl_forge.Profile.{
  SecurityProfile, BodyNeedSummary, BodyTarget, all, RegexAdmissionLimits, default_regex_limits,
  BodyAccess,
}
use online_dsl_forge.Verified.{VerifiedExpression, VerifiedExprKind, VerifiedExpressions, verified}
use online_dsl_forge.Syntax.{SourceSpan}
use online_dsl_forge.Schema.{ExpressionFunctionScope, RegexFlavor}

pub record CompileOptions : Type 0 where
  pub allow_unknown_variables : Bool
  pub allow_unknown_functions : Bool
  pub allow_unknown_methods : Bool

pub data ExpressionFunctionMode : Type 0 where
  inline call_frame : ExpressionFunctionMode

pub data ExpressionDialect : Type 0 where
  generic oxi_rule_v1 : ExpressionDialect

pub record Analyzer : Type 0 where
  pub profile : SecurityProfile
  pub options : CompileOptions
  pub dialect : ExpressionDialect
  pub expression_function_scope : ExpressionFunctionScope
  pub expression_function_mode : ExpressionFunctionMode
  pub regex_limits : RegexAdmissionLimits

-- `CompileOptions::default()`.
abbrev pub default_options : CompileOptions
default_options = record {
  allow_unknown_variables = false;
  allow_unknown_functions = false;
  allow_unknown_methods = false;
}

-- `Analyzer::new`.
abbrev pub new_analyzer : SecurityProfile → Analyzer
new_analyzer profile = record {
  profile = profile;
  options = default_options;
  dialect = ExpressionDialect.generic;
  expression_function_scope = ExpressionFunctionScope.local;
  expression_function_mode = ExpressionFunctionMode.inline;
  regex_limits = default_regex_limits;
}

pub data ObjectOrigin : Type 0 where
  request request_http request_body request_body_bytes : ObjectOrigin
  response response_http response_body response_body_bytes : ObjectOrigin
  stream stream_payload : ObjectOrigin

unfoldable pub root : Text → Option ObjectOrigin
root name =
    if text_eq name (codes "Request")
    then some ObjectOrigin.request
    else if text_eq name (codes "Response")
    then some ObjectOrigin.response
    else if text_eq name (codes "Stream")
    then some ObjectOrigin.stream
    else none

unfoldable pub body_target : ObjectOrigin → Option BodyTarget
body_target ObjectOrigin.request_body = some BodyTarget.request
body_target ObjectOrigin.request_body_bytes = some BodyTarget.request
body_target ObjectOrigin.response_body = some BodyTarget.response
body_target ObjectOrigin.response_body_bytes = some BodyTarget.response
body_target ObjectOrigin.stream_payload = some BodyTarget.stream
body_target _ = none

unfoldable pub is_mitigation_payload_boundary : ObjectOrigin → Bool
is_mitigation_payload_boundary ObjectOrigin.request_body = true
is_mitigation_payload_boundary ObjectOrigin.response_body = true
is_mitigation_payload_boundary ObjectOrigin.stream_payload = true
is_mitigation_payload_boundary _ = false

abbrev pub origin_if : Bool → ObjectOrigin → Option ObjectOrigin
origin_if b origin = if b then some origin else none

-- `Http`, or what `Body` is of the same message.
abbrev pub http_or_body : Text → ObjectOrigin → ObjectOrigin → Option ObjectOrigin
http_or_body field http body =
    if text_eq field (codes "Http")
    then some http
    else origin_if (text_eq field (codes "Body")) body

unfoldable pub member_origin : ObjectOrigin → Text → Option ObjectOrigin
member_origin ObjectOrigin.request field =
    http_or_body field ObjectOrigin.request_http ObjectOrigin.request_body
member_origin ObjectOrigin.response field =
    http_or_body field ObjectOrigin.response_http ObjectOrigin.response_body
member_origin ObjectOrigin.request_http field =
    origin_if (text_eq field (codes "Body")) ObjectOrigin.request_body
member_origin ObjectOrigin.response_http field =
    origin_if (text_eq field (codes "Body")) ObjectOrigin.response_body
member_origin ObjectOrigin.request_body field =
    origin_if (text_eq field (codes "Bytes")) ObjectOrigin.request_body_bytes
member_origin ObjectOrigin.response_body field =
    origin_if (text_eq field (codes "Bytes")) ObjectOrigin.response_body_bytes
member_origin ObjectOrigin.stream field =
    origin_if (text_eq field (codes "Payload")) ObjectOrigin.stream_payload
member_origin _ field = none

pub record ExprAnalysis : Type 0 where
  pub expr : VerifiedExpression
  pub origin : Option ObjectOrigin
  pub path : Option (List Text)
  pub body_need : BodyNeedSummary
  pub mitigation_payload : Bool
  pub nodes : ℕ
  pub cost : ℕ

-- `BodyNeedSummary::default()`.
abbrev pub no_need : BodyNeedSummary
no_need = all BodyAccess.none

-- `ExprAnalysis::leaf`.
abbrev pub leaf : VerifiedExpression → Option ObjectOrigin → ExprAnalysis
leaf expr origin = record {
  expr = expr;
  origin = origin;
  path = none;
  body_need = no_need;
  mitigation_payload = false;
  nodes = 1;
  cost = 1;
}

-- `VerifiedExpression::new`.
abbrev pub unticketed : VerifiedExprKind → SourceSpan → VerifiedExpression
unticketed kind span = verified kind span none

abbrev pub null_leaf : SourceSpan → ExprAnalysis
null_leaf span = leaf (unticketed VerifiedExprKind.null span) none

pub record LocalBinding : Type 0 where
  pub origin : Option ObjectOrigin
  pub path : Option (List Text)
  pub mitigation_payload : Bool

abbrev pub from_analysis : ExprAnalysis → LocalBinding
from_analysis a = record {
  origin = a.origin;
  path = a.path;
  mitigation_payload = a.mitigation_payload;
}

pub record ArgsAnalysis : Type 0 where
  pub exprs : VerifiedExpressions
  pub bindings : List LocalBinding
  pub body_need : BodyNeedSummary
  pub consumed_body_need : BodyNeedSummary
  pub mitigation_payload : Bool
  pub nodes : ℕ
  pub cost : ℕ

pub record RegexLiteral : Type 0 where
  pub pattern : Text
  pub flavor : RegexFlavor
  pub span : SourceSpan
