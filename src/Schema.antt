-- ===== src/Schema.antt =====
-- source/src/sema/schema.rs: what the host declares: variables, capabilities and expression functions.
pub mod Functions
pub mod Integrity
pub mod Identified
pub mod Bounds
pub mod Totals
pub mod Answered
pub mod Builders
pub mod Presets
pub mod Intact
pub mod Built
pub mod Diagnostics
mod Tests
use online_dsl_forge.Base.{
  zero, suc, Option, none, some, ℕ, Text, Bool, List, text_eq, true, [], ◌==◌, false, ◌∷◌, ◌++◌,
  ◌&&◌,
}
use online_dsl_forge.Syntax.{
  SourceSpan, AstExpression, UnaryOp, BinaryOp, unary_as_str, binary_as_str,
}
use online_dsl_forge.Profile.{BodyTarget, BodyAccess, Phase}
use online_dsl_forge.Map.{lookup, contains_key}
use online_dsl_forge.Verified.{CapabilityKind, CapabilityTicket}

pub data TypeClass : Type 0 where
  null bool int float string bytes array object dyn regex_literal : TypeClass

pub data RegexFlavor : Type 0 where
  default header_name : RegexFlavor

pub record RegexArgMeta : Type 0 where
  pub index : ℕ
  pub flavor : RegexFlavor

pub data CostModel : Type 0 where
  constant linear_input linear_collection : ℕ → CostModel
  regex_match : ℕ → Bool → CostModel

abbrev pub static_cost : CostModel → ℕ
static_cost (CostModel.constant value) = value
static_cost (CostModel.linear_input factor) = factor
static_cost (CostModel.linear_collection factor) = factor
static_cost (CostModel.regex_match factor precompiled) = factor

pub record VariableMeta : Type 0 where
  pub name : Text
  pub type_class : TypeClass
  pub phases : List Phase

abbrev pub phase_eq : Phase → Phase → Bool
phase_eq Phase.generic Phase.generic = true
phase_eq Phase.request Phase.request = true
phase_eq Phase.response Phase.response = true
phase_eq Phase.stream Phase.stream = true
phase_eq _ _ = false

-- `is_available_in` of variables and capabilities.
unfoldable pub is_available_in : List Phase → Phase → Bool
is_available_in [] phase = true
is_available_in (p ∷ ps) phase = contains_key phase_eq phase (p ∷ ps)

pub record CapabilityMeta : Type 0 where
  pub name : Text
  pub kind : CapabilityKind
  pub arity : ℕ
  pub receiver : Option TypeClass
  pub args : List TypeClass
  pub result : TypeClass
  pub phases : List Phase
  pub body_access : BodyAccess
  pub regex_args : List RegexArgMeta
  pub deterministic : Bool
  pub side_effect_free : Bool
  pub cost : CostModel

-- `vec![TypeClass::Dyn; arity]`.
abbrev pub dyn_args : ℕ → List TypeClass
dyn_args zero = []
dyn_args (suc n) = TypeClass.dyn ∷ dyn_args n

abbrev pub new_capability : Text → CapabilityKind → ℕ → CapabilityMeta
new_capability name kind arity = record {
  name = name;
  kind = kind;
  arity = arity;
  receiver = none;
  args = dyn_args arity;
  result = TypeClass.dyn;
  phases = [];
  body_access = BodyAccess.none;
  regex_args = [];
  deterministic = true;
  side_effect_free = true;
  cost = CostModel.constant 1;
}

abbrev pub unary_operator : UnaryOp → CapabilityMeta
unary_operator op = new_capability (unary_as_str op) CapabilityKind.unary_op 1

abbrev pub binary_operator : BinaryOp → CapabilityMeta
binary_operator op = new_capability (binary_as_str op) CapabilityKind.binary_op 2

-- `CapabilityMeta::ticket`.
abbrev pub ticket : CapabilityMeta → CapabilityTicket
ticket c = record { kind = c.kind; name = c.name; arity = c.arity }

pub record BodyPathRule : Type 0 where
  pub path : List Text
  pub target : BodyTarget
  pub access : BodyAccess

pub data ExpressionFunctionScope : Type 0 where
  global local : ExpressionFunctionScope

pub record ExpressionFunction : Type 0 where
  pub name : Text
  pub params : List Text
  pub expression : AstExpression
  pub scope : ExpressionFunctionScope

pub record ExpressionFunctionDiagnostic : Type 0 where
  pub message : Text
  pub span : SourceSpan

pub record ExpressionFunctionLimits : Type 0 where
  pub max_functions : ℕ
  pub max_total_parameters : ℕ
  pub max_total_name_bytes : ℕ
  pub max_total_body_nodes : ℕ
  pub max_total_body_scalar_bytes : ℕ
  pub max_total_call_edges : ℕ
  pub max_body_depth : ℕ
  pub max_diagnostics : ℕ
  pub max_total_diagnostic_bytes : ℕ

-- `BTreeMap<String, BTreeMap<usize, CapabilityMeta>>`.
abbrev pub Signatures : Type 0
Signatures = List (Text × List (ℕ × CapabilityMeta))

pub record RuntimeSchema : Type 0 where
  pub variables : List (Text × VariableMeta)
  pub functions : Signatures
  pub methods : Signatures
  pub unary_ops : List (Text × CapabilityMeta)
  pub binary_ops : List (Text × CapabilityMeta)
  pub body_paths : List BodyPathRule
  pub expression_functions : List (Text × ExpressionFunction)
  pub local_expression_functions : List (Text × ExpressionFunction)
  pub expression_function_diagnostics : List ExpressionFunctionDiagnostic
  pub expression_function_diagnostics_truncated : Bool
  pub expression_function_limits : ExpressionFunctionLimits

pub data SignatureMatch : Type 0 where
  unknown arity_mismatch matches : SignatureMatch

abbrev pub nat_eq : ℕ → ℕ → Bool
nat_eq a b = a == b

unfoldable pub variable_meta : RuntimeSchema → Text → Option VariableMeta
variable_meta schema name = lookup text_eq name schema.variables

unfoldable pub has_variable : RuntimeSchema → Text → Bool
has_variable schema name = elim (lookup text_eq name schema.variables) [
  | none ↦ false
  | some _ ↦ true
]

unfoldable pub signature_accepts : Signatures → Text → ℕ → SignatureMatch
signature_accepts signatures name arity = elim (lookup text_eq name signatures) [
  | none ↦ SignatureMatch.unknown
  | some accepted ↦ elim (lookup nat_eq arity accepted) [
    | none ↦ SignatureMatch.arity_mismatch
    | some _ ↦ SignatureMatch.matches
  ]
]

-- `function_capability` and `method_capability`.
unfoldable pub signature_capability : Signatures → Text → ℕ → Option CapabilityMeta
signature_capability signatures name arity = elim (lookup text_eq name signatures) [
  | none ↦ none
  | some entries ↦ lookup nat_eq arity entries
]

unfoldable pub unary_operator_capability : RuntimeSchema → UnaryOp → Option CapabilityMeta
unary_operator_capability schema op = lookup text_eq (unary_as_str op) schema.unary_ops

unfoldable pub binary_operator_capability : RuntimeSchema → BinaryOp → Option CapabilityMeta
binary_operator_capability schema op = lookup text_eq (binary_as_str op) schema.binary_ops

unfoldable pub path_eq : List Text → List Text → Bool
path_eq [] [] = true
path_eq (x ∷ xs) (y ∷ ys) = text_eq x y && path_eq xs ys
path_eq _ _ = false

-- The first rule for the path.
unfoldable pub find_rule : List BodyPathRule → List Text → Option (BodyTarget × BodyAccess)
find_rule [] path = none
find_rule (rule ∷ rules) path = elim (path_eq rule.path path) [
  | true ↦ some (rule.target, rule.access)
  | false ↦ find_rule rules path
]

abbrev pub body_access_for_path : RuntimeSchema → List Text → Option (BodyTarget × BodyAccess)
body_access_for_path schema path = find_rule schema.body_paths path

unfoldable pub expression_function_for_scope :
    RuntimeSchema → Text → ExpressionFunctionScope → Option ExpressionFunction
expression_function_for_scope schema name ExpressionFunctionScope.global =
    lookup text_eq name schema.expression_functions
expression_function_for_scope schema name ExpressionFunctionScope.local =
    elim (lookup text_eq name schema.local_expression_functions) [
      | some function ↦ some function
      | none ↦ lookup text_eq name schema.expression_functions
    ]

-- `BTreeMap::values`.
abbrev pub values {ℓ} : {A : Type ℓ} → List (Text × A) → List A
values [] = []
values ((key, a) ∷ rest) = a ∷ values rest

abbrev pub all_functions : RuntimeSchema → List ExpressionFunction
all_functions schema =
    values schema.expression_functions ++ values schema.local_expression_functions
