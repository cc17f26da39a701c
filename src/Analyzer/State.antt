-- ===== src/Analyzer/State.antt =====
-- source/src/sema/analyzer.rs, `AnalyzeState`: what changes during an analysis. Its stacks are lists
-- with the entry that was pushed last first.
use online_dsl_forge.Base.{
  ◌>>=◌ as ◌>>=ᴿ◌, List, [], Result, ok, Bool, Text, false, ◌++◌, Option, ℕ, ◌∷◌, true,
}
use online_dsl_forge.Analyzer.{LocalBinding, RegexLiteral}
use online_dsl_forge.Schema.{ExpressionFunctionScope, RegexFlavor, CapabilityMeta}
use online_dsl_forge.Syntax.{Expressions, Diagnostic, DiagnosticReport, SourceSpan}
use online_dsl_forge.Schema.Functions.{say}
use online_dsl_forge.Verified.{CapabilityTicket}

-- The parameters and arguments of an expression function.
abbrev pub InlineFrame : Type 0
InlineFrame = List Text × Expressions

abbrev pub FunctionKey : Type 0
FunctionKey = ExpressionFunctionScope × Text

abbrev pub RegexKey : Type 0
RegexKey = RegexFlavor × Text

pub record AnalyzeState : Type 0 where
  pub diagnostics : List Diagnostic
  pub regex_literals : List RegexLiteral
  pub regex_cache : List RegexKey
  pub regex_attempts : List (RegexKey × Option Text)
  pub regex_attempt_count : ℕ
  pub regex_source_bytes : ℕ
  pub regex_count_limit_reported : Bool
  pub regex_source_limit_reported : Bool
  pub required_capabilities : List CapabilityTicket
  pub required_capability_metadata : List (CapabilityTicket × CapabilityMeta)
  pub active_functions : List FunctionKey
  pub local_bindings : List (List (Text × LocalBinding))
  pub inline_bindings : List InlineFrame
  pub lowered_nodes : ℕ
  pub lowered_scalar_bytes : ℕ
  pub node_limit_reported : Bool
  pub depth_limit_reported : Bool
  pub scalar_byte_limit_reported : Bool

abbrev pub new_state : AnalyzeState
new_state = record {
  diagnostics = [];
  regex_literals = [];
  regex_cache = [];
  regex_attempts = [];
  regex_attempt_count = 0;
  regex_source_bytes = 0;
  regex_count_limit_reported = false;
  regex_source_limit_reported = false;
  required_capabilities = [];
  required_capability_metadata = [];
  active_functions = [];
  local_bindings = [];
  inline_bindings = [];
  lowered_nodes = 0;
  lowered_scalar_bytes = 0;
  node_limit_reported = false;
  depth_limit_reported = false;
  scalar_byte_limit_reported = false;
}

-- `Vec::pop`, its result dropped.
abbrev pub drop_top {ℓ} : {A : Type ℓ} → List A → List A
drop_top [] = []
drop_top (x ∷ xs) = xs

-- The analysis does not fail; it can only run out of fuel.
abbrev pub Analyze {ℓ} : Type ℓ → Type ℓ
Analyze A = AnalyzeState → Result DiagnosticReport (A × AnalyzeState)

module _ {ℓ κ} {A : Type ℓ} {B : Type κ} where
  infixl 5 ◌>>=◌ ◌>>◌
  abbrev pub ◌>>=◌ : Analyze A → (A → Analyze B) → Analyze B
  ◌>>=◌ m f σ = ◌>>=ᴿ◌ (m σ) λ (a, σ'). f a σ'

  abbrev pub ◌>>◌ : Analyze A → Analyze B → Analyze B
  m >> k = m >>= λ _. k

abbrev pub pure {ℓ} : {A : Type ℓ} → A → Analyze A
pure a σ = ok (a, σ)

-- A step that only changes the state.
abbrev pub act : (AnalyzeState → AnalyzeState) → Analyze (Unit {0})
act f σ = ok (tt, f σ)

-- A step that reads the state.
abbrev pub look {ℓ} : {A : Type ℓ} → (AnalyzeState → A) → Analyze A
look f σ = ok (f σ, σ)

-- A step that answers yes or no.
abbrev pub try : (AnalyzeState → Bool × AnalyzeState) → Analyze Bool
try f σ = ok (f σ)

-- `self.diagnostics.push(Diagnostic::new(message, span))`.
abbrev pub complain : Text → SourceSpan → AnalyzeState → AnalyzeState
complain message span σ = record σ { diagnostics = σ.diagnostics ++ say message span ∷ [] }

unfoldable pub complain_if : Bool → Text → SourceSpan → AnalyzeState → AnalyzeState
complain_if true message span σ = complain message span σ
complain_if false message span σ = σ
