-- ===== src/Profile.antt =====
-- source/src/sema/profile.rs: the security profiles, and which parts of a body a
-- rule reads and a profile allows.
pub mod Merge
mod Tests
use online_dsl_forge.Base.{Bool, true, false, ◌&&◌, ◌||◌, ℕ, Text, Option, List, [], ◌∷◌, ◌*◌}

pub data BodyTarget : Type 0 where
  request response stream : BodyTarget

-- In the order of the source, which is the derived one.
pub data BodyAccess : Type 0 where
  none size_only prefix_bytes : BodyAccess

-- The later of two.
abbrev pub merge_access : BodyAccess → BodyAccess → BodyAccess
merge_access none other = other
merge_access size_only none = size_only
merge_access size_only other = other
merge_access prefix_bytes other = prefix_bytes

abbrev pub access_allows : BodyAccess → BodyAccess → Bool
access_allows none none = true
access_allows none needed = false
access_allows size_only prefix_bytes = false
access_allows size_only needed = true
access_allows prefix_bytes needed = true

abbrev pub access_reads_payload : BodyAccess → Bool
access_reads_payload prefix_bytes = true
access_reads_payload _ = false

pub record BodyNeedSummary : Type 0 where
  pub request : BodyAccess
  pub response : BodyAccess
  pub stream : BodyAccess

abbrev pub all : BodyAccess → BodyNeedSummary
all access = record { request = access; response = access; stream = access }

unfoldable pub merge : BodyNeedSummary → BodyNeedSummary → BodyNeedSummary
merge a b = record {
  request = merge_access a.request b.request;
  response = merge_access a.response b.response;
  stream = merge_access a.stream b.stream;
}

unfoldable pub merge_target : BodyNeedSummary → BodyTarget → BodyAccess → BodyNeedSummary
merge_target a BodyTarget.request access = record a { request = merge_access a.request access }
merge_target a BodyTarget.response access = record a { response = merge_access a.response access }
merge_target a BodyTarget.stream access = record a { stream = merge_access a.stream access }

unfoldable pub reads_payload : BodyNeedSummary → Bool
reads_payload a =
    access_reads_payload a.request
    || access_reads_payload a.response
    || access_reads_payload a.stream

unfoldable pub allows : BodyNeedSummary → BodyNeedSummary → Bool
allows a needed =
    access_allows a.request needed.request
    && access_allows a.response needed.response
    && access_allows a.stream needed.stream

pub data SecurityProfileId : Type 0 where
  generic_safe generic_transform waf_request waf_response waf_stream mitigation_field :
      SecurityProfileId
  custom : Text → SecurityProfileId

pub data Phase : Type 0 where
  generic request response stream : Phase

pub data RegexPolicy : Type 0 where
  forbid literal_only_precompiled dynamic_with_budget : RegexPolicy

pub data Determinism : Type 0 where
  required best_effort : Determinism

pub record RegexAdmissionLimits : Type 0 where
  pub max_unique_regexes : ℕ
  pub max_total_regex_source_bytes : ℕ
  pub max_compiled_regex_bytes : ℕ

-- `RegexAdmissionLimits::default()`.
abbrev pub default_regex_limits : RegexAdmissionLimits
default_regex_limits = record {
  max_unique_regexes = 256;
  max_total_regex_source_bytes = 1024 * 1024;
  max_compiled_regex_bytes = 256 * 1024;
}

-- The set of the phases is the list of its elements in their order.
pub record SecurityProfile : Type 0 where
  pub id : SecurityProfileId
  pub allowed_phases : List Phase
  pub max_ast_nodes : ℕ
  pub max_call_depth : ℕ
  pub default_regex_policy : RegexPolicy
  pub max_cost_units : ℕ
  pub determinism : Determinism
  pub fail_closed : Bool
  pub body_access_limit : Option BodyNeedSummary

abbrev pub generic_safe_profile : SecurityProfile
generic_safe_profile = record {
  id = SecurityProfileId.generic_safe;
  allowed_phases = Phase.generic ∷ [];
  max_ast_nodes = 4096;
  max_call_depth = 64;
  default_regex_policy = RegexPolicy.dynamic_with_budget;
  max_cost_units = 100_000;
  determinism = Determinism.required;
  fail_closed = true;
  body_access_limit = Option.none;
}

abbrev pub generic_transform_profile : SecurityProfile
generic_transform_profile = record generic_safe_profile {
  id = SecurityProfileId.generic_transform;
  max_ast_nodes = 8192;
  max_call_depth = 128;
  max_cost_units = 250_000;
}

abbrev pub waf_profile : SecurityProfileId → Phase → SecurityProfile
waf_profile id phase = record {
  id = id;
  allowed_phases = phase ∷ [];
  max_ast_nodes = 4096;
  max_call_depth = 64;
  default_regex_policy = RegexPolicy.literal_only_precompiled;
  max_cost_units = 100_000;
  determinism = Determinism.required;
  fail_closed = true;
  body_access_limit = Option.none;
}

abbrev pub oxirule_waf_profile : SecurityProfileId → Phase → SecurityProfile
oxirule_waf_profile id phase = record (waf_profile id phase) {
  default_regex_policy = RegexPolicy.dynamic_with_budget;
}

abbrev pub mitigation_field_profile : Phase → SecurityProfile
mitigation_field_profile phase = record {
  id = SecurityProfileId.mitigation_field;
  allowed_phases = phase ∷ [];
  max_ast_nodes = 2048;
  max_call_depth = 32;
  default_regex_policy = RegexPolicy.literal_only_precompiled;
  max_cost_units = 50_000;
  determinism = Determinism.required;
  fail_closed = true;
  body_access_limit = Option.none;
}

unfoldable pub active_phase : SecurityProfile → Option Phase
active_phase profile = elim profile.allowed_phases [
  | [] ↦ Option.none
  | ◌∷◌ phase others ↦ elim others [ [] ↦ Option.some phase | ◌∷◌ _ _ ↦ Option.none ]
]
