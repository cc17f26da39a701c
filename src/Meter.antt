-- ===== src/Meter.antt =====
-- source/src/rulepack_render/limits.rs: the counters and limits of rendering a rule pack.
-- The label of the source, which error messages start with, is left out; an error gives the meter
-- up, since each caller returns at once.
pub mod Totals
mod Tests
use online_dsl_forge.Base.{
  [], ◌>>=◌, ◌>>◌, ℕ, Text, List, Result, ok_or, fail_if, ok, byte_length, Bool, length, ◌-◌, ltb,
  if◌then◌else◌, ◌∷◌,
}
use online_dsl_forge.Base.Usize.{checked_add as usize_add, checked_mul as usize_mul}

pub record RulepackRenderLimits : Type 0 where
  pub max_manifest_bytes : ℕ
  pub max_referenced_file_bytes : ℕ
  pub max_variable_value_bytes : ℕ
  pub max_total_variable_bytes : ℕ
  pub max_variables : ℕ
  pub max_profile_assignments : ℕ
  pub max_rulepack_files : ℕ
  pub max_overrides : ℕ
  pub max_exceptions : ℕ
  pub max_selector_work : ℕ
  pub max_local_option_bytes : ℕ
  pub max_override_body_bytes : ℕ
  pub max_placeholders : ℕ
  pub max_total_input_bytes : ℕ
  pub max_total_output_bytes : ℕ

abbrev pub default_render_limits : RulepackRenderLimits
default_render_limits = record {
  max_manifest_bytes = 8_388_608;
  max_referenced_file_bytes = 8_388_608;
  max_variable_value_bytes = 1_048_576;
  max_total_variable_bytes = 8_388_608;
  max_variables = 4_096;
  max_profile_assignments = 262_144;
  max_rulepack_files = 4_096;
  max_overrides = 4_096;
  max_exceptions = 4_096;
  max_selector_work = 16_777_216;
  max_local_option_bytes = 16_777_216;
  max_override_body_bytes = 8_388_608;
  max_placeholders = 262_144;
  max_total_input_bytes = 67_108_864;
  max_total_output_bytes = 67_108_864;
}

-- What a limit or a counter is about.
pub data Label : Type 0 where
  manifest_bytes referenced_file_bytes variables variable_value_bytes variable_bytes : Label
  total_variable_bytes rulepack_files assignment_count override_count exception_count : Label
  local_option_bytes override_body_bytes selector_work_units placeholders : Label
  rendered_output_bytes total_rendered_output_bytes aggregate_retained_render_bytes : Label
  aggregate_input_bytes : Label

pub data RenderError : Type 0 where
  overflow : Label → RenderError
  exceeds : Label → ℕ → RenderError
  malformed_marker : RenderError
  unresolved_placeholder unknown_placeholder : Text → RenderError

abbrev pub checked_add : ℕ → ℕ → Label → Result RenderError ℕ
checked_add left right label = ok_or (usize_add left right) (overflow label)

abbrev pub check_limit : ℕ → ℕ → Label → Result RenderError (Unit {0})
check_limit value limit label = fail_if (ltb limit value) (exceeds label limit)

pub record RenderMeter : Type 0 where
  pub limits : RulepackRenderLimits
  pub input_bytes : ℕ
  pub output_bytes : ℕ
  pub render_work_bytes : ℕ
  pub placeholder_count : ℕ
  pub selector_work : ℕ

abbrev pub new : RulepackRenderLimits → RenderMeter
new limits = record {
  limits = limits;
  input_bytes = 0;
  output_bytes = 0;
  render_work_bytes = 0;
  placeholder_count = 0;
  selector_work = 0;
}

-- A counter with more added, which is within its limit.
unfoldable pub count : ℕ → ℕ → ℕ → Label → Label → Result RenderError ℕ
count counter more limit sum_label limit_label =
    checked_add counter more sum_label >>= λ sum. check_limit sum limit limit_label >> ok sum

unfoldable pub add_input : RenderMeter → ℕ → Result RenderError RenderMeter
add_input meter bytes = do
  sum ←
      count meter.input_bytes bytes meter.limits.max_total_input_bytes Label.aggregate_input_bytes
        Label.aggregate_input_bytes
  ok (record meter { input_bytes = sum })

unfoldable pub manifest : RenderMeter → Text → Result RenderError RenderMeter
manifest meter raw =
    check_limit (byte_length raw) meter.limits.max_manifest_bytes Label.manifest_bytes
    >> add_input meter (byte_length raw)

unfoldable pub file : RenderMeter → Text → Bool → Result RenderError RenderMeter
file meter raw add_to_aggregate =
    check_limit (byte_length raw) meter.limits.max_referenced_file_bytes Label.referenced_file_bytes
    >> (if add_to_aggregate then add_input meter (byte_length raw) else ok meter)

-- The loop of `check_variable_entries`.
unfoldable pub variable_total : RulepackRenderLimits → List (Text × Text) → ℕ → Result RenderError ℕ
variable_total limits [] total = ok total
variable_total limits (entry ∷ entries) total = do
  check_limit (byte_length entry.1) limits.max_variable_value_bytes Label.variable_value_bytes
  named ← checked_add total (byte_length entry.0) Label.variable_bytes
  sum ← checked_add named (byte_length entry.1) Label.variable_bytes
  check_limit sum limits.max_total_variable_bytes Label.total_variable_bytes
  variable_total limits entries sum

unfoldable pub check_variable_entries : RenderMeter → List (Text × Text) → ℕ → Result RenderError ℕ
check_variable_entries meter entries number =
    check_limit number meter.limits.max_variables Label.variables
    >> variable_total meter.limits entries 0

unfoldable pub admit_supplied_variables :
    RenderMeter → List (Text × Text) → Result RenderError RenderMeter
admit_supplied_variables meter entries =
    check_variable_entries meter entries (length entries) >>= λ total. add_input meter total

unfoldable pub check_resolved_variables :
    RenderMeter → List (Text × Text) → ℕ → Result RenderError (Unit {0})
check_resolved_variables meter entries number =
    check_variable_entries meter entries number >>= λ total. ok tt

unfoldable pub files : RenderMeter → ℕ → ℕ → Result RenderError (Unit {0})
files meter rules groups = checked_add rules groups Label.rulepack_files >>= λ number.
    check_limit number meter.limits.max_rulepack_files Label.rulepack_files

unfoldable pub local_options : RenderMeter → ℕ → Result RenderError RenderMeter
local_options meter bytes =
    check_limit bytes meter.limits.max_local_option_bytes Label.local_option_bytes
    >> add_input meter bytes

unfoldable pub reserve_selector_work : RenderMeter → ℕ → Result RenderError RenderMeter
reserve_selector_work meter units = do
  sum ←
      count meter.selector_work units meter.limits.max_selector_work Label.selector_work_units
        Label.selector_work_units
  ok (record meter { selector_work = sum })

unfoldable pub reserve_selector_product : RenderMeter → ℕ → ℕ → Result RenderError RenderMeter
reserve_selector_product meter left right =
    ok_or (usize_mul left right) (overflow Label.selector_work_units) >>= λ units.
    reserve_selector_work meter units

unfoldable pub placeholder : RenderMeter → Result RenderError RenderMeter
placeholder meter = do
  sum ←
      count meter.placeholder_count 1 meter.limits.max_placeholders Label.placeholders
        Label.placeholders
  ok (record meter { placeholder_count = sum })

unfoldable pub output : RenderMeter → ℕ → Result RenderError RenderMeter
output meter bytes = do
  sum ←
      count meter.output_bytes bytes meter.limits.max_total_output_bytes Label.rendered_output_bytes
        Label.total_rendered_output_bytes
  ok (record meter { output_bytes = sum })

unfoldable pub reserve_render_work : RenderMeter → ℕ → Result RenderError RenderMeter
reserve_render_work meter bytes = do
  sum ←
      count meter.render_work_bytes bytes meter.limits.max_total_output_bytes
        Label.aggregate_retained_render_bytes Label.aggregate_retained_render_bytes
  ok (record meter { render_work_bytes = sum })

abbrev pub remaining_render_work : RenderMeter → ℕ
remaining_render_work meter = meter.limits.max_total_output_bytes - meter.render_work_bytes

abbrev pub max_single_output : RenderMeter → ℕ
max_single_output meter = meter.limits.max_total_output_bytes

abbrev pub profile_assignments : RenderMeter → ℕ → Result RenderError (Unit {0})
profile_assignments meter number =
    check_limit number meter.limits.max_profile_assignments Label.assignment_count

abbrev pub overrides : RenderMeter → ℕ → Result RenderError (Unit {0})
overrides meter number = check_limit number meter.limits.max_overrides Label.override_count

abbrev pub exceptions : RenderMeter → ℕ → Result RenderError (Unit {0})
exceptions meter number = check_limit number meter.limits.max_exceptions Label.exception_count

abbrev pub override_body : RenderMeter → ℕ → Result RenderError (Unit {0})
override_body meter bytes =
    check_limit bytes meter.limits.max_override_body_bytes Label.override_body_bytes
