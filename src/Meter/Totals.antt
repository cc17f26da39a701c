-- ===== src/Meter/Totals.antt =====
-- The meter's counters are the sums of what its calls add, each within its limit.
use online_dsl_forge.Base.{
  true, false, ◌>>=◌, [], ◌∷◌, refl, Text, Result, List, ℕ, Bool, byte_length, ◌*◌, ◌+◌, ok, ◌≤◌,
  ◌≡◌, Ends, arith, Ends-bind, ok_or-Ends, accepts, Ends-fail_if, ltb, ltb→le, length, Ends-ok_or,
  Ends-map, subst, ◌∙◌,
}
use online_dsl_forge.Meter.{
  RenderMeter, RenderError, manifest, file, admit_supplied_variables, local_options,
  reserve_selector_work, reserve_selector_product, placeholder, output, reserve_render_work, count,
  add_input, Label, overflow, exceeds, variable_total, check_variable_entries, RulepackRenderLimits,
}
use online_dsl_forge.Base.Usize.{checked_add, checked_mul, checked_add-eq-some, checked_mul-eq-some}

-- The calls that change the meter.
pub data Call : Type 0 where
  call_manifest : Text → Call
  call_file : Text → Bool → Call
  call_variables : List (Text × Text) → Call
  call_local_options : ℕ → Call
  call_selector_work : ℕ → Call
  call_selector_product : ℕ → ℕ → Call
  call_placeholder : Call
  call_output : ℕ → Call
  call_render_work : ℕ → Call

unfoldable pub step : RenderMeter → Call → Result RenderError RenderMeter
step meter (call_manifest raw) = manifest meter raw
step meter (call_file raw add_to_aggregate) = file meter raw add_to_aggregate
step meter (call_variables entries) = admit_supplied_variables meter entries
step meter (call_local_options bytes) = local_options meter bytes
step meter (call_selector_work units) = reserve_selector_work meter units
step meter (call_selector_product left right) = reserve_selector_product meter left right
step meter call_placeholder = placeholder meter
step meter (call_output bytes) = output meter bytes
step meter (call_render_work bytes) = reserve_render_work meter bytes

unfoldable pub run : RenderMeter → List Call → Result RenderError RenderMeter
run meter [] = ok meter
run meter (call ∷ calls) = step meter call >>= λ after. run after calls

unfoldable pub variable_bytes : List (Text × Text) → ℕ
variable_bytes [] = 0
variable_bytes (entry ∷ entries) =
    byte_length entry.0 + byte_length entry.1 + variable_bytes entries

-- What a call adds to each counter.
abbrev pub input_of : Call → ℕ
input_of (call_manifest raw) = byte_length raw
input_of (call_file raw true) = byte_length raw
input_of (call_variables entries) = variable_bytes entries
input_of (call_local_options bytes) = bytes
input_of _ = 0

abbrev pub output_of : Call → ℕ
output_of (call_output bytes) = bytes
output_of _ = 0

abbrev pub work_of : Call → ℕ
work_of (call_render_work bytes) = bytes
work_of _ = 0

abbrev pub placeholders_of : Call → ℕ
placeholders_of call_placeholder = 1
placeholders_of _ = 0

abbrev pub selector_of : Call → ℕ
selector_of (call_selector_work units) = units
selector_of (call_selector_product left right) = left * right
selector_of _ = 0

unfoldable pub total : (Call → ℕ) → List Call → ℕ
total f [] = 0
total f (call ∷ calls) = f call + total f calls

-- Each counter is within its limit.
pub record IsWithin (meter : RenderMeter) : Type 0 where
  pub input_fits : meter.input_bytes ≤ meter.limits.max_total_input_bytes
  pub output_fits : meter.output_bytes ≤ meter.limits.max_total_output_bytes
  pub work_fits : meter.render_work_bytes ≤ meter.limits.max_total_output_bytes
  pub placeholders_fit : meter.placeholder_count ≤ meter.limits.max_placeholders
  pub selector_fits : meter.selector_work ≤ meter.limits.max_selector_work

-- Each counter grew by the given amount.
pub record IsAdded (i o w p s : ℕ) (before after : RenderMeter) : Type 0 where
  pub same_limits : after.limits ≡ before.limits
  pub input : after.input_bytes ≡ before.input_bytes + i
  pub out : after.output_bytes ≡ before.output_bytes + o
  pub work : after.render_work_bytes ≡ before.render_work_bytes + w
  pub placeholders : after.placeholder_count ≡ before.placeholder_count + p
  pub selector : after.selector_work ≡ before.selector_work + s
  pub within : IsWithin before → IsWithin after

count-Ends :
    (counter more limit : ℕ) (a b : Label)
    → Ends (λ sum. (sum ≡ counter + more) × (sum ≤ limit)) (count counter more limit a b)
unfolding count
count-Ends counter more limit a b =
    Ends-bind (ok_or-Ends (checked_add counter more) (overflow a) λ n h. h) λ sum h.
      Ends-fail_if (ltb limit sum) (exceeds b limit)
        λ fits. accepts (checked_add-eq-some counter more h, ltb→le _ _ fits)

unchanged : (n : ℕ) → n ≡ n + 0
unchanged n = omega arith

add_input-IsAdded :
    (meter : RenderMeter) (bytes : ℕ) → Ends (IsAdded bytes 0 0 0 0 meter) (add_input meter bytes)
unfolding add_input
add_input-IsAdded meter bytes =
    Ends-bind (count-Ends meter.input_bytes bytes meter.limits.max_total_input_bytes _ _)
      λ sum (more, fits). accepts (record {
        same_limits = refl;
        input = more;
        out = unchanged _;
        work = unchanged _;
        placeholders = unchanged _;
        selector = unchanged _;
        within = λ was. record {
          input_fits = fits;
          output_fits = was.output_fits;
          work_fits = was.work_fits;
          placeholders_fit = was.placeholders_fit;
          selector_fits = was.selector_fits;
        };
      })

pub placeholder-IsAdded : (meter : RenderMeter) → Ends (IsAdded 0 0 0 1 0 meter) (placeholder meter)
unfolding placeholder
placeholder-IsAdded meter =
    Ends-bind (count-Ends meter.placeholder_count 1 meter.limits.max_placeholders _ _)
      λ sum (more, fits). accepts (record {
        same_limits = refl;
        input = unchanged _;
        out = unchanged _;
        work = unchanged _;
        placeholders = more;
        selector = unchanged _;
        within = λ was. record {
          input_fits = was.input_fits;
          output_fits = was.output_fits;
          work_fits = was.work_fits;
          placeholders_fit = fits;
          selector_fits = was.selector_fits;
        };
      })

pub reserve_render_work-IsAdded :
    (meter : RenderMeter) (bytes : ℕ)
    → Ends
        (λ after.
          IsAdded 0 0 bytes 0 0 meter after
          × (after.render_work_bytes ≤ meter.limits.max_total_output_bytes))
        (reserve_render_work meter bytes)
unfolding reserve_render_work
reserve_render_work-IsAdded meter bytes =
    Ends-bind (count-Ends meter.render_work_bytes bytes meter.limits.max_total_output_bytes _ _)
      λ sum (more, fits). accepts (
        record {
          same_limits = refl;
          input = unchanged _;
          out = unchanged _;
          work = more;
          placeholders = unchanged _;
          selector = unchanged _;
          within = λ was. record {
            input_fits = was.input_fits;
            output_fits = was.output_fits;
            work_fits = fits;
            placeholders_fit = was.placeholders_fit;
            selector_fits = was.selector_fits;
          };
        },
        fits,
      )

reserve_selector_work-IsAdded :
    (meter : RenderMeter) (units : ℕ)
    → Ends (IsAdded 0 0 0 0 units meter) (reserve_selector_work meter units)
unfolding reserve_selector_work
reserve_selector_work-IsAdded meter units =
    Ends-bind (count-Ends meter.selector_work units meter.limits.max_selector_work _ _)
      λ sum (more, fits). accepts (record {
        same_limits = refl;
        input = unchanged _;
        out = unchanged _;
        work = unchanged _;
        placeholders = unchanged _;
        selector = more;
        within = λ was. record {
          input_fits = was.input_fits;
          output_fits = was.output_fits;
          work_fits = was.work_fits;
          placeholders_fit = was.placeholders_fit;
          selector_fits = fits;
        };
      })

output-IsAdded :
    (meter : RenderMeter) (bytes : ℕ) → Ends (IsAdded 0 bytes 0 0 0 meter) (output meter bytes)
unfolding output
output-IsAdded meter bytes =
    Ends-bind (count-Ends meter.output_bytes bytes meter.limits.max_total_output_bytes _ _)
      λ sum (more, fits). accepts (record {
        same_limits = refl;
        input = unchanged _;
        out = more;
        work = unchanged _;
        placeholders = unchanged _;
        selector = unchanged _;
        within = λ was. record {
          input_fits = was.input_fits;
          output_fits = fits;
          work_fits = was.work_fits;
          placeholders_fit = was.placeholders_fit;
          selector_fits = was.selector_fits;
        };
      })

variable_total-Ends :
    (limits : RulepackRenderLimits) (entries : List (Text × Text)) (sum : ℕ)
    → Ends (λ all. all ≡ sum + variable_bytes entries) (variable_total limits entries sum)
unfolding variable_total variable_bytes
variable_total-Ends limits [] sum = accepts (unchanged sum)
variable_total-Ends limits (entry ∷ entries) sum =
    Ends-fail_if (ltb limits.max_variable_value_bytes (byte_length entry.1)) _ λ _.
      Ends-ok_or (checked_add sum (byte_length entry.0)) _ λ named h.
        Ends-ok_or (checked_add named (byte_length entry.1)) _ λ both k.
          Ends-fail_if (ltb limits.max_total_variable_bytes both) _ λ _.
            Ends-map
              (λ all m. omega (arith, m, checked_add-eq-some _ _ h, checked_add-eq-some _ _ k))
              (variable_total-Ends limits entries both)

admit_supplied_variables-IsAdded :
    (meter : RenderMeter) (entries : List (Text × Text))
    → Ends (IsAdded (variable_bytes entries) 0 0 0 0 meter) (admit_supplied_variables meter entries)
unfolding admit_supplied_variables check_variable_entries
admit_supplied_variables-IsAdded meter entries =
    Ends-bind
      (Ends-fail_if (ltb meter.limits.max_variables (length entries)) _
        λ _. variable_total-Ends meter.limits entries 0)
      λ all h.
        subst (λ n. Ends (IsAdded n 0 0 0 0 meter) (add_input meter all)) (grown all h)
          (add_input-IsAdded meter all)
  where
    grown : (all : ℕ) → all ≡ 0 + variable_bytes entries → all ≡ variable_bytes entries
    grown all h = omega (arith, h)

nothing-IsAdded : (meter : RenderMeter) → IsAdded 0 0 0 0 0 meter meter
nothing-IsAdded meter = record {
  same_limits = refl;
  input = unchanged _;
  out = unchanged _;
  work = unchanged _;
  placeholders = unchanged _;
  selector = unchanged _;
  within = λ was. was;
}

abbrev pub IsCharged : Call → RenderMeter → RenderMeter → Type 0
IsCharged call =
    IsAdded (input_of call) (output_of call) (work_of call) (placeholders_of call)
      (selector_of call)

step-IsCharged : (meter : RenderMeter) (call : Call) → Ends (IsCharged call meter) (step meter call)
unfolding step manifest file local_options reserve_selector_product
step-IsCharged meter (call_manifest raw) =
    Ends-fail_if (ltb meter.limits.max_manifest_bytes (byte_length raw)) _
      λ _. add_input-IsAdded meter (byte_length raw)
step-IsCharged meter (call_file raw true) =
    Ends-fail_if (ltb meter.limits.max_referenced_file_bytes (byte_length raw)) _
      λ _. add_input-IsAdded meter (byte_length raw)
step-IsCharged meter (call_file raw false) =
    Ends-fail_if (ltb meter.limits.max_referenced_file_bytes (byte_length raw)) _
      λ _. accepts (nothing-IsAdded meter)
step-IsCharged meter (call_variables entries) = admit_supplied_variables-IsAdded meter entries
step-IsCharged meter (call_local_options bytes) =
    Ends-fail_if (ltb meter.limits.max_local_option_bytes bytes) _
      λ _. add_input-IsAdded meter bytes
step-IsCharged meter (call_selector_work units) = reserve_selector_work-IsAdded meter units
step-IsCharged meter (call_selector_product left right) =
    Ends-ok_or (checked_mul left right) _ λ units h.
      subst (λ n. Ends (IsAdded 0 0 0 0 n meter) (reserve_selector_work meter units))
        (checked_mul-eq-some left right h) (reserve_selector_work-IsAdded meter units)
step-IsCharged meter call_placeholder = placeholder-IsAdded meter
step-IsCharged meter (call_output bytes) = output-IsAdded meter bytes
step-IsCharged meter (call_render_work bytes) =
    Ends-map (λ after added. added.0) (reserve_render_work-IsAdded meter bytes)

-- For each sequence of calls from a meter that is within its limits: they return an error, or a
-- meter with the same limits, within them, in which each counter has grown by exactly the sum of
-- what the calls add to it.
pub run-IsAdded :
    (meter : RenderMeter) (calls : List Call)
    → IsWithin meter
    → Ends
        (λ after.
          IsWithin after
          × IsAdded
              (total input_of calls)
              (total output_of calls)
              (total work_of calls)
              (total placeholders_of calls)
              (total selector_of calls)
              meter
              after)
        (run meter calls)
unfolding run total
run-IsAdded meter [] w = accepts (w, nothing-IsAdded meter)
run-IsAdded meter (call ∷ calls) w = Ends-bind (step-IsCharged meter call) λ next added.
    Ends-map
      (λ after (is_within, rest). (
        is_within,
        record {
          same_limits = rest.same_limits ∙ added.same_limits;
          input = omega (arith, rest.input, added.input);
          out = omega (arith, rest.out, added.out);
          work = omega (arith, rest.work, added.work);
          placeholders = omega (arith, rest.placeholders, added.placeholders);
          selector = omega (arith, rest.selector, added.selector);
          within = λ was. is_within;
        },
      ))
      (run-IsAdded next calls (added.within w))
