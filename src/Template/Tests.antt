-- ===== src/Template/Tests.antt =====
-- A template rendered, and the theorem applied to it.
use online_dsl_forge.Meter.{
  RenderMeter, exceeds, Label, default_render_limits, count, placeholder, reserve_render_work,
}
use online_dsl_forge.Template.{
  render_legacy_bounded, render_secure, measure, render_measured, variable, find_pair, has_char,
  is_malformed, is_stray,
}
use online_dsl_forge.Base.{
  refl, Text, List, Ends, codes, ◌∷◌, [], text_eq, byte_length, ◌≡◌, ok, err,
}
use online_dsl_forge.Template.Measured.{IsReserved, render_secure-Ends}

abbrev meter : RenderMeter
meter = record {
  limits = record default_render_limits { max_placeholders = 2; max_total_output_bytes = 8 };
  input_bytes = 0;
  output_bytes = 0;
  selector_work = 0;
  render_work_bytes = 3;
  placeholder_count = 1;
}

abbrev raw : Text
raw = codes "a{{x}}b"

abbrev variables : List (Text × Text)
variables = (codes "x", codes "yes") ∷ []

rendered :
    render_secure raw variables (codes "x" ∷ []) meter
    ≡ ok (codes "ayesb", record meter { render_work_bytes = 8; placeholder_count = 2 })
unfolding render_secure measure render_measured variable find_pair has_char is_malformed is_stray
    placeholder reserve_render_work count text_eq byte_length
rendered = refl

-- The second variable does not fit the limit on the output.
too_long :
    render_secure (codes "{{x}}{{x}}") variables [] (record meter { placeholder_count = 0 })
    ≡ err (exceeds Label.aggregate_retained_render_bytes 8)
unfolding render_secure measure render_measured variable find_pair has_char is_malformed is_stray
    placeholder reserve_render_work count text_eq byte_length
too_long = refl

render_secure-Ends_example :
    Ends (IsReserved meter) (render_secure raw variables (codes "x" ∷ []) meter)
render_secure-Ends_example = render_secure-Ends raw variables (codes "x" ∷ []) meter

-- A legacy marker without a name is measured as literal text, and yet looked up: the output is
-- longer than the limit of 8 bytes.
unmeasured :
    render_legacy_bounded (codes "{{}}") (([], codes "ten_bytes_") ∷ []) meter
    ≡ ok (codes "ten_bytes_", record meter { render_work_bytes = 7 })
unfolding render_legacy_bounded measure render_measured variable find_pair has_char is_malformed
    is_stray placeholder reserve_render_work count text_eq byte_length
unmeasured = refl
