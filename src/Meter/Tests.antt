-- ===== src/Meter/Tests.antt =====
-- A sequence of calls on a fresh meter, and the theorem applied to it.
use online_dsl_forge.Base.{refl, ok, ◌≡◌, ◌∷◌, [], codes, arith, Ends, List, byte_length}
use online_dsl_forge.Meter.{
  new, default_render_limits, RenderMeter, manifest, admit_supplied_variables,
  check_variable_entries, variable_total, add_input, reserve_selector_product,
  reserve_selector_work, placeholder, reserve_render_work, output, count,
}
use online_dsl_forge.Meter.Totals.{
  call_manifest, run, step, total, IsWithin, IsAdded, run-IsAdded, Call, input_of, call_variables,
  output_of, call_selector_product, work_of, call_placeholder, placeholders_of, call_render_work,
  selector_of, call_output,
}

abbrev calls : List Call
calls =
    call_manifest (codes "ab")
    ∷ call_variables ((codes "x", codes "yes") ∷ [])
    ∷ call_selector_product 2 3
    ∷ call_placeholder
    ∷ call_render_work 5
    ∷ call_output 4
    ∷ []

abbrev meter : RenderMeter
meter = new default_render_limits

called :
    run meter calls
    ≡ ok (record meter {
      input_bytes = 6;
      output_bytes = 4;
      render_work_bytes = 5;
      placeholder_count = 1;
      selector_work = 6;
    })
unfolding run step manifest admit_supplied_variables check_variable_entries variable_total add_input
    reserve_selector_product reserve_selector_work placeholder reserve_render_work output count
    byte_length
called = refl

fresh : IsWithin meter
fresh = record {
  input_fits = omega arith;
  output_fits = omega arith;
  work_fits = omega arith;
  placeholders_fit = omega arith;
  selector_fits = omega arith;
}

run-IsAdded_example :
    Ends
      (λ (after : RenderMeter).
        IsWithin after
        × IsAdded
            (total input_of calls)
            (total output_of calls)
            (total work_of calls)
            (total placeholders_of calls)
            (total selector_of calls)
            meter
            after)
      (run meter calls)
run-IsAdded_example = run-IsAdded meter calls fresh
