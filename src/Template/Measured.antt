-- ===== src/Template/Measured.antt =====
-- Rendering a template gives what was measured.
use online_dsl_forge.Meter.{RenderMeter, placeholder, malformed_marker, overflow, Label}
use online_dsl_forge.Meter.Totals.{placeholder-IsAdded, reserve_render_work-IsAdded}
use online_dsl_forge.Base.{
  ok_or-Ends, Ends-map, zero, suc, none, refl, Text, ℕ, ◌≡◌, List, Option, ◌∷◌, some, Ends, length,
  ◌<◌, ◌+◌, true, subst, ok, Ends-fail_if, byte_length, accepts, arith, Bool-cases, refuses, [],
  ◌++◌, ◌∙◌, ◌==◌, byte_length-append, Option-cases, ◌&&◌, inl, inr, Ends-bind, ◌≤◌,
  byte_length-nil,
}
use online_dsl_forge.Template.{
  render_measured, find_pair, checked_length, measure, variable, measure_name, measure_marker,
  contains, is_malformed, render_secure, rounds, is_stray,
}
use online_dsl_forge.Base.Usize.{checked_add, checked_add-eq-some}

abbrev Shorter : Text → Option (Text × Text) → Type 0
Shorter t none = Unit {0}
Shorter t (some found) = length found.1 < length t

find_pair-Shorter : (c : ℕ) (t : Text) → Shorter t (find_pair c t)
unfolding find_pair
find_pair-Shorter c [] = tt
find_pair-Shorter c (x ∷ []) = tt
find_pair-Shorter c (x ∷ y ∷ rest) = elim (Bool-cases (x == c && y == c)) [
  | inl here ↦ rw (here, find_pair) (omega arith)
  | inr further ↦
      rw (further, find_pair) (later (find_pair c (y ∷ rest)) (find_pair-Shorter c (y ∷ rest)))
]
  where
    later :
        (o : Option (Text × Text))
        → Shorter (y ∷ rest) o
        → Shorter (x ∷ y ∷ rest) (elim o [ none ↦ none | some found ↦ some (x ∷ found.0, found.1) ])
    later none h = tt
    later (some found) h = omega (arith, h)

find_pair-length :
    (c : ℕ) (t : Text) {found : Text × Text}
    → find_pair c t ≡ some found
    → length found.1 < length t
find_pair-length c t h = subst (Shorter t) h (find_pair-Shorter c t)

-- The work and the limits are as before.
record IsCharged (before after : RenderMeter) : Type 0 where
  pub same_limits : after.limits ≡ before.limits
  pub same_work : after.render_work_bytes ≡ before.render_work_bytes

placeholder-IsCharged : (meter : RenderMeter) → Ends (IsCharged meter) (placeholder meter)
placeholder-IsCharged meter =
    Ends-map
      (λ after added. record {
        same_limits = added.same_limits;
        same_work = omega (arith, added.work);
      })
      (placeholder-IsAdded meter)

checked_length-Ends : (a b : ℕ) → Ends (λ n. n ≡ a + b) (checked_length a b)
checked_length-Ends a b =
    ok_or-Ends (checked_add a b) (overflow Label.rendered_output_bytes)
      λ n h. checked_add-eq-some a b h

module _ (variables : List (Text × Text)) (declared : List Text) where
  render-nil :
      (fuel : ℕ) (output : Text)
      → render_measured variables declared true (suc fuel) [] output ≡ ok output
  unfolding render_measured
  render-nil fuel output = refl

  render-none :
      (fuel : ℕ) (c : ℕ) (cs output : Text)
      → find_pair b'{' (c ∷ cs) ≡ none
      → render_measured variables declared true (suc fuel) (c ∷ cs) output ≡ ok (output ++ c ∷ cs)
  unfolding render_measured
  render-none fuel c cs output h = rw (h, render_measured) refl

  render-closed :
      (fuel : ℕ) (c : ℕ) (cs output : Text) {opened closed : Text × Text} {value : Text}
      → find_pair b'{' (c ∷ cs) ≡ some opened
      → find_pair b'}' opened.1 ≡ some closed
      → variable variables closed.0 ≡ some value
      → render_measured variables declared true (suc fuel) (c ∷ cs) output
        ≡ render_measured variables declared true fuel closed.1 ((output ++ opened.0) ++ value)
  unfolding render_measured
  render-closed fuel c cs output h k v = rw (h, render_measured, k, v) refl

  -- Rendering the rest gives as many bytes as measuring it.
  record IsMeasured (fuel : ℕ) (rest : Text) (len : ℕ) (meter : RenderMeter)
      (counted : ℕ × RenderMeter) : Type 0 where
    pub charged : IsCharged meter counted.1
    pub rendered :
        (output : Text)
        → (out : Text) × (render_measured variables declared true fuel rest output ≡ ok out)
          × (counted.0 + byte_length output ≡ len + byte_length out)

  -- A name that measures has a value.
  measure_name-Ends :
      (name : Text) (len : ℕ) (o : Option Text)
      → Ends
          (λ n. (value : Text) × (o ≡ some value) × (n ≡ len + byte_length value))
          (measure_name variables declared true placeholder name len o)
  measure_name-Ends name len none = elim (Bool-cases (contains declared name)) [
    | inl h ↦ rw h (refuses tt)
    | inr h ↦ rw h (refuses tt)
  ]
  measure_name-Ends name len (some value) =
      ok_or-Ends (checked_add len (byte_length value)) (overflow Label.rendered_output_bytes)
        λ n h. (value, refl, checked_add-eq-some _ _ h)

  record IsNamed (name : Text) (len : ℕ) (meter : RenderMeter) (counted : ℕ × RenderMeter)
      : Type 0 where
    pub charged : IsCharged meter counted.1
    pub value : Text
    pub found : variable variables name ≡ some value
    pub longer : counted.0 ≡ len + byte_length value

  measure_marker-Ends :
      (name : Text) (len : ℕ) (meter : RenderMeter)
      → Ends
          (IsNamed name len meter)
          (measure_marker variables declared true placeholder name len meter)
  measure_marker-Ends name len meter = elim (Bool-cases (is_malformed name)) [
    | inl h ↦ rw (h, measure_marker) (refuses tt)
    | inr h ↦
        rw (h, measure_marker)
          (Ends-bind (placeholder-IsCharged meter) λ m charged.
            Ends-bind (measure_name-Ends name len (variable variables name))
              λ n (value, found, longer).
                accepts
                  (record { charged = charged; value = value; found = found; longer = longer }))
  ]

  -- A marker behind `opened.0`, and what comes behind it.
  next-IsMeasured :
      (fuel : ℕ) (c : ℕ) (cs : Text) {opened closed : Text × Text} (len before : ℕ)
      (meter : RenderMeter) {named last : ℕ × RenderMeter}
      → find_pair b'{' (c ∷ cs) ≡ some opened
      → find_pair b'}' opened.1 ≡ some closed
      → before ≡ len + byte_length opened.0
      → IsNamed closed.0 before meter named
      → IsMeasured fuel closed.1 named.0 named.1 last
      → IsMeasured (suc fuel) (c ∷ cs) len meter last
  next-IsMeasured fuel c cs {opened} {closed} len before meter {named} {last} at_open at_close
        longer n m =
      record {
        charged = record {
          same_limits = m.charged.same_limits ∙ n.charged.same_limits;
          same_work = m.charged.same_work ∙ n.charged.same_work;
        };
        rendered = λ output.
            let r = m.rendered ((output ++ opened.0) ++ n.value) in
            (
              r.0,
              render-closed fuel c cs output at_open at_close n.found ∙ r.1,
              omega (
                arith,
                longer,
                n.longer,
                r.2,
                byte_length-append (output ++ opened.0) n.value,
                byte_length-append output opened.0,
              ),
            );
      }

  measure-IsMeasured :
      (fuel : ℕ) (rest : Text) (len : ℕ) (meter : RenderMeter)
      → length rest < fuel
      → Ends
          (IsMeasured fuel rest len meter)
          (measure variables declared true placeholder fuel rest len meter)
  unfolding measure
  measure-IsMeasured zero rest len meter h = absurd (omega arith)
  measure-IsMeasured (suc fuel) [] len meter h = accepts (record {
    charged = record { same_limits = refl; same_work = refl };
    rendered = λ output. (output, render-nil fuel output, refl);
  })
  measure-IsMeasured (suc fuel) (c ∷ cs) len meter h =
      Ends-fail_if (is_stray (find_pair b'{' (c ∷ cs)) (find_pair b'}' (c ∷ cs))) malformed_marker
        λ _. elim (Option-cases (find_pair b'{' (c ∷ cs))) [
          | inl absent ↦ rw absent (
              Ends-bind (checked_length-Ends len (byte_length (c ∷ cs))) λ n longer.
                accepts (record {
                  charged = record { same_limits = refl; same_work = refl };
                  rendered = λ output. (
                    output ++ c ∷ cs,
                    render-none fuel c cs output absent,
                    omega (arith, longer, byte_length-append output (c ∷ cs)),
                  );
                }))
          | inr (opened, at_open) ↦ rw at_open (
              Ends-bind (checked_length-Ends len (byte_length opened.0)) λ before longer.
                elim (Option-cases (find_pair b'}' opened.1)) [
                  | inl absent ↦ rw absent (refuses tt)
                  | inr (closed, at_close) ↦ rw at_close (
                      Ends-bind (measure_marker-Ends closed.0 before meter) λ named named_ok.
                        Ends-map
                          (λ last m.
                            next-IsMeasured fuel c cs len before meter at_open at_close longer
                              named_ok m)
                          (measure-IsMeasured fuel closed.1 named.0 named.1 (
                            omega (
                              arith,
                              h,
                              find_pair-length _ _ at_open,
                              find_pair-length _ _ at_close,
                            ))))
                ])
        ]

-- The output was counted in full before it was made, and is within the limit on output bytes.
pub record IsReserved (before : RenderMeter) (returned : Text × RenderMeter) : Type 0 where
  pub same_limits : returned.1.limits ≡ before.limits
  pub reserved : returned.1.render_work_bytes ≡ before.render_work_bytes + byte_length returned.0
  pub in_limit : returned.1.render_work_bytes ≤ before.limits.max_total_output_bytes

-- For each template, all variables and any meter, strict rendering does not run out of fuel: it
-- returns an error, or a text whose bytes are exactly what it added to the meter's work before it
-- made the text, and the work is then within the limit on output bytes.
pub render_secure-Ends :
    (raw : Text) (variables : List (Text × Text)) (declared : List Text) (meter : RenderMeter)
    → Ends (IsReserved meter) (render_secure raw variables declared meter)
unfolding render_secure
render_secure-Ends raw variables declared meter =
    Ends-bind (measure-IsMeasured variables declared (rounds raw) raw 0 meter (omega arith))
      λ counted m. Ends-bind (reserve_render_work-IsAdded counted.1 counted.0) λ reserved w.
        let r = m.rendered [] in
        rw (r.1) (
          accepts (record {
            same_limits = w.0.same_limits ∙ m.charged.same_limits;
            reserved = omega (arith, w.0.work, m.charged.same_work, r.2, byte_length-nil);
            in_limit =
                subst (λ l. reserved.render_work_bytes ≤ l.max_total_output_bytes)
                  m.charged.same_limits w.1;
          }))
