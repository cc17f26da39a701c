-- ===== src/Template.antt =====
-- source/src/rulepack_render/template.rs: placeholders are measured, then rendered.
-- The label of the source, which error messages start with, is left out; an error gives the meter
-- up, since each caller returns at once.
pub mod Measured
mod Tests
use online_dsl_forge.Base.{
  ◌>>=◌, ◌>>◌, ℕ, zero, suc, ◌+◌, Bool, true, false, ◌&&◌, ◌||◌, List, [], ◌∷◌, ◌++◌, Text, Option,
  none, some, Result, ok, err, out_of_fuel, fail_if, ltb, ◌==◌, if◌then◌else◌, text_eq, length,
  byte_length, map,
}
use online_dsl_forge.Meter.{
  checked_add, RenderError, RenderMeter, Label, malformed_marker, unresolved_placeholder,
  unknown_placeholder, placeholder, reserve_render_work,
}

abbrev pub checked_length : ℕ → ℕ → Result RenderError ℕ
checked_length current added = checked_add current added Label.rendered_output_bytes

-- `BTreeMap::get`.
unfoldable pub variable : List (Text × Text) → Text → Option Text
variable [] name = none
variable ((key, value) ∷ rest) name = if text_eq key name then some value else variable rest name

-- `HashSet::contains`.
unfoldable pub contains : List Text → Text → Bool
contains [] name = false
contains (key ∷ rest) name = text_eq key name || contains rest name

-- `str::find` of a character twice in a row: the text before and behind it.
unfoldable pub find_pair : ℕ → Text → Option (Text × Text)
find_pair c [] = none
find_pair c (x ∷ []) = none
find_pair c (x ∷ y ∷ rest) = elim (x == c && y == c) [
  | true ↦ some ([], rest)
  | false ↦ elim (find_pair c (y ∷ rest)) [ none ↦ none | some found ↦ some (x ∷ found.0, found.1) ]
]

unfoldable pub has_char : ℕ → Text → Bool
has_char c [] = false
has_char c (x ∷ rest) = x == c || has_char c rest

-- A name that is empty or holds a brace.
unfoldable pub is_malformed : Text → Bool
is_malformed [] = true
is_malformed (c ∷ cs) = has_char b'{' (c ∷ cs) || has_char b'}' (c ∷ cs)

-- `}}` comes before any `{{`.
unfoldable pub is_stray : Option (Text × Text) → Option (Text × Text) → Bool
is_stray opening none = false
is_stray none (some closing) = true
is_stray (some opening) (some closing) = ltb (byte_length closing.0) (byte_length opening.0)

-- The bytes of `{{name}}`.
abbrev pub marker_bytes : Text → ℕ
marker_bytes name = 2 + byte_length name + 2

-- `{{name}}`.
abbrev pub marker : Text → Text
marker name = b'{' ∷ b'{' ∷ (name ++ b'}' ∷ b'}' ∷ [])

module _ (variables : List (Text × Text)) (declared : List Text) (strict : Bool) where
  -- The meter if there is one: a meter, which `count` adds a placeholder to, or nothing at all.
  module _ {Meter : Type 0} (count : Meter → Result RenderError Meter) where
    -- What a marker with a well-formed name measures.
    abbrev pub measure_name : Text → ℕ → Option Text → Result RenderError ℕ
    measure_name name len (some value) = checked_length len (byte_length value)
    measure_name name len none =
        if strict
        then (if contains declared name
            then err (unresolved_placeholder name)
            else err (unknown_placeholder name))
        else checked_length len (marker_bytes name)

    -- A marker `{{name}}`.
    abbrev pub measure_marker : Text → ℕ → Meter → Result RenderError (ℕ × Meter)
    measure_marker name len meter = elim (is_malformed name) [
      | true ↦ elim strict [
        | true ↦ err malformed_marker
        | false ↦ checked_length len (marker_bytes name) >>= λ n. ok (n, meter)
      ]
      | false ↦
          count meter >>= λ m. measure_name name len (variable variables name) >>= λ n. ok (n, m)
    ]

    unfoldable pub measure : ℕ → Text → ℕ → Meter → Result RenderError (ℕ × Meter)
    measure zero rest len meter = out_of_fuel
    measure (suc fuel) [] len meter = ok (len, meter)
    measure (suc fuel) (c ∷ cs) len meter =
        fail_if (strict && is_stray (find_pair b'{' (c ∷ cs)) (find_pair b'}' (c ∷ cs)))
          malformed_marker
        >> elim (find_pair b'{' (c ∷ cs)) [
          | none ↦ checked_length len (byte_length (c ∷ cs)) >>= λ n. ok (n, meter)
          | some opened ↦ checked_length len (byte_length opened.0) >>= λ before.
              elim (find_pair b'}' opened.1) [
                | none ↦ elim strict [
                  | true ↦ err malformed_marker
                  | false ↦ checked_length before (2 + byte_length opened.1) >>= λ n. ok (n, meter)
                ]
                | some closed ↦ measure_marker closed.0 before meter >>= λ counted.
                    measure fuel closed.1 counted.0 counted.1
              ]
        ]

  abbrev pub render_name : Text → Option Text → Result RenderError Text
  render_name name (some value) = ok value
  render_name name none =
      if strict
      then (if contains declared name
          then err (unresolved_placeholder name)
          else err (unknown_placeholder name))
      else ok (marker name)

  unfoldable pub render_measured : ℕ → Text → Text → Result RenderError Text
  render_measured zero rest output = out_of_fuel
  render_measured (suc fuel) [] output = ok output
  render_measured (suc fuel) (c ∷ cs) output = elim (find_pair b'{' (c ∷ cs)) [
    | none ↦ ok (output ++ c ∷ cs)
    | some opened ↦ elim (find_pair b'}' opened.1) [
      | none ↦ ok ((output ++ opened.0) ++ b'{' ∷ b'{' ∷ opened.1)
      | some closed ↦ render_name closed.0 (variable variables closed.0) >>= λ text.
          render_measured fuel closed.1 ((output ++ opened.0) ++ text)
    ]
  ]

-- A round takes two characters or ends.
abbrev pub rounds : Text → ℕ
rounds raw = suc (length raw)

-- What `render_secure` and `render_legacy_bounded` share.
abbrev pub render_with :
    Text
    → List (Text × Text)
    → List Text
    → Bool
    → RenderMeter
    → Result RenderError (Text × RenderMeter)
render_with raw variables declared strict meter =
    measure variables declared strict placeholder (rounds raw) raw 0 meter >>= λ counted.
    reserve_render_work counted.1 counted.0 >>= λ reserved.
    render_measured variables declared strict (rounds raw) raw [] >>= λ output.
    ok (output, reserved)

unfoldable pub render_secure :
    Text → List (Text × Text) → List Text → RenderMeter → Result RenderError (Text × RenderMeter)
render_secure raw variables declared meter = render_with raw variables declared true meter

-- The names of the variables are the declared ones.
unfoldable pub render_legacy_bounded :
    Text → List (Text × Text) → RenderMeter → Result RenderError (Text × RenderMeter)
render_legacy_bounded raw variables meter =
    render_with raw variables (map (λ v. v.0) variables) false meter

unfoldable pub validate_markers_without_count :
    Text → List (Text × Text) → List Text → Result RenderError (Unit {0})
validate_markers_without_count raw variables declared =
    measure variables declared true (λ (nothing : Unit {0}). ok nothing) (rounds raw) raw 0 tt
    >>= λ counted. ok tt
