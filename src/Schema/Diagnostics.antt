-- ===== src/Schema/Diagnostics.antt =====
-- The diagnostics that a schema keeps of its expression functions are bounded.
use online_dsl_forge.Base.{
  ◌≡◌, refl, sym, subst, ◌≤◌, ◌+◌, ◌-◌, arith, [], ◌∷◌, ◌++◌, true, false, Bool, none, some, ℕ,
  Text, Option, List, inl, inr, ◌⊎◌, Bool-cases, Option-cases, length, leb, byte_length,
  byte_length-append, len_utf8, leb→le, max, codes, leb→gt,
}
use online_dsl_forge.Schema.{RuntimeSchema, ExpressionFunctionDiagnostic, ExpressionFunctionLimits}
use online_dsl_forge.Schema.Functions.{
  prefix, bounded_text, bounded_diagnostic_message, diagnostic_limit, diagnostic_byte_limit,
}
use online_dsl_forge.Schema.Builders.{push_expression_function_diagnostic, kept_bytes, fits_with}
use online_dsl_forge.Syntax.{SourceSpan}
use online_dsl_forge.Base.Usize.{checked_add, checked_add-eq-some}

byte_length-prefix : (n : ℕ) (t : Text) → byte_length (prefix n t) ≤ n
unfolding prefix byte_length
byte_length-prefix n [] = omega arith
byte_length-prefix n (c ∷ cs) = elim (Bool-cases (leb (len_utf8 c) n)) [
  | inl fits ↦
      rw (fits, prefix)
        (let h = leb→le _ _ fits in omega (arith, h, byte_length-prefix (n - len_utf8 c) cs))
  | inr over ↦ rw (over, prefix) (omega arith)
]

byte_length-bounded_text : (t : Text) (n : ℕ) → 3 ≤ n → byte_length (bounded_text t n) ≤ n
unfolding bounded_text byte_length
byte_length-bounded_text t n room = elim (Bool-cases (leb (byte_length t) n)) [
  | inl fits ↦ rw (fits, bounded_text) (leb→le _ _ fits)
  | inr over ↦
      rw (over, bounded_text)
        (omega (
          arith,
          room,
          byte_length-append (prefix (n - 3) t) (codes "..."),
          byte_length-prefix (n - 3) t,
        ))
]

-- The bytes of the messages.
unfoldable pub total_bytes : List ExpressionFunctionDiagnostic → ℕ
total_bytes [] = 0
total_bytes (d ∷ ds) = byte_length d.message + total_bytes ds

unfoldable pub longest : List ExpressionFunctionDiagnostic → ℕ
longest [] = 0
longest (d ∷ ds) = max (byte_length d.message) (longest ds)

-- Few, of few bytes, and none long.
pub record AreBounded (limits : ExpressionFunctionLimits) (ds : List ExpressionFunctionDiagnostic)
    : Type 0 where
  pub few : length ds ≤ diagnostic_limit limits
  pub small : total_bytes ds ≤ diagnostic_byte_limit limits
  pub short : longest ds ≤ 1024

snoc_lem :
    (ds : List ExpressionFunctionDiagnostic) (d : ExpressionFunctionDiagnostic)
    → (length (ds ++ d ∷ []) ≡ length ds + 1)
      × (total_bytes (ds ++ d ∷ []) ≡ total_bytes ds + byte_length d.message)
      × (longest (ds ++ d ∷ []) ≡ max (longest ds) (byte_length d.message))
unfolding total_bytes longest
snoc_lem [] d = (omega arith, omega arith, omega arith)
snoc_lem (x ∷ ds) d =
    let (n, b, l) = snoc_lem ds d in (omega (arith, n), omega (arith, b), omega (arith, l))

kept_bytes_lem :
    (total : ℕ) (ds : List ExpressionFunctionDiagnostic) {sum : ℕ}
    → kept_bytes total ds ≡ some sum
    → sum ≡ total + total_bytes ds
unfolding kept_bytes total_bytes
kept_bytes_lem total [] h = let e = some_same h in omega (arith, e)
  where
    some_same : {a b : ℕ} → some a ≡ some b → a ≡ b
    some_same p = cc
kept_bytes_lem total (d ∷ ds) h = elim (Option-cases (checked_add total (byte_length d.message))) [
  | inl e ↦ absurd (none_some (rw (kept_bytes, e) at h))
  | inr (next, e) ↦
      let n = checked_add-eq-some _ _ e in
      let m = kept_bytes_lem next ds (rw (kept_bytes, e) at h) in omega (arith, n, m)
]
  where
    none_some : {a : ℕ} → ¬ (Path (Option ℕ) none (some a))
    none_some p = cc

fits_with_lem :
    (total : Option ℕ) (more limit : ℕ)
    → fits_with total more limit ≡ true
    → (sum : ℕ) × (total ≡ some sum) × (sum + more ≤ limit)
fits_with_lem none more limit h = cc
fits_with_lem (some sum) more limit h = (sum, refl, ground arith)

-- A push keeps what is there and changes nothing but the flag, or adds one message.
abbrev pub PushedOr : Text → SourceSpan → RuntimeSchema → RuntimeSchema → Type 0
PushedOr message span schema schema' =
    (schema' ≡ record schema { expression_function_diagnostics_truncated = true })
    ⊎ (schema' ≡ record schema {
      expression_function_diagnostics =
          schema.expression_function_diagnostics
          ++ record { message = bounded_diagnostic_message message; span = span } ∷ [];
    })

module _ (message : Text) (span : SourceSpan) (schema : RuntimeSchema) where
  abbrev limits : ExpressionFunctionLimits
  limits = schema.expression_function_limits

  abbrev kept : List ExpressionFunctionDiagnostic
  kept = schema.expression_function_diagnostics

  abbrev bounded : Text
  bounded = bounded_diagnostic_message message

  abbrev after : RuntimeSchema
  after = push_expression_function_diagnostic message span schema

  abbrev is_full : Bool
  is_full = leb (diagnostic_limit limits) (length kept)

  abbrev has_room : Bool
  has_room = fits_with (kept_bytes 0 kept) (byte_length bounded) (diagnostic_byte_limit limits)

  at_full :
      is_full ≡ true → after ≡ record schema { expression_function_diagnostics_truncated = true }
  unfolding push_expression_function_diagnostic
  at_full h = rw (h, push_expression_function_diagnostic) refl

  at_over :
      is_full ≡ false
      → has_room ≡ false
      → after ≡ record schema { expression_function_diagnostics_truncated = true }
  unfolding push_expression_function_diagnostic
  at_over h h' = rw (h, push_expression_function_diagnostic, h') refl

  at_fits :
      is_full ≡ false
      → has_room ≡ true
      → after ≡ record schema {
        expression_function_diagnostics = kept ++ record { message = bounded; span = span } ∷ [];
      }
  unfolding push_expression_function_diagnostic
  at_fits h h' = rw (h, push_expression_function_diagnostic, h') refl

  pushed :
      AreBounded limits kept
      → is_full ≡ false
      → has_room ≡ true
      → AreBounded limits (kept ++ record { message = bounded; span = span } ∷ [])
  unfolding bounded_diagnostic_message
  pushed b h h' =
      let (n, t, l) = snoc_lem kept (record { message = bounded; span = span }) in
      let (sum, e, fits) =
        fits_with_lem (kept_bytes 0 kept) (byte_length bounded) (diagnostic_byte_limit limits) h' in
      let k = kept_bytes_lem 0 kept e in
      let below = leb→gt _ _ h in
      record {
        few = omega (arith, n, below);
        small = omega (arith, t, k, fits);
        short = omega (arith, l, b.short, byte_length-bounded_text message 1024 (omega arith));
      }

  abbrev Holds : RuntimeSchema → Type 0
  Holds schema' =
      AreBounded limits schema'.expression_function_diagnostics
      × PushedOr message span schema schema'

  push-Holds : AreBounded limits kept → Holds after
  push-Holds b = elim (Bool-cases is_full) [
    | inl full ↦ subst Holds (sym (at_full full)) (b, inl refl)
    | inr short_of ↦ elim (Bool-cases has_room) [
      | inr over ↦ subst Holds (sym (at_over short_of over)) (b, inl refl)
      | inl fits ↦ subst Holds (sym (at_fits short_of fits)) (pushed b short_of fits, inr refl)
    ]
  ]

-- Keeping a diagnostic of an expression function keeps the list of them bounded: at most as many as
-- the limit (and 1024), of at most as many bytes together as the limit (and 1 MiB), each of at most
-- 1024 bytes. The schema is otherwise as before, with the bounded message at the end of the list or
-- with a flag for the message that was dropped.
pub push_expression_function_diagnostic-AreBounded :
    (message : Text) (span : SourceSpan) (schema : RuntimeSchema)
    → AreBounded schema.expression_function_limits schema.expression_function_diagnostics
    → AreBounded schema.expression_function_limits
        (push_expression_function_diagnostic message span schema).expression_function_diagnostics
      × PushedOr message span schema (push_expression_function_diagnostic message span schema)
push_expression_function_diagnostic-AreBounded message span schema b =
    push-Holds message span schema b
