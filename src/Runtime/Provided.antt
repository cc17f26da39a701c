-- ===== src/Runtime/Provided.antt =====
-- The check of a program against the registry: which registries pass it, and what it reports.
use online_dsl_forge.Runtime.Capabilities.{
  capability_for_ticket, verify_capability, verify_capabilities, verify_runtime_capabilities,
  require_same, root_span, CapabilityMeta-discrete,
}
use online_dsl_forge.Base.{
  refl, ◌>>◌, ◌≡◌, Verdict, ◌≢◌, refuses, accepts, ◌↔◌, ◌⊎◌, Verdict-bind, Verdict-iff, Verdict-map,
  ap, inr, sym, ◌∙◌, inl, subst,
}
use online_dsl_forge.Schema.{CapabilityMeta}
use online_dsl_forge.Base.{Option, List, none, ◌∷◌, some, [], err, ok}
use online_dsl_forge.Runtime.Registry.{DynamicRegistry}
use online_dsl_forge.Verified.{CapabilityTicket}
use online_dsl_forge.Analyzer.Program.{VerifiedProgram}
use online_dsl_forge.Syntax.{SourceSpan}
use online_dsl_forge.Runtime.{
  EvalError, eval_error, missing_capability, capability_mismatch, EvalMessage,
}

-- The registry has what the analyzer saw, for every ticket.
abbrev pub AreProvided : DynamicRegistry → List (CapabilityTicket × CapabilityMeta) → Type 0
AreProvided registry [] = Unit {0}
AreProvided registry ((ticket, expected) ∷ rest) =
    (capability_for_ticket registry ticket ≡ some expected) × AreProvided registry rest

-- What the check says of a ticket that the registry does not provide.
abbrev pub gap_message : Option CapabilityMeta → CapabilityTicket → EvalMessage
gap_message none ticket = missing_capability ticket
gap_message (some actual) ticket = capability_mismatch ticket

verify_capability-err :
    (found : Option CapabilityMeta) (ticket : CapabilityTicket) (expected : CapabilityMeta)
    (span : SourceSpan)
    → found ≢ some expected
    → verify_capability found ticket expected span
      ≡ err (eval_error (gap_message found ticket) span)
unfolding verify_capability
verify_capability-err none ticket expected span other = refl
verify_capability-err (some actual) ticket expected span other =
    differ (CapabilityMeta-discrete expected actual)
  where
    differ :
        (d : Dec (expected ≡ actual))
        → require_same d ticket span ≡ err (eval_error (capability_mismatch ticket) span)
    differ (yes same) = absurd (other (ap some (sym same)))
    differ (no different) = refl

verify_capability-ok :
    (found : Option CapabilityMeta) (ticket : CapabilityTicket) (expected : CapabilityMeta)
    (span : SourceSpan)
    → found ≡ some expected
    → verify_capability found ticket expected span ≡ ok tt
unfolding verify_capability
verify_capability-ok none ticket expected span same = cc
verify_capability-ok (some actual) ticket expected span same =
    agree (CapabilityMeta-discrete expected actual)
  where
    agree : (d : Dec (expected ≡ actual)) → require_same d ticket span ≡ ok tt
    agree (yes equal) = refl
    agree (no different) = absurd (different (cc))

found-discrete : Discrete (Option CapabilityMeta)
found-discrete = hlevel (CapabilityMeta-discrete)

-- A round ends: well if the registry has the capability, else with an error.
verify_capability-Ends :
    (found : Option CapabilityMeta) (ticket : CapabilityTicket) (expected : CapabilityMeta)
    (span : SourceSpan)
    → Verdict
        (λ u. found ≡ some expected)
        (found ≢ some expected)
        (verify_capability found ticket expected span)
verify_capability-Ends found ticket expected span = elim (found-discrete found (some expected)) [
  | yes same ↦
      subst (Verdict (λ u. found ≡ some expected) (found ≢ some expected))
        (sym (verify_capability-ok found ticket expected span same)) (accepts same)
  | no other ↦
      subst (Verdict (λ u. found ≡ some expected) (found ≢ some expected))
        (sym (verify_capability-err found ticket expected span other)) (refuses other)
]

verify_capabilities-Ends :
    (required : List (CapabilityTicket × CapabilityMeta)) (registry : DynamicRegistry)
    (span : SourceSpan)
    → Verdict
        (λ u. AreProvided registry required)
        (¬ AreProvided registry required)
        (verify_capabilities required registry span)
unfolding verify_capabilities
verify_capabilities-Ends [] registry span = accepts tt
verify_capabilities-Ends ((ticket, expected) ∷ rest) registry span =
    Verdict-bind
      (verify_capability-Ends (capability_for_ticket registry ticket) ticket expected span)
      (λ lacking (found, others). lacking found)
      λ _ found.
        Verdict-map (λ u others. (found, others)) (λ lacking (same, others). lacking others)
          (verify_capabilities-Ends rest registry span)

-- A program is admitted to a registry exactly if, for every ticket that its analysis required, the
-- registry has a capability and it equals the one that was analyzed in every field.
pub verify_runtime_capabilities-eq-ok_iff :
    (program : VerifiedProgram) (registry : DynamicRegistry)
    → (verify_runtime_capabilities program registry ≡ ok tt)
      ↔ AreProvided registry program.required_capability_metadata
verify_runtime_capabilities-eq-ok_iff program registry = Verdict-iff (
    verify_capabilities-Ends program.required_capability_metadata registry (root_span program.root))

-- `e` is about the first ticket that is not provided.
abbrev pub IsFirstGap :
    DynamicRegistry → SourceSpan → EvalError → List (CapabilityTicket × CapabilityMeta) → Type 0
IsFirstGap registry span e [] = ⊥
IsFirstGap registry span e ((ticket, expected) ∷ rest) =
    ((capability_for_ticket registry ticket ≢ some expected)
      × (e ≡ eval_error (gap_message (capability_for_ticket registry ticket) ticket) span))
    ⊎ ((capability_for_ticket registry ticket ≡ some expected) × IsFirstGap registry span e rest)

-- A round decides, or leaves the verdict to the rest.
verify_capabilities-err_iff :
    (required : List (CapabilityTicket × CapabilityMeta)) (registry : DynamicRegistry)
    (span : SourceSpan) (e : EvalError)
    → (verify_capabilities required registry span ≡ err e) ↔ IsFirstGap registry span e required
unfolding verify_capabilities
verify_capabilities-err_iff [] registry span e = (λ q. cc, λ b. absurd b)
verify_capabilities-err_iff ((ticket, expected) ∷ rest) registry span e =
    let found = capability_for_ticket registry ticket in
    let later = verify_capabilities rest registry span in
    elim (found-discrete found (some expected)) [
      | yes same ↦
          let passes =
            ap (λ m. m >> later) (verify_capability-ok found ticket expected span same) in
          let (to, from) = verify_capabilities-err_iff rest registry span e in
          (
            λ q. inr (same, to (sym passes ∙ q)),
            λ s. elim s [ inl (other, _) ↦ absurd (other same) | inr (_, gap) ↦ passes ∙ from gap ],
          )
      | no other ↦
          let stops =
            ap (λ m. m >> later) (verify_capability-err found ticket expected span other) in
          (
            λ q. inl (other, cc),
            λ s. elim s [ inl (_, same) ↦ cc | inr (same, _) ↦ absurd (other same) ],
          )
    ]

-- The check refuses a program with the error `e` exactly if some required ticket is not provided
-- and `e` is about the first of them, at the span of the program: that the registry is missing it,
-- or that its metadata does not match.
pub verify_runtime_capabilities-eq-err_iff :
    (program : VerifiedProgram) (registry : DynamicRegistry) (e : EvalError)
    → (verify_runtime_capabilities program registry ≡ err e)
      ↔ IsFirstGap registry (root_span program.root) e program.required_capability_metadata
verify_runtime_capabilities-eq-err_iff program registry e =
    verify_capabilities-err_iff program.required_capability_metadata registry
      (root_span program.root) e
