-- ===== src/Analyzer/Tickets.antt =====
-- Which expressions have the tickets that their calls need.
use online_dsl_forge.Base.{◌≡◌, Bool, true, some, none, inl, inr, ◌⊎◌, Option, length}
use online_dsl_forge.Verified.{
  VerifiedExprKind, verified, CapabilityTicket, VerifiedExpression, CapabilityKind,
  VerifiedExpressions, args_len, arg, no_args,
}
use online_dsl_forge.Runtime.Tickets.{ticket_of}
use online_dsl_forge.Analyzer.{CompileOptions}
use online_dsl_forge.Syntax.{unary_as_str, binary_as_str}

module _ (options : CompileOptions) (required : CapabilityTicket → Type 0) where
  -- The ticket is the required one, or there is none and none is needed.
  abbrev pub Grants : Bool → CapabilityTicket → Option CapabilityTicket → Type 0
  Grants optional own ticket =
      ((ticket ≡ some own) × required own) ⊎ ((ticket ≡ none) × (optional ≡ true))

  abbrev pub HasTicket : VerifiedExprKind → Option CapabilityTicket → Type 0
  HasTicket (VerifiedExprKind.function_call name args) t =
      Grants options.allow_unknown_functions
        (ticket_of CapabilityKind.function name (args_len args)) t
  HasTicket (VerifiedExprKind.method_call receiver name args) t =
      Grants options.allow_unknown_methods (ticket_of CapabilityKind.method name (args_len args)) t
  HasTicket (VerifiedExprKind.unary op e) t =
      (t ≡ some (ticket_of CapabilityKind.unary_op (unary_as_str op) 1))
      × required (ticket_of CapabilityKind.unary_op (unary_as_str op) 1)
  HasTicket (VerifiedExprKind.binary l op r) t =
      (t ≡ some (ticket_of CapabilityKind.binary_op (binary_as_str op) 2))
      × required (ticket_of CapabilityKind.binary_op (binary_as_str op) 2)
  HasTicket (VerifiedExprKind.expression_function_call name params args body) t =
      length params ≡ args_len args
  HasTicket _ t = Unit

  unfoldable mutual
    -- Every call has the required ticket for its capability, and every expression function has as
    -- many parameters as arguments.
    pub IsTicketed : VerifiedExpression → Type 0
    IsTicketed (verified k s t) = HasTicket k t × AreTicketed k

    pub AreTicketed : VerifiedExprKind → Type 0
    AreTicketed (VerifiedExprKind.array items) = AllTicketed items
    AreTicketed (VerifiedExprKind.member receiver name) = IsTicketed receiver
    AreTicketed (VerifiedExprKind.function_call name args) = AllTicketed args
    AreTicketed (VerifiedExprKind.expression_function_call name params args body) =
        AllTicketed args × IsTicketed body
    AreTicketed (VerifiedExprKind.method_call receiver name args) =
        IsTicketed receiver × AllTicketed args
    AreTicketed (VerifiedExprKind.unary op e) = IsTicketed e
    AreTicketed (VerifiedExprKind.binary l op r) = IsTicketed l × IsTicketed r
    AreTicketed _ = Unit

    pub AllTicketed : VerifiedExpressions → Type 0
    AllTicketed no_args = Unit
    AllTicketed (arg e es) = IsTicketed e × AllTicketed es

module _ (options : CompileOptions) {P Q : CapabilityTicket → Type 0}
    (f : (t : CapabilityTicket) → P t → Q t) where
  HasTicket-map :
      (k : VerifiedExprKind) (t : Option CapabilityTicket)
      → HasTicket options P k t
      → HasTicket options Q k t
  HasTicket-map (VerifiedExprKind.function_call name args) t (inl (e, h)) = inl (e, f _ h)
  HasTicket-map (VerifiedExprKind.function_call name args) t (inr h) = inr h
  HasTicket-map (VerifiedExprKind.method_call r name args) t (inl (e, h)) = inl (e, f _ h)
  HasTicket-map (VerifiedExprKind.method_call r name args) t (inr h) = inr h
  HasTicket-map (VerifiedExprKind.unary op e) t (p, h) = (p, f _ h)
  HasTicket-map (VerifiedExprKind.binary l op r) t (p, h) = (p, f _ h)
  HasTicket-map (VerifiedExprKind.expression_function_call n ps args body) t h = h
  HasTicket-map VerifiedExprKind.null t h = tt
  HasTicket-map (VerifiedExprKind.bool b) t h = tt
  HasTicket-map (VerifiedExprKind.int n) t h = tt
  HasTicket-map (VerifiedExprKind.float x) t h = tt
  HasTicket-map (VerifiedExprKind.string s) t h = tt
  HasTicket-map (VerifiedExprKind.identifier s) t h = tt
  HasTicket-map (VerifiedExprKind.array items) t h = tt
  HasTicket-map (VerifiedExprKind.member r n) t h = tt

  mutual
    unfolding IsTicketed

    pub IsTicketed-map : (e : VerifiedExpression) → IsTicketed options P e → IsTicketed options Q e
    IsTicketed-map (verified k s t) (h, rest) = (HasTicket-map k t h, AreTicketed-map k rest)

    AreTicketed-map : (k : VerifiedExprKind) → AreTicketed options P k → AreTicketed options Q k
    AreTicketed-map (VerifiedExprKind.array items) h = AllTicketed-map items h
    AreTicketed-map (VerifiedExprKind.member r n) h = IsTicketed-map r h
    AreTicketed-map (VerifiedExprKind.function_call n args) h = AllTicketed-map args h
    AreTicketed-map (VerifiedExprKind.expression_function_call n ps args body) h =
        (AllTicketed-map args h.0, IsTicketed-map body h.1)
    AreTicketed-map (VerifiedExprKind.method_call r n args) h =
        (IsTicketed-map r h.0, AllTicketed-map args h.1)
    AreTicketed-map (VerifiedExprKind.unary op e) h = IsTicketed-map e h
    AreTicketed-map (VerifiedExprKind.binary l op r) h =
        (IsTicketed-map l h.0, IsTicketed-map r h.1)
    AreTicketed-map VerifiedExprKind.null h = tt
    AreTicketed-map (VerifiedExprKind.bool b) h = tt
    AreTicketed-map (VerifiedExprKind.int n) h = tt
    AreTicketed-map (VerifiedExprKind.float x) h = tt
    AreTicketed-map (VerifiedExprKind.string s) h = tt
    AreTicketed-map (VerifiedExprKind.identifier s) h = tt

    pub AllTicketed-map :
        (es : VerifiedExpressions) → AllTicketed options P es → AllTicketed options Q es
    AllTicketed-map no_args h = tt
    AllTicketed-map (arg e es) h = (IsTicketed-map e h.0, AllTicketed-map es h.1)
