-- ===== src/Runtime/Tickets.antt =====
-- Which capability an expression calls on, and that it needs the ticket for it.
use online_dsl_forge.Base.{
  ◌>>=◌ as ◌>>=ᴿ◌, ℕ, Bool, true, false, ◌&&◌, ◌==◌, ◌≡◌, refl, ap, ◌∙◌, Text, Option, none, some,
  Result, ok, err, out_of_fuel, text_eq, text_eq_iff, ==_iff, Bool-cases, inl, inr,
}
use online_dsl_forge.Syntax.{SourceSpan, unary_as_str, binary_as_str}
use online_dsl_forge.Value.{Value}
use online_dsl_forge.Verified.{
  VerifiedExprKind, verified, args_len, CapabilityKind, CapabilityTicket,
}
use online_dsl_forge.Runtime.{
  EvalError, EvalMessage, EvalLimits, RuntimeResourceLimits, unresolved_function, unresolved_method,
  unresolved_unary, unresolved_binary,
}
use online_dsl_forge.Runtime.Operators.{FloatOps}
use online_dsl_forge.Runtime.Registry.{RuntimeContext}
use online_dsl_forge.Runtime.Evaluator.{
  EvalState, Eval, ◌>>=◌, eval, eval_kind, enter, lift, kind_eq, require_dispatch_ticket,
}

abbrev pub ticket_of : CapabilityKind → Text → ℕ → CapabilityTicket
ticket_of kind name arity = record { kind = kind; name = name; arity = arity }

-- The capability that the outermost node of an expression calls on.
unfoldable pub capability_of : VerifiedExprKind → Option CapabilityTicket
capability_of (VerifiedExprKind.function_call name args) =
    some (ticket_of CapabilityKind.function name (args_len args))
capability_of (VerifiedExprKind.method_call receiver name args) =
    some (ticket_of CapabilityKind.method name (args_len args))
capability_of (VerifiedExprKind.unary op e) =
    some (ticket_of CapabilityKind.unary_op (unary_as_str op) 1)
capability_of (VerifiedExprKind.binary l op r) =
    some (ticket_of CapabilityKind.binary_op (binary_as_str op) 2)
capability_of _ = none

pub kind_eq_lem : (a b : CapabilityKind) → kind_eq a b ≡ true → a ≡ b
kind_eq_lem CapabilityKind.function CapabilityKind.function h = refl
kind_eq_lem CapabilityKind.method CapabilityKind.method h = refl
kind_eq_lem CapabilityKind.unary_op CapabilityKind.unary_op h = refl
kind_eq_lem CapabilityKind.binary_op CapabilityKind.binary_op h = refl
kind_eq_lem _ _ h = cc

pub and_both : (a b : Bool) → (a && b) ≡ true → (a ≡ true) × (b ≡ true)
and_both true b h = (refl, h)
and_both false b h = cc

pub same_ticket :
    (t u : CapabilityTicket) → t.kind ≡ u.kind → t.name ≡ u.name → t.arity ≡ u.arity → t ≡ u
same_ticket t u k n a = cc

err_not_ok {ℓ} : {A : Type ℓ} {e : EvalError} {a : A} → ¬ (Path (Result EvalError A) (err e) (ok a))
err_not_ok h = cc

require-eq-ok :
    (ticket : Option CapabilityTicket) (kind : CapabilityKind) (name : Text) (arity : ℕ)
    (m : EvalMessage) (span : SourceSpan)
    → require_dispatch_ticket ticket kind name arity m span ≡ ok tt
    → ticket ≡ some (ticket_of kind name arity)
unfolding require_dispatch_ticket
require-eq-ok none kind name arity m span h = cc
require-eq-ok (some t) kind name arity m span h =
    elim (Bool-cases (kind_eq t.kind kind && text_eq t.name name && t.arity == arity)) [
      | inl e ↦
          let (front, same_arity) =
            and_both (kind_eq t.kind kind && text_eq t.name name) (t.arity == arity) e in
          let (same_kind, same_name) = and_both (kind_eq t.kind kind) (text_eq t.name name) front in
          let kinds = kind_eq_lem t.kind kind same_kind in
          let names = (text_eq_iff t.name name).0 same_name in
          let arities = (==_iff t.arity arity).0 same_arity in
          ap some (same_ticket t (ticket_of kind name arity) kinds names arities)
      | inr e ↦ absurd (err_not_ok (rw e at h))
    ]

-- A computation that starts with a ticket check.
checked-ticket {ℓ} :
    {A : Type ℓ} (ticket : Option CapabilityTicket) (kind : CapabilityKind) (name : Text)
    (arity : ℕ) (m : EvalMessage) (span : SourceSpan) (k : Unit {0} → Eval A) (σ : EvalState)
    (r : A × EvalState)
    → (lift (require_dispatch_ticket ticket kind name arity m span) >>= k) σ ≡ ok r
    → ticket ≡ some (ticket_of kind name arity)
checked-ticket ticket kind name arity m span k σ r h =
    go (require_dispatch_ticket ticket kind name arity m span) h
      (require-eq-ok ticket kind name arity m span)
  where
    go :
        (q : Result EvalError (Unit {0}))
        → (lift q >>= k) σ ≡ ok r
        → (q ≡ ok tt → ticket ≡ some (ticket_of kind name arity))
        → ticket ≡ some (ticket_of kind name arity)
    go (ok tt) h f = f refl
    go (err e) h f = cc
    go out_of_fuel h f = cc

module _ (f64 : FloatOps) (context : RuntimeContext) (limits : EvalLimits)
    (resources : RuntimeResourceLimits) where
  kind-ticket :
      (kind : VerifiedExprKind) (span : SourceSpan) (ticket : Option CapabilityTicket) (depth : ℕ)
      (σ : EvalState) (r : Value × EvalState) (needed : CapabilityTicket)
      → eval_kind f64 context limits resources kind span ticket depth σ ≡ ok r
      → capability_of kind ≡ some needed
      → ticket ≡ some needed
  unfolding eval capability_of
  kind-ticket (VerifiedExprKind.function_call name args) span ticket depth σ r needed h n =
      checked-ticket ticket _ _ _ unresolved_function span _ σ r h ∙ n
  kind-ticket (VerifiedExprKind.method_call receiver name args) span ticket depth σ r needed h n =
      checked-ticket ticket _ _ _ unresolved_method span _ σ r h ∙ n
  kind-ticket (VerifiedExprKind.unary op e) span ticket depth σ r needed h n =
      checked-ticket ticket _ _ _ unresolved_unary span _ σ r h ∙ n
  kind-ticket (VerifiedExprKind.binary a op b) span ticket depth σ r needed h n =
      checked-ticket ticket _ _ _ unresolved_binary span _ σ r h ∙ n
  kind-ticket _ span ticket depth σ r needed h n = cc

-- An expression that calls on a function, a method or an operator returns a value only if it
-- carries the ticket for exactly that capability: its kind, its name and its number of arguments.
pub eval-ticket :
    (f64 : FloatOps) (context : RuntimeContext) (limits : EvalLimits)
    (resources : RuntimeResourceLimits) (kind : VerifiedExprKind) (span : SourceSpan)
    (ticket : Option CapabilityTicket) (depth : ℕ) (σ : EvalState) (r : Value × EvalState)
    (needed : CapabilityTicket)
    → eval f64 context limits resources (verified kind span ticket) depth σ ≡ ok r
    → capability_of kind ≡ some needed
    → ticket ≡ some needed
unfolding eval
eval-ticket f64 context limits resources kind span ticket depth σ r needed h n =
    go (enter f64 context limits resources span depth σ) h
  where
    go :
        (entered : Result EvalError (Unit {0} × EvalState))
        → (entered >>=ᴿ λ (_, σ'). eval_kind f64 context limits resources kind span ticket depth σ')
          ≡ ok r
        → ticket ≡ some needed
    go (ok (_, σ')) h =
        kind-ticket f64 context limits resources kind span ticket depth σ' r needed h n
    go (err e) h = cc
    go out_of_fuel h = cc
