-- ===== src/Schema/Answered.antt =====
-- Adding an expression function returns a schema: with the function, or with a diagnostic of it.
use online_dsl_forge.Base.{
  refl, ◌>>◌, some, Text, Result, List, Ends, text_eq, ◌≡◌, accepts, ℕ, Ends-bind, ok, text_eq_iff,
  ◌∷◌, ◌++◌, ◌⊎◌, inl, Bool-cases, length, byte_length, [], err, ap, inr, Ends-ok_or, Ends-fail_if,
  refuses, ◌∙◌, not,
}
use online_dsl_forge.Schema.Bounds.{parts-Ends, checked_charge-Ends, functions-Ends}
use online_dsl_forge.Map.{insert, lookup, text_lt}
use online_dsl_forge.Schema.Builders.{
  charge_existing, charge_parameters, collect_expression_function_params, admit_expression_function,
  insert_function, store_function, other_functions, add_scoped_expression_function, functions_in,
  or_rejected, push_expression_function_diagnostic,
}
use online_dsl_forge.Schema.{
  RuntimeSchema, ExpressionFunctionLimits, ExpressionFunction, all_functions,
  ExpressionFunctionScope,
}
use online_dsl_forge.Syntax.{SourceSpan, span_of, Diagnostic, DiagnosticReport}
use online_dsl_forge.Schema.Functions.{
  ExpressionFunctionUsage, no_usage, add_lengths, valid_function_identifier,
}
use online_dsl_forge.Map.Keys.{lookup-here, lookup-next}
use online_dsl_forge.Syntax.Messages.{message_text}

lookup-insert :
    {A : Type 0} (name : Text) (a : A) (m : List (Text × A))
    → lookup text_eq name (insert text_eq text_lt name a m) ≡ some a
unfolding insert
lookup-insert name a [] = lookup-here text_eq name name a [] ((text_eq_iff name name).1 refl)
lookup-insert name a ((key, b) ∷ rest) = elim (Bool-cases (text_eq key name)) [
  | inl same ↦
      rw (insert, same) (lookup-here text_eq name name a rest ((text_eq_iff name name).1 refl))
  | inr other ↦ elim (Bool-cases (text_lt name key)) [
    | inl before ↦
        rw (insert, other, before)
          (lookup-here text_eq name name a ((key, b) ∷ rest) ((text_eq_iff name name).1 refl))
    | inr after ↦
        rw (insert, other, after)
          (lookup-next text_eq name key b (insert text_eq text_lt name a rest) other
            ∙ lookup-insert name a rest)
  ]
]

existing-Ends :
    (limits : ExpressionFunctionLimits) (span : SourceSpan) (fs : List ExpressionFunction)
    (usage : ExpressionFunctionUsage)
    → Ends (λ _. Unit {0}) (charge_existing limits span fs usage)
unfolding charge_existing
existing-Ends limits span [] usage = accepts tt
existing-Ends limits span (f ∷ fs) usage =
    Ends-bind (checked_charge-Ends usage.functions 1 _ _ span) λ functions _.
      Ends-bind (checked_charge-Ends usage.parameters (length f.params) _ _ span) λ parameters _.
        Ends-ok_or (add_lengths (byte_length f.name) f.params) _ λ bytes _.
          Ends-bind (checked_charge-Ends usage.name_bytes bytes _ _ span)
            λ name_bytes _. existing-Ends limits span fs _

parameters-Ends :
    (limits : ExpressionFunctionLimits) (span : SourceSpan) (ps : List Text)
    (parameters name_bytes : ℕ)
    → Ends (λ _. Unit {0}) (charge_parameters limits span ps parameters name_bytes)
unfolding charge_parameters
parameters-Ends limits span [] parameters name_bytes = accepts tt
parameters-Ends limits span (p ∷ ps) parameters name_bytes =
    Ends-bind (checked_charge-Ends parameters 1 _ _ span) λ n _.
      Ends-bind (checked_charge-Ends name_bytes (byte_length p) _ _ span)
        λ b _. parameters-Ends limits span ps n b

collect-Ends :
    (s : RuntimeSchema) (f : ExpressionFunction)
    → Ends
        (λ _. Unit {0})
        (collect_expression_function_params s f.scope f.name f.params (span_of f.expression))
unfolding collect_expression_function_params
collect-Ends s f =
    let span = span_of f.expression in
    Ends-bind (existing-Ends _ span (other_functions f.scope f.name (all_functions s)) no_usage)
      λ usage _. Ends-bind (checked_charge-Ends usage.functions 1 _ _ span) λ functions _.
        Ends-bind (checked_charge-Ends usage.name_bytes (byte_length f.name) _ _ span)
          λ name_bytes _. Ends-fail_if (not (valid_function_identifier f.name)) _ λ _.
            Ends-bind (parameters-Ends _ span f.params usage.parameters name_bytes)
              λ u _. parts-Ends f.name f.params span

admit-Ends :
    (s : RuntimeSchema) (f : ExpressionFunction)
    → Ends (λ _. Unit {0}) (admit_expression_function s f)
unfolding admit_expression_function
admit-Ends s f =
    functions-Ends _ (other_functions f.scope f.name (all_functions s) ++ f ∷ []) no_usage

-- What the check of the signature, and then that of the whole, say of a function.
abbrev pub checks : RuntimeSchema → ExpressionFunction → Result Diagnostic ExpressionFunctionUsage
checks s f =
    collect_expression_function_params s f.scope f.name f.params (span_of f.expression)
    >> admit_expression_function s f

-- A function that passes the checks is found in the new schema under its scope and name. Of one that
-- does not, the diagnostic is pushed, and all else is as before.
abbrev pub IsAnswered : RuntimeSchema → ExpressionFunction → RuntimeSchema → Type 0
IsAnswered s f s' =
    ((usage : ExpressionFunctionUsage) × (checks s f ≡ ok usage)
      × (s' ≡ store_function f s)
      × (lookup text_eq f.name (functions_in f.scope s') ≡ some f))
    ⊎ ((d : Diagnostic) × (checks s f ≡ err d)
        × (s' ≡ push_expression_function_diagnostic (message_text d.message) d.span s))

insert_function-found :
    (f : ExpressionFunction) (s : RuntimeSchema)
    → lookup text_eq f.name (functions_in f.scope (insert_function f s)) ≡ some f
unfolding insert_function
insert_function-found f s =
    elim f.scope
      as (λ scope.
        lookup text_eq f.name (
          functions_in scope (elim scope [
            | ExpressionFunctionScope.global ↦ record s {
              expression_functions = insert text_eq text_lt f.name f s.expression_functions;
            }
            | ExpressionFunctionScope.local ↦ record s {
              local_expression_functions =
                  insert text_eq text_lt f.name f s.local_expression_functions;
            }
          ]))
        ≡ some f) [
          | ExpressionFunctionScope.global ↦ lookup-insert f.name f s.expression_functions
          | ExpressionFunctionScope.local ↦ lookup-insert f.name f s.local_expression_functions
        ]

store_function-found :
    (f : ExpressionFunction) (s : RuntimeSchema)
    → lookup text_eq f.name (functions_in f.scope (store_function f s)) ≡ some f
unfolding store_function
store_function-found f s = insert_function-found f _

-- A run that ends has a value or an error.
Ends-cases :
    {E A : Type 0} {P : A → Type 0} {r : Result E A}
    → Ends P r
    → ((a : A) × (r ≡ ok a)) ⊎ ((e : E) × (r ≡ err e))
Ends-cases (accepts {a} h) = inl (a, refl)
Ends-cases (refuses {e} h) = inr (e, refl)

module _ (s : RuntimeSchema) (f : ExpressionFunction) where
  abbrev Collected : Type 0
  Collected = Result Diagnostic (Unit {0})

  abbrev stored : Result Diagnostic ExpressionFunctionUsage → Result DiagnosticReport RuntimeSchema
  stored r = or_rejected r (λ usage. ok (store_function f s)) s

  abbrev answered : Collected → Result DiagnosticReport RuntimeSchema
  answered r = or_rejected r (λ u. stored (admit_expression_function s f)) s

  abbrev then_admitted : Collected → Result Diagnostic ExpressionFunctionUsage
  then_admitted r = r >> admit_expression_function s f

  pub add_scoped-IsAnswered :
      (s' : RuntimeSchema) × (add_scoped_expression_function f.scope f.name f.params f.expression s
        ≡ ok s')
      × IsAnswered s f s'
  unfolding add_scoped_expression_function or_rejected
  add_scoped-IsAnswered = elim (Ends-cases (collect-Ends s f)) [
    | inl (u, c) ↦ elim (Ends-cases (admit-Ends s f)) [
      | inl (usage, a) ↦ (
        store_function f s,
        ap answered c ∙ ap stored a,
        inl (usage, ap then_admitted c ∙ a, refl, store_function-found f s),
      )
      | inr (d, a) ↦ (
        push_expression_function_diagnostic (message_text d.message) d.span s,
        ap answered c ∙ ap stored a,
        inr (d, ap then_admitted c ∙ a, refl),
      )
    ]
    | inr (d, c) ↦ (
      push_expression_function_diagnostic (message_text d.message) d.span s,
      ap answered c,
      inr (d, ap then_admitted c, refl),
    )
  ]
