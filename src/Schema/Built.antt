-- ===== src/Schema/Built.antt =====
-- A schema that its builders filled passes the integrity check.
use online_dsl_forge.Base.{
  ◌≡◌, refl, sym, subst, [], ◌∷◌, true, false, Bool, none, some, ok, err, out_of_fuel, Result, ℕ,
  Text, Option, List, text_eq, text_eq_iff, length, ==_iff, codes, leb, suc, arith, zero,
  byte_length,
}
use online_dsl_forge.Map.{insert, lookup, contains_key, text_lt}
use online_dsl_forge.Schema.{
  RuntimeSchema, VariableMeta, CapabilityMeta, ExpressionFunction, ExpressionFunctionScope,
  ExpressionFunctionLimits, dyn_args, ExpressionFunctionDiagnostic,
}
use online_dsl_forge.Schema.Integrity.{
  validate_integrity, identity_matches, binary_names, regex_args_fit, validate_expression_functions,
  validate_variables, validate_capability_map, validate_operator_map,
}
use online_dsl_forge.Schema.Intact.{
  IsIntact, IsNamed, IsIntact-validate_integrity, signature-ok, variable-ok, operator-ok,
  function-ok,
}
use online_dsl_forge.Schema.Builders.{
  new_schema, add_variable_meta, add_function_capability, add_method_capability,
  add_unary_operator_capability, add_binary_operator_capability, add_body_path,
  add_scoped_expression_function, store_function, insert_function,
  push_expression_function_diagnostic, function_capability, or_rejected, add_function,
  collect_expression_function_params, fits_with, functions_in, admit_expression_function,
  kept_bytes,
}
use online_dsl_forge.Schema.Answered.{IsAnswered, add_scoped-IsAnswered}
use online_dsl_forge.Syntax.{AstExpression, SourceSpan, Diagnostic, DiagnosticReport, span_of}
use online_dsl_forge.Verified.{CapabilityKind}
use online_dsl_forge.Profile.{BodyTarget, BodyAccess}
use online_dsl_forge.Schema.Functions.{
  diagnostic_limit, bounded_diagnostic_message, diagnostic_byte_limit,
}

-- What the calls of the builders make. A capability of a function or method has as many arguments
-- as its arity and regexes among them, and that of an operator the name of one.
pub data Built : RuntimeSchema → Type 0 where
  empty : Built new_schema
  variable : {s : RuntimeSchema} → Built s → (v : VariableMeta) → Built (add_variable_meta v s)
  function :
      {s : RuntimeSchema}
      → Built s
      → (c : CapabilityMeta) → IsNamed CapabilityKind.function c
      → Built (add_function_capability c s)
  method :
      {s : RuntimeSchema}
      → Built s
      → (c : CapabilityMeta) → IsNamed CapabilityKind.method c
      → Built (add_method_capability c s)
  unary :
      {s : RuntimeSchema}
      → Built s
      → (c : CapabilityMeta) → contains_key text_eq c.name (codes "!" ∷ codes "-" ∷ []) ≡ true
      → identity_matches c CapabilityKind.unary_op c.name 1 ≡ true
      → Built (add_unary_operator_capability c s)
  binary :
      {s : RuntimeSchema}
      → Built s
      → (c : CapabilityMeta) → contains_key text_eq c.name binary_names ≡ true
      → identity_matches c CapabilityKind.binary_op c.name 2 ≡ true
      → Built (add_binary_operator_capability c s)
  body_path :
      {s : RuntimeSchema}
      → Built s
      → (path : List Text) (target : BodyTarget) (access : BodyAccess)
      → Built (add_body_path path target access s)
  expression_function :
      {s s' : RuntimeSchema}
      → Built s
      → (scope : ExpressionFunctionScope) (name : Text) (params : List Text) (e : AstExpression)
      → add_scoped_expression_function scope name params e s ≡ ok s'
      → Built s'
  limits :
      {s : RuntimeSchema}
      → Built s
      → (l : ExpressionFunctionLimits) → Built (record s { expression_function_limits = l })

-- The diagnostics are none of the check's concern.
noted-IsIntact :
    {s : RuntimeSchema} (ds : List ExpressionFunctionDiagnostic) (truncated : Bool)
    → IsIntact s
    → IsIntact (record s {
      expression_function_diagnostics = ds;
      expression_function_diagnostics_truncated = truncated;
    })
noted-IsIntact ds truncated i = record {
  variables_ok = i.variables_ok;
  functions_ok = i.functions_ok;
  methods_ok = i.methods_ok;
  unary_ok = i.unary_ok;
  binary_ok = i.binary_ok;
  globals_ok = i.globals_ok;
  locals_ok = i.locals_ok;
}

branch-IsIntact :
    (b : Bool) {s t : RuntimeSchema}
    → IsIntact s
    → IsIntact t
    → IsIntact (elim b [ true ↦ s | false ↦ t ])
branch-IsIntact true i j = i
branch-IsIntact false i j = j

push-IsIntact :
    {s : RuntimeSchema} (message : Text) (span : SourceSpan)
    → IsIntact s
    → IsIntact (push_expression_function_diagnostic message span s)
unfolding push_expression_function_diagnostic
push-IsIntact {s} message span i =
    branch-IsIntact
      (leb (diagnostic_limit s.expression_function_limits)
        (length s.expression_function_diagnostics))
      (noted-IsIntact _ true i)
      (branch-IsIntact
        (fits_with (kept_bytes 0 s.expression_function_diagnostics)
          (byte_length (bounded_diagnostic_message message))
          (diagnostic_byte_limit s.expression_function_limits))
        (noted-IsIntact _ _ i) (noted-IsIntact _ true i))

length-dyn_args : (n : ℕ) → length (dyn_args n) ≡ n
length-dyn_args zero = refl
length-dyn_args (suc n) = omega (arith, length-dyn_args n)

function-IsNamed :
    (name : Text) (arity : ℕ) → IsNamed CapabilityKind.function (function_capability name arity)
unfolding identity_matches regex_args_fit
function-IsNamed name arity =
    let t = (text_eq_iff name name).1 refl in
    let a = (==_iff arity arity).1 refl in
    let d = (==_iff (length (dyn_args arity)) arity).1 (length-dyn_args arity) in
    rw (t, identity_matches, a, d) refl

with_function :
    {s : RuntimeSchema} (c : CapabilityMeta)
    → IsNamed CapabilityKind.function c
    → IsIntact s
    → IsIntact (add_function_capability c s)
unfolding add_function_capability
with_function c named i = record {
  variables_ok = i.variables_ok;
  functions_ok = signature-ok CapabilityKind.function _ c _ named i.functions_ok;
  methods_ok = i.methods_ok;
  unary_ok = i.unary_ok;
  binary_ok = i.binary_ok;
  globals_ok = i.globals_ok;
  locals_ok = i.locals_ok;
}

ok_same :
    {s t : RuntimeSchema} → ◌≡◌ {A = Result DiagnosticReport RuntimeSchema} (ok s) (ok t) → s ≡ t
ok_same h = cc

scoped-ok :
    {scope : ExpressionFunctionScope} (label : Text) (f : ExpressionFunction)
    (m : List (Text × ExpressionFunction))
    → f.scope ≡ scope
    → validate_expression_functions m scope label ≡ ok tt
    → validate_expression_functions (insert text_eq text_lt f.name f m) scope label ≡ ok tt
scoped-ok label f m e h =
    subst (λ s. validate_expression_functions (insert text_eq text_lt f.name f m) s label ≡ ok tt) e
      (function-ok label f m
        (subst (λ s. validate_expression_functions m s label ≡ ok tt) (sym e) h))

insert_function-IsIntact :
    {s : RuntimeSchema} (f : ExpressionFunction) → IsIntact s → IsIntact (insert_function f s)
unfolding insert_function
insert_function-IsIntact {s} f i = go f.scope refl
  where
    go : (scope : ExpressionFunctionScope) → f.scope ≡ scope → IsIntact (insert_function f s)
    go ExpressionFunctionScope.global e =
        rw (e, insert_function)
          (record {
            variables_ok = i.variables_ok;
            functions_ok = i.functions_ok;
            methods_ok = i.methods_ok;
            unary_ok = i.unary_ok;
            binary_ok = i.binary_ok;
            globals_ok = scoped-ok _ f s.expression_functions e i.globals_ok;
            locals_ok = i.locals_ok;
          })
    go ExpressionFunctionScope.local e =
        rw (e, insert_function)
          (record {
            variables_ok = i.variables_ok;
            functions_ok = i.functions_ok;
            methods_ok = i.methods_ok;
            unary_ok = i.unary_ok;
            binary_ok = i.binary_ok;
            globals_ok = i.globals_ok;
            locals_ok = scoped-ok _ f s.local_expression_functions e i.locals_ok;
          })

store_function-IsIntact :
    {s : RuntimeSchema} (f : ExpressionFunction) → IsIntact s → IsIntact (store_function f s)
unfolding store_function
store_function-IsIntact {s} f i = insert_function-IsIntact f (
    noted (lookup text_eq f.name (functions_in f.scope (add_function f.name (length f.params) s)))
      _)
  where
    named : IsIntact (add_function f.name (length f.params) s)
    named =
        with_function (function_capability f.name (length f.params)) (function-IsNamed f.name _) i

    noted :
        (o : Option ExpressionFunction) (message : Text)
        → IsIntact (elim o [
          | none ↦ add_function f.name (length f.params) s
          | some other ↦
              push_expression_function_diagnostic message
                (span_of f.expression)
                (add_function f.name (length f.params) s)
        ])
    noted none message = named
    noted (some other) message = push-IsIntact _ _ named

-- A function is stored, or noted.
rejected-IsIntact {ℓ} :
    {A : Type ℓ} {s s' : RuntimeSchema} (r : Result Diagnostic A)
    (k : A → Result DiagnosticReport RuntimeSchema)
    → IsIntact s
    → ((a : A) → k a ≡ ok s' → IsIntact s')
    → or_rejected r k s ≡ ok s'
    → IsIntact s'
unfolding or_rejected
rejected-IsIntact (ok a) k i next e = next a e
rejected-IsIntact (err d) k i next e = subst IsIntact (ok_same e) (push-IsIntact _ d.span i)
rejected-IsIntact out_of_fuel k i next e = cc

scoped-IsIntact :
    {s s' : RuntimeSchema} (scope : ExpressionFunctionScope) (name : Text) (params : List Text)
    (e : AstExpression)
    → IsIntact s
    → add_scoped_expression_function scope name params e s ≡ ok s'
    → IsIntact s'
unfolding add_scoped_expression_function
scoped-IsIntact scope name params e i h =
    rejected-IsIntact (collect_expression_function_params _ scope name params (span_of e)) _ i
      (λ u h'.
        rejected-IsIntact
          (admit_expression_function _
            (record { name = name; params = params; expression = e; scope = scope }))
          _ i
          (λ usage h''. subst IsIntact (ok_same h'') (
            store_function-IsIntact
              (record { name = name; params = params; expression = e; scope = scope }) i))
          h')
      h

Built-IsIntact : {s : RuntimeSchema} → Built s → IsIntact s
unfolding add_variable_meta add_method_capability add_unary_operator_capability
    add_binary_operator_capability add_body_path validate_variables validate_capability_map
    validate_operator_map validate_expression_functions
Built-IsIntact empty = record {
  variables_ok = refl;
  functions_ok = refl;
  methods_ok = refl;
  unary_ok = refl;
  binary_ok = refl;
  globals_ok = refl;
  locals_ok = refl;
}
Built-IsIntact (variable b v) =
    let i = Built-IsIntact b in
    record {
      variables_ok = variable-ok v _ i.variables_ok;
      functions_ok = i.functions_ok;
      methods_ok = i.methods_ok;
      unary_ok = i.unary_ok;
      binary_ok = i.binary_ok;
      globals_ok = i.globals_ok;
      locals_ok = i.locals_ok;
    }
Built-IsIntact (function b c named) = with_function c named (Built-IsIntact b)
Built-IsIntact (method b c named) =
    let i = Built-IsIntact b in
    record {
      variables_ok = i.variables_ok;
      functions_ok = i.functions_ok;
      methods_ok = signature-ok CapabilityKind.method _ c _ named i.methods_ok;
      unary_ok = i.unary_ok;
      binary_ok = i.binary_ok;
      globals_ok = i.globals_ok;
      locals_ok = i.locals_ok;
    }
Built-IsIntact (unary b c listed named) =
    let i = Built-IsIntact b in
    record {
      variables_ok = i.variables_ok;
      functions_ok = i.functions_ok;
      methods_ok = i.methods_ok;
      unary_ok = operator-ok CapabilityKind.unary_op 1 _ _ c _ listed named i.unary_ok;
      binary_ok = i.binary_ok;
      globals_ok = i.globals_ok;
      locals_ok = i.locals_ok;
    }
Built-IsIntact (binary b c listed named) =
    let i = Built-IsIntact b in
    record {
      variables_ok = i.variables_ok;
      functions_ok = i.functions_ok;
      methods_ok = i.methods_ok;
      unary_ok = i.unary_ok;
      binary_ok = operator-ok CapabilityKind.binary_op 2 _ _ c _ listed named i.binary_ok;
      globals_ok = i.globals_ok;
      locals_ok = i.locals_ok;
    }
Built-IsIntact (body_path b path target access) =
    let i = Built-IsIntact b in
    record {
      variables_ok = i.variables_ok;
      functions_ok = i.functions_ok;
      methods_ok = i.methods_ok;
      unary_ok = i.unary_ok;
      binary_ok = i.binary_ok;
      globals_ok = i.globals_ok;
      locals_ok = i.locals_ok;
    }
Built-IsIntact (expression_function b scope name params e h) =
    scoped-IsIntact scope name params e (Built-IsIntact b) h
Built-IsIntact (limits b l) =
    let i = Built-IsIntact b in
    record {
      variables_ok = i.variables_ok;
      functions_ok = i.functions_ok;
      methods_ok = i.methods_ok;
      unary_ok = i.unary_ok;
      binary_ok = i.binary_ok;
      globals_ok = i.globals_ok;
      locals_ok = i.locals_ok;
    }

-- A schema that only the builders filled, in any order, passes the integrity check: with variables,
-- functions, methods and operators whose metadata fits their own name and arity, with body paths,
-- with limits, and with expression functions. To add an expression function of any scope, name,
-- parameters and body always returns a schema: with the function, found under its scope and name, if
-- the checks accept it, and else the old one with the diagnostic of the checks pushed. The returned
-- schema passes the integrity check as well.
pub Built-validate_integrity :
    {s : RuntimeSchema}
    → Built s
    → (f : ExpressionFunction)
    → (validate_integrity s ≡ ok tt)
      × ((s' : RuntimeSchema) × (add_scoped_expression_function f.scope f.name f.params f.expression
              s
            ≡ ok s')
          × IsAnswered s f s'
          × (validate_integrity s' ≡ ok tt))
Built-validate_integrity {s} b f =
    let (s', added, answered) = add_scoped-IsAnswered s f in
    let intact = Built.expression_function b f.scope f.name f.params f.expression added in
    (
      IsIntact-validate_integrity (Built-IsIntact b),
      (s', added, answered, IsIntact-validate_integrity (Built-IsIntact intact)),
    )
