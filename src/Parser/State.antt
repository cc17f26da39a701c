-- ===== src/Parser/State.antt =====
-- The state of the parser between two of its steps, and what each primitive does to it.
use online_dsl_forge.Lexer.{Token, TokenKind, eof}
use online_dsl_forge.Base.{
  refl, [], ◌∷◌, zero, none, some, true, false, List, ℕ, ◌<◌, get_elem?, length, ◌≡◌, ◌-◌, arith,
  suc, ◌≤◌, Bool, Result, Ends, if◌then◌else◌, ◌+◌, min, ok, err, accepts, refuses, Ends-ok_or,
  Ends-fail_if, leb, ltb, ltb→le, Ends-bind, Option,
}
use online_dsl_forge.Syntax.{ParseLimits, Message, DiagnosticReport, single, SourceSpan, ExprKind}
use online_dsl_forge.Parser.{
  is_eof, Parser, peek, skip, advance, expect_kind, consume_kind, expect_identifier, add_depth,
  check_collection_width, make_expression, name_of, ParsedExpression, ast, max_ast_serialized_depth,
  validate_identifier,
}
use online_dsl_forge.Parser.Grammar.{if_let}
use native.Mathlib.Decide.{dec_lt}
use online_dsl_forge.Base.Usize.{checked_add, checked_add-eq-some}
use online_dsl_forge.Validation.{is_reserved_identifier}

pub get_elem?-lt {ℓ} :
    {A : Type ℓ} (xs : List A) (i : ℕ) → i < length xs → (x : A) × (get_elem? xs i ≡ some x)
get_elem?-lt [] i h = absurd (omega arith)
get_elem?-lt (x ∷ xs) zero h = (x, refl)
get_elem?-lt (x ∷ xs) (suc i) h = get_elem?-lt xs i (omega arith)

not_eof :
    (test : TokenKind → Bool) (k : TokenKind) → test eof ≡ false → test k ≡ true → is_eof k ≡ false
not_eof test eof h t = cc
not_eof test _ h t = refl

not_eof_op {ℓ} :
    {B : Type ℓ} (op_of : TokenKind → Option B) (k : TokenKind) {b : B}
    → op_of eof ≡ none
    → op_of k ≡ some b
    → is_eof k ≡ false
not_eof_op op_of eof h t = cc
not_eof_op op_of _ h t = refl

name_of-Ends : (k : TokenKind) (s : SourceSpan) → Ends (λ _. is_eof k ≡ false) (name_of k s)
unfolding name_of validate_identifier
name_of-Ends (TokenKind.identifier name) s =
    Ends-fail_if (is_reserved_identifier name) _ (λ _. accepts refl)
name_of-Ends _ s = refuses tt

-- The tokens of a run, which end in `eof`.
module _ (ts : List Token) (last : Token) (limits : ParseLimits)
    (ends : get_elem? ts (length ts - 1) ≡ some last) (last_eof : is_eof last.kind ≡ true) where
  -- A parser at nesting `d` that has made `n` nodes.
  pub record At (d n : ℕ) (p : Parser) : Type 0 where
    pub tokens_same : p.tokens ≡ ts
    pub limits_same : p.limits ≡ limits
    pub depth_same : p.recursion_depth ≡ d
    pub nodes_same : p.ast_nodes ≡ n
    pub in_range : p.position < length ts
    pub nodes_fit : n ≤ limits.max_ast_nodes

  module _ {d n : ℕ} {p : Parser} (at : At d n p) where
    peek_lem : get_elem? p.tokens p.position ≡ some (peek p)
    unfolding peek
    peek_lem = let (t, e) = get_elem?-lt ts p.position at.in_range in rw (at.tokens_same, e)

    pub skip-At : is_eof (peek p).kind ≡ false → At d n (skip p)
    skip-At h = record {
      tokens_same = at.tokens_same;
      limits_same = at.limits_same;
      depth_same = at.depth_same;
      nodes_same = at.nodes_same;
      in_range = elim (dec_lt (p.position + 1) (length ts)) [
        | yes lt ↦ lt
        | no ge ↦
            let at_end : p.position ≡ length ts - 1 = omega (arith, at.in_range) in
            absurd (cc (at_end, at.tokens_same, ends, last_eof, peek_lem, h))
      ];
      nodes_fit = at.nodes_fit;
    }

    pub advance_lem : advance p ≡ (peek p, if is_eof (peek p).kind then p else skip p)
    unfolding advance
    advance_lem =
        let index : min p.position (length p.tokens - 1) ≡ p.position =
          rw at.tokens_same (omega (arith, at.in_range)) in
        rw (index, peek_lem)

    consume_kind_lem :
        (test : TokenKind → Bool)
        → consume_kind test p ≡ (if test (peek p).kind then some (peek p, skip p) else none)
    unfolding consume_kind
    consume_kind_lem test = refl

    -- Where a test that fails on `eof` passes, there is a token to take.
    pub if_let-Ends {ℓ κ} :
        {A : Type ℓ} {Q : A → Type κ} (test : TokenKind → Bool)
        (found : Token × Parser → Result DiagnosticReport A) {missing : Result DiagnosticReport A}
        → test eof ≡ false
        → (At d n (skip p) → Ends Q (found (peek p, skip p)))
        → Ends Q missing
        → Ends Q (if_let (consume_kind test p) found missing)
    if_let-Ends {Q} test found {missing} h f m =
        rw (consume_kind_lem test) (go (test (peek p).kind) refl)
      where
        go :
            (b : Bool)
            → test (peek p).kind ≡ b
            → Ends Q (if_let (if b then some (peek p, skip p) else none) found missing)
        go true t = f (skip-At (not_eof test (peek p).kind h t))
        go false t = m

    -- The same for a test that names what it has found.
    pub if_let_op-Ends {ℓ κ ι} :
        {A : Type ℓ} {B : Type ι} {Q : A → Type κ} (op_of : TokenKind → Option B)
        (found : B → Result DiagnosticReport A) {missing : Result DiagnosticReport A}
        → op_of eof ≡ none
        → ((b : B) → op_of (peek p).kind ≡ some b → At d n (skip p) → Ends Q (found b))
        → Ends Q missing
        → Ends Q (if_let (op_of (peek p).kind) found missing)
    if_let_op-Ends {B} {Q} op_of found {missing} h f m = go (op_of (peek p).kind) refl
      where
        go : (o : Option B) → op_of (peek p).kind ≡ o → Ends Q (if_let o found missing)
        go (some b) t = f b t (skip-At (not_eof_op op_of (peek p).kind h t))
        go none t = m

    -- A token was taken.
    abbrev pub Moved {ℓ} : {A : Type ℓ} → A × Parser → Type 0
    Moved r = At d n r.1 × (p.position < r.1.position)

    pub expect_kind-Ends :
        (message : Message) (test : TokenKind → Bool)
        → test eof ≡ false
        → Ends Moved (expect_kind message test p)
    unfolding expect_kind
    expect_kind-Ends message test h = rw advance_lem (go (test (peek p).kind) refl)
      where
        go :
            (b : Bool)
            → test (peek p).kind ≡ b
            → Ends Moved (
                if b
                then ok (peek p, if is_eof (peek p).kind then p else skip p)
                else err (single message (peek p).span))
        go true t =
            let real = not_eof test (peek p).kind h t in
            rw real (accepts (skip-At real, omega arith))
        go false t = refuses tt

    pub expect_identifier-Ends : Ends Moved (expect_identifier p)
    unfolding expect_identifier
    expect_identifier-Ends = rw advance_lem (
        Ends-bind (name_of-Ends (peek p).kind (peek p).span)
          λ name real. rw real (accepts (skip-At real, omega arith)))

    pub add_depth-Ends :
        (outer inner : ℕ) (s : SourceSpan)
        → Ends (λ (r : ℕ × Parser). (r.0 ≡ outer + inner) × (r.1 ≡ p)) (add_depth outer inner s p)
    unfolding add_depth
    add_depth-Ends outer inner s =
        Ends-ok_or (checked_add outer inner) _ λ total e. accepts (checked_add-eq-some _ _ e, refl)

    pub check_collection_width-Ends :
        (width : ℕ) (s : SourceSpan)
        → Ends
            (λ (r : Unit {0} × Parser). (r.1 ≡ p) × (width < limits.max_collection_items))
            (check_collection_width width s p)
    unfolding check_collection_width
    check_collection_width-Ends width s =
        Ends-fail_if (leb p.limits.max_collection_items width) _
          λ t. accepts (refl, ground (arith, at.limits_same))

    pub make_expression-Ends :
        (k : ExprKind) (s : SourceSpan) (depth : ℕ)
        → Ends
            (λ (r : ParsedExpression × Parser).
              (r.0 ≡ record { ast_of = ast k s; serialized_depth = depth })
              × At d (suc n) r.1
              × (r.1.position ≡ p.position)
              × (depth ≤ max_ast_serialized_depth))
            (make_expression k s depth p)
    unfolding make_expression
    make_expression-Ends k s depth = Ends-fail_if (ltb max_ast_serialized_depth depth) _ λ shallow.
        Ends-ok_or (checked_add p.ast_nodes 1) _ λ nodes e.
          Ends-fail_if (ltb p.limits.max_ast_nodes nodes) _ λ few. accepts (
            refl,
            record {
              tokens_same = at.tokens_same;
              limits_same = at.limits_same;
              depth_same = at.depth_same;
              nodes_same = omega (arith, at.nodes_same, checked_add-eq-some _ _ e);
              in_range = at.in_range;
              nodes_fit = omega (
                arith,
                at.nodes_same,
                checked_add-eq-some _ _ e,
                rw at.limits_same at (ltb→le _ _ few),
              );
            },
            refl,
            omega (arith, ltb→le _ _ shallow),
          )
