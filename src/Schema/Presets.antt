-- ===== src/Schema/Presets.antt =====
-- source/src/sema/schema.rs and schema/oxirule.rs: the schemas that the library provides.
use online_dsl_forge.Base.{[], ◌∷◌, Text, List, ℕ, codes}
use online_dsl_forge.Profile.{BodyTarget, BodyAccess, Phase}
use online_dsl_forge.Schema.{RuntimeSchema, CapabilityMeta, RegexFlavor, VariableMeta}
use online_dsl_forge.Schema.Builders.{
  new_schema, new_variable, method_capability, with_body_access, with_regex_arg, add_variable,
  add_variable_meta, add_method_capability, add_body_path,
}

-- `add_method_capability` for each.
unfoldable pub add_methods : List CapabilityMeta → RuntimeSchema → RuntimeSchema
add_methods [] schema = schema
add_methods (c ∷ cs) schema = add_methods cs (add_method_capability c schema)

-- `CapabilityMeta::method(name, arity)`, with the arguments that are regexes.
abbrev pub regex_method : Text → ℕ → List (ℕ × RegexFlavor) → CapabilityMeta
regex_method name arity [] = method_capability name arity
regex_method name arity (a ∷ []) = with_regex_arg a.0 a.1 (method_capability name arity)
regex_method name arity (a ∷ b ∷ []) =
    with_regex_arg b.0 b.1 (with_regex_arg a.0 a.1 (method_capability name arity))
regex_method name arity (a ∷ b ∷ c ∷ rest) =
    with_regex_arg c.0 c.1
      (with_regex_arg b.0 b.1 (with_regex_arg a.0 a.1 (method_capability name arity)))

abbrev pub prefix_method : Text → ℕ → CapabilityMeta
prefix_method name arity = with_body_access BodyAccess.prefix_bytes (method_capability name arity)

abbrev pub waf_body_paths_of : Text → BodyTarget → RuntimeSchema → RuntimeSchema
waf_body_paths_of root target schema =
    add_body_path (root ∷ codes "Body" ∷ codes "IsTruncated" ∷ []) target BodyAccess.prefix_bytes (
      add_body_path (root ∷ codes "Body" ∷ codes "Text" ∷ []) target BodyAccess.prefix_bytes (
        add_body_path (root ∷ codes "Body" ∷ codes "Bytes" ∷ []) target BodyAccess.prefix_bytes (
          add_body_path (root ∷ codes "Body" ∷ codes "Size" ∷ []) target BodyAccess.size_only
            schema)))

unfoldable pub add_waf_body_paths : RuntimeSchema → RuntimeSchema
add_waf_body_paths schema =
    add_body_path (codes "Stream" ∷ codes "Payload" ∷ []) BodyTarget.stream BodyAccess.prefix_bytes
      (waf_body_paths_of (codes "Response") BodyTarget.response
        (waf_body_paths_of (codes "Request") BodyTarget.request schema))

abbrev pub waf_body_methods : List CapabilityMeta
waf_body_methods =
    prefix_method (codes "isFormat") 1
    ∷ prefix_method (codes "isBinaryFormat") 1
    ∷ prefix_method (codes "matchesFormat") 1
    ∷ prefix_method (codes "contains") 1
    ∷ prefix_method (codes "containsBytes") 1
    ∷ prefix_method (codes "containsAny") 1
    ∷ prefix_method (codes "matchesAny") 1
    ∷ prefix_method (codes "scan") 1
    ∷ prefix_method (codes "anomalyScore") 1
    ∷ prefix_method (codes "malformedScore") 1
    ∷ prefix_method (codes "promptInjectionScore") 0
    ∷ with_regex_arg 0 RegexFlavor.default (prefix_method (codes "matches") 1)
    ∷ []

abbrev pub add_waf_body_methods : RuntimeSchema → RuntimeSchema
add_waf_body_methods schema = add_methods waf_body_methods schema

abbrev pub waf_regex_methods : List CapabilityMeta
waf_regex_methods =
    regex_method (codes "anyValueMatches") 1 ((0, RegexFlavor.default) ∷ [])
    ∷ regex_method (codes "anyKeyMatches") 1 ((0, RegexFlavor.default) ∷ [])
    ∷ regex_method (codes "anyMatches") 1 ((0, RegexFlavor.default) ∷ [])
    ∷ regex_method (codes "anyNameMatches") 1
        ((0, RegexFlavor.default) ∷ (0, RegexFlavor.header_name) ∷ [])
    ∷ regex_method (codes "anyEntryMatches") 2
        ((0, RegexFlavor.default) ∷ (0, RegexFlavor.header_name) ∷ (1, RegexFlavor.default) ∷ [])
    ∷ regex_method (codes "allEntriesMatch") 2
        ((0, RegexFlavor.header_name) ∷ (1, RegexFlavor.default) ∷ [])
    ∷ []

abbrev pub add_waf_regex_methods : RuntimeSchema → RuntimeSchema
add_waf_regex_methods schema = add_methods waf_regex_methods schema

unfoldable pub waf_schema : RuntimeSchema
waf_schema = add_waf_regex_methods (
    add_waf_body_methods (
      add_waf_body_paths (
        add_variable (codes "Stream")
          (add_variable (codes "Response") (add_variable (codes "Request") new_schema)))))

abbrev pub oxirule_body_paths_of : Text → BodyTarget → RuntimeSchema → RuntimeSchema
oxirule_body_paths_of root target schema =
    add_body_path (root ∷ codes "Http" ∷ codes "Body" ∷ codes "IsTruncated" ∷ []) target
      BodyAccess.prefix_bytes
      (add_body_path (root ∷ codes "Http" ∷ codes "Body" ∷ codes "Text" ∷ []) target
        BodyAccess.prefix_bytes
        (add_body_path (root ∷ codes "Http" ∷ codes "Body" ∷ codes "Bytes" ∷ []) target
          BodyAccess.prefix_bytes
          (add_body_path (root ∷ codes "Http" ∷ codes "Body" ∷ codes "Size" ∷ []) target
            BodyAccess.size_only schema)))

unfoldable pub add_oxirule_body_paths : RuntimeSchema → RuntimeSchema
add_oxirule_body_paths schema =
    oxirule_body_paths_of (codes "Response") BodyTarget.response
      (oxirule_body_paths_of (codes "Request") BodyTarget.request schema)

abbrev pub oxirule_string_methods : List CapabilityMeta
oxirule_string_methods =
    prefix_method (codes "contains") 1
    ∷ method_capability (codes "startsWith") 1
    ∷ method_capability (codes "endsWith") 1
    ∷ with_regex_arg 0 RegexFlavor.default (prefix_method (codes "matches") 1)
    ∷ method_capability (codes "lowerAscii") 0
    ∷ method_capability (codes "upperAscii") 0
    ∷ method_capability (codes "size") 0
    ∷ method_capability (codes "inCidr") 1
    ∷ []

abbrev pub oxirule_collection_methods : List CapabilityMeta
oxirule_collection_methods =
    method_capability (codes "count") 0
    ∷ method_capability (codes "has") 1
    ∷ method_capability (codes "get") 1
    ∷ method_capability (codes "getAll") 1
    ∷ method_capability (codes "anyValueContains") 1
    ∷ regex_method (codes "anyNameMatches") 1
        ((0, RegexFlavor.default) ∷ (0, RegexFlavor.header_name) ∷ [])
    ∷ regex_method (codes "anyValueMatches") 1 ((0, RegexFlavor.default) ∷ [])
    ∷ regex_method (codes "anyKeyMatches") 1 ((0, RegexFlavor.default) ∷ [])
    ∷ regex_method (codes "anyMatches") 1 ((0, RegexFlavor.default) ∷ [])
    ∷ regex_method (codes "anyEntryMatches") 2
        ((0, RegexFlavor.default) ∷ (0, RegexFlavor.header_name) ∷ (1, RegexFlavor.default) ∷ [])
    ∷ regex_method (codes "allEntriesMatch") 2
        ((0, RegexFlavor.header_name) ∷ (1, RegexFlavor.default) ∷ [])
    ∷ []

abbrev pub token_binding_methods : List CapabilityMeta
token_binding_methods =
    method_capability (codes "directPeerIpNetworkPrefix") 2
    ∷ method_capability (codes "tcpMaxHop") 1
    ∷ []

unfoldable pub add_oxirule_methods : RuntimeSchema → RuntimeSchema
add_oxirule_methods schema = add_methods token_binding_methods (
    add_methods oxirule_collection_methods
      (add_methods oxirule_string_methods (add_waf_regex_methods (add_waf_body_methods schema))))

abbrev pub variable_in : Text → List Phase → VariableMeta
variable_in name phases = record (new_variable name) { phases = phases }

abbrev pub all_phases : List Phase
all_phases = Phase.request ∷ Phase.response ∷ Phase.stream ∷ []

unfoldable pub oxirule_waf_schema : RuntimeSchema
oxirule_waf_schema = add_oxirule_methods (
    add_oxirule_body_paths (
      add_waf_body_paths (
        add_variable_meta (variable_in (codes "Stream") (Phase.stream ∷ [])) (
          add_variable_meta (variable_in (codes "Response") (Phase.response ∷ [])) (
            add_variable_meta (variable_in (codes "DynamicPolicy") all_phases) (
              add_variable_meta (variable_in (codes "Request") all_phases)
                (add_variable_meta (variable_in (codes "Context") all_phases) new_schema)))))))
