-- ===== src/Syntax/Messages.antt =====
-- The texts of the messages, as source/src/parser/{lexer,parse,format,preflight,validation}.rs have them.
use online_dsl_forge.Syntax.{Message, NameKind}
use online_dsl_forge.Base.{Text, codes, ◌++◌, ◌∷◌}

-- `validate_name` is told the kind as text.
unfoldable pub kind_text : NameKind → Text
kind_text NameKind.identifier = codes "identifier"
kind_text NameKind.member = codes "member"
kind_text NameKind.function = codes "function"
kind_text NameKind.method = codes "method"

-- The escapes that `{:?}` writes for some invalid characters are left out.
unfoldable pub message_text : Message → Text
message_text Message.call_depth_limit = codes "semantic call depth limit exceeded"
message_text Message.ast_node_limit = codes "AST node limit exceeded"
message_text Message.ast_scalar_byte_limit = codes "AST scalar byte limit exceeded"
message_text Message.float_not_finite = codes "float value must be finite"
message_text (Message.invalid_name kind) =
    kind_text kind ++ codes " name must follow identifier syntax and must not be reserved"
message_text Message.format_depth_limit = codes "AST format depth limit exceeded"
message_text Message.format_output_limit = codes "AST format output byte limit exceeded"
message_text Message.source_limit = codes "source byte limit exceeded"
message_text Message.scalar_limit = codes "decoded scalar byte limit exceeded"
message_text Message.token_limit = codes "token limit exceeded"
message_text Message.diagnostic_limit = codes "diagnostic limit exceeded"
message_text Message.unsupported_escape = codes "unsupported string escape"
message_text Message.unterminated_string = codes "unterminated string literal"
message_text Message.invalid_float = codes "invalid float literal"
message_text Message.invalid_integer = codes "invalid integer literal"
message_text (Message.invalid_character c) = codes "invalid character '" ++ c ∷ codes "'"
message_text Message.parse_recursion_depth = codes "parse recursion depth limit exceeded"
message_text Message.ast_depth_limit = codes "AST depth limit exceeded"
message_text Message.collection_limit = codes "collection item limit exceeded"
message_text Message.unexpected_token = codes "unexpected token after expression"
message_text Message.expected_expression = codes "expected expression"
message_text Message.expected_closing_parenthesis = codes "expected closing parenthesis"
message_text Message.expected_array_comma = codes "expected comma in array literal"
message_text Message.expected_argument_comma = codes "expected comma in argument list"
message_text Message.expected_identifier = codes "expected identifier"
message_text (Message.reserved_identifier name) = codes "reserved identifier " ++ name
message_text (Message.text t) = t
