-- ===== src/Text/Clients.antt =====
-- The text of warpcoil/cpp/generate/generate_serialization_client.hpp.
use warpcoil.Base.{ℕ, List, [], ◌∷◌, codes, length, leb, none, some, if◌then◌else◌}
use warpcoil.Types.Syntax.{Parameter}
use warpcoil.Generated.Interface.{InterfaceDefinition, Method}
use warpcoil.Generated.Server.{TypeEmptiness, empty, non_empty, emptiness}
use warpcoil.Text.{
  Text, own, Print, PrintOrThrow, append_to, in_order, start_line, deeper, returns, in_turn,
  block_or_throw,
}
use warpcoil.Text.Types.{generate_type, parser_type_text}
use warpcoil.Text.Interfaces.{print_parameters}
use warpcoil.Text.Serialization.{print_value_serialization}

-- What `generate_parameters` returns.
unfoldable pub parameters_emptiness : List Parameter → TypeEmptiness
unfolding emptiness
parameters_emptiness [] = empty
parameters_emptiness (param ∷ parameters) =
    let rest = parameters_emptiness parameters in
    elim (emptiness param.type_) [ empty ↦ rest | non_empty ↦ non_empty ]

-- The `throw` for a name of more than 255 bytes.
unfoldable pub check_name : Text → PrintOrThrow
check_name name out = if leb (length name) 255 then some out else none

-- `error_handling`
abbrev pub error_handling : Text
error_handling =
    codes
      "handler(warpcoil::cpp::make_invalid_input_error()); return warpcoil::cpp::client_pipeline_request_status::failure"

module _ (lexical_cast : ℕ → Text) (m_indentation : ℕ) where
  -- The loop for parameters that are not used.
  unfoldable pub ignored_parameters : List Parameter → ℕ → Print
  ignored_parameters [] in_method = in_order []
  ignored_parameters (parameter_ ∷ parameters) in_method = in_order (
      start_line own in_method (codes "static_cast<void>(" ∷ parameter_.name ∷ codes ");\n" ∷ [])
      ∷ ignored_parameters parameters in_method
      ∷ [])

  -- The `switch`.
  unfoldable pub ignore_empty : TypeEmptiness → List Parameter → ℕ → Print
  unfolding ignored_parameters
  ignore_empty empty parameters in_method = ignored_parameters parameters in_method
  ignore_empty non_empty parameters in_method = in_order []

  unfoldable pub serialized_parameters : List Parameter → ℕ → Print
  serialized_parameters [] in_builder = in_order []
  serialized_parameters (param ∷ parameters) in_builder = in_order (
      print_value_serialization lexical_cast m_indentation param.type_ in_builder
        (codes "request_writer") param.name error_handling
      ∷ serialized_parameters parameters in_builder
      ∷ [])

  -- The name and the parameters behind the check.
  unfoldable pub request_text : Text → Method → ℕ → Print
  unfolding serialized_parameters
  request_text name method in_builder = in_order (
      append_to own (lexical_cast (length name))
      ∷ append_to own (codes "u);\n")
      ∷ start_line own in_builder (
          codes
            "append(request_writer, Si::make_c_str_range(reinterpret_cast<std::uint8_t const *>(\""
          ∷ [])
      ∷ append_to own name
      ∷ append_to own (codes "\")));\n")
      ∷ serialized_parameters method.parameters in_builder
      ∷ start_line own in_builder
          (codes "return warpcoil::cpp::client_pipeline_request_status::ok;" ∷ [])
      ∷ [])

  unfoldable pub request_builder : Text → Method → ℕ → PrintOrThrow
  unfolding check_name request_text
  request_builder name method in_builder = in_turn (
      returns (start_line own in_builder (codes "append(request_writer, " ∷ []))
      ∷ check_name name
      ∷ returns (request_text name method in_builder)
      ∷ [])

  -- What is in front of the lambda that builds the request.
  unfoldable pub before_builder : Method → ℕ → Print
  unfolding ignore_empty
  before_builder method in_method = in_order (
      ignore_empty (parameters_emptiness method.parameters) method.parameters in_method
      ∷ start_line own in_method (
          codes
            "using handler_type = typename boost::asio::handler_type<decltype(token), void(Si::error_or< "
          ∷ [])
      ∷ generate_type lexical_cast m_indentation own method.result
      ∷ append_to own (codes ">)>::type;\n")
      ∷ start_line own in_method
          (codes "handler_type handler(std::forward<CompletionToken>(token));\n" ∷ [])
      ∷ start_line own in_method
          (codes "boost::asio::async_result<handler_type> result(handler);\n" ∷ [])
      ∷ start_line own in_method (codes "pipeline.template request<" ∷ [])
      ∷ append_to own (parser_type_text method.result)
      ∷ append_to own (
          codes
            ">([&](Si::Sink<std::uint8_t>::interface &request_writer) -> warpcoil::cpp::client_pipeline_request_status\n")
      ∷ [])

  unfoldable pub client_method_body : Text → Method → ℕ → PrintOrThrow
  unfolding before_builder request_builder
  client_method_body name method in_method = in_turn (
      returns (before_builder method in_method)
      ∷ block_or_throw own in_method (request_builder name method) (codes "")
      ∷ returns (
          in_order (
            append_to own (codes ", handler);\n")
            ∷ start_line own in_method (codes "return result.get();\n" ∷ [])
            ∷ []))
      ∷ [])

  unfoldable pub client_method_head : Text → Method → ℕ → Print
  client_method_head name method in_class = in_order (
      start_line own in_class (codes "template <class CompletionToken>\n" ∷ [])
      ∷ start_line own in_class (codes "auto " ∷ [])
      ∷ append_to own name
      ∷ append_to own (codes "(")
      ∷ print_parameters lexical_cast m_indentation method.parameters
      ∷ append_to own (codes "CompletionToken &&token)\n")
      ∷ [])

  -- The loop over the methods.
  unfoldable pub client_methods : InterfaceDefinition → ℕ → PrintOrThrow
  unfolding client_method_head client_method_body
  client_methods [] in_class = in_turn []
  client_methods ((name, method) ∷ methods) in_class = in_turn (
      returns (client_method_head name method in_class)
      ∷ block_or_throw own in_class (client_method_body name method) (codes "\n\n")
      ∷ client_methods methods in_class
      ∷ [])

  unfoldable pub client_constructor : Text → ℕ → Print
  client_constructor name in_class = in_order (
      start_line own in_class (codes "explicit async_" ∷ [])
      ∷ append_to own name
      ∷ append_to own (
          codes
            "_client(warpcoil::cpp::buffered_writer<AsyncWriteStream> &requests, warpcoil::cpp::message_splitter<AsyncReadStream> &responses)\n")
      ∷ start_line own (deeper in_class) (codes ": pipeline(requests, responses) {}\n\n" ∷ [])
      ∷ [])

  unfoldable pub client_members : (indentation : ℕ) → (name : Text) → ℕ → Print
  client_members indentation name in_class = in_order (
      start_line own indentation (codes "private:\n" ∷ [])
      ∷ start_line own in_class (
          codes "warpcoil::cpp::client_pipeline<AsyncWriteStream, AsyncReadStream> pipeline;\n\n"
          ∷ [])
      ∷ start_line own in_class (
          codes "friend std::size_t pending_requests(async_"
          ∷ name
          ∷ codes "_client const &client) { return client.pipeline.pending_requests(); }\n"
          ∷ [])
      ∷ [])

  unfoldable pub generate_serialization_client :
      (indentation : ℕ) → (name : Text) → InterfaceDefinition → PrintOrThrow
  unfolding client_constructor client_methods client_members
  generate_serialization_client indentation name definition = in_turn (
      returns (
        in_order (
          start_line own indentation
            (codes "template <class AsyncWriteStream, class AsyncReadStream>\nstruct async_" ∷ [])
          ∷ append_to own name
          ∷ append_to own (codes "_client")
          ∷ append_to own (codes "\n")
          ∷ []))
      ∷ block_or_throw own indentation
          (λ in_class. in_turn (
            returns (client_constructor name in_class)
            ∷ client_methods definition in_class
            ∷ returns (client_members indentation name in_class)
            ∷ []))
          (codes ";\n\n")
      ∷ [])
