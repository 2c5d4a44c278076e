-- ===== src/Text/Servers.antt =====
-- The text of warpcoil/cpp/generate/generate_serialization_server.hpp, with
-- `move_arguments_out_of_tuple` of generate_interface.hpp, and generate_serializable_interface.hpp.
pub mod Headers
use warpcoil.Base.{ℕ, zero, suc, [], ◌∷◌, codes, length}
use warpcoil.Types.Syntax.{WireType, get_parameter_type}
use warpcoil.Generated.Interface.{InterfaceDefinition, Method}
use warpcoil.Generated.Server.{TypeEmptiness, empty, non_empty, emptiness}
use warpcoil.Text.{
  Text, own, Print, PrintOrThrow, append_to, in_order, start_line, returns, in_turn, block,
}
use warpcoil.Text.Types.{generate_type, parser_type_text}
use warpcoil.Text.Interfaces.{generate_interface, generate_type_eraser}
use warpcoil.Text.Clients.{generate_serialization_client}
use warpcoil.Text.Serialization.{print_value_serialization}
use warpcoil.Text.Servers.Headers.{wrapped_end, server_head}

abbrev pub invalid_result : Text
invalid_result =
    codes "return std::forward<Handler>(handle_result)(warpcoil::cpp::make_invalid_input_error())"

module _ (lexical_cast : ℕ → Text) (m_indentation : ℕ) where
  -- `move_arguments_out_of_tuple`, whose loop goes on from `i`.
  unfoldable pub move_arguments_out_of_tuple : (tuple_name : Text) → (count : ℕ) → (i : ℕ) → Print
  move_arguments_out_of_tuple tuple_name zero i = in_order []
  move_arguments_out_of_tuple tuple_name (suc count) i = in_order (
      append_to own (codes "std::get<")
      ∷ append_to own (lexical_cast i)
      ∷ append_to own (codes ">(std::move(")
      ∷ append_to own tuple_name
      ∷ append_to own (codes ")), ")
      ∷ move_arguments_out_of_tuple tuple_name count (suc i)
      ∷ [])

  -- The `switch`.
  unfoldable pub serialize_if : TypeEmptiness → WireType → ℕ → Print
  serialize_if empty result in_lambda = in_order []
  serialize_if non_empty result in_lambda =
      print_value_serialization lexical_cast m_indentation result in_lambda
        (codes "response_writer") (codes "result.get()") invalid_result

  -- The lambda that gets the result.
  unfoldable pub handle_result : WireType → ℕ → Print
  unfolding serialize_if
  handle_result result in_lambda = in_order (
      start_line own in_lambda (
        codes
          "if (result.is_error()) { std::forward<Handler>(handle_result)(result.error()); return; }\n"
        ∷ [])
      ∷ start_line own in_lambda (
          codes
            "auto response_writer = Si::Sink<std::uint8_t, Si::success>::erase(responses.buffer_sink());\n"
          ∷ [])
      ∷ start_line own in_lambda (
          codes
            "warpcoil::cpp::write_integer(response_writer, static_cast<warpcoil::message_type_int>(warpcoil::message_type::response));\n"
          ∷ [])
      ∷ start_line own in_lambda
          (codes "warpcoil::cpp::write_integer(response_writer, request_id);\n" ∷ [])
      ∷ serialize_if (emptiness result) result in_lambda
      ∷ start_line own in_lambda (
          codes
            "responses.send_buffer(warpcoil::cpp::wrap_handler([](boost::system::error_code ec, Handler &handle_result)\n"
          ∷ [])
      ∷ block own in_lambda
          (λ in_read.
            start_line own in_read (codes "std::forward<Handler>(handle_result)(ec);\n" ∷ []))
          wrapped_end
      ∷ [])

  -- The lambda that gets the arguments. Its first two lines are rendered like the line in front
  -- of it.
  unfoldable pub handle_argument : Text → Method → (in_method on_result : ℕ) → Print
  unfolding move_arguments_out_of_tuple handle_result
  handle_argument name method in_method on_result = in_order (
      start_line own in_method (codes "requests.unlock_input();\n" ∷ [])
      ∷ start_line own in_method (
          codes
            "if (argument.is_error()) { std::forward<Handler>(handle_result)(argument.error()); return; }\n"
          ∷ [])
      ∷ start_line own on_result (codes "implementation." ∷ [])
      ∷ append_to own name
      ∷ append_to own (codes "(")
      ∷ move_arguments_out_of_tuple (codes "argument.get()") (length method.parameters) 0
      ∷ append_to own (codes "warpcoil::cpp::wrap_handler([this, request_id](Si::error_or<")
      ∷ generate_type lexical_cast m_indentation own method.result
      ∷ append_to own (codes "> result")
      ∷ append_to own (codes ", Handler &handle_result)\n")
      ∷ block own on_result (handle_result method.result) wrapped_end
      ∷ [])

  unfoldable pub receive_argument : Text → Method → ℕ → Print
  unfolding handle_argument
  receive_argument name method in_method =
      let parameter_type = get_parameter_type method.parameters in
      in_order (
        start_line own in_method (codes "begin_parse_value(input.input, input.buffer, " ∷ [])
        ∷ append_to own (parser_type_text parameter_type)
        ∷ append_to own (codes "{}, warpcoil::cpp::wrap_handler([this, request_id](Si::error_or<")
        ∷ generate_type lexical_cast m_indentation own parameter_type
        ∷ append_to own (codes "> argument, Handler &handle_result)\n")
        ∷ block own in_method (handle_argument name method in_method) wrapped_end
        ∷ [])

  -- The functions `begin_receive_method_argument_of_…`.
  unfoldable pub argument_receivers : InterfaceDefinition → ℕ → Print
  unfolding receive_argument
  argument_receivers [] in_class = in_order []
  argument_receivers ((name, method) ∷ methods) in_class = in_order (
      append_to own (codes "\n")
      ∷ start_line own in_class (codes "template <class Handler>\n" ∷ [])
      ∷ start_line own in_class (codes "void begin_receive_method_argument_of_" ∷ [])
      ∷ append_to own name
      ∷ append_to own (
          codes
            "(warpcoil::cpp::buffered_read_stream<AsyncReadStream> &input, warpcoil::request_id const request_id, Handler &&handle_result)\n")
      ∷ block own in_class (receive_argument name method) (codes "\n")
      ∷ argument_receivers methods in_class
      ∷ [])

  unfoldable pub generate_serialization_server :
      (indentation : ℕ) → (name : Text) → InterfaceDefinition → Print
  unfolding server_head argument_receivers
  generate_serialization_server indentation name definition = in_order (
      start_line own indentation (
        codes "template <class Implementation, class AsyncReadStream, class AsyncWriteStream>\n"
        ∷ [])
      ∷ start_line own indentation (codes "struct async_" ∷ [])
      ∷ append_to own name
      ∷ append_to own (codes "_server")
      ∷ append_to own (codes "\n")
      ∷ block own indentation
          (λ in_class. in_order (
            server_head name definition indentation in_class
            ∷ argument_receivers definition in_class
            ∷ []))
          (codes ";\n\n")
      ∷ [])

  unfoldable pub generate_serializable_interface :
      (indentation : ℕ) → (name : Text) → InterfaceDefinition → PrintOrThrow
  unfolding generate_interface generate_type_eraser generate_serialization_client
      generate_serialization_server
  generate_serializable_interface indentation name definition = in_turn (
      returns (generate_interface lexical_cast m_indentation indentation name definition)
      ∷ returns (generate_type_eraser lexical_cast m_indentation indentation name definition)
      ∷ generate_serialization_client lexical_cast m_indentation indentation name definition
      ∷ returns (generate_serialization_server indentation name definition)
      ∷ [])
