-- ===== src/Text/Servers/Headers.antt =====
-- The text of a server in front of the functions that receive arguments, from
-- warpcoil/cpp/generate/generate_serialization_server.hpp.
use warpcoil.Base.{ℕ, Bool, true, false, [], ◌∷◌, codes}
use warpcoil.Generated.Interface.{InterfaceDefinition}
use warpcoil.Text.{Text, own, Print, append_to, in_order, start_line, deeper, block, render}

-- What ends a lambda that gets the handler.
abbrev pub wrapped_end : Text
wrapped_end = codes ", std::forward<Handler>(handle_result)));\n"

-- The statements of `serve_one_request`.
unfoldable pub print_serve_one_request : ℕ → Print
print_serve_one_request in_method = in_order (
    start_line own in_method (
      codes
        "using handler_type = typename boost::asio::handler_type<decltype(token), void(boost::system::error_code)>::type;\n"
      ∷ [])
    ∷ start_line own in_method
        (codes "handler_type handler(std::forward<CompletionToken>(token));\n" ∷ [])
    ∷ start_line own in_method
        (codes "boost::asio::async_result<handler_type> result(handler);\n" ∷ [])
    ∷ start_line own in_method (codes "begin_receive_request_header(std::move(handler));\n" ∷ [])
    ∷ start_line own in_method (codes "return result.get();\n" ∷ [])
    ∷ [])

unfoldable pub call_argument_receiver : Text → ℕ → Print
call_argument_receiver name in_here = in_order (
    render own in_here
    ∷ append_to own (codes "begin_receive_method_argument_of_")
    ∷ append_to own name
    ∷ append_to own (
        codes
          "(requests.lock_input(), std::get<0>(request.get()), std::forward<Handler>(handle_result));\n")
    ∷ [])

abbrev pub else_if : (first : Bool) → Text
else_if true = []
else_if false = codes "else "

-- The loop over the methods, by `first`.
unfoldable pub print_dispatch : (first : Bool) → InterfaceDefinition → ℕ → Print
unfolding call_argument_receiver
print_dispatch first [] on_result = in_order []
print_dispatch first ((name, method) ∷ methods) on_result = in_order (
    render own on_result
    ∷ append_to own (else_if first)
    ∷ append_to own
        (codes "if (boost::range::equal(std::get<1>(request.get()), Si::make_c_str_range(\"")
    ∷ append_to own name
    ∷ append_to own (codes "\")))\n")
    ∷ block own on_result (call_argument_receiver name) (codes "\n")
    ∷ print_dispatch false methods on_result
    ∷ [])

unfoldable pub handle_header : InterfaceDefinition → ℕ → Print
unfolding print_dispatch
handle_header definition on_result = in_order (
    start_line own on_result (
      codes
        "if (request.is_error()) { std::forward<Handler>(handle_result)(request.error()); return; }\n"
      ∷ [])
    ∷ print_dispatch true definition on_result
    ∷ start_line own on_result
        (codes "else { throw std::logic_error(\"to do: handle unknown method name\"); }\n" ∷ [])
    ∷ [])

-- The statements of `begin_receive_request_header`.
unfoldable pub receive_header : InterfaceDefinition → ℕ → Print
unfolding handle_header
receive_header definition in_method = in_order (
    start_line own in_method (
      codes
        "requests.wait_for_request(warpcoil::cpp::wrap_handler([this](Si::error_or<std::tuple<warpcoil::request_id, std::string>> const &request, Handler &handle_result)\n"
      ∷ [])
    ∷ block own in_method (handle_header definition) wrapped_end
    ∷ [])

-- What is in front of the functions that receive arguments.
unfoldable pub server_head : Text → InterfaceDefinition → (indentation in_class : ℕ) → Print
unfolding print_serve_one_request receive_header
server_head name definition indentation in_class = in_order (
    start_line own in_class (codes "explicit async_" ∷ [])
    ∷ append_to own name
    ∷ append_to own (
        codes
          "_server(Implementation &implementation, warpcoil::cpp::message_splitter<AsyncReadStream> &requests, warpcoil::cpp::buffered_writer<AsyncWriteStream> &responses)\n")
    ∷ start_line own (deeper in_class) (
        codes ": implementation(implementation), requests(requests), responses(responses) {}\n\n"
        ∷ [])
    ∷ start_line own in_class (codes "template <class CompletionToken>\n" ∷ [])
    ∷ start_line own in_class (codes "auto serve_one_request(CompletionToken &&token)\n" ∷ [])
    ∷ block own in_class print_serve_one_request (codes "\n\n")
    ∷ start_line own indentation (codes "private:\n" ∷ [])
    ∷ start_line own in_class (codes "Implementation &implementation;\n" ∷ [])
    ∷ start_line own in_class
        (codes "warpcoil::cpp::message_splitter<AsyncReadStream> &requests;\n" ∷ [])
    ∷ start_line own in_class
        (codes "warpcoil::cpp::buffered_writer<AsyncWriteStream> &responses;\n\n" ∷ [])
    ∷ start_line own in_class (codes "template <class Handler>\n" ∷ [])
    ∷ start_line own in_class
        (codes "void begin_receive_request_header(Handler &&handle_result)\n" ∷ [])
    ∷ block own in_class (receive_header definition) (codes "\n")
    ∷ [])
