-- ===== src/Lib.antt =====
-- warpcoil: remote procedure calls over a stream of bytes. From an interface definition the library
-- generates types, serialization and parsers; at run time requests and responses go through a
-- buffered writer, and what comes in goes through a message splitter and parse operations.
--
-- The parts, and the files that model them:
--
-- * Types (warpcoil/types.hpp). The wire types with `clone` and `get_parameter_type` are in
--   Types/Syntax, the order `less` in Types/Less; Types/Clone and Types/Order are about them. A
--   `std::vector` of types is a data type of its own, since a type cannot hold a list of itself.
-- * Parse (warpcoil/cpp/*_parser.hpp, parse_result.hpp, write_integer.hpp). A parser class is a
--   record `Parser`: its state, a new object, `parse_byte` and `check_for_immediate_completion`.
--   `Reads p s bytes a` says that the parser asks for more input up to the last byte and is then
--   complete with `a`; `Rejects` that it refuses the last byte. Each parser has a file, and a
--   child module Reading on what it reads.
-- * Wire (warpcoil/cpp/generate/generate_type.hpp, generate_parser_type.hpp,
--   generate_value_serialization.hpp, and the parsers that shared_code_generator.hpp prints for
--   structures). The generators print C++; modelled is what the printed code is and does: the type
--   `ValueOf t` of values, the parser `generate_parser_type t`, and the statements
--   `generate_value_serialization t v` on a sink. Wire/RoundTrip and Wire/Conforms relate them.
-- * Receive (warpcoil/cpp/begin_parse_value.hpp). A parse operation over the receive buffer and the
--   reads of the stream; Receive/Chunks is about how the bytes are cut, Receive/Messages joins it
--   with the serialization of the other side.
-- * Writer (warpcoil/cpp/buffered_writer.hpp). A history is a list of events: calls of the user,
--   the end of the write in flight, and the return of handlers.
-- * Splitter (warpcoil/cpp/message_splitter.hpp, protocol.hpp). A state with one function per
--   member; `none` is a failed assertion or the call of an empty `std::function`. Handlers are code
--   of the user, so their calls are logged, and what follows their return is on a stack.
-- * Registry (warpcoil/cpp/expected_response_registry.hpp). The requests that wait for a response;
--   a history is a list of events, and `none` is a failed assertion.
-- * Client (warpcoil/cpp/client_pipeline.hpp). A request over the writer and the registry.
-- * Generated (warpcoil/cpp/generate/generate_serialization_client.hpp and
--   generate_serialization_server.hpp, and interface_definition of warpcoil/types.hpp). What a
--   printed method of a client does (Stub) and the printed server (Server), which is a state with
--   one function per lambda; Calls follows a call to the implementation and its result back.
-- * Javascript (warpcoil/javascript.hpp). What the printed script does: the values that it handles
--   (Values), its parsers as closures (Parsing), how it writes values (Writing), and the client and
--   the input receiver (Peer). Integers, Closures, Reading, Receiving, Answers and Serving are about
--   what it makes of the bytes of the C++ side, Buffers, Writes, Agreement and Sending about what it
--   writes, for the values that Representation gives. Texts says what the code units of a text are;
--   the script converts no text, so what is said of its texts is about ASCII.
-- * Futures (warpcoil/future.hpp, warpcoil/then.hpp). The shared state of a future and the counter
--   of `when_all`; Calls and Joining say which handlers are called. Then is about `future::then`,
--   Actions about the completion token of then.hpp.
-- * GeneratedFile (warpcoil/update_generated_file.hpp). The command line tool around a generator;
--   Outcome is about what is in the file afterwards.
-- * Websocket (warpcoil/beast.hpp). The adaptor that makes a stream of the messages of a websocket,
--   with one function per member; Bytes and Handlers are about its histories, Reading about the
--   reads of a parse operation over it, Messages joins it with the serialization of the other side.
-- * Text (warpcoil/block.hpp, comma_separator.hpp, and the generators in warpcoil/cpp/generate).
--   What these print, as functions of two sinks and the set of the structures that were generated;
--   those that can end with an exception return an `Option`. Names, Types, Interfaces,
--   Serialization, Clients and Servers hold the generators; Structures is about the set, Brackets
--   about the text.
-- * Tests. Runs on small inputs and the theorems at concrete arguments.
--
-- Numbers are natural numbers with the wrap-around of the machine type written out. All loops are
-- structural recursion on the bytes, the elements or the events, so no fuel is needed; only
-- `read_all` of Websocket/Reading counts reads, and says how many are enough. Parameters
-- are `utf8::is_valid` of the utf8cpp library (any test on bytes), what the reads of a stream
-- return, when a write ends, what a websocket receives, the text of a number that
-- `boost::lexical_cast` makes, what is left of a result that was moved from, and the files and
-- processes of the ventura library.
--
-- Not modelled: the text of the generated scripts, of which modelled is what they do; the
-- constant text of the includes; the handler hooks of boost::asio; and the examples, benchmarks
-- and tests.
pub mod Base
pub mod Text
pub mod Types
pub mod Parse
pub mod Websocket
pub mod Wire
pub mod Receive
pub mod Writer
pub mod Splitter
pub mod Registry
pub mod Client
pub mod Generated
pub mod Javascript
pub mod Futures
pub mod GeneratedFile
pub mod Tests
