-- ===== src/Javascript.antt =====
-- warpcoil/javascript.hpp: the JavaScript that the library prints for an interface. The generators
-- print text; modelled is what the printed script does.
pub mod Texts
pub mod Values
pub mod Parsing
pub mod Integers
pub mod Reading
pub mod Closures
pub mod Representation
pub mod Writing
pub mod Peer
pub mod Answers
pub mod Receiving
pub mod Buffers
pub mod Writes
pub mod Sending
pub mod Agreement
pub mod Serving
