-- ===== src/Generated.antt =====
-- The classes that are generated for an interface: the client's methods and the server.
pub mod Interface
pub mod Stub
pub mod Server
pub mod Calls
