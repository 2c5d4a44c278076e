-- ===== src/Tests.antt =====
-- Runs of the definitions on small inputs, and the theorems at concrete arguments.
pub mod Parse
pub mod Wire
pub mod Printed
pub mod Receive
pub mod Writer
pub mod Splitter
pub mod Types
pub mod Registry
pub mod Client
pub mod Generated
pub mod Javascript
pub mod Futures
pub mod GeneratedFile
pub mod Text
pub mod Websocket
