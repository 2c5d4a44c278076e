-- ===== src/Parse.antt =====
-- The incremental parsers of warpcoil/cpp: what they share (Interface), one module for each class
-- template, and for each the byte strings that it reads (Reads and the child modules).
pub mod Interface
pub mod Integer
pub mod Utf8
pub mod Vector
pub mod Tuple
pub mod Variant
