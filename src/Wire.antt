-- ===== src/Wire.antt =====
-- What the code that warpcoil/cpp/generate emits for a wire type does: the C++ type of its values,
-- the parser that is instantiated for it, and the statements that serialize a value.
pub mod Values
pub mod Serialize
pub mod RoundTrip
pub mod Conforms
