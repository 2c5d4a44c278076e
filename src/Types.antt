-- ===== src/Types.antt =====
-- warpcoil/types.hpp: the wire types, with `clone` and `get_parameter_type` (Syntax), and the
-- strict order `less` on them, which keys the set of generated structures.
pub mod Syntax
pub mod Clone
pub mod Less
pub mod Order
