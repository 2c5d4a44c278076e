-- ===== src/Receive/Messages.antt =====
-- A value that one side serializes arrives at the other side, however the stream cuts it.
use warpcoil.Base.{ℕ, ◌≡◌, refl, List, [], ◌++◌, map, Bool, inl, inr}
use warpcoil.Types.Syntax.{
  WireType, integer, variant, tuple, vector, utf8, structure, nil, cons, end, field,
}
use warpcoil.Parse.Interface.{Parser}
use warpcoil.Parse.Tuple.{check_tuple, basic_tuple_parser}
use warpcoil.Wire.Values.{ValueOf, generate_parser_type}
use warpcoil.Wire.Serialize.{ok, generate_value_serialization}
use warpcoil.Wire.RoundTrip.{IsSolid, generate_value_serialization-Reads}
use warpcoil.Receive.{read_some, begin_parse_value}
use warpcoil.Receive.Chunks.{concat, NeverImmediate, Delivers, begin_parse_value-Reads}

single :
    {A : Type 0} (p : Parser A)
    → NeverImmediate p
    → NeverImmediate (basic_tuple_parser A [] (p, tt))
unfolding check_tuple
single p never (inl s) = rw (never s, check_tuple)
single p never (inr c) = refl

module _ (is_valid : List ℕ → Bool) where
  -- The parser of a solid type always looks at a byte first.
  mutual
    unfolding check_tuple

    pub solid-NeverImmediate :
        (t : WireType) → IsSolid t → NeverImmediate (generate_parser_type is_valid t)
    solid-NeverImmediate (integer range) h = λ s. refl
    solid-NeverImmediate (variant root) h = λ s. refl
    solid-NeverImmediate (tuple nil) h = absurd h.0
    solid-NeverImmediate (tuple (cons t nil)) h =
        single (generate_parser_type is_valid t) (solid-NeverImmediate t h.1.0)
    solid-NeverImmediate (tuple (cons t (cons u ts))) h = λ s. refl
    solid-NeverImmediate (vector range t) h = λ s. refl
    solid-NeverImmediate (utf8 code_units) h = λ s. refl
    solid-NeverImmediate (structure end) h = absurd h.0
    solid-NeverImmediate (structure (field t n end)) h =
        single (generate_parser_type is_valid t) (solid-NeverImmediate t h.1.0)
    solid-NeverImmediate (structure (field t n (field u m fs))) h = λ s. refl

  -- If a value of a solid type (no empty tuple or structure at any depth, at most 256
  -- alternatives in a variant, upper bounds below 2^64) is serialized without an error behind an
  -- empty sink, a parse operation for the type that receives these bytes, with any others behind
  -- them and cut into a buffer and reads in any way, calls its handler with the value and leaves
  -- the others in the buffer and the stream.
  pub transfer :
      (t : WireType)
      → IsSolid t
      → (v : ValueOf t) → (generate_value_serialization is_valid t v []).1 ≡ ok
      → (buffer : List ℕ) (chunks : List (List ℕ)) (rest : List ℕ)
      → buffer ++ concat chunks ≡ (generate_value_serialization is_valid t v []).0 ++ rest
      → Delivers
          (generate_parser_type is_valid t)
          (begin_parse_value (generate_parser_type is_valid t) buffer (map read_some chunks))
          v
          rest
  transfer t h v good buffer chunks rest e =
      let (bytes, w, r) = generate_value_serialization-Reads is_valid t h v [] good in
      begin_parse_value-Reads (generate_parser_type is_valid t) (solid-NeverImmediate t h) buffer
        chunks rest r (rw w at e)
