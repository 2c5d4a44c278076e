-- ===== src/Generated/Calls.antt =====
-- A call from the client's method to the implementation behind the server, and back.
pub mod Request
pub mod Response
use warpcoil.Base.{
  ℕ, ◌<◌, ◌^◌, ◌≡◌, refl, sym, ◌∙◌, ap, subst, Bool, true, false, List, [], ◌∷◌, ◌++◌, append_assoc,
  append-nil, some, arith, length, ◌⊎◌, inl, inr,
}
use mathlib.Core.Path.{path_j, subst_refl}
use warpcoil.Types.Syntax.{
  Elements, Fields, Identifier, WireType, Parameter, integer, variant, tuple, vector, utf8,
  structure, nil, cons, end, field, get_parameter_type,
}
use warpcoil.Types.Clone.{declared, get_parameter_type-declared}
use warpcoil.Wire.Values.{ValueOf, generate_parser_type}
use warpcoil.Wire.Serialize.{
  Statements, ok, failure, skip, generate_value_serialization, serialize_elements,
}
use warpcoil.Wire.RoundTrip.{
  IsSolid, IsSolidElements, IsSolidFields, generate_value_serialization-Reads,
}
use warpcoil.Receive.{start, called, value}
use warpcoil.Receive.Messages.{solid-NeverImmediate}
use warpcoil.Splitter.Headers.{start-Reads}
use warpcoil.Wire.Conforms.{IsSized, IsSizedElements, IsSizedFields}
use warpcoil.Generated.Stub.{Arguments, build_request}

pub pair_eq : {A B : Type 0} (r : A × B) {a : A} {b : B} → r.0 ≡ a → r.1 ≡ b → r ≡ (a, b)
pair_eq (x, y) e f = cc (e, f)

-- The empty tuple and structures without elements.
abbrev pub IsVoid : WireType → Type 0
IsVoid (tuple nil) = Unit {0}
IsVoid (structure end) = Unit {0}
IsVoid _ = ⊥

-- What parameters and results can be: nothing, or a solid type.
abbrev pub IsCarried : WireType → Type 0
IsCarried t = IsSolid t ⊎ IsVoid t

module _ (is_valid : List ℕ → Bool) where
  -- The bytes of a value are there as a whole: the parse operation is complete at once.
  pub start-serialized :
      (t : WireType)
      → IsCarried t
      → (v : ValueOf t) (sink rest : List ℕ)
      → (generate_value_serialization is_valid t v sink).1 ≡ ok
      → (bytes : List ℕ) × ((generate_value_serialization is_valid t v sink).0 ≡ sink ++ bytes)
        × (start
              (generate_parser_type is_valid t)
              (generate_parser_type is_valid t).start
              (bytes ++ rest)
            ≡ (called (value v), rest))
  unfolding start generate_value_serialization
  start-serialized t (inl h) v sink rest e =
      let (bytes, w, r) = generate_value_serialization-Reads is_valid t h v sink e in
      (
        bytes,
        w,
        start-Reads (generate_parser_type is_valid t) bytes rest (solid-NeverImmediate is_valid t h)
            r,
      )
  start-serialized (tuple nil) (inr h) v sink rest e = ([], sym (append-nil sink), refl)
  start-serialized (structure end) (inr h) v sink rest e = ([], sym (append-nil sink), refl)
  start-serialized (tuple (cons t ts)) (inr h) v sink rest e = absurd h
  start-serialized (structure (field t n fs)) (inr h) v sink rest e = absurd h
  start-serialized (integer r) (inr h) v sink rest e = absurd h
  start-serialized (variant r) (inr h) v sink rest e = absurd h
  start-serialized (vector r t) (inr h) v sink rest e = absurd h
  start-serialized (utf8 r) (inr h) v sink rest e = absurd h

  -- A value of a type, taken as one of an equal type, is written in the same way.
  serialization_subst :
      (t u : WireType) (e : t ≡ u) (v : ValueOf t)
      → generate_value_serialization is_valid u (subst ValueOf e v)
        ≡ generate_value_serialization is_valid t v
  serialization_subst t u e v =
      path_j
        (λ u e.
          generate_value_serialization is_valid u (subst ValueOf e v)
          ≡ generate_value_serialization is_valid t v)
        (ap (generate_value_serialization is_valid t) (subst_refl ValueOf v)) e

-- The arguments as the caller passes them: `clone` has made another, equal, type for the server.
abbrev pub as_declared : (ps : List Parameter) → ValueOf (get_parameter_type ps) → Arguments ps
as_declared ps v = subst ValueOf (get_parameter_type-declared ps) v

module _ (is_valid : List ℕ → Bool) where
  pub build_request_lem :
      (name : Identifier) (ps : List Parameter) (v : ValueOf (get_parameter_type ps))
      (sink : List ℕ)
      → build_request is_valid name ps (as_declared ps v) sink
        ≡ generate_value_serialization is_valid
            (get_parameter_type ps)
            v
            ((sink ++ length name ∷ []) ++ name)
  unfolding build_request generate_value_serialization
  build_request_lem name ps v sink =
      ap (λ f. f ((sink ++ length name ∷ []) ++ name))
        (serialization_subst is_valid (get_parameter_type ps) (tuple (declared ps))
          (get_parameter_type-declared ps) v)

mutual
  solid-IsSized : (t : WireType) → IsSolid t → IsSized t
  solid-IsSized (integer r) h = tt
  solid-IsSized (variant root) h = (omega arith, elements-IsSized root h.1)
  solid-IsSized (tuple root) h = elements-IsSized root h.1
  solid-IsSized (vector r t) h = solid-IsSized t h.1
  solid-IsSized (utf8 r) h = tt
  solid-IsSized (structure root) h = fields-IsSized root h.1

  elements-IsSized : (ts : Elements) → IsSolidElements ts → IsSizedElements ts
  elements-IsSized nil h = tt
  elements-IsSized (cons t ts) h = (solid-IsSized t h.0, elements-IsSized ts h.1)

  fields-IsSized : (fs : Fields) → IsSolidFields fs → IsSizedFields fs
  fields-IsSized end h = tt
  fields-IsSized (field t n fs) h = (solid-IsSized t h.0, fields-IsSized fs h.1)

void-IsSized : (t : WireType) → IsVoid t → IsSized t
void-IsSized (tuple nil) h = tt
void-IsSized (structure end) h = tt
void-IsSized (tuple (cons t ts)) h = absurd h
void-IsSized (structure (field t n fs)) h = absurd h
void-IsSized (integer r) h = absurd h
void-IsSized (variant r) h = absurd h
void-IsSized (vector r t) h = absurd h
void-IsSized (utf8 r) h = absurd h

pub carried-IsSized : (t : WireType) → IsCarried t → IsSized t
carried-IsSized t (inl h) = solid-IsSized t h
carried-IsSized t (inr h) = void-IsSized t h
