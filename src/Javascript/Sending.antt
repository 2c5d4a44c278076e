-- ===== src/Javascript/Sending.antt =====
-- The buffer that a method of the script's client sends, and what the C++ client sends.
use warpcoil.Base.{
  ℕ, ◌≡◌, refl, sym, ap, Bool, false, List, [], ◌∷◌, ◌++◌, some, arith, length, length-append,
  append-nil,
}
use warpcoil.Types.Syntax.{
  WireType, Elements, Parameter, integer, variant, tuple, vector, utf8, structure, nil, cons, end,
  field,
}
use warpcoil.Types.Clone.{declared}
use warpcoil.Parse.Tuple.{Tuple}
use warpcoil.Wire.Values.{ValueOf, element_values}
use warpcoil.Wire.Serialize.{generate_value_serialization, serialize_elements}
use warpcoil.Wire.RoundTrip.Lemmas.{Adds, proceed-Adds, Adds-map}
use warpcoil.Wire.Conforms.{IsSized, IsSizedElements}
use warpcoil.Client.{Client}
use warpcoil.Generated.Stub.{Arguments}
use warpcoil.Javascript.Representation.{in_script, items_in_script}
use warpcoil.Javascript.Writing.{at_place, generate_serialization}
use warpcoil.Javascript.Buffers.{Does, then-Does, skip-Does}
use warpcoil.Javascript.Writes.{IsPlain, ArePlain, IsWritable, Writes}
use warpcoil.Javascript.Peer.Requests.{serialize_parameters, size_of_parameters}
use warpcoil.Javascript.Agreement.{writable-Adds}

-- The script can write all arguments.
abbrev pub AreWritable : (ps : List Parameter) → Arguments ps → Type 0
AreWritable [] arguments = Unit {0}
AreWritable (p ∷ ps) arguments = IsWritable p.type_ arguments.0 × AreWritable ps arguments.1

abbrev WritesParameters : (ps : List Parameter) → Arguments ps → List ℕ → Type 0
WritesParameters ps arguments bytes =
    Does (λ o. serialize_parameters ps (items_in_script (declared ps) arguments) o) bytes
    × (size_of_parameters ps (items_in_script (declared ps) arguments) ≡ some (length bytes))

no_rest : (n : ℕ) (bs : List ℕ) → some n ≡ some (length bs) → n ≡ 0 → bs ≡ []
no_rest n [] e h = refl
no_rest n (b ∷ bs) e h = let k : n ≡ length (b ∷ bs) = cc in absurd (omega arith)

parameters-Writes :
    (p : Parameter) (ps : List Parameter) (v : ValueOf p.type_) (vs : Arguments ps) (a b : List ℕ)
    → Writes false p.type_ v a
    → WritesParameters ps vs b
    → WritesParameters (p ∷ ps) (v, vs) (a ++ b)
unfolding serialize_parameters size_of_parameters items_in_script
parameters-Writes p [] v vs a b (f, n) (g, m) =
    rw (no_rest 0 b m refl, append-nil) (f, rw n (ap some (omega arith)))
parameters-Writes p (q ∷ ps) v vs a b (f, n) (g, m) = (
  rw n (
      then-Does (λ o. generate_serialization p.type_ (in_script p.type_ v) (at_place o))
        (λ o. serialize_parameters (q ∷ ps) (items_in_script (declared (q ∷ ps)) vs) o) a b f g),
  rw (n, m) (ap some (sym (length-append a b))),
)

module _ (is_valid : List ℕ → Bool) where
  pub parameters-Adds :
      (ps : List Parameter) (vs : Arguments ps) (sink : List ℕ)
      → AreWritable ps vs
      → Adds (WritesParameters ps vs) sink (serialize_elements is_valid (declared ps) vs sink)
  unfolding generate_value_serialization serialize_parameters size_of_parameters
  parameters-Adds [] vs sink h = λ e. ([], sym (append-nil sink), (skip-Does, refl))
  parameters-Adds (p ∷ ps) (v, vs) sink h =
      Adds-map _ _ sink _ (λ bytes (a, b, e, f, g). rw e (parameters-Writes p ps v vs a b f g))
        (proceed-Adds _ _ sink (serialize_elements is_valid (declared ps) vs)
          (generate_value_serialization is_valid p.type_ v sink)
          (writable-Adds is_valid p.type_ v sink h.0) (λ s. parameters-Adds ps vs s h.1))

mutual
  plain-IsSized : (t : WireType) (v : ValueOf t) → IsPlain t v → IsSized t
  plain-IsSized (integer r) v h = tt
  plain-IsSized (utf8 r) v h = tt
  plain-IsSized (tuple nil) v h = tt
  plain-IsSized (structure end) v h = tt
  plain-IsSized (tuple (cons t ts)) v h = absurd h
  plain-IsSized (structure (field t n fs)) v h = absurd h
  plain-IsSized (variant root) v h = absurd h
  plain-IsSized (vector r t) v h = absurd h

  elements-IsSized :
      (ts : Elements) (v : Tuple (element_values ts)) → ArePlain ts v → IsSizedElements ts
  elements-IsSized nil v h = tt
  elements-IsSized (cons t ts) v h = (plain-IsSized t v.0 h.0, elements-IsSized ts v.1 h.1)
