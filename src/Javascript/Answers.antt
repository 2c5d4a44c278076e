-- ===== src/Javascript/Answers.antt =====
-- A response of the C++ server, as the input receiver of the script takes it.
use warpcoil.Types.Syntax.{
  WireType, Elements, Fields, integer, variant, tuple, vector, utf8, structure, nil, cons, end,
  field,
}
use warpcoil.Wire.Values.{ValueOf, element_values, field_values}
use warpcoil.Parse.Tuple.{Tuple}
use warpcoil.Wire.Conforms.{Conforms, IsSized, IsSizedElements, IsSizedFields}
use warpcoil.Generated.Server.{Server}
use warpcoil.Javascript.Representation.{IsReadable, AreReadable, AreReadableMembers}
use warpcoil.Javascript.Peer.{Peer}

mutual
  pub readable-IsSized : (t : WireType) (v : ValueOf t) → IsReadable t v → IsSized t
  readable-IsSized (integer r) v h = tt
  readable-IsSized (variant root) v h = absurd h
  readable-IsSized (tuple nil) v h = absurd h
  readable-IsSized (tuple (cons t ts)) v h =
      (readable-IsSized t v.0 h.0, elements-IsSized ts v.1 h.1)
  readable-IsSized (vector r t) v h = absurd h
  readable-IsSized (utf8 r) v h = tt
  readable-IsSized (structure end) v h = absurd h
  readable-IsSized (structure (field t n fs)) v h =
      (readable-IsSized t v.0 h.0, members-IsSized fs v.1 h.1)

  elements-IsSized :
      (ts : Elements) (v : Tuple (element_values ts)) → AreReadable ts v → IsSizedElements ts
  elements-IsSized nil v h = tt
  elements-IsSized (cons t ts) v h = (readable-IsSized t v.0 h.0, elements-IsSized ts v.1 h.1)

  members-IsSized :
      (fs : Fields) (v : Tuple (field_values fs)) → AreReadableMembers fs v → IsSizedFields fs
  members-IsSized end v h = tt
  members-IsSized (field t n fs) v h = (readable-IsSized t v.0 h.0, members-IsSized fs v.1 h.1)
