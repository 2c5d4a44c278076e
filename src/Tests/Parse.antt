-- ===== src/Tests/Parse.antt =====
-- The parsers on short inputs.
use Prim.Native.Nat.{compare, Ordering}
use warpcoil.Base.{ℕ, ◌↔◌, Bool, true, false, List, [], ◌∷◌, inl}
use warpcoil.Parse.Interface.{Reads}
use warpcoil.Parse.Integer.{integer_parser}
use warpcoil.Parse.Tuple.{basic_tuple_parser, empty_tuple_parser}
use warpcoil.Parse.Tuple.Reading.{basic_tuple_parser-empty}

-- A stand-in for `utf8::is_valid` that knows the one-byte code units only.
abbrev pub ascii : List ℕ → Bool
ascii [] = true
ascii (c ∷ cs) = elim (compare c 128) [ Ordering.lt ↦ ascii cs | _ ↦ false ]

-- The byte 99 stands for nothing: it is taken for the empty tuple.
basic_tuple_parser-empty_example :
    Reads
      (basic_tuple_parser (Unit {0}) (ℕ ∷ []) (empty_tuple_parser, (integer_parser 1, tt)))
      (inl tt)
      (99 ∷ 7 ∷ [])
      (tt, (7, tt))
    ↔ Reads
        (basic_tuple_parser ℕ [] (integer_parser 1, tt))
        (inl (integer_parser 1).start)
        (7 ∷ [])
        (7, tt)
basic_tuple_parser-empty_example =
    basic_tuple_parser-empty ℕ [] (integer_parser 1, tt) 99 (7 ∷ []) (7, tt)
