-- ===== src/Tests/Receive.antt =====
-- A parse operation for an alternative.
use warpcoil.Base.{ℕ, refl, [], ◌∷◌, map, arith}
use warpcoil.Parse.Integer.{integer_parser}
use warpcoil.Parse.Variant.{variant_parser}
use warpcoil.Parse.Variant.Reading.{variant_parser-Rejects}
use warpcoil.Receive.{begin_parse_value, read_some}
use warpcoil.Receive.Chunks.{Fails, begin_parse_value-Rejects}

begin_parse_value-Rejects_example : Fails (variant_parser (ℕ ∷ []) (integer_parser 2, tt)) (
    begin_parse_value
      (variant_parser (ℕ ∷ []) (integer_parser 2, tt))
      []
      (map read_some ((1 ∷ 7 ∷ []) ∷ [])))
begin_parse_value-Rejects_example =
    begin_parse_value-Rejects (variant_parser (ℕ ∷ []) (integer_parser 2, tt)) (λ s. refl) []
      ((1 ∷ 7 ∷ []) ∷ []) (7 ∷ [])
      (variant_parser-Rejects (ℕ ∷ []) (integer_parser 2, tt) 1 (omega arith) (omega arith)) refl
