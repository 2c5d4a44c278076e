-- ===== src/Javascript/Closures.antt =====
-- What the closures for texts, tuples and structures return, from what their parts return.
use warpcoil.Base.{
  ℕ, suc, ◌+◌, ◌<◌, ◌≡◌, refl, subst, List, [], ◌∷◌, ◌++◌, arith, length, length-append, some,
  append_assoc, ==_of_eq, ==_of_ne, lt→ltb,
}
use warpcoil.Types.Syntax.{Identifier, WireType, Elements, Fields, nil, cons, end, field}
use warpcoil.Parse.Interface.{last, more, need_more_input, parse_complete, consumed}
use warpcoil.Javascript.Values.{
  pos, Value, Values, Properties, number, text, array, object, push, set_property,
}
use warpcoil.Javascript.Parsing.{
  Closure, completed, parse_text, parse_content, parse_elements, parse_members,
  generate_parser_creation, call_closure, content_called, element_called, member_called, Returns,
}

add_one : (n : ℕ) → n + 1 ≡ suc n
add_one n = omega arith

content_more :
    (byte_length : ℕ) (content : List ℕ) (b : ℕ)
    → suc (length content) < byte_length
    → call_closure (parse_content byte_length (length content) content) b ≡ (
      need_more_input,
      parse_content byte_length (length (content ++ b ∷ [])) (content ++ b ∷ []),
    )
unfolding call_closure content_called
content_more byte_length content b h =
    rw
      (
        lt→ltb (length content) byte_length (omega arith),
        ==_of_ne (suc (length content)) byte_length h,
        length-append content (b ∷ []),
        add_one (length content),
      )
      refl

content_last :
    (byte_length : ℕ) (content : List ℕ) (b : ℕ)
    → suc (length content) ≡ byte_length
    → call_closure (parse_content byte_length (length content) content) b
      ≡ (parse_complete (text (content ++ b ∷ [])) consumed, completed)
unfolding call_closure content_called
content_last byte_length content b h =
    rw
      (
        lt→ltb (length content) byte_length (omega arith),
        ==_of_eq (suc (length content)) byte_length h,
      )
      refl

-- The content is complete with its last byte.
pub content-Returns :
    (byte_length : ℕ) (content : List ℕ) (b : ℕ) (bs : List ℕ)
    → length content + length (b ∷ bs) ≡ byte_length
    → Returns
        (parse_content byte_length (length content) content)
        (b ∷ bs)
        (text (content ++ (b ∷ bs)))
content-Returns byte_length content b [] h =
    last b (content_last byte_length content b (omega arith))
content-Returns byte_length content b (c ∷ bs) h =
    more b (content_more byte_length content b (omega arith)) (
      subst
        (λ x.
          Returns (parse_content byte_length (length (content ++ b ∷ [])) (content ++ b ∷ []))
            (c ∷ bs) (text x))
        (append_assoc content (b ∷ []) (c ∷ bs))
        (content-Returns byte_length (content ++ b ∷ []) c bs
          (omega (arith, length-append content (b ∷ [])))))

-- A text that is not empty.
pub all_content : (v : List ℕ) → 0 < length v → Returns (parse_content (length v) 0 []) v (text v)
all_content [] h = absurd (omega arith)
all_content (b ∷ bs) h = content-Returns (length (b ∷ bs)) [] b bs (omega arith)

pub text-Returns :
    {c : Closure} {bytes rest : List ℕ} {byte_length : ℕ} {v : Value}
    → Returns c bytes (number (pos byte_length))
    → Returns (parse_content byte_length 0 []) rest v
    → Returns (parse_text c) (bytes ++ rest) v
unfolding call_closure
text-Returns (last b e) k = more b (rw e refl) k
text-Returns (more b e r) k = more b (rw e refl) (text-Returns r k)

module _ (ts : Elements) (elements : Values) where
  -- The last element of a tuple.
  pub only_element :
      {c : Closure} {bytes : List ℕ} {v : Value}
      → Returns c bytes v
      → Returns (parse_elements nil elements c) bytes (array (push elements v))
  unfolding call_closure element_called
  only_element (last b e) = last {s' = completed} b (rw e refl)
  only_element (more b e r) = more b (rw e refl) (only_element r)

  pub next_element :
      {t : WireType} {c next : Closure} {bytes rest : List ℕ} {v w : Value}
      → generate_parser_creation t ≡ some next
      → Returns c bytes v
      → Returns (parse_elements ts (push elements v) next) rest w
      → Returns (parse_elements (cons t ts) elements c) (bytes ++ rest) w
  unfolding call_closure element_called
  next_element {t} g (last b e) k = more b (rw (e, g) refl) k
  next_element {t} g (more b e r) k = more b (rw e refl) (next_element {t = t} g r k)

module _ (name : Identifier) (fs : Fields) (result : Properties) where
  -- The last element of a structure.
  pub only_member :
      {c : Closure} {bytes : List ℕ} {v : Value}
      → Returns c bytes v
      → Returns (parse_members name end result c) bytes (object (set_property name v result))
  unfolding call_closure member_called
  only_member (last b e) = last {s' = completed} b (rw e refl)
  only_member (more b e r) = more b (rw e refl) (only_member r)

  pub next_member :
      {t : WireType} {key : Identifier} {c next : Closure} {bytes rest : List ℕ} {v w : Value}
      → generate_parser_creation t ≡ some next
      → Returns c bytes v
      → Returns (parse_members key fs (set_property name v result) next) rest w
      → Returns (parse_members name (field t key fs) result c) (bytes ++ rest) w
  unfolding call_closure member_called
  next_member {t} g (last b e) k = more b (rw (e, g) refl) k
  next_member {t} g (more b e r) k = more b (rw e refl) (next_member {t = t} g r k)
