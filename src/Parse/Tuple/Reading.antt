-- ===== src/Parse/Tuple/Reading.antt =====
-- What `tuple_parser` reads: its elements, one after the other.
use warpcoil.Base.{ℕ, ◌≡◌, ◌↔◌, refl, sym, ap, List, [], ◌∷◌, ◌++◌, append-nil, inl, inr}
use warpcoil.Parse.Interface.{
  Parser, ParseResult, parse_complete, need_more_input, invalid_input, consumed, Reads, last, more,
}
use warpcoil.Parse.Tuple.{
  Tuple, Parsers, Current, basic_tuple_parser, empty_tuple_parser, parse_tuple_byte, later_done,
  go_to_next_state, indexed_done,
}

-- The bytes are those of the elements, one after the other, each read by a new parser.
abbrev pub ReadsTuple : (As : List (Type 0)) → Parsers As → List ℕ → Tuple As → Type 0
ReadsTuple [] ps bytes as_ = bytes ≡ []
ReadsTuple (A ∷ As) ps bytes as_ =
    (first : List ℕ) × (rest : List ℕ) × (bytes ≡ first ++ rest)
    × Reads ps.0 ps.0.start first as_.0
    × ReadsTuple As ps.1 rest as_.1

module _ {A : Type 0} (p : Parser A) where
  only_element :
      {s : p.State} {bs : List ℕ} {a : A}
      → Reads p s bs a
      → Reads (basic_tuple_parser A [] (p, tt)) (inl s) bs (a, tt)
  unfolding parse_tuple_byte
  only_element (last {s' = x} b e) = last {s' = inl x} b (rw (e, parse_tuple_byte))
  only_element (more b e r) = more b (rw (e, parse_tuple_byte)) (only_element r)

module _ {A B : Type 0} (Bs : List (Type 0)) (p : Parser A) (ps : Parsers (B ∷ Bs)) where
  later_elements :
      {c : Current (B ∷ Bs) ps} {bs : List ℕ} {as_ : Tuple (B ∷ Bs)} (a : A)
      → Reads (basic_tuple_parser B Bs ps) c bs as_
      → Reads (basic_tuple_parser A (B ∷ Bs) (p, ps)) (inr (a, c)) bs (a, as_)
  unfolding parse_tuple_byte
  later_elements a (last {s' = x} b e) = last {s' = inr (a, x)} b (rw (e, parse_tuple_byte))
  later_elements a (more b e r) = more b (rw (e, parse_tuple_byte)) (later_elements a r)

  first_element :
      {s : p.State} {bs rest : List ℕ} {a : A} {as_ : Tuple (B ∷ Bs)}
      → Reads p s bs a
      → Reads (basic_tuple_parser B Bs ps) (inl ps.0.start) rest as_
      → Reads (basic_tuple_parser A (B ∷ Bs) (p, ps)) (inl s) (bs ++ rest) (a, as_)
  unfolding parse_tuple_byte
  first_element {a} (last b e) k = more b (rw (e, parse_tuple_byte)) (later_elements a k)
  first_element (more b e r) k = more b (rw (e, parse_tuple_byte)) (first_element r k)

-- If bytes are those of the elements in order, each read by a new parser of its own,
-- basic_tuple_parser of one element or more reads them as the tuple.
pub basic_tuple_parser-Reads :
    (A : Type 0) (As : List (Type 0)) (ps : Parsers (A ∷ As)) {bytes : List ℕ}
    (as_ : Tuple (A ∷ As))
    → ReadsTuple (A ∷ As) ps bytes as_
    → Reads (basic_tuple_parser A As ps) (inl ps.0.start) bytes as_
basic_tuple_parser-Reads A [] (p, ps) (a, as_) (first, rest, h, r, k) =
    rw (h, k, append-nil) (only_element p r)
basic_tuple_parser-Reads A (B ∷ Bs) (p, ps) (a, as_) (first, rest, h, r, k) =
    rw h (first_element Bs p ps r (basic_tuple_parser-Reads B Bs ps as_ k))

value_of : {A S : Type 0} → A → ParseResult A × S → A
value_of a (parse_complete b input, s) = b
value_of a (need_more_input, s) = a
value_of a (invalid_input, s) = a

module _ {A B : Type 0} (Bs : List (Type 0)) (p : Parser A) (ps : Parsers (B ∷ Bs)) where
  -- What the parser of the later elements did, from what the tuple parser made of it.
  later_complete :
      (a : A) (x : ParseResult (Tuple (B ∷ Bs)) × Current (B ∷ Bs) ps) (as_ : Tuple (A ∷ B ∷ Bs))
      {s : Current (A ∷ B ∷ Bs) (p, ps)}
      → later_done (B ∷ Bs) p ps a x ≡ (parse_complete as_ consumed, s)
      → (c : Current (B ∷ Bs) ps) × (x ≡ (parse_complete as_.1 consumed, c))
  unfolding later_done value_of
  later_complete a (parse_complete t input, c) as_ e =
      let same : t ≡ as_.1 = ap (λ o. (value_of as_ o).1) e in (c, cc (same, e))
  later_complete a (need_more_input, c) as_ e = absurd cc
  later_complete a (invalid_input, c) as_ e = absurd cc

  later_more :
      (a : A) (x : ParseResult (Tuple (B ∷ Bs)) × Current (B ∷ Bs) ps)
      {s : Current (A ∷ B ∷ Bs) (p, ps)}
      → later_done (B ∷ Bs) p ps a x ≡ (need_more_input, s)
      → (c : Current (B ∷ Bs) ps) × (x ≡ (need_more_input, c)) × (s ≡ inr (a, c))
  unfolding later_done
  later_more a (parse_complete t input, c) e = absurd cc
  later_more a (need_more_input, c) e = (c, refl, cc e)
  later_more a (invalid_input, c) e = absurd cc

  later_only :
      {s : Current (A ∷ B ∷ Bs) (p, ps)} {c : Current (B ∷ Bs) ps} {bs : List ℕ} {a : A}
      {as_ : Tuple (A ∷ B ∷ Bs)}
      → Reads (basic_tuple_parser A (B ∷ Bs) (p, ps)) s bs as_
      → s ≡ inr (a, c)
      → Reads (basic_tuple_parser B Bs ps) c bs as_.1
  unfolding parse_tuple_byte
  later_only {c = c} {a = a} {as_ = as_} (last b e) h =
      let (d, k) = later_complete a (parse_tuple_byte (B ∷ Bs) ps c b) as_ (rw h at e) in last b k
  later_only {c = c} {a = a} (more b e r) h =
      let (d, k, same) = later_more a (parse_tuple_byte (B ∷ Bs) ps c b) (rw h at e) in
      more b k (later_only r same)

-- The first byte is taken, and then the elements are parsed.
after_first_byte :
    (B : Type 0) (Bs : List (Type 0)) (ps : Parsers (B ∷ Bs)) {b : ℕ} {bytes : List ℕ}
    {v : Tuple (Unit {0} ∷ B ∷ Bs)}
    → Reads (basic_tuple_parser (Unit {0}) (B ∷ Bs) (empty_tuple_parser, ps)) (inl tt) (b ∷ bytes) v
    → Reads (basic_tuple_parser B Bs ps) (inl ps.0.start) bytes v.1
unfolding parse_tuple_byte go_to_next_state indexed_done
after_first_byte B Bs ps (last b e) = absurd cc
after_first_byte B Bs ps (more b e r) =
    later_only Bs empty_tuple_parser ps {a = tt} r (sym (ap (λ o. o.1) e))

-- The tuple parser with an empty tuple in front of one element or more reads a byte and what
-- follows it as the empty tuple and these elements exactly if the parser of the elements alone
-- reads what follows as them, whatever the byte is: it expects one byte more than was written.
pub basic_tuple_parser-empty :
    (B : Type 0) (Bs : List (Type 0)) (ps : Parsers (B ∷ Bs)) (b : ℕ) (bytes : List ℕ)
    (v : Tuple (B ∷ Bs))
    → Reads
        (basic_tuple_parser (Unit {0}) (B ∷ Bs) (empty_tuple_parser, ps))
        (inl tt)
        (b ∷ bytes)
        (tt, v)
      ↔ Reads (basic_tuple_parser B Bs ps) (inl ps.0.start) bytes v
unfolding parse_tuple_byte
basic_tuple_parser-empty B Bs ps b bytes v =
    (after_first_byte B Bs ps, λ r. more b refl (later_elements Bs empty_tuple_parser ps tt r))
