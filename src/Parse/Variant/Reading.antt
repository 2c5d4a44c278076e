-- ===== src/Parse/Variant/Reading.antt =====
-- What `variant_parser` reads and refuses: the index of an alternative, and the alternative.
use warpcoil.Base.{ℕ, zero, suc, ◌≤◌, ◌≡◌, refl, List, [], ◌∷◌, none, some, inl, inr, length, arith}
use warpcoil.Parse.Interface.{Parser, Reads, last, more, Rejects, wrong}
use warpcoil.Parse.Integer.Reading.{IsByte, parse_integer_byte_single}
use warpcoil.Parse.Tuple.{Parsers}
use warpcoil.Parse.Variant.{
  Variant, Chosen, parsing_index, parsing_element, switch_to_state, variant_parser,
  parse_variant_byte, parse_alternative,
}

-- The bytes are those of the value of its alternative, read by a new parser.
abbrev pub ReadsAlternative : (As : List (Type 0)) → Parsers As → List ℕ → Variant As → Type 0
ReadsAlternative [] ps bytes v = ⊥
ReadsAlternative (A ∷ As) ps bytes (inl a) = Reads ps.0 ps.0.start bytes a
ReadsAlternative (A ∷ As) ps bytes (inr v) = ReadsAlternative As ps.1 bytes v

-- `index()`
unfoldable pub index : (As : List (Type 0)) → Variant As → ℕ
index [] v = 0
index (A ∷ As) (inl a) = 0
index (A ∷ As) (inr v) = suc (index As v)

module _ (As : List (Type 0)) (ps : Parsers As) where
  -- The alternatives as a parser that starts in the chosen one.
  abbrev alternatives : Chosen As ps → Parser (Variant As)
  alternatives c = record {
    State = Chosen As ps;
    start = c;
    parse_byte = parse_alternative As ps;
    check_for_immediate_completion = λ s. none;
  }

  in_element :
      {c₀ c : Chosen As ps} {bs : List ℕ} {v : Variant As}
      → Reads (alternatives c₀) c bs v
      → Reads (variant_parser As ps) (parsing_element c) bs v
  unfolding parse_variant_byte
  in_element (last {s' = x} b e) = last {s' = parsing_element x} b (rw (e, parse_variant_byte))
  in_element (more b e r) = more b (rw (e, parse_variant_byte)) (in_element r)

module _ {A : Type 0} (As : List (Type 0)) (ps : Parsers (A ∷ As)) where
  this_alternative :
      {c : Chosen (A ∷ As) ps} {s : ps.0.State} {bs : List ℕ} {a : A}
      → Reads ps.0 s bs a
      → Reads (alternatives (A ∷ As) ps c) (inl s) bs (inl a)
  unfolding parse_alternative
  this_alternative (last {s' = x} b e) = last {s' = inl x} b (rw (e, parse_alternative))
  this_alternative (more b e r) = more b (rw (e, parse_alternative)) (this_alternative r)

  other_alternative :
      {c₀ c : Chosen As ps.1} {bs : List ℕ} {v : Variant As}
      → Reads (alternatives As ps.1 c₀) c bs v
      → Reads (alternatives (A ∷ As) ps (inr c₀)) (inr c) bs (inr v)
  unfolding parse_alternative
  other_alternative (last {s' = x} b e) = last {s' = inr x} b (rw (e, parse_alternative))
  other_alternative (more b e r) = more b (rw (e, parse_alternative)) (other_alternative r)

chosen :
    (As : List (Type 0)) (ps : Parsers As) (v : Variant As) (bs : List ℕ)
    → ReadsAlternative As ps bs v
    → (c : Chosen As ps) × (switch_to_state As ps (index As v) ≡ some c)
      × Reads (alternatives As ps c) c bs v
unfolding switch_to_state index
chosen [] ps v bs r = absurd v
chosen (A ∷ As) ps (inl a) bs r = (inl ps.0.start, refl, this_alternative As ps r)
chosen (A ∷ As) ps (inr v) bs r =
    let (c, e, k) = chosen As ps.1 v bs r in
    (inr c, rw (e, switch_to_state), other_alternative As ps k)

switch_to_state-none :
    (As : List (Type 0)) (ps : Parsers As) (i : ℕ) → length As ≤ i → switch_to_state As ps i ≡ none
unfolding switch_to_state
switch_to_state-none [] ps i h = refl
switch_to_state-none (A ∷ As) ps zero h = absurd (omega arith)
switch_to_state-none (A ∷ As) ps (suc i) h =
    rw (switch_to_state-none As ps.1 i (omega arith), switch_to_state)

module _ (As : List (Type 0)) (ps : Parsers As) where
  abbrev V : Parser (Variant As)
  V = variant_parser As ps

  -- The index of an alternative, if it fits a byte, and the bytes of a value of that alternative
  -- are read by variant_parser as that value.
  pub variant_parser-Reads :
      (v : Variant As) (bs : List ℕ)
      → IsByte (index As v)
      → ReadsAlternative As ps bs v
      → Reads V V.start (index As v ∷ bs) v
  unfolding parse_variant_byte
  variant_parser-Reads v bs h r =
      let (c, e, k) = chosen As ps v bs r in
      more (index As v) (rw (parse_integer_byte_single (index As v) h, e, parse_variant_byte))
        (in_element As ps k)

  -- A byte that is the index of no alternative is refused by variant_parser at once.
  pub variant_parser-Rejects : (b : ℕ) → IsByte b → length As ≤ b → Rejects V V.start (b ∷ [])
  unfolding parse_variant_byte
  variant_parser-Rejects b h none_there =
      wrong {s' = parsing_index (record { result = b; bytes_received = 1 })} b (
        rw (
          parse_integer_byte_single b h,
          switch_to_state-none As ps b none_there,
          parse_variant_byte,
        ))
