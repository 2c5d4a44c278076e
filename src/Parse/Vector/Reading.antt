-- ===== src/Parse/Vector/Reading.antt =====
-- What `vector_parser` reads: a length, and that many elements.
use warpcoil.Base.{
  ℕ, ◌+◌, ◌<◌, ◌≡◌, List, [], ◌∷◌, ◌++◌, append-nil, append_assoc, arith, length, length-append,
}
use warpcoil.Parse.Interface.{Parser, Reads, last, more}
use warpcoil.Parse.Vector.{
  VectorState, vector_parser, parse_vector_byte, parsing_length, parsing_element,
}

-- The bytes are those of the values, one after the other, each read by a new parser.
pub data ReadsEach {A : Type 0} (E : Parser A) : List ℕ → List A → Type 0 where
  no_value : ReadsEach E [] []
  one_value :
      {all bs rest : List ℕ} {a : A} {values : List A}
      → Reads E E.start bs a
      → ReadsEach E rest values
      → all ≡ bs ++ rest
      → ReadsEach E all (a ∷ values)

module _ {A : Type 0} (L : Parser ℕ) (E : Parser A) where
  abbrev V : Parser (List A)
  V = vector_parser L E

  abbrev in_length : L.State → VectorState L E
  in_length l = record { step = parsing_length l; result = []; capacity = 0 }

  abbrev in_element : E.State → List A → ℕ → VectorState L E
  in_element e done n = record { step = parsing_element e; result = done; capacity = n }

  zero_length : {l : L.State} {bs : List ℕ} → Reads L l bs 0 → Reads V (in_length l) bs []
  unfolding parse_vector_byte
  zero_length (last {s' = l'} b e) = last {s' = in_length l'} b (rw (e, parse_vector_byte))
  zero_length (more b e r) = more b (rw (e, parse_vector_byte)) (zero_length r)

  some_length :
      {l : L.State} {bs rest : List ℕ} {n : ℕ} {values : List A}
      → 0 < n
      → Reads L l bs n
      → Reads V (in_element E.start [] n) rest values
      → Reads V (in_length l) (bs ++ rest) values
  unfolding parse_vector_byte
  some_length {n} h (last b e) k = more b (rw (e, parse_vector_byte) (ground arith)) k
  some_length h (more b e r) k = more b (rw (e, parse_vector_byte)) (some_length h r k)

  element_last :
      {e : E.State} {bs : List ℕ} {a : A} {done : List A} {n : ℕ}
      → length done + 1 ≡ n
      → Reads E e bs a
      → Reads V (in_element e done n) bs (done ++ a ∷ [])
  unfolding parse_vector_byte
  element_last {a} {done} {n} h (last {s' = x} b e) =
      last {s' = in_element x [] n} b
        (rw (e, parse_vector_byte) (ground (arith, length-append done (a ∷ []))))
  element_last h (more b e r) = more b (rw (e, parse_vector_byte)) (element_last h r)

  element_more :
      {e : E.State} {bs rest : List ℕ} {a : A} {done values : List A} {n : ℕ}
      → length done + 1 < n
      → Reads E e bs a
      → Reads V (in_element E.start (done ++ a ∷ []) n) rest values
      → Reads V (in_element e done n) (bs ++ rest) values
  unfolding parse_vector_byte
  element_more {a} {done} {n} h (last b e) k =
      more b (rw (e, parse_vector_byte) (ground (arith, length-append done (a ∷ [])))) k
  element_more h (more b e r) k = more b (rw (e, parse_vector_byte)) (element_more h r k)

  elements :
      {bs : List ℕ} {a : A} {values : List A} (done : List A) (n : ℕ)
      → length done + length (a ∷ values) ≡ n
      → ReadsEach E bs (a ∷ values)
      → Reads V (in_element E.start done n) bs (done ++ a ∷ values)
  elements {values = []} done n h (one_value {a} r no_value p) =
      rw (p, append-nil) (element_last (omega arith) r)
  elements {values = w ∷ values} done n h (one_value {a} {values = _} r rest p) = rw p (
      element_more (omega arith) r (
        rw (append_assoc done (a ∷ []) (w ∷ values)) at
          (elements (done ++ a ∷ []) n (omega (arith, length-append done (a ∷ []))) rest)))

  -- If the length parser reads some bytes as a length and the bytes behind them are those of
  -- that many values, each read by a new element parser, vector_parser reads all of them as the
  -- list of the values.
  pub vector_parser-Reads :
      {length_bytes bytes : List ℕ} (values : List A)
      → Reads L L.start length_bytes (length values)
      → ReadsEach E bytes values
      → Reads V V.start (length_bytes ++ bytes) values
  vector_parser-Reads [] r no_value = rw append-nil (zero_length r)
  vector_parser-Reads (v ∷ values) r each =
      some_length (omega arith) r (elements [] (length (v ∷ values)) (omega arith) each)
