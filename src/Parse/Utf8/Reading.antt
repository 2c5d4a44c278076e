-- ===== src/Parse/Utf8/Reading.antt =====
-- What `utf8_parser` reads and refuses: a length, and that many bytes, which must be valid.
use warpcoil.Base.{
  ℕ, ◌≡◌, refl, sym, ◌∙◌, Bool, true, false, List, [], ◌∷◌, ◌++◌, append-nil, append_assoc, arith,
  length, length-append, replicate, set-append,
}
use warpcoil.Parse.Interface.{
  Parser, Reads, last, more, Rejects, wrong, later, parse_complete, need_more_input, invalid_input,
  consumed,
}
use warpcoil.Parse.Utf8.{Utf8State, utf8_parser, parse_utf8_byte, parsing_length, parsing_element}

module _ (is_valid : List ℕ → Bool) (L : Parser ℕ) where
  abbrev U : Parser (List ℕ)
  U = utf8_parser is_valid L

  abbrev in_length : L.State → Utf8State L
  in_length l = record { step = parsing_length l; result = [] }

  -- The string while it is read: what has come, and a zero for each byte to come.
  abbrev in_text : List ℕ → List ℕ → Utf8State L
  in_text done rest = record {
    step = parsing_element (length done);
    result = done ++ replicate (length rest) 0;
  }

  zero_length : {l : L.State} {bs : List ℕ} → Reads L l bs 0 → Reads U (in_length l) bs []
  unfolding parse_utf8_byte
  zero_length (last {s' = l'} b e) = last {s' = in_length l'} b (rw (e, parse_utf8_byte))
  zero_length (more b e r) = more b (rw (e, parse_utf8_byte)) (zero_length r)

  some_length :
      {l : L.State} {bs : List ℕ} {n : ℕ} (c : ℕ) (text : List ℕ) {r : List ℕ}
      → n ≡ length (c ∷ text)
      → Reads L l bs n
      → Reads U (in_text [] (c ∷ text)) (c ∷ text) r
      → Reads U (in_length l) (bs ++ c ∷ text) r
  unfolding parse_utf8_byte
  some_length c text h (last b e) k = more b (rw (e, h, parse_utf8_byte) (ground arith)) k
  some_length c text h (more b e r) k = more b (rw (e, parse_utf8_byte)) (some_length c text h r k)

  some_length-Rejects :
      {l : L.State} {bs : List ℕ} {n : ℕ} (c : ℕ) (text : List ℕ)
      → n ≡ length (c ∷ text)
      → Reads L l bs n
      → Rejects U (in_text [] (c ∷ text)) (c ∷ text)
      → Rejects U (in_length l) (bs ++ c ∷ text)
  unfolding parse_utf8_byte
  some_length-Rejects c text h (last b e) k = later b (rw (e, h, parse_utf8_byte) (ground arith)) k
  some_length-Rejects c text h (more b e r) k =
      later b (rw (e, parse_utf8_byte)) (some_length-Rejects c text h r k)

  -- One byte in the middle of the text.
  text_step :
      (done : List ℕ) (b c : ℕ) (rest : List ℕ)
      → U.parse_byte (in_text done (b ∷ c ∷ rest)) b
        ≡ (need_more_input, in_text (done ++ b ∷ []) (c ∷ rest))
  unfolding parse_utf8_byte
  text_step done b c rest =
      rw (set-append done 0 (replicate (length (c ∷ rest)) 0) b, parse_utf8_byte)
        (ground (
          arith,
          length-append done (b ∷ replicate (length (c ∷ rest)) 0),
          length-append done (b ∷ []),
          append_assoc done (b ∷ []) (replicate (length (c ∷ rest)) 0),
        ))

  -- The last byte of the text.
  text_valid :
      (done : List ℕ) (b : ℕ)
      → is_valid (done ++ b ∷ []) ≡ true
      → (U.parse_byte (in_text done (b ∷ [])) b) ≡ (
        parse_complete (done ++ b ∷ []) consumed,
        record { step = parsing_element (length done); result = [] },
      )
  unfolding parse_utf8_byte
  text_valid done b ok =
      rw (set-append done 0 [] b, parse_utf8_byte) (ground (arith, length-append done (b ∷ [])))

  text_invalid :
      (done : List ℕ) (b : ℕ)
      → is_valid (done ++ b ∷ []) ≡ false
      → (U.parse_byte (in_text done (b ∷ [])) b)
        ≡ (invalid_input, record { step = parsing_element (length done); result = done ++ b ∷ [] })
  unfolding parse_utf8_byte
  text_invalid done b bad =
      rw (set-append done 0 [] b, parse_utf8_byte) (ground (arith, length-append done (b ∷ [])))

  text_Reads :
      (done : List ℕ) (b : ℕ) (rest : List ℕ) {text : List ℕ}
      → text ≡ done ++ b ∷ rest
      → is_valid text ≡ true
      → Reads U (in_text done (b ∷ rest)) (b ∷ rest) text
  text_Reads done b [] h ok = rw h (last b (text_valid done b (rw (← h) ok)))
  text_Reads done b (c ∷ rest) h ok =
      more b (text_step done b c rest)
        (text_Reads (done ++ b ∷ []) c rest (h ∙ sym (append_assoc done (b ∷ []) (c ∷ rest))) ok)

  text_Rejects :
      (done : List ℕ) (b : ℕ) (rest : List ℕ)
      → is_valid (done ++ b ∷ rest) ≡ false
      → Rejects U (in_text done (b ∷ rest)) (b ∷ rest)
  text_Rejects done b [] bad = wrong b (text_invalid done b bad)
  text_Rejects done b (c ∷ rest) bad =
      later b (text_step done b c rest) (text_Rejects (done ++ b ∷ []) c rest (rw append_assoc bad))

  -- If the length parser reads some bytes as the length of a text that is valid, utf8_parser
  -- reads them and the bytes of the text as that text.
  pub utf8_parser-Reads :
      {length_bytes : List ℕ} (text : List ℕ)
      → Reads L L.start length_bytes (length text)
      → is_valid text ≡ true
      → Reads U U.start (length_bytes ++ text) text
  utf8_parser-Reads [] r ok = rw append-nil (zero_length r)
  utf8_parser-Reads (c ∷ text) r ok = some_length c text refl r (text_Reads [] c text refl ok)

  -- If the length parser reads some bytes as the length of a non-empty text that is not valid,
  -- utf8_parser refuses with the last byte of the text.
  pub utf8_parser-Rejects :
      {length_bytes : List ℕ} (c : ℕ) (text : List ℕ)
      → Reads L L.start length_bytes (length (c ∷ text))
      → is_valid (c ∷ text) ≡ false
      → Rejects U U.start (length_bytes ++ c ∷ text)
  utf8_parser-Rejects c text r bad = some_length-Rejects c text refl r (text_Rejects [] c text bad)
