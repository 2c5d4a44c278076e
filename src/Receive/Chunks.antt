-- ===== src/Receive/Chunks.antt =====
-- A parse operation does not depend on how the bytes of a message are cut into reads.
use native.Mathlib.Nat.{add-zero}
use warpcoil.Base.{
  ℕ, suc, ◌+◌, ◌≡◌, refl, ◌∙◌, ap, List, [], ◌∷◌, ◌++◌, map, none, arith, length, drop-append,
  drop-length,
}
use warpcoil.Parse.Interface.{Parser, Reads, last, more, need_more_input, Rejects, wrong, later}
use warpcoil.Receive.{
  ReadEvent, read_some, value, error, invalid_input_error, Progress, finished, refused, exhausted,
  called, reading, scan, start, on_read, receive, begin_parse_value,
}

abbrev pub concat : List (List ℕ) → List ℕ
concat [] = []
concat (c ∷ cs) = c ++ concat cs

-- Nothing is complete before a byte was looked at.
abbrev pub NeverImmediate : {A : Type 0} → Parser A → Type 0
NeverImmediate p = (s : p.State) → p.check_for_immediate_completion s ≡ none

module _ {A : Type 0} (p : Parser A) where
  -- How a scan of `c` goes when `c ++ beyond` begins with a message: to its end, or into it.
  data Scanned (s : p.State) (c beyond rest : List ℕ) (n : ℕ) (a : A) : Type 0 where
    whole :
        (left m : List ℕ)
        → scan p s c n ≡ finished a (length m + n)
        → c ≡ m ++ left
        → left ++ beyond ≡ rest
        → Scanned s c beyond rest n a
    part :
        {s' : p.State} {bytes : List ℕ}
        → scan p s c n ≡ exhausted s' (length c + n)
        → Reads p s' bytes a
        → beyond ≡ bytes ++ rest
        → Scanned s c beyond rest n a

  scan_more :
      {s s' : p.State} (b : ℕ) (c : List ℕ) (n : ℕ)
      → p.parse_byte s b ≡ (need_more_input, s')
      → scan p s (b ∷ c) n ≡ scan p s' c (suc n)
  unfolding scan
  scan_more b c n e = ground (arith, e)

  Scanned-more :
      {s s' : p.State} {c beyond rest : List ℕ} {n : ℕ} {a : A} (b : ℕ)
      → p.parse_byte s b ≡ (need_more_input, s')
      → Scanned s' c beyond rest (suc n) a
      → Scanned s (b ∷ c) beyond rest n a
  Scanned-more {c} {n} {a} b e (whole left m q h k) =
      whole left (b ∷ m) (scan_more b c n e ∙ q ∙ ap (finished a) (omega arith)) (ap (◌∷◌ b) h) k
  Scanned-more {c} {n} b e (part {s' = t} q r h) =
      part (scan_more b c n e ∙ q ∙ ap (exhausted t) (omega arith)) r h

  scan-Reads :
      {s : p.State} {bytes : List ℕ} {a : A} (c beyond rest : List ℕ) (n : ℕ)
      → Reads p s bytes a
      → c ++ beyond ≡ bytes ++ rest
      → Scanned s c beyond rest n a
  unfolding scan
  scan-Reads {s} [] beyond rest n r h = part (ap (exhausted s) (omega arith)) r h
  scan-Reads (x ∷ c) beyond rest n (last b {a} e) h =
      let same : x ≡ b = cc in
      rw same (whole c (b ∷ []) (rw (e, scan) (ap (finished a) (omega arith))) refl (cc))
  scan-Reads {s = s} (x ∷ c) beyond rest n (more {s' = s'} b e r) h =
      let same : x ≡ b = cc in
      rw same (Scanned-more b e (scan-Reads {s = s'} c beyond rest (suc n) r (cc)))

  not_read :
      {s : p.State} {bytes : List ℕ} {a : A} (rest : List ℕ)
      → Reads p s bytes a
      → [] ≡ bytes ++ rest
      → ⊥
  not_read rest (last b e) h = cc
  not_read rest (more b e r) h = cc

  -- The handler is called with the value, and what follows the message is left, in the buffer and
  -- in the stream.
  abbrev pub Delivers : (Progress p × List ℕ) × List ReadEvent → A → List ℕ → Type 0
  Delivers r a rest =
      (buffer : List ℕ) × (unread : List (List ℕ)) × (r
        ≡ ((called (value a), buffer), map read_some unread))
      × (buffer ++ concat unread ≡ rest)

  start_finished :
      NeverImmediate p
      → (s : p.State) (a : A) (m left : List ℕ) → scan p s (m ++ left) 0 ≡ finished a (length m + 0)
      → start p s (m ++ left) ≡ (called (value a), left)
  unfolding start
  start_finished never s a m left q =
      rw (never s, q, add-zero (length m), drop-append m left, start)

  start_exhausted :
      NeverImmediate p
      → (s t : p.State) (c : List ℕ) → scan p s c 0 ≡ exhausted t (length c + 0)
      → start p s c ≡ (reading t, [])
  unfolding start
  start_exhausted never s t c q = rw (never s, q, add-zero (length c), drop-length c, start)

  Scanned-Delivers :
      NeverImmediate p
      → {s : p.State} {a : A} (buffer : List ℕ) (chunks : List (List ℕ)) (rest : List ℕ)
      → Scanned s buffer (concat chunks) rest 0 a
      → Delivers (receive p (start p s buffer) (map read_some chunks)) a rest
  unfolding on_read receive
  Scanned-Delivers never {s} {a} buffer chunks rest (whole left m q h k) =
      (left, chunks, rw (h, start_finished never s a m left (rw (← h) q), receive), k)
  Scanned-Delivers never {s} buffer [] rest (part q r h) = absurd (not_read rest r h)
  Scanned-Delivers never {s} buffer (c ∷ chunks) rest (part {s' = t} q r h) =
      rw (start_exhausted never s t buffer q, receive)
        (Scanned-Delivers never {s = t} c chunks rest (scan-Reads c (concat chunks) rest 0 r h))

  -- If a parser that is never complete before its first byte reads some bytes as a value, a
  -- parse operation calls its handler with that value however these bytes and what follows them
  -- are spread over the buffer and the reads, and what follows is left there.
  pub begin_parse_value-Reads :
      NeverImmediate p
      → {bytes : List ℕ} {a : A} (buffer : List ℕ) (chunks : List (List ℕ)) (rest : List ℕ)
      → Reads p p.start bytes a
      → buffer ++ concat chunks ≡ bytes ++ rest
      → Delivers (begin_parse_value p buffer (map read_some chunks)) a rest
  unfolding begin_parse_value
  begin_parse_value-Reads never buffer chunks rest r h =
      Scanned-Delivers never buffer chunks rest (scan-Reads buffer (concat chunks) rest 0 r h)

  -- How a scan of `c` goes when `c ++ beyond` begins with bytes that are refused.
  data ScannedBad (s : p.State) (c beyond rest : List ℕ) (n : ℕ) : Type 0 where
    now : scan p s c n ≡ refused → ScannedBad s c beyond rest n
    soon :
        {s' : p.State} {bytes : List ℕ}
        → scan p s c n ≡ exhausted s' (length c + n)
        → Rejects p s' bytes
        → beyond ≡ bytes ++ rest
        → ScannedBad s c beyond rest n

  ScannedBad-later :
      {s s' : p.State} {c beyond rest : List ℕ} {n : ℕ} (b : ℕ)
      → p.parse_byte s b ≡ (need_more_input, s')
      → ScannedBad s' c beyond rest (suc n)
      → ScannedBad s (b ∷ c) beyond rest n
  ScannedBad-later {c} {n} b e (now q) = now (scan_more b c n e ∙ q)
  ScannedBad-later {c} {n} b e (soon {s' = t} q r h) =
      soon (scan_more b c n e ∙ q ∙ ap (exhausted t) (omega arith)) r h

  scan-Rejects :
      {s : p.State} {bytes : List ℕ} (c beyond rest : List ℕ) (n : ℕ)
      → Rejects p s bytes
      → c ++ beyond ≡ bytes ++ rest
      → ScannedBad s c beyond rest n
  unfolding scan
  scan-Rejects {s} [] beyond rest n r h = soon (ap (exhausted s) (omega arith)) r h
  scan-Rejects (x ∷ c) beyond rest n (wrong b e) h =
      let same : x ≡ b = cc in rw same (now (rw (e, scan)))
  scan-Rejects {s = s} (x ∷ c) beyond rest n (later {s' = s'} b e r) h =
      let same : x ≡ b = cc in
      rw same (ScannedBad-later b e (scan-Rejects {s = s'} c beyond rest (suc n) r (cc)))

  not_rejected :
      {s : p.State} {bytes : List ℕ} (rest : List ℕ) → Rejects p s bytes → [] ≡ bytes ++ rest → ⊥
  not_rejected rest (wrong b e) h = cc
  not_rejected rest (later b e r) h = cc

  -- The handler is called with the error.
  abbrev pub Fails : (Progress p × List ℕ) × List ReadEvent → Type 0
  Fails r =
      (buffer : List ℕ) × (unread : List ReadEvent) × (r
        ≡ ((called (error invalid_input_error), buffer), unread))

  Scanned-Fails :
      NeverImmediate p
      → {s : p.State} (buffer : List ℕ) (chunks : List (List ℕ)) (rest : List ℕ)
      → ScannedBad s buffer (concat chunks) rest 0
      → Fails (receive p (start p s buffer) (map read_some chunks))
  unfolding on_read receive
  Scanned-Fails never {s} buffer chunks rest (now q) =
      (buffer, map read_some chunks, unfold start in rw (never s, q, start))
  Scanned-Fails never {s} buffer [] rest (soon q r h) = absurd (not_rejected rest r h)
  Scanned-Fails never {s} buffer (c ∷ chunks) rest (soon {s' = t} q r h) =
      rw (start_exhausted never s t buffer q, receive)
        (Scanned-Fails never {s = t} c chunks rest (scan-Rejects c (concat chunks) rest 0 r h))

  -- If a parser that is never complete before its first byte refuses some bytes, a parse
  -- operation calls its handler with the invalid input error however the bytes are spread over
  -- the buffer and the reads.
  pub begin_parse_value-Rejects :
      NeverImmediate p
      → {bytes : List ℕ} (buffer : List ℕ) (chunks : List (List ℕ)) (rest : List ℕ)
      → Rejects p p.start bytes
      → buffer ++ concat chunks ≡ bytes ++ rest
      → Fails (begin_parse_value p buffer (map read_some chunks))
  unfolding begin_parse_value
  begin_parse_value-Rejects never buffer chunks rest r h =
      Scanned-Fails never buffer chunks rest (scan-Rejects buffer (concat chunks) rest 0 r h)
