-- ===== src/Websocket/Reading/Content.antt =====
-- Enough reads give all bytes of the buffer and of the messages.
use warpcoil.Base.{
  ℕ, zero, suc, ◌+◌, ◌≤◌, ◌<◌, ◌≡◌, refl, sym, ◌∙◌, ap, List, [], ◌∷◌, ◌++◌, map, append_assoc,
  Option, none, some, length, drop, take, take-append-drop, length-drop_le, All, arith,
}
use warpcoil.Receive.{ReadEvent, read_some}
use warpcoil.Receive.Chunks.{concat}
use warpcoil.Websocket.{
  new_adaptor, Opcode, adaptor_step, if_idle, with_operation, async_read_some, read_over,
  read_or_wait, switch_case, WriteOperation,
}
use warpcoil.Websocket.Reading.{Message, IsContent, contents, next_read, read_all, idle, ReadDone}

-- Enough reads for what is in the buffer and for the messages.
abbrev pub count_reads : List ℕ → List Message → ℕ
count_reads buffer [] = length buffer
count_reads buffer (m ∷ ms) = suc (length m.content + count_reads buffer ms)

-- A read gives a piece and leaves the adaptor idle with less to read.
abbrev Piece : ReadDone → List ℕ → List Message → Option WriteOperation → Type 0
Piece done buffer ms w =
    (piece left : List ℕ) × (o : Option Opcode) × (rest : List Message) × (done
      ≡ some (read_some piece, idle o left w, rest))
    × (piece ++ (left ++ contents rest) ≡ buffer ++ contents ms)
    × (count_reads left rest < count_reads buffer ms)
    × All IsContent rest

count_reads-drop :
    (n : ℕ) (bytes : List ℕ) (ms : List Message)
    → count_reads (drop n bytes) ms ≤ length bytes + count_reads [] ms
count_reads-drop n bytes [] = omega (arith, length-drop_le n bytes)
count_reads-drop n bytes (m ∷ ms) = omega (arith, count_reads-drop n bytes ms)

count_reads_split :
    (bytes : List ℕ) (ms : List Message) → count_reads bytes ms ≡ length bytes + count_reads [] ms
count_reads_split bytes [] = omega arith
count_reads_split bytes (m ∷ ms) = omega (arith, count_reads_split bytes ms)

next_read-buffer :
    (n : ℕ) (o : Option Opcode) (b : ℕ) (bs : List ℕ) (w : Option WriteOperation)
    (ms : List Message)
    → All IsContent ms
    → Piece (next_read (suc n) (idle o (b ∷ bs) w) ms) (b ∷ bs) ms w
unfolding next_read adaptor_step if_idle async_read_some read_or_wait
next_read-buffer n o b bs w ms h = (
  b ∷ take n bs,
  drop n bs,
  o,
  ms,
  refl,
  ap (λ l. b ∷ l)
      (sym (append_assoc (take n bs) (drop n bs) (contents ms))
        ∙ ap (λ l. l ++ contents ms) (take-append-drop n bs)),
  omega (arith, count_reads-drop n bs ms, count_reads_split (b ∷ bs) ms),
  h,
)

next_read-message :
    (n : ℕ) (o : Option Opcode) (w : Option WriteOperation) (m : Message) (ms : List Message)
    → IsContent m
    → All IsContent ms
    → Piece (next_read (suc n) (idle o [] w) (m ∷ ms)) [] (m ∷ ms) w
unfolding next_read adaptor_step if_idle with_operation async_read_some read_or_wait read_over
    switch_case
next_read-message n o w m ms (e, c) h = (
  take (suc n) m.content,
  drop (suc n) m.content,
  some m.opcode,
  ms,
  rw (e, c, e) refl,
  sym (append_assoc (take (suc n) m.content) (drop (suc n) m.content) (contents ms))
      ∙ ap (λ l. l ++ contents ms) (take-append-drop (suc n) m.content),
  omega (arith, count_reads-drop (suc n) m.content ms),
  h,
)

-- The reads give these pieces.
abbrev pub Pieces : List ReadEvent → List ℕ → Type 0
Pieces events bytes =
    (chunks : List (List ℕ)) × (events ≡ map read_some chunks) × (concat chunks ≡ bytes)

nothing_to_read :
    (fuel n : ℕ) (o : Option Opcode) (w : Option WriteOperation)
    → read_all fuel (suc n) (idle o [] w) [] ≡ []
unfolding read_all next_read adaptor_step if_idle async_read_some read_or_wait
nothing_to_read zero n o w = refl
nothing_to_read (suc fuel) n o w = refl

positive : (b : ℕ) (bs : List ℕ) (ms : List Message) → count_reads (b ∷ bs) ms ≤ 0 → ⊥
positive b bs ms f = omega (arith, count_reads_split (b ∷ bs) ms)

abbrev Reaches :
    (fuel n : ℕ) → List ℕ → List Message → Option Opcode → Option WriteOperation → Type 0
Reaches fuel n buffer ms o w =
    Pieces (read_all fuel (suc n) (idle o buffer w) ms) (buffer ++ contents ms)

read_on :
    (fuel n : ℕ) (o : Option Opcode) (buffer : List ℕ) (w : Option WriteOperation)
    (ms : List Message)
    → count_reads buffer ms ≤ suc fuel
    → ((left : List ℕ) (rest : List Message) (p : Option Opcode)
        → count_reads left rest ≤ fuel
        → All IsContent rest
        → Reaches fuel n left rest p w)
    → Piece (next_read (suc n) (idle o buffer w) ms) buffer ms w
    → Reaches (suc fuel) n buffer ms o w
unfolding read_all next_read adaptor_step async_read_some
read_on fuel n o buffer w ms f ih (piece, left, p, rest, e, same, less, h) =
    let (chunks, k, all) = ih left rest p (omega (arith, f, less)) h in
    (piece ∷ chunks, rw (e, k) refl, rw all same)

idle-Reaches :
    (fuel n : ℕ) (o : Option Opcode) (buffer : List ℕ) (w : Option WriteOperation)
    (ms : List Message)
    → count_reads buffer ms ≤ fuel
    → All IsContent ms
    → Reaches fuel n buffer ms o w
idle-Reaches fuel n o [] w [] f h = ([], nothing_to_read fuel n o w, refl)
idle-Reaches zero n o (b ∷ bs) w ms f h = absurd (positive b bs ms f)
idle-Reaches zero n o [] w (m ∷ ms) f h = absurd (omega arith)
idle-Reaches (suc fuel) n o (b ∷ bs) w ms f h =
    read_on fuel n o (b ∷ bs) w ms f (λ left rest p g k. idle-Reaches fuel n p left w rest g k)
      (next_read-buffer n o b bs w ms h)
idle-Reaches (suc fuel) n o [] w (m ∷ ms) f h =
    read_on fuel n o [] w (m ∷ ms) f (λ left rest p g k. idle-Reaches fuel n p left w rest g k)
      (next_read-message n o w m ms h.0 h.1)

-- If the messages that come are text or binary ones without an error and the size of a read is
-- not 0, then one read for each byte of the buffer and the messages and one for each message are
-- enough: the reads of a new adaptor, one after another, give the bytes of the buffer and of the
-- messages, all of them and in order.
pub read_all-content :
    (fuel buffers : ℕ) (buffer : List ℕ) (ms : List Message)
    → 0 < buffers
    → count_reads buffer ms ≤ fuel
    → All IsContent ms
    → Pieces (read_all fuel buffers (new_adaptor buffer) ms) (buffer ++ contents ms)
read_all-content fuel zero buffer ms b f h = absurd (omega arith)
read_all-content fuel (suc n) buffer ms b f h = idle-Reaches fuel n none buffer none ms f h
