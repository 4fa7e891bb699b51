-- ===== src/Udpframe/RoundTrip.antt =====
-- What was framed is read back, whatever follows it on the stream.
use portloom.Prelude.{
  List, [], arith, drop, length, length-append, refl, suc, take, zero, ℕ, ◌%◌, ◌++◌, ◌/◌, ◌<◌, ◌↔◌,
  ◌∷◌, ◌≡◌, ◌≤◌,
}
use portloom.Udpframe.{
  Framed, eof, err, max_payload, ok, payload_too_large, put_uint16, read, read_all, read_full,
  uint16, write, write_all, ◌>>=◌,
}

take-append : (p rest : List ℕ) → take (length p) (p ++ rest) ≡ p
take-append [] rest = refl
take-append (c ∷ p) rest = rw (take-append p rest)

drop-append : (p rest : List ℕ) → drop (length p) (p ++ rest) ≡ rest
drop-append [] rest = refl
drop-append (c ∷ p) rest = drop-append p rest

read_full-append : (p rest : List ℕ) → read_full (length p) (p ++ rest) ≡ ok (p, rest)
unfolding read_full
read_full-append p rest =
    ground (arith, take-append p rest, drop-append p rest, length-append p rest)

read_full_two : (a b : ℕ) (s : List ℕ) → read_full 2 (a ∷ b ∷ s) ≡ ok (a ∷ b ∷ [], s)
unfolding read_full
read_full_two a b s = ground arith

uint16-put_uint16 : (n : ℕ) → n ≤ max_payload → uint16 (n % 65536 / 256) (n % 256) ≡ n
uint16-put_uint16 n h = omega arith

read_frame :
    (size : ℕ) (p rest : List ℕ)
    → max_payload ≤ size
    → length p ≤ max_payload
    → read size (put_uint16 (length p) ++ (p ++ rest)) ≡ ok (p, rest)
unfolding read
read_frame size p rest big short =
    rw (read_full_two (length p % 65536 / 256) (length p % 256) (p ++ rest))
      (rw (uint16-put_uint16 (length p) short) (ground (arith, read_full-append p rest)))

-- The frame of a payload that Write accepts.
write-inv :
    (p frame : List ℕ)
    → write p ≡ ok frame
    → (length p ≤ max_payload) × (frame ≡ put_uint16 (length p) ++ p)
unfolding write
write-inv p frame h = (ground arith, ground arith)

-- A written frame is read back with its payload, and the bytes after it stay on the stream, if
-- the buffer holds the largest payload.
pub read-write :
    (size : ℕ) (p frame rest : List ℕ)
    → max_payload ≤ size
    → write p ≡ ok frame
    → read size (frame ++ rest) ≡ ok (p, rest)
read-write size p frame rest big h =
    let (short, e) = write-inv p frame h in rw e (read_frame size p rest big short)

-- Write refuses exactly the payloads that are longer than the largest payload.
pub write-err_iff : (p : List ℕ) → (write p ≡ err payload_too_large) ↔ (max_payload < length p)
unfolding write
write-err_iff p = ground arith

-- What holds of the frames of accepted datagrams, one after the other.
write_all-inv :
    (p : List ℕ) (ps : List (List ℕ)) (stream : List ℕ)
    → write_all (p ∷ ps) ≡ ok stream
    → (frame : List ℕ) × (rest : List ℕ) × (write p ≡ ok frame)
      × (write_all ps ≡ ok rest)
      × (stream ≡ frame ++ rest)
unfolding write_all
write_all-inv p ps stream h = go (write p) refl (write_all ps) refl h
  where
    go :
        (m : Framed (List ℕ))
        → write p ≡ m
        → (n : Framed (List ℕ)) → write_all ps ≡ n
        → (m >>= λ frame. n >>= λ rest. ok (frame ++ rest)) ≡ ok stream
        → (frame : List ℕ) × (rest : List ℕ) × (write p ≡ ok frame)
          × (write_all ps ≡ ok rest)
          × (stream ≡ frame ++ rest)
    go (ok frame) e (ok rest) q k = (frame, rest, e, q, cc)
    go (ok frame) e (err x) q k = cc
    go (err x) e n q k = cc

read_nil : (size : ℕ) → read size [] ≡ err eof
unfolding read
read_nil size = ground arith

-- The datagrams that were written come out of the stream, all and in order, and then it ends, if
-- the relay may read more often than there are datagrams.
pub read_all-write_all :
    (fuel size : ℕ) (ps : List (List ℕ)) (stream : List ℕ)
    → max_payload ≤ size
    → length ps < fuel
    → write_all ps ≡ ok stream
    → read_all fuel size stream ≡ (ps, eof)
unfolding read_all
read_all-write_all zero size ps stream big enough h = absurd (omega arith)
read_all-write_all (suc fuel) size [] stream big enough h =
    let e : [] ≡ stream = unfold write_all in cc in rw (← e, read_nil size, read_all)
read_all-write_all (suc fuel) size (p ∷ ps) stream big enough h =
    let (frame, rest, written, more, same) = write_all-inv p ps stream h in
    rw same (
      rw (read-write size p frame rest big written, read_all)
        (rw (read_all-write_all fuel size ps rest big (omega arith) more)))
