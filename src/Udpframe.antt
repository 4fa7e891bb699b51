-- ===== src/Udpframe.antt =====
-- internal/udpframe/udpframe.go: datagrams in frames of a byte stream. A byte is a number below
-- 256, and the stream behind an io.Reader or io.Writer is the list of its bytes.
pub mod RoundTrip
use portloom.Prelude.{
  List, [], drop, if◌then◌else◌, leb, length, ltb, nat_eq, suc, take, zero, ℕ, ◌%◌, ◌*◌, ◌++◌, ◌+◌,
  ◌/◌, ◌∷◌,
}

pub data FrameError : Type 0 where
  payload_too_large eof unexpected_eof : FrameError

pub data Framed {ℓ} (A : Type ℓ) : Type ℓ where
  ok : A → Framed A
  err : FrameError → Framed A

infixl 5 ◌>>=◌
abbrev pub ◌>>=◌ {ℓ κ} : {A : Type ℓ} {B : Type κ} → Framed A → (A → Framed B) → Framed B
ok a >>= k = k a
err e >>= k = err e

abbrev pub max_payload : ℕ
max_payload = 65535

-- binary.BigEndian.PutUint16(header, uint16(n)) and Uint16.
abbrev pub put_uint16 : ℕ → List ℕ
put_uint16 n = (n % 65536 / 256) ∷ n % 256 ∷ []

abbrev pub uint16 : ℕ → ℕ → ℕ
uint16 high low = high * 256 + low

-- The bytes that Write puts on the stream.
unfoldable pub write : List ℕ → Framed (List ℕ)
write payload =
    if ltb max_payload (length payload)
    then err payload_too_large
    else ok (put_uint16 (length payload) ++ payload)

-- io.ReadFull: `n` bytes, and what is left of the stream. The end of the stream is EOF before the
-- first byte, and unexpected after it.
unfoldable pub read_full : ℕ → List ℕ → Framed (List ℕ × List ℕ)
read_full n stream =
    if leb n (length stream)
    then ok (take n stream, drop n stream)
    else if nat_eq (length stream) 0
    then err eof
    else err unexpected_eof

-- The payload that Read puts into a buffer of `size` bytes, and the rest of the stream.
read_payload : ℕ → List ℕ → List ℕ → Framed (List ℕ × List ℕ)
read_payload size (high ∷ low ∷ []) stream =
    if ltb size (uint16 high low) then err payload_too_large else read_full (uint16 high low) stream
read_payload size _ stream = err unexpected_eof

unfoldable pub read : ℕ → List ℕ → Framed (List ℕ × List ℕ)
unfolding read_full read_payload
read size stream = do (header, rest) ← read_full 2 stream; read_payload size header rest

-- The frames of a sequence of datagrams, as repeated calls of Write put them on the stream.
unfoldable pub write_all : List (List ℕ) → Framed (List ℕ)
write_all [] = ok []
write_all (p ∷ ps) = do frame ← write p; rest ← write_all ps; ok (frame ++ rest)

-- The loop of the relay: frames are read until the first error, which ends it. `fuel` bounds the
-- rounds, since each frame takes two bytes of the stream at least.
unfoldable pub read_all : ℕ → ℕ → List ℕ → List (List ℕ) × FrameError
read_all zero size stream = ([], eof)
read_all (suc fuel) size stream = elim (read size stream) [
  | err e ↦ ([], e)
  | ok (p, rest) ↦ let (ps, e) = read_all fuel size rest in (p ∷ ps, e)
]
