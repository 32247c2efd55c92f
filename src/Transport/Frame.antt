-- ===== src/Transport/Frame.antt =====
-- src/transport.rs: `encode_frame` and `read_frame`; and the loop of `handle_message_link` in
-- src/protocol.rs, which reads frames to the end of a stream.
-- A stream is the list of the bytes that arrive before it ends.
pub mod Bounds
pub mod RoundTrip
use plasmoid.Prelude.{
  ℕ, zero, suc, ◌+◌, ◌*◌, ◌/◌, ◌%◌, ◌^◌, Option, none, some, List, [], ◌∷◌, ◌++◌, length, leb,
  if◌then◌else◌,
}
use plasmoid.Mailbox.{Bytes}
use plasmoid.Transport.{PeerMessage, Wire}

abbrev pub max_frame_len : ℕ
max_frame_len = 1024 * 1024

-- `u32::to_le_bytes`
unfoldable pub to_le_bytes : ℕ → Bytes
to_le_bytes n = n % 256 ∷ n / 256 % 256 ∷ n / 65536 % 256 ∷ n / 16777216 % 256 ∷ []

-- `u32::from_le_bytes`
unfoldable pub from_le_bytes : Bytes → ℕ
from_le_bytes (a ∷ b ∷ c ∷ d ∷ []) = a + 256 * b + 65536 * c + 16777216 * d
from_le_bytes _ = 0

abbrev pub frame_of : Option Bytes → Option Bytes
frame_of none = none
frame_of (some body) =
    if leb (length body) max_frame_len
    then some (to_le_bytes (length body % 2 ^ 32) ++ body)
    else none

-- `none` is the error of the encoding or of the limit.
unfoldable pub encode_frame : ⦃wire : Wire⦄ → PeerMessage → Option Bytes
unfolding to_le_bytes
encode_frame ⦃wire⦄ msg = frame_of (wire.serialize msg)

-- `recv.read_exact`: so many bytes, and what is left.
unfoldable pub read_exact {ℓ} : {A : Type ℓ} → ℕ → List A → Option (List A × List A)
read_exact zero stream = some ([], stream)
read_exact (suc n) [] = none
read_exact (suc n) (b ∷ stream) = elim (read_exact n stream) [
  | none ↦ none
  | some (taken, rest) ↦ some (b ∷ taken, rest)
]

-- `Result<Option<PeerMessage>>`, with what is left of the stream.
pub data ReadResult : Type 0 where
  frame : (msg : PeerMessage) (rest : Bytes) → ReadResult
  closed : ReadResult
  oversized short_body undecodable : ReadResult

abbrev pub decoded : Option PeerMessage → Bytes → ReadResult
decoded none rest = undecodable
decoded (some msg) rest = frame msg rest

module _ ⦃wire : Wire⦄ where
  abbrev pub read_body : Option (Bytes × Bytes) → ReadResult
  read_body none = short_body
  read_body (some (body, rest)) = decoded (wire.deserialize body) rest

  abbrev pub read_after_length : Option (Bytes × Bytes) → ReadResult
  read_after_length none = closed
  read_after_length (some (len_buf, rest)) =
      let len = from_le_bytes len_buf in
      if leb len max_frame_len then read_body (read_exact len rest) else oversized

  unfoldable pub read_frame : Bytes → ReadResult
  unfolding read_exact from_le_bytes
  read_frame stream = read_after_length (read_exact 4 stream)

-- How the reading of a link came to its end.
pub data LinkEnd : Type 0 where
  peer_closed broken out_of_fuel : LinkEnd

abbrev pub after_read :
    (Bytes → List PeerMessage × LinkEnd) → ReadResult → List PeerMessage × LinkEnd
after_read go_on (frame msg rest) = (msg ∷ (go_on rest).0, (go_on rest).1)
after_read go_on closed = ([], peer_closed)
after_read go_on _ = ([], broken)

module _ ⦃wire : Wire⦄ where
  -- `while let Some(msg) = read_frame(&mut recv).await?`: the messages, in the order in which they
  -- are handled. A frame takes four bytes at least, so the stream's length is fuel enough.
  unfoldable pub read_frames : ℕ → Bytes → List PeerMessage × LinkEnd
  unfolding read_frame
  read_frames zero stream = ([], out_of_fuel)
  read_frames (suc fuel) stream = after_read (read_frames fuel) (read_frame stream)

  unfoldable pub read_link : Bytes → List PeerMessage × LinkEnd
  unfolding read_frames
  read_link stream = read_frames (suc (length stream)) stream
