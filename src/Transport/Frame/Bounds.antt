-- ===== src/Transport/Frame/Bounds.antt =====
-- src/transport.rs: what an encoded frame consists of, that `read_frame` reads it back, and how large
-- frames are.
use plasmoid.Prelude.{
  ℕ, zero, suc, ◌+◌, ◌%◌, ◌^◌, ◌≤◌, ◌<◌, ◌≡◌, refl, ap, ◌∙◌, inl, inr, Option, none, some, List, [],
  ◌∷◌, ◌++◌, length, length-append, leb, leb→le, arith, append_assoc, Bool-cases, Option-cases,
}
use plasmoid.Mailbox.{Bytes}
use plasmoid.Transport.{PeerMessage, Wire}
use plasmoid.Transport.Frame.{
  max_frame_len, to_le_bytes, from_le_bytes, encode_frame, frame_of, read_exact, frame, read_frame,
  read_body, decoded,
}

read_exact-append {ℓ} :
    {A : Type ℓ} (xs ys : List A) → read_exact (length xs) (xs ++ ys) ≡ some (xs, ys)
unfolding read_exact
read_exact-append [] ys = refl
read_exact-append (x ∷ xs) ys = rw (read_exact-append xs ys) refl

read_exact-length {ℓ} :
    {A : Type ℓ} (n : ℕ) (stream taken rest : List A)
    → read_exact n stream ≡ some (taken, rest)
    → length stream ≡ n + length rest
unfolding read_exact
read_exact-length zero stream taken rest h = ground arith
read_exact-length (suc n) [] taken rest h = absurd (cc)
read_exact-length (suc n) (b ∷ stream) taken rest h = elim (Option-cases (read_exact n stream)) [
  | inl e ↦ absurd (ground arith)
  | inr ((ts, r), e) ↦ ground (arith, read_exact-length n stream ts r e)
]

from_le_bytes-to_le_bytes : (n : ℕ) → n < 2 ^ 32 → from_le_bytes (to_le_bytes n) ≡ n
unfolding from_le_bytes to_le_bytes
from_le_bytes-to_le_bytes n h = omega arith

length-to_le_bytes : (n : ℕ) → length (to_le_bytes n) ≡ 4
unfolding to_le_bytes
length-to_le_bytes n = refl

small_unwrapped : (n : ℕ) → n ≤ max_frame_len → n % 2 ^ 32 ≡ n
small_unwrapped n h = omega arith

-- What an encoded frame consists of.
frame_of-parts :
    (encoded : Option Bytes) (bytes : Bytes)
    → frame_of encoded ≡ some bytes
    → (body : Bytes) × (encoded ≡ some body)
      × (length body ≤ max_frame_len)
      × (bytes ≡ to_le_bytes (length body) ++ body)
frame_of-parts none bytes h = absurd (cc)
frame_of-parts (some body) bytes h = elim (Bool-cases (leb (length body) max_frame_len)) [
  | inl small ↦
      let small' = leb→le _ _ small in
      let whole = small_unwrapped (length body) small' in
      (body, refl, small', ground (arith, whole))
  | inr large ↦ absurd (ground arith)
]

module _ ⦃wire : Wire⦄ where
  encode_frame-parts :
      (msg : PeerMessage) (bytes : Bytes)
      → encode_frame msg ≡ some bytes
      → (body : Bytes) × (wire.serialize msg ≡ some body)
        × (length body ≤ max_frame_len)
        × (bytes ≡ to_le_bytes (length body) ++ body)
  unfolding encode_frame
  encode_frame-parts msg bytes h = frame_of-parts (wire.serialize msg) bytes h

  -- The length and the body are read back, whatever follows them.
  read_frame-body :
      (n : ℕ) (body rest : Bytes)
      → length body ≡ n
      → n ≤ max_frame_len
      → read_frame (to_le_bytes n ++ (body ++ rest)) ≡ decoded (wire.deserialize body) rest
  unfolding read_frame to_le_bytes
  read_frame-body n body rest e small =
      let len : from_le_bytes (to_le_bytes n) ≡ n = from_le_bytes-to_le_bytes n (omega arith) in
      let taken : read_exact n (body ++ rest) ≡ some (body, rest) =
        rw (← e) (read_exact-append body rest) in
      ground (arith, len, taken)

  pub read_frame-encode_frame :
      (msg : PeerMessage) (bytes rest : Bytes)
      → encode_frame msg ≡ some bytes
      → read_frame (bytes ++ rest) ≡ frame msg rest
  read_frame-encode_frame msg bytes rest h =
      let (body, e, small, b) = encode_frame-parts msg bytes h in
      rw b (
        rw (append_assoc (to_le_bytes (length body)) body rest) (
          read_frame-body (length body) body rest refl small
          ∙ ap (λ d. decoded d rest) (wire.deserialize-serialize msg body e)))

  -- A frame that is read took its length and a body that is not over the limit.
  read_body-length :
      (len : ℕ) (buffered rest stream : Bytes) (msg : PeerMessage)
      → read_body (read_exact len stream) ≡ frame msg rest
      → length stream ≡ len + length rest
  read_body-length len buffered rest stream msg h = elim (Option-cases (read_exact len stream)) [
    | inl e ↦ absurd (ground arith)
    | inr ((body, after), e) ↦ elim (Option-cases (wire.deserialize body)) [
      | inl u ↦ absurd (ground arith)
      | inr (m, d) ↦ ground (arith, read_exact-length len stream body after e)
    ]
  ]

  pub read_frame-length :
      (stream rest : Bytes) (msg : PeerMessage)
      → read_frame stream ≡ frame msg rest
      → (length rest + 4 ≤ length stream) × (length stream ≤ length rest + 4 + max_frame_len)
  unfolding read_frame
  read_frame-length stream rest msg h = elim (Option-cases (read_exact 4 stream)) [
    | inl e ↦ absurd (ground arith)
    | inr ((len_buf, after), e) ↦
        let four = read_exact-length 4 stream len_buf after e in
        ground (arith, four, read_body-length (from_le_bytes len_buf) len_buf rest after msg)
  ]

  -- Frames are bounded at both ends. A frame that `encode_frame` makes has at least the four bytes
  -- of its length and at most 1 MiB more. Whatever a peer sends, a frame that `read_frame` accepts
  -- took at least four bytes of the stream and at most 1 MiB more.
  pub frame_bounds :
      (msg : PeerMessage) (bytes stream rest : Bytes)
      → (encode_frame msg ≡ some bytes → (4 ≤ length bytes) × (length bytes ≤ 4 + 1048576))
        × (read_frame stream ≡ frame msg rest
            → (length rest + 4 ≤ length stream) × (length stream ≤ length rest + 4 + 1048576))
  frame_bounds msg bytes stream rest = (
    λ h.
        let (body, e, small, b) = encode_frame-parts msg bytes h in
        omega (
          arith,
          small,
          ap length b,
          length-append (to_le_bytes (length body)) body,
          length-to_le_bytes (length body),
        ),
    λ h. read_frame-length stream rest msg h,
  )
