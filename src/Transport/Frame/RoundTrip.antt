-- ===== src/Transport/Frame/RoundTrip.antt =====
-- src/transport.rs: that the frames of many messages are read back in order, and that reading ends.
use plasmoid.Prelude.{
  ℕ, zero, suc, ◌<◌, ◌≡◌, ◌≢◌, refl, ap, ◌∙◌, inl, inr, Option, none, some, List, [], ◌∷◌, ◌++◌,
  length, arith, append_assoc, Option-cases,
}
use plasmoid.Mailbox.{Bytes}
use plasmoid.Transport.{PeerMessage, Wire}
use plasmoid.Transport.Frame.{
  encode_frame, ReadResult, frame, closed, oversized, short_body, undecodable, read_frame, LinkEnd,
  out_of_fuel, read_frames, read_link, after_read,
}
use plasmoid.Transport.Frame.Bounds.{read_frame-length, read_frame-encode_frame}

-- Two ways of going on that agree on what is left give the same reading.
after_read-agree :
    (f g : Bytes → List PeerMessage × LinkEnd) (read : ReadResult)
    → ((msg : PeerMessage) (rest : Bytes)
        → read ≡ frame msg rest
        → (f rest ≡ g rest) × ((f rest).1 ≢ out_of_fuel))
    → (after_read f read ≡ after_read g read) × ((after_read f read).1 ≢ out_of_fuel)
after_read-agree f g (frame msg rest) h = (
  ap (λ (r : List PeerMessage × LinkEnd). (msg ∷ r.0, r.1)) (h msg rest refl).0,
  (h msg rest refl).1,
)
after_read-agree f g closed h = (refl, cc)
after_read-agree f g oversized h = (refl, cc)
after_read-agree f g short_body h = (refl, cc)
after_read-agree f g undecodable h = (refl, cc)

module _ ⦃wire : Wire⦄ where
  -- With more fuel than bytes the reading is the same, and it does not run out.
  read_frames-enough :
      (fuel more : ℕ) (stream : Bytes)
      → length stream < fuel
      → length stream < more
      → (read_frames fuel stream ≡ read_frames more stream)
        × ((read_frames fuel stream).1 ≢ out_of_fuel)
  unfolding read_frames
  read_frames-enough zero more stream h k = absurd (omega arith)
  read_frames-enough (suc fuel) zero stream h k = absurd (omega arith)
  read_frames-enough (suc fuel) (suc more) stream h k =
      after_read-agree (read_frames fuel) (read_frames more) (read_frame stream) (λ msg rest e.
        let shorter = read_frame-length stream rest msg e in
        read_frames-enough fuel more rest (omega (arith, shorter)) (omega (arith, shorter)))

  -- Reading a link comes to an end on every stream, by the peer's close or by an error.
  pub read_link-ends : (stream : Bytes) → (read_link stream).1 ≢ out_of_fuel
  unfolding read_link
  read_link-ends stream =
      (read_frames-enough (suc (length stream)) (suc (length stream)) stream (omega arith)
        (omega arith)).1

  -- One frame in front of a stream is handled first.
  read_link-frame :
      (msg : PeerMessage) (bytes rest : Bytes)
      → encode_frame msg ≡ some bytes
      → read_link (bytes ++ rest) ≡ (msg ∷ (read_link rest).0, (read_link rest).1)
  unfolding read_link read_frames
  read_link-frame msg bytes rest h =
      let read = read_frame-encode_frame msg bytes rest h in
      let shorter = read_frame-length (bytes ++ rest) rest msg read in
      let same =
        read_frames-enough (length (bytes ++ rest)) (suc (length rest)) rest
          (omega (arith, shorter)) (omega arith) in
      rw read (ap (λ (r : List PeerMessage × LinkEnd). (msg ∷ r.0, r.1)) same.0)

  -- A queue of messages as one stream of frames, if all of them can be encoded.
  abbrev pub encode_all : List PeerMessage → Option Bytes
  encode_all [] = some []
  encode_all (msg ∷ msgs) = elim (encode_frame msg) [
    | none ↦ none
    | some bytes ↦ elim (encode_all msgs) [ none ↦ none | some more ↦ some (bytes ++ more) ]
  ]

  -- The frames of any messages, written one after another, are read back as these messages in
  -- order, and whatever follows them on the stream is then read as if it stood alone.
  pub read_link-encode_all :
      (msgs : List PeerMessage) (stream rest : Bytes)
      → encode_all msgs ≡ some stream
      → read_link (stream ++ rest) ≡ (msgs ++ (read_link rest).0, (read_link rest).1)
  read_link-encode_all [] stream rest h =
      let none_sent : stream ≡ [] = ground arith in rw none_sent refl
  read_link-encode_all (msg ∷ msgs) stream rest h = elim (Option-cases (encode_frame msg)) [
    | inl e ↦ absurd (ground arith)
    | inr (bytes, e) ↦ elim (Option-cases (encode_all msgs)) [
      | inl u ↦ absurd (ground arith)
      | inr (more, u) ↦
          let joined : stream ≡ bytes ++ more = ground arith in
          rw joined (
            rw (append_assoc bytes more rest) (
              read_link-frame msg bytes (more ++ rest) e
              ∙ ap (λ (r : List PeerMessage × LinkEnd). (msg ∷ r.0, r.1))
                  (read_link-encode_all msgs more rest u)))
    ]
  ]
