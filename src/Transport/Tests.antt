-- ===== src/Transport/Tests.antt =====
-- Runs of src/transport.rs, after the tests at its end, over a small encoding.
use plasmoid.Prelude.{
  ◌+◌, ◌≡◌, ◌≤◌, refl, true, false, none, some, List, [], ◌∷◌, ◌++◌, nat_eq, map,
}
use plasmoid.Mailbox.{Bytes}
use plasmoid.Transport.{PeerMessage, Wire, deliver, remove_connection, pid, bare}
use plasmoid.Transport.Frame.{encode_frame, read_frame, frame, read_link, peer_closed}
use plasmoid.Transport.SmallWire.{small_wire}
use plasmoid.Transport.Frame.Bounds.{frame_bounds}
use plasmoid.Transport.Frame.RoundTrip.{encode_all, read_link-encode_all}
use plasmoid.Transport.Links.{PeerLinks, new}
use plasmoid.Transport.Writer.{Attempt, write_to_peer, start}
use plasmoid.Transport.Writer.Order.{
  Subsequence, survivors, losses, connections, write_to_peer-order,
}

instance abbrev wire : Wire
wire = small_wire

-- Two messages, the first of them ours, and the frames that they make.
abbrev goodbye : PeerMessage
goodbye = remove_connection 9

abbrev hello : PeerMessage
hello =
    deliver (record {
      target = pid (record { node = 5; seq = 1 });
      ref_id = none;
      payload = 42 ∷ 43 ∷ [];
    })

abbrev goodbye_frame : Bytes
goodbye_frame = 2 ∷ 0 ∷ 0 ∷ 0 ∷ 3 ∷ 9 ∷ []

abbrev hello_frame : Bytes
hello_frame = 5 ∷ 0 ∷ 0 ∷ 0 ∷ 0 ∷ 5 ∷ 1 ∷ 42 ∷ 43 ∷ []

frame_bounds_example :
    (encode_frame goodbye ≡ some goodbye_frame → (4 ≤ 6) × (6 ≤ 4 + 1048576))
    × (read_frame goodbye_frame ≡ frame goodbye [] → (4 ≤ 6) × (6 ≤ 1048580))
frame_bounds_example = frame_bounds goodbye goodbye_frame goodbye_frame []

both_encoded : encode_all (goodbye ∷ hello ∷ []) ≡ some (goodbye_frame ++ hello_frame)
unfolding encode_frame
both_encoded = refl

-- A byte of the next frame has arrived when the stream ends.
read_link-encode_all_example :
    read_link ((goodbye_frame ++ hello_frame) ++ 7 ∷ [])
    ≡ ((goodbye ∷ hello ∷ []) ++ (read_link (7 ∷ [])).0, (read_link (7 ∷ [])).1)
read_link-encode_all_example =
    read_link-encode_all (goodbye ∷ hello ∷ []) (goodbye_frame ++ hello_frame) (7 ∷ []) both_encoded

torn_frame : read_link (7 ∷ []) ≡ ([], peer_closed)
unfolding read_link
torn_frame = refl

abbrev ours : PeerLinks
unfolding new
ours = new (bare 1)

goodbye_encoded : encode_frame goodbye ≡ some goodbye_frame
unfolding encode_frame
goodbye_encoded = refl

-- The first frame finds the peer unreachable, the second breaks one stream and is written on the
-- next, the third breaks two.
abbrev outage : List (Bytes × Attempt × Attempt)
outage =
    (
      goodbye_frame,
      record { opens = false; writes = false },
      record { opens = true; writes = true },
    )
    ∷ (hello_frame, record { opens = true; writes = false }, record { opens = true; writes = true })
    ∷ (
      goodbye_frame,
      record { opens = true; writes = false },
      record { opens = true; writes = false },
    )
    ∷ []

outage_written :
    write_to_peer outage start
    ≡ record { stream = false; written = hello_frame ∷ []; announced = 1; watchers = 3 }
unfolding write_to_peer
outage_written = refl

write_to_peer-order_example :
    Subsequence (write_to_peer outage start).written (map (λ e. e.0) outage)
    × ((write_to_peer outage start).written ≡ survivors false outage)
    × ((write_to_peer outage start).announced ≡ losses false outage)
    × ((write_to_peer outage start).watchers ≡ connections false outage)
write_to_peer-order_example = write_to_peer-order outage
