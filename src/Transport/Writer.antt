-- ===== src/Transport/Writer.antt =====
-- src/transport.rs: `write_to_peer`, the task that drains a peer's queue onto one stream at a time.
-- The network is outside: what it would answer in each attempt is an argument.
pub mod Order
use plasmoid.Prelude.{ℕ, ◌+◌, Bool, true, false, List, [], ◌∷◌, ◌++◌, if◌then◌else◌}
use plasmoid.Mailbox.{Bytes}

-- What the network answers in one attempt: whether a stream can be opened, should one be needed,
-- and whether the frame can be written.
pub record Attempt : Type 0 where
  pub opens : Bool
  pub writes : Bool

-- Whether a stream is open, the frames that were written, the oldest first, how often the writer
-- itself announced the loss of the peer, and the watchers: `open_link` starts one for every
-- connection, which announces the loss once more when its connection closes.
pub record Writer : Type 0 where
  pub stream : Bool
  pub written : List Bytes
  pub announced : ℕ
  pub watchers : ℕ

-- `open_link`, where it succeeds.
abbrev pub open_link : Writer → Writer
open_link w = record w { stream = true; watchers = w.watchers + 1 }

abbrev pub start : Writer
start = record { stream = false; written = []; announced = 0; watchers = 0 }

-- How an attempt leaves the loop over the attempts.
pub data Next : Type 0 where
  done again : Next

-- One round of `for attempt in 0..2`; `last` says that it is the second.
abbrev pub try_open_write : Bool → Attempt → Bytes → Writer → Next × Writer
try_open_write last t frame w =
    if t.writes then (done, record w { written = w.written ++ frame ∷ [] }) else (
      again,
      record w { stream = false; announced = if last then w.announced + 1 else w.announced },
    )

unfoldable pub try_write : Bool → Attempt → Bytes → Writer → Next × Writer
try_write last t frame w =
    if w.stream
    then try_open_write last t frame w
    else (if t.opens then try_open_write last t frame (open_link w) else (done, w))

unfoldable pub write_frame : Attempt → Attempt → Bytes → Writer → Writer
unfolding try_write
write_frame first second frame w =
    let (next, w') = try_write false first frame w in
    elim next [ done ↦ w' | again ↦ (try_write true second frame w').1 ]

-- The frames in the order of the queue, each with what the network would answer.
unfoldable pub write_to_peer : List (Bytes × Attempt × Attempt) → Writer → Writer
unfolding write_frame
write_to_peer [] w = w
write_to_peer ((frame, first, second) ∷ queue) w =
    write_to_peer queue (write_frame first second frame w)
