-- ===== src/Transport/Writer/Order.antt =====
-- src/transport.rs: in which order, and how often, `write_to_peer` writes the frames of its queue.
use plasmoid.Prelude.{
  ℕ, ◌+◌, ◌≡◌, Bool, true, false, not, ◌&&◌, ◌||◌, List, [], ◌∷◌, ◌++◌, arith, if◌then◌else◌, map,
  append_assoc, append-nil,
}
use plasmoid.Mailbox.{Bytes}
use plasmoid.Transport.Writer.{Attempt, Writer, write_frame, write_to_peer, start}

-- What becomes of one frame, said without the loop: with a stream open or one that can be opened,
-- it is written if either attempt can write; the second attempt opens a new stream.
abbrev is_written : Bool → Attempt → Attempt → Bool
is_written stream first second =
    (stream || first.opens) && (first.writes || (second.opens && second.writes))

-- Whether a stream is open afterwards.
abbrev stays_open : Bool → Attempt → Attempt → Bool
stays_open stream first second = is_written stream first second

-- Whether both attempts broke a stream.
abbrev is_lost : Bool → Attempt → Attempt → Bool
is_lost stream first second =
    (stream || first.opens) && not first.writes && second.opens && not second.writes

-- How many connections are opened for the frame: the first attempt needs one unless a stream is
-- open, the second if the first had one and could not write.
abbrev opened : Bool → Attempt → Attempt → ℕ
opened stream first second =
    (if not stream && first.opens then 1 else 0)
    + (if (stream || first.opens) && (not first.writes && second.opens) then 1 else 0)

-- The frames that get through, from what the network answers.
unfoldable pub survivors : Bool → List (Bytes × Attempt × Attempt) → List Bytes
survivors stream [] = []
survivors stream ((frame, first, second) ∷ queue) =
    let rest = survivors (stays_open stream first second) queue in
    if is_written stream first second then frame ∷ rest else rest

unfoldable pub losses : Bool → List (Bytes × Attempt × Attempt) → ℕ
losses stream [] = 0
losses stream ((frame, first, second) ∷ queue) =
    let rest = losses (stays_open stream first second) queue in
    if is_lost stream first second then rest + 1 else rest

unfoldable pub connections : Bool → List (Bytes × Attempt × Attempt) → ℕ
connections stream [] = 0
connections stream ((frame, first, second) ∷ queue) =
    opened stream first second + connections (stays_open stream first second) queue

write_frame-outcome :
    (first second : Attempt) (frame : Bytes) (w : Writer)
    → write_frame first second frame w ≡ record {
      stream = stays_open w.stream first second;
      written = if is_written w.stream first second then w.written ++ frame ∷ [] else w.written;
      announced = if is_lost w.stream first second then w.announced + 1 else w.announced;
      watchers = w.watchers + opened w.stream first second;
    }
unfolding write_frame
write_frame-outcome first second frame w = ground arith

-- The first list is the second with some elements left out.
pub data Subsequence {ℓ} {A : Type ℓ} : List A → List A → Type ℓ where
  empty : Subsequence [] []
  keep : (x : A) {xs ys : List A} → Subsequence xs ys → Subsequence (x ∷ xs) (x ∷ ys)
  leave : (y : A) {xs ys : List A} → Subsequence xs ys → Subsequence xs (y ∷ ys)

keep_if {ℓ} :
    {A : Type ℓ} (b : Bool) (x : A) {xs ys : List A}
    → Subsequence xs ys
    → Subsequence (if b then x ∷ xs else xs) (x ∷ ys)
keep_if true x s = keep x s
keep_if false x s = leave x s

survivors-Subsequence :
    (stream : Bool) (queue : List (Bytes × Attempt × Attempt))
    → Subsequence (survivors stream queue) (map (λ e. e.0) queue)
unfolding survivors
survivors-Subsequence stream [] = empty
survivors-Subsequence stream ((frame, first, second) ∷ queue) =
    keep_if (is_written stream first second) frame
      (survivors-Subsequence (stays_open stream first second) queue)

write_to_peer-adds :
    (queue : List (Bytes × Attempt × Attempt)) (w : Writer)
    → ((write_to_peer queue w).written ≡ w.written ++ survivors w.stream queue)
      × ((write_to_peer queue w).announced ≡ w.announced + losses w.stream queue)
      × ((write_to_peer queue w).watchers ≡ w.watchers + connections w.stream queue)
unfolding write_to_peer survivors losses connections
write_to_peer-adds [] w = (ground (arith, append-nil w.written), omega arith, omega arith)
write_to_peer-adds ((frame, first, second) ∷ queue) w =
    let next = write_frame first second frame w in
    let ih = write_to_peer-adds queue next in
    ground (
      arith,
      write_frame-outcome first second frame w,
      append_assoc w.written (frame ∷ []) (survivors (stays_open w.stream first second) queue),
    )

-- Whatever the network answers, the frames of a queue are written in the order of the queue, none
-- of them twice. A frame is written exactly if a stream is open or can be opened for it and one of
-- its two attempts can write. The writer itself announces the peer's loss once for each frame with
-- which two streams broke; and it leaves a watcher for each connection that it opened, which
-- announces the loss too when the connection closes. So nothing announces the loss of a peer that
-- only could not be reached.
pub write_to_peer-order :
    (queue : List (Bytes × Attempt × Attempt))
    → Subsequence (write_to_peer queue start).written (map (λ e. e.0) queue)
      × ((write_to_peer queue start).written ≡ survivors false queue)
      × ((write_to_peer queue start).announced ≡ losses false queue)
      × ((write_to_peer queue start).watchers ≡ connections false queue)
write_to_peer-order queue =
    let (written, announced, watched) = write_to_peer-adds queue start in
    (
      rw written (survivors-Subsequence false queue),
      written,
      omega (arith, announced),
      omega (arith, watched),
    )
