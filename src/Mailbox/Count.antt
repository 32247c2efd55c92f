-- ===== src/Mailbox/Count.antt =====
-- The data count of src/mailbox.rs is the number of data and tagged messages in the queue, so
-- that neither of its decrements can pass zero.
use plasmoid.Prelude.{
  ℕ, suc, ◌+◌, ◌≡◌, refl, ap, Bool, List, [], ◌∷◌, ◌++◌, arith, true, if◌then◌else◌,
  position-remove_at, position, Option-cases, inl, inr,
}
use plasmoid.Mailbox.{
  Mailbox, MailboxMessage, empty, is_counted, is_tagged, has_ref, recv_pass, recv_ref_pass, Op,
  data_op, tagged_op, reply_op, system_op, close_op, apply, apply_all, recv_loop, recv, recv_ref,
  Received, Wake,
}

abbrev pub counted : List MailboxMessage → ℕ
counted [] = 0
counted (msg ∷ q) = if is_counted msg then suc (counted q) else counted q

abbrev pub IsCounted : Mailbox → Type 0
IsCounted m = m.data_count ≡ counted m.queue

counted-append : (q r : List MailboxMessage) → counted (q ++ r) ≡ counted q + counted r
counted-append [] r = omega arith
counted-append (msg ∷ q) r = ground (arith, counted-append q r)

counted-insert :
    (q r : List MailboxMessage) (msg : MailboxMessage)
    → counted (q ++ msg ∷ r) ≡ (if is_counted msg then suc (counted (q ++ r)) else counted (q ++ r))
counted-insert [] r msg = refl
counted-insert (n ∷ q) r msg = ground (arith, counted-insert q r msg)

pub apply-IsCounted : (op : Op) (m : Mailbox) → IsCounted m → IsCounted (apply op m)
unfolding apply
apply-IsCounted (data_op b) m h =
    ground (arith, counted-append m.queue (MailboxMessage.bytes b ∷ []))
apply-IsCounted (tagged_op r b) m h =
    ground (arith, counted-append m.queue (MailboxMessage.tagged r b ∷ []))
apply-IsCounted (reply_op r o) m h =
    ground (arith, counted-append m.queue (MailboxMessage.spawn_reply r o ∷ []))
apply-IsCounted (system_op msg) m h = ground arith
apply-IsCounted close_op m h = h

pub apply_all-IsCounted : (ops : List Op) (m : Mailbox) → IsCounted m → IsCounted (apply_all ops m)
unfolding apply_all
apply_all-IsCounted [] m h = h
apply_all-IsCounted (op ∷ ops) m h = apply_all-IsCounted ops (apply op m) (apply-IsCounted op m h)

pub recv_pass-IsCounted : (m : Mailbox) → IsCounted m → IsCounted (recv_pass m).1
unfolding recv_pass
recv_pass-IsCounted m h = ground arith

-- What `recv_ref` takes out is counted exactly if it is tagged.
is_tagged-has_ref :
    (r : ℕ) (msg : MailboxMessage) → has_ref r msg ≡ true → is_tagged msg ≡ is_counted msg
is_tagged-has_ref r (MailboxMessage.bytes b) h = absurd (cc)
is_tagged-has_ref r (MailboxMessage.tagged s p) h = refl
is_tagged-has_ref r _ h = refl

pub recv_ref_pass-IsCounted : (r : ℕ) (m : Mailbox) → IsCounted m → IsCounted (recv_ref_pass r m).1
unfolding recv_ref_pass
recv_ref_pass-IsCounted r m h = elim (Option-cases (position (has_ref r) m.queue)) [
  | inl missing ↦ rw (missing, recv_ref_pass) (ground arith)
  | inr (i, at) ↦
      let (pre, x, post, e, before, hit, taken) = position-remove_at (has_ref r) m.queue i at in
      rw (at, recv_ref_pass, taken)
        (ground (arith, is_tagged-has_ref r x hit, counted-insert pre post x, ap counted e))
]

-- The receive loop keeps the count, whatever the other tasks do while it waits.
pub recv_loop-IsCounted :
    (pass : Mailbox → Received × Mailbox)
    → ((m : Mailbox) → IsCounted m → IsCounted (pass m).1)
    → (timeout : Bool) (wakes : List Wake) (m : Mailbox) → IsCounted m
    → IsCounted (recv_loop pass timeout wakes m).1
unfolding recv_loop
recv_loop-IsCounted pass keep timeout [] m h = keep m h
recv_loop-IsCounted pass keep timeout (Wake.notified ops ∷ wakes) m h =
    let after = apply_all-IsCounted ops (pass m).1 (keep m h) in
    ground (
      arith,
      keep m h,
      recv_loop-IsCounted pass keep timeout wakes (apply_all ops (pass m).1) after,
    )
recv_loop-IsCounted pass keep timeout (Wake.timed_out ops ∷ wakes) m h =
    let after = apply_all-IsCounted ops (pass m).1 (keep m h) in
    ground (
      arith,
      after,
      keep m h,
      recv_loop-IsCounted pass keep timeout wakes (apply_all ops (pass m).1) after,
    )

-- A step of a mailbox's life: another task's operation, or a receive of its particle.
pub data Event : Type 0 where
  other : Op → Event
  receive : Bool → List Wake → Event
  receive_ref : ℕ → Bool → List Wake → Event

abbrev pub live : List Event → Mailbox → Mailbox
live [] m = m
live (other op ∷ es) m = live es (apply op m)
live (receive timeout wakes ∷ es) m = live es (recv timeout wakes m).1
live (receive_ref r timeout wakes ∷ es) m = live es (recv_ref r timeout wakes m).1

live-keeps : (es : List Event) (m : Mailbox) → IsCounted m → IsCounted (live es m)
unfolding recv recv_ref
live-keeps [] m h = h
live-keeps (other op ∷ es) m h = live-keeps es (apply op m) (apply-IsCounted op m h)
live-keeps (receive timeout wakes ∷ es) m h =
    live-keeps es (recv timeout wakes m).1
      (recv_loop-IsCounted recv_pass recv_pass-IsCounted timeout wakes m h)
live-keeps (receive_ref r timeout wakes ∷ es) m h =
    live-keeps es (recv_ref r timeout wakes m).1
      (recv_loop-IsCounted (recv_ref_pass r) (recv_ref_pass-IsCounted r) timeout wakes m h)

-- Whatever is sent to a new mailbox, and however its particle receives, the data count stays the
-- number of data and tagged messages in the queue.
pub live-IsCounted : (es : List Event) → IsCounted (live es empty)
unfolding empty
live-IsCounted es = live-keeps es empty refl
