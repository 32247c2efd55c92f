-- ===== src/Mailbox/Receive.antt =====
-- What `recv` and `recv_ref` of src/mailbox.rs return, and what they leave behind.
use plasmoid.Prelude.{
  ℕ, ◌≡◌, ◌≢◌, refl, ◌⊎◌, inl, inr, Bool, true, false, List, [], ◌∷◌, ◌++◌, arith, All, position,
  position-none, position-remove_at, Option-cases,
}
use plasmoid.Message.{SystemMessage}
use plasmoid.Mailbox.{
  Mailbox, MailboxMessage, push_system, has_ref, recv_pass, recv_ref_pass, Op, close_op, apply,
  apply_all, from_system, got, waiting, recv_loop, recv, recv_ref, Received, Wake, notified,
  timed_out, if_closed, close,
}

-- The first message with the reference, and the rest of the queue in its order; or none has it.
abbrev pub Selects : ℕ → Mailbox → Received × Mailbox → Type 0
Selects r m result =
    ((pre : List MailboxMessage) × (msg : MailboxMessage) × (post : List MailboxMessage) × (m.queue
        ≡ pre ++ msg ∷ post)
      × All (λ n. has_ref r n ≡ false) pre
      × (has_ref r msg ≡ true)
      × (result.0 ≡ got msg)
      × (result.1.queue ≡ pre ++ post)
      × (result.1.closed ≡ m.closed))
    ⊎ (All (λ n. has_ref r n ≡ false) m.queue × (result ≡ if_closed m))

-- One pass of `recv_ref` returns the first message that carries the reference and keeps all the
-- others in their order; if none carries it, the mailbox is unchanged and the receiver waits, or
-- is told that the mailbox is closed.
pub recv_ref_pass-Selects : (r : ℕ) (m : Mailbox) → Selects r m (recv_ref_pass r m)
unfolding recv_ref_pass
recv_ref_pass-Selects r m = elim (Option-cases (position (has_ref r) m.queue)) [
  | inl missing ↦ inr (position-none _ m.queue missing, rw (missing, recv_ref_pass))
  | inr (i, at) ↦
      let (pre, x, post, e, before, hit, taken) = position-remove_at (has_ref r) m.queue i at in
      inl (
        pre,
        x,
        post,
        e,
        before,
        hit,
        rw (at, recv_ref_pass, taken),
        rw (at, recv_ref_pass, taken),
        rw (at, recv_ref_pass, taken),
      )
]

-- A system message overtakes everything: the next `recv` returns it at once, whatever the queue
-- holds and also when the mailbox is closed, and leaves the mailbox as it was before the push.
pub recv-push_system :
    (msg : SystemMessage) (timeout : Bool) (wakes : List Wake) (m : Mailbox)
    → recv timeout wakes (push_system msg m) ≡ (got (from_system msg), m)
unfolding recv recv_loop recv_pass push_system
recv-push_system (SystemMessage.exit f r) timeout [] m = refl
recv-push_system (SystemMessage.exit f r) timeout (notified ops ∷ wakes) m = refl
recv-push_system (SystemMessage.exit f r) timeout (timed_out ops ∷ wakes) m = refl
recv-push_system (SystemMessage.down f n r) timeout [] m = refl
recv-push_system (SystemMessage.down f n r) timeout (notified ops ∷ wakes) m = refl
recv-push_system (SystemMessage.down f n r) timeout (timed_out ops ∷ wakes) m = refl

apply-closed : (op : Op) (m : Mailbox) → m.closed ≡ true → (apply op m).closed ≡ true
unfolding apply
apply-closed (Op.data_op b) m h = ground arith
apply-closed _ m h = ground arith

apply_all-closed : (ops : List Op) (m : Mailbox) → m.closed ≡ true → (apply_all ops m).closed ≡ true
unfolding apply_all
apply_all-closed [] m h = h
apply_all-closed (op ∷ ops) m h = apply_all-closed ops (apply op m) (apply-closed op m h)

abbrev pub closes : List Op → Bool
closes [] = false
closes (close_op ∷ ops) = true
closes (_ ∷ ops) = closes ops

apply_all-closes :
    (ops : List Op) (m : Mailbox) → closes ops ≡ true → (apply_all ops m).closed ≡ true
unfolding apply_all apply close
apply_all-closes [] m h = absurd (cc)
apply_all-closes (close_op ∷ ops) m h = apply_all-closed ops _ refl
apply_all-closes (Op.data_op b ∷ ops) m h = apply_all-closes ops _ h
apply_all-closes (Op.tagged_op r b ∷ ops) m h = apply_all-closes ops _ h
apply_all-closes (Op.reply_op r o ∷ ops) m h = apply_all-closes ops _ h
apply_all-closes (Op.system_op s ∷ ops) m h = apply_all-closes ops _ h

-- A pass that never waits on a closed mailbox.
abbrev EndsClosed : (Mailbox → Received × Mailbox) → Type 0
EndsClosed pass = (m : Mailbox) → m.closed ≡ true → (pass m).0 ≢ waiting

recv_pass-EndsClosed : EndsClosed recv_pass
unfolding recv_pass
recv_pass-EndsClosed m h = ground arith

recv_ref_pass-EndsClosed : (r : ℕ) → EndsClosed (recv_ref_pass r)
recv_ref_pass-EndsClosed r m h = elim (recv_ref_pass-Selects r m) [
  | inl (pre, x, post, e, before, hit, took, kept, same) ↦ ground arith
  | inr (missing, e) ↦ ground arith
]

recv_loop-EndsClosed :
    (pass : Mailbox → Received × Mailbox)
    → EndsClosed pass
    → (timeout : Bool) (wakes : List Wake) → EndsClosed (recv_loop pass timeout wakes)
unfolding recv_loop
recv_loop-EndsClosed pass ends timeout [] m h = ends m h
recv_loop-EndsClosed pass ends timeout (notified ops ∷ wakes) m h = ground (arith, ends m h)
recv_loop-EndsClosed pass ends timeout (timed_out ops ∷ wakes) m h = ground (arith, ends m h)

recv_loop-woken :
    (pass : Mailbox → Received × Mailbox)
    → EndsClosed pass
    → (timeout : Bool) (ops : List Op) (wakes : List Wake) (m : Mailbox) → closes ops ≡ true
    → (recv_loop pass timeout (notified ops ∷ wakes) m).0 ≢ waiting
unfolding recv_loop
recv_loop-woken pass ends timeout ops wakes m h =
    let shut = apply_all-closes ops (pass m).1 h in
    ground (arith, recv_loop-EndsClosed pass ends timeout wakes (apply_all ops (pass m).1) shut)

-- A receiver that is woken once the mailbox has been closed does not wait again, with or without a
-- timeout, and whether it waits for any message or for one with a reference.
pub recv-woken_by_close :
    (r : ℕ) (timeout : Bool) (ops : List Op) (wakes : List Wake) (m : Mailbox)
    → closes ops ≡ true
    → ((recv timeout (notified ops ∷ wakes) m).0 ≢ waiting)
      × ((recv_ref r timeout (notified ops ∷ wakes) m).0 ≢ waiting)
unfolding recv recv_ref
recv-woken_by_close r timeout ops wakes m h = (
  recv_loop-woken recv_pass recv_pass-EndsClosed timeout ops wakes m h,
  recv_loop-woken (recv_ref_pass r) (recv_ref_pass-EndsClosed r) timeout ops wakes m h,
)
