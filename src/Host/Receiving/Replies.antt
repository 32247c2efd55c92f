-- ===== src/Host/Receiving/Replies.antt =====
-- src/runtime/invoke.rs and src/mailbox.rs: that the reply to a spawn request is received.
use plasmoid.Prelude.{
  ℕ, ◌≡◌, refl, ap, String, Bool, true, false, Option, some, List, [], ◌∷◌, ◌++◌, All, suc, nat_eq,
  beq_refl, position, remove_at,
}
use plasmoid.Pid.{EndpointId}
use plasmoid.Pid.Key.{NodeIds, Text}
use plasmoid.Mailbox.{
  MailboxMessage, Mailbox, Wake, notified, timed_out, Received, got, has_ref, recv_ref_pass,
  push_spawn_reply, SpawnOutcome, recv_loop,
}
use plasmoid.Mailbox
use plasmoid.Registry.State.{ParticleRegistry}
use plasmoid.Protocol.Serve.{SpawnResponse}
use plasmoid.Host.{HostState}
use plasmoid.Host.Spawning.{Between, remote_spawn}
use plasmoid.Host.Receiving.{
  message, spawn_reply, outcome_to_wit, delivery_of, mailbox_message_to_wit, recv_ref, spawn_task,
}

-- What is put behind messages that fail a test is the first to pass it.
position-last :
    (p : MailboxMessage → Bool) (xs : List MailboxMessage) (x : MailboxMessage)
    → All (λ y. p y ≡ false) xs
    → p x ≡ true
    → (i : ℕ) × (position p (xs ++ x ∷ []) ≡ some i) × (remove_at i (xs ++ x ∷ []) ≡ some (x, xs))
position-last p [] x none_before hit = (0, rw hit refl, refl)
position-last p (y ∷ xs) x none_before hit =
    let (i, at, taken) = position-last p xs x none_before.1 hit in
    (suc i, rw (none_before.0, at) refl, rw taken refl)

recv_ref_pass-reply :
    (ref_id : ℕ) (outcome : SpawnOutcome) (m : Mailbox)
    → m.closed ≡ false
    → All (λ n. has_ref ref_id n ≡ false) m.queue
    → recv_ref_pass ref_id (push_spawn_reply ref_id outcome m)
      ≡ (got (Mailbox.spawn_reply ref_id outcome), m)
unfolding recv_ref_pass push_spawn_reply
recv_ref_pass-reply ref_id outcome m unclosed fresh =
    let (i, at, taken) =
      position-last (has_ref ref_id) m.queue (Mailbox.spawn_reply ref_id outcome) fresh
        (beq_refl ref_id) in
    rw unclosed (rw at (rw taken refl))

-- A pass that ends ends the receive.
recv_loop-got :
    (pass : Mailbox → Received × Mailbox) (timeout : Bool) (wakes : List Wake) (m : Mailbox)
    (msg : MailboxMessage) (m' : Mailbox)
    → pass m ≡ (got msg, m')
    → recv_loop pass timeout wakes m ≡ (got msg, m')
unfolding recv_loop
recv_loop-got pass timeout [] m msg m' e = e
recv_loop-got pass timeout (notified ops ∷ wakes) m msg m' e = rw (e, recv_loop) e
recv_loop-got pass timeout (timed_out ops ∷ wakes) m msg m' e = rw (e, recv_loop) e

module _ ⦃ids : NodeIds⦄ where
  -- A spawn that was requested is answered. If the particle's mailbox is open and holds nothing with
  -- the reference, then after the task that the request started, receiving with that reference gives
  -- at once the outcome of the spawn, whatever it is and however the receive waits, and leaves the
  -- mailbox as it was.
  pub spawn_task-recv_ref :
      (ref_id : ℕ) (node : Text) (remote : EndpointId → Option SpawnResponse) (starts : Bool)
      (component : String) (name : Option String) (between : Between) (h : HostState)
      (r : ParticleRegistry) (m : Mailbox) (timeout : Bool) (wakes : List Wake)
      → m.closed ≡ false
      → All (λ n. has_ref ref_id n ≡ false) m.queue
      → recv_ref ref_id timeout wakes
          (spawn_task ref_id node remote starts component name between h r m).0
        ≡ (
          message (
              spawn_reply ref_id
                (outcome_to_wit (remote_spawn node remote starts component name between h r).0)),
          m,
        )
  unfolding recv_ref Mailbox.recv_ref spawn_task mailbox_message_to_wit
  spawn_task-recv_ref ref_id node remote starts component name between h r m timeout wakes unclosed
        fresh =
      let outcome = (remote_spawn node remote starts component name between h r).0 in
      ap delivery_of (
        recv_loop-got (recv_ref_pass ref_id) timeout wakes (push_spawn_reply ref_id outcome m)
          (Mailbox.spawn_reply ref_id outcome) m
          (recv_ref_pass-reply ref_id outcome m unclosed fresh))
