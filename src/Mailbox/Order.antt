-- ===== src/Mailbox/Order.antt =====
-- The order in which src/mailbox.rs delivers data messages.
use plasmoid.Prelude.{
  ℕ, zero, suc, ◌≡◌, refl, false, List, [], ◌∷◌, ◌++◌, map, append_assoc, append-nil, arith, All,
  length, ◌∙◌,
}
use plasmoid.Mailbox.{
  Mailbox, MailboxMessage, Bytes, bytes, push_data, SendResult, ok, recv_pass, recv, recv_loop,
  Received, got,
}

-- One sender's messages, one after another, with the results that it is given.
abbrev pub push_all : List Bytes → Mailbox → List SendResult × Mailbox
push_all [] m = ([], m)
push_all (b ∷ bs) m =
    ((push_data b m).0 ∷ (push_all bs (push_data b m).1).0, (push_all bs (push_data b m).1).1)

-- `n` receives in a row, with nothing else happening.
abbrev pub drain : ℕ → Mailbox → List Received
drain zero m = []
drain (suc n) m = (recv false [] m).0 ∷ drain n (recv false [] m).1

push_data-queue :
    (b : Bytes) (m : Mailbox)
    → m.closed ≡ false
    → ((push_data b m).0 ≡ ok)
      × ((push_data b m).1.queue ≡ m.queue ++ bytes b ∷ [])
      × ((push_data b m).1.closed ≡ false)
unfolding push_data
push_data-queue b m h = ground arith

push_all-queue :
    (bs : List Bytes) (m : Mailbox)
    → m.closed ≡ false
    → All (λ r. r ≡ ok) (push_all bs m).0 × ((push_all bs m).1.queue ≡ m.queue ++ map bytes bs)
push_all-queue [] m h = (tt, rw append-nil)
push_all-queue (b ∷ bs) m h =
    let (sent, grown, open_still) = push_data-queue b m h in
    let (all_sent, q) = push_all-queue bs (push_data b m).1 open_still in
    ((sent, all_sent), q ∙ rw grown (append_assoc m.queue (bytes b ∷ []) (map bytes bs)))

drain-queue : (q : List MailboxMessage) (m : Mailbox) → m.queue ≡ q → drain (length q) m ≡ map got q
unfolding recv recv_loop recv_pass
drain-queue [] m h = refl
drain-queue (x ∷ q) m h = ground (arith, drain-queue q (recv_pass m).1)

-- An open mailbox accepts every data message, however many it holds already, and its particle
-- then receives what it held before, in its order, and after it the new messages in the order in
-- which they were sent.
pub drain-push_all :
    (bs : List Bytes) (m : Mailbox)
    → m.closed ≡ false
    → All (λ r. r ≡ ok) (push_all bs m).0
      × (drain (length (m.queue ++ map bytes bs)) (push_all bs m).1
          ≡ map got (m.queue ++ map bytes bs))
drain-push_all bs m h =
    let (sent, q) = push_all-queue bs m h in
    (sent, drain-queue (m.queue ++ map bytes bs) (push_all bs m).1 q)
