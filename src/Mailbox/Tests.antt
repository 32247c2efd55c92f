-- ===== src/Mailbox/Tests.antt =====
-- Runs of src/mailbox.rs, after the tests at its end.
use plasmoid.Prelude.{◌≡◌, ◌≢◌, refl, true, false, [], ◌∷◌}
use plasmoid.Pid.{Pid}
use plasmoid.Message.{normal, SystemMessage}
use plasmoid.Mailbox.{
  Mailbox, Bytes, tagged, empty, apply, apply_all, data_op, tagged_op, system_op, close_op, recv,
  recv_ref, recv_ref_pass, recv_pass, recv_loop, got, waiting, gone, notified, timed_out,
}
use plasmoid.Mailbox.Count.{IsCounted, live, live-IsCounted, other, receive, receive_ref}
use plasmoid.Mailbox.Receive.{Selects, recv_ref_pass-Selects, recv-woken_by_close}

abbrev peer : Pid
peer = record { node = 7; seq = 1 }

abbrev hello : Bytes
hello = 104 ∷ 105 ∷ []

abbrev down_42 : SystemMessage
down_42 = SystemMessage.down peer 42 normal

abbrev busy : Mailbox
unfolding apply_all empty apply
busy = apply_all (data_op hello ∷ tagged_op 1 hello ∷ tagged_op 42 [] ∷ data_op [] ∷ []) empty

recv_ref_skips : (recv_ref 42 true [] busy).0 ≡ got (tagged 42 [])
unfolding recv_ref recv_loop recv_ref_pass apply_all empty apply
recv_ref_skips = refl

timeout_returns_none : (recv true (timed_out [] ∷ []) empty).0 ≡ gone
unfolding recv recv_loop recv_pass apply_all empty
timeout_returns_none = refl

live-IsCounted_example : IsCounted (
    live
      (other (tagged_op 5 hello)
        ∷ other (system_op down_42)
        ∷ receive_ref 5 true []
        ∷ receive false []
        ∷ [])
      empty)
live-IsCounted_example = live-IsCounted (
    other (tagged_op 5 hello)
    ∷ other (system_op down_42)
    ∷ receive_ref 5 true []
    ∷ receive false []
    ∷ [])

recv_ref_pass-Selects_example : Selects 42 busy (recv_ref_pass 42 busy)
recv_ref_pass-Selects_example = recv_ref_pass-Selects 42 busy

recv-woken_by_close_example :
    ((recv false (notified (close_op ∷ []) ∷ []) empty).0 ≢ waiting)
    × ((recv_ref 9 false (notified (close_op ∷ []) ∷ []) empty).0 ≢ waiting)
recv-woken_by_close_example = recv-woken_by_close 9 false (close_op ∷ []) [] empty refl
