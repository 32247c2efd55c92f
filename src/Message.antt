-- ===== src/Message.antt =====
-- src/message.rs: why particles stop, and the messages that the system itself sends.
use plasmoid.Prelude.{ℕ, String, Bool, true, false}
use plasmoid.Pid.{Pid}

pub data ExitReason : Type 0 where
  normal kill killed : ExitReason
  shutdown : String → ExitReason
  exception : String → ExitReason
  no_proc no_connection : ExitReason

unfoldable pub is_abnormal : ExitReason → Bool
is_abnormal normal = false
is_abnormal _ = true

pub data SystemMessage : Type 0 where
  exit : (from : Pid) (reason : ExitReason) → SystemMessage
  down : (from : Pid) (monitor_ref : ℕ) (reason : ExitReason) → SystemMessage
