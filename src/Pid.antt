-- ===== src/Pid.antt =====
-- src/pid.rs: particle identifiers and their generator.
-- `EndpointId` is iroh's 32-byte node identity, of which this file uses equality and the order of
-- the bytes: it is the number that the bytes spell, most significant first.
pub mod Key
use plasmoid.Prelude.{ℕ, ◌≡◌, ◌↔◌, Bool, true, ◌&&◌, arith, ◌==◌, Eq, ltb, ◌||◌, next_u64, nat_eq}

abbrev pub EndpointId : Type 0
EndpointId = ℕ

pub record Pid : Type 0 where
  pub node : EndpointId
  pub seq : ℕ

-- `#[derive(PartialEq, Eq, Hash)]`
abbrev pub pid_beq : Pid → Pid → Bool
pid_beq a b = (a.node == b.node) && (a.seq == b.seq)

pub pid_beq_iff : (a b : Pid) → (pid_beq a b ≡ true) ↔ (a ≡ b)
pid_beq_iff a b = ground arith

instance abbrev pub pid_eq : Eq Pid
pid_eq = record { beq = pid_beq; beq_iff = pid_beq_iff }

-- `#[derive(PartialOrd, Ord)]`: by node, then by sequence number.
unfoldable pub pid_lt : Pid → Pid → Bool
pid_lt a b = ltb a.node b.node || ((a.node == b.node) && ltb a.seq b.seq)

unfoldable pub is_local_to : Pid → EndpointId → Bool
is_local_to pid node = pid.node == node

pub record PidGenerator : Type 0 where
  pub node : EndpointId
  pub next_seq : ℕ

-- `PidGenerator::new`
unfoldable pub pid_generator : EndpointId → PidGenerator
pid_generator node = record { node = node; next_seq = 1 }

-- `PidGenerator::next`: the atomic counter wraps round.
unfoldable pub next : PidGenerator → Pid × PidGenerator
next g = (record { node = g.node; seq = g.next_seq }, record g { next_seq = next_u64 g.next_seq })
