-- ===== src/Registry/State.antt =====
-- src/registry.rs: the registry's data. Each of its locks is taken for one block at a time, so the
-- blocks are functions of the whole state; the methods here run to their end without another task
-- between their blocks, unless a comment says otherwise.
-- A mailbox is shared by the registry and its particle's task (`Arc<Mailbox>`): a particle's state
-- holds a key into the mailboxes, which outlive the particle. A compiled component is outside; its
-- template is what the registry keeps beside it, its capabilities.
use plasmoid.Prelude.{ℕ, String, Bool, false, Option, List, [], nat_eq}
use plasmoid.Prelude.Map.{Map, modify}
use plasmoid.Pid.{Pid, pid_eq, PidGenerator}
use plasmoid.Message.{ExitReason}
use plasmoid.Mailbox.{Mailbox}

abbrev pub PolicySet : Type 0
PolicySet = List String

pub record ParticleEntry : Type 0 where
  pub pid : Pid
  pub capabilities : PolicySet
  pub component_name : String
  pub name : Option String

pub record ParticleState : Type 0 where
  pub links : List Pid
  pub monitors : Map ℕ Pid
  pub monitored_by : List (Pid × ℕ)
  pub trap_exit : Bool
  pub mailbox : ℕ

pub record ParticleDeath : Type 0 where
  pub pid : Pid
  pub name : Option String
  pub reason : ExitReason
  pub remote_links : List Pid
  pub remote_monitors : List (Pid × ℕ)

-- `deaths` is what was published, the oldest first.
pub record ParticleRegistry : Type 0 where
  pub pid_gen : PidGenerator
  pub particles : Map Pid ParticleEntry
  pub names : Map String Pid
  pub components : Map String PolicySet
  pub particle_states : Map Pid ParticleState
  pub next_ref : ℕ
  pub deaths : List ParticleDeath
  pub mailboxes : Map ℕ Mailbox
  pub next_mailbox : ℕ

-- `ParticleRegistry::new`
unfoldable pub new : PidGenerator → ParticleRegistry
new pid_gen = record {
  pid_gen = pid_gen;
  particles = [];
  names = [];
  components = [];
  particle_states = [];
  next_ref = 1;
  deaths = [];
  mailboxes = [];
  next_mailbox = 0;
}

-- The state of a particle as `spawn` makes it.
abbrev pub fresh_state : ℕ → ParticleState
fresh_state mailbox = record {
  links = [];
  monitors = [];
  monitored_by = [];
  trap_exit = false;
  mailbox = mailbox;
}

-- A method of one mailbox.
unfoldable pub with_mailbox : ℕ → (Mailbox → Mailbox) → ParticleRegistry → ParticleRegistry
with_mailbox key f r = record r { mailboxes = modify key f r.mailboxes }

-- `states.get_mut(pid)` and an update of what it finds.
unfoldable pub with_state :
    Pid → (ParticleState → ParticleState) → ParticleRegistry → ParticleRegistry
with_state pid f r = record r { particle_states = modify pid f r.particle_states }
