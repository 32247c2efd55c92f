-- ===== src/Registry/Spawn.antt =====
-- src/registry.rs: `register_component`, `spawn` and `insert_test_particle`.
use plasmoid.Prelude.{
  ℕ, ◌+◌, String, Bool, false, Option, none, some, if◌then◌else◌, string_eq, nat_eq,
}
use plasmoid.Prelude.Map.{get, insert, remove, contains_key}
use plasmoid.Pid.{Pid, pid_eq, next}
use plasmoid.Mailbox.{empty}
use plasmoid.Registry.State.{ParticleRegistry, PolicySet, fresh_state}

-- The WebAssembly binary is compiled outside; what it compiles to is kept with its capabilities.
unfoldable pub register_component : String → PolicySet → ParticleRegistry → ParticleRegistry
register_component name capabilities r = record r {
  components = insert name capabilities r.components;
}

pub data SpawnResult : Type 0 where
  ok : (pid : Pid) (mailbox : ℕ) → SpawnResult
  name_taken : String → SpawnResult
  no_component : String → SpawnResult

-- `names.contains_key(name)`, for a spawn that may have no name.
unfoldable pub is_taken : Option String → ParticleRegistry → Bool
is_taken none r = false
is_taken (some name) r = contains_key name r.names

-- The insertion of the entry and the state under a fresh pid, with a new mailbox.
unfoldable pub insert_particle :
    String → Option String → PolicySet → ParticleRegistry → ParticleRegistry
unfolding next empty
insert_particle component name caps r =
    let pid = (next r.pid_gen).0 in
    record r {
      pid_gen = (next r.pid_gen).1;
      particles =
          insert pid
            (record { pid = pid; capabilities = caps; component_name = component; name = name })
            r.particles;
      particle_states = insert pid (fresh_state r.next_mailbox) r.particle_states;
      mailboxes = insert r.next_mailbox empty r.mailboxes;
      next_mailbox = r.next_mailbox + 1;
    }

-- The insertion of the name, which tests it again: another spawn may have taken it since.
unfoldable pub claim_name :
    Option String → Pid → ℕ → ParticleRegistry → SpawnResult × ParticleRegistry
claim_name none pid mailbox r = (ok pid mailbox, r)
claim_name (some name) pid mailbox r =
    if contains_key name r.names
    then (
      name_taken name,
      record r {
        particle_states = remove pid r.particle_states;
        particles = remove pid r.particles;
      },
    )
    else (ok pid mailbox, record r { names = insert name pid r.names })

abbrev pub or_default : Option PolicySet → PolicySet → PolicySet
or_default none caps = caps
or_default (some caps) other = caps

abbrev pub taken_name : Option String → String
taken_name none = ""
taken_name (some name) = name

unfoldable pub spawn_template :
    String
    → Option String
    → Option PolicySet
    → Option PolicySet
    → (ParticleRegistry → ParticleRegistry)
    → ParticleRegistry
    → SpawnResult × ParticleRegistry
unfolding insert_particle claim_name
spawn_template component name caps none between r = (no_component component, r)
spawn_template component name caps (some defaults) between r =
    claim_name name (next r.pid_gen).0 r.next_mailbox
      (between (insert_particle component name (or_default caps defaults) r))

-- `spawn`; `between` is what other tasks do before the name is inserted.
unfoldable pub spawn :
    String
    → Option String
    → Option PolicySet
    → (ParticleRegistry → ParticleRegistry)
    → ParticleRegistry
    → SpawnResult × ParticleRegistry
unfolding is_taken spawn_template
spawn component name caps between r =
    if is_taken name r
    then (name_taken (taken_name name), r)
    else spawn_template component name caps (get component r.components) between r
