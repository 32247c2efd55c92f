-- ===== src/Signals/Tests.antt =====
-- A run of src/signals.rs.
use plasmoid.Prelude.{◌≡◌, refl, some, [], ◌∷◌, nat_eq}
use plasmoid.Prelude.Map.{get}
use plasmoid.Pid.{Pid, pid_eq, is_local_to, pid_generator}
use plasmoid.Message.{no_connection}
use plasmoid.Mailbox.{down, empty}
use plasmoid.Registry.State.{ParticleRegistry, new, fresh_state}
use plasmoid.Registry.Cascade.{Returns}
use plasmoid.Signals.{on_node_lost}
use plasmoid.Signals.Downs.{Heard, on_node_lost-Heard}
use plasmoid.Signals.Lost.{Severed, on_node_lost-Severed}

abbrev here : Pid
here = record { node = 1; seq = 1 }

abbrev away : Pid
away = record { node = 2; seq = 4 }

-- One particle, linked to a particle of node 2.
abbrev linked_away : ParticleRegistry
unfolding new pid_generator
linked_away = record (new (pid_generator 1)) {
  particle_states = (here, record (fresh_state 0) { links = away ∷ [] }) ∷ [];
}

on_node_lost-Severed_example :
    Returns (Severed here away linked_away) linked_away (on_node_lost 2 linked_away)
unfolding is_local_to
on_node_lost-Severed_example = on_node_lost-Severed 2 here away refl linked_away

-- The same particle, with a monitor of the other and a mailbox.
abbrev watching : ParticleRegistry
unfolding new pid_generator empty
watching = record linked_away {
  particle_states = (here, record (fresh_state 0) { monitors = (3, away) ∷ [] }) ∷ [];
  mailboxes = (0, empty) ∷ [];
}

on_node_lost-Heard_example :
    (n : ParticleRegistry) × (on_node_lost 2 watching ≡ some n)
    × Heard here (down away 3 no_connection) n
unfolding is_local_to get watching
on_node_lost-Heard_example =
    on_node_lost-Heard 2 here away 3 (record (fresh_state 0) { monitors = (3, away) ∷ [] }) watching
      refl refl refl
