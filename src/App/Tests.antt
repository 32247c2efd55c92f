-- ===== src/App/Tests.antt =====
-- Runs of src/app.rs and of `watch_root` of src/main.rs.
use plasmoid.Prelude.{ℕ, ◌≡◌, refl, none, [], ◌∷◌}
use plasmoid.Pid.{pid_eq}
use plasmoid.Message.{ExitReason, normal, kill, shutdown}
use plasmoid.Registry.Exit.{exit_now}
use plasmoid.Registry.Cascade.{Returns}
use plasmoid.Protocol.Tests.{registry_of, pid_at}
use plasmoid.App.{permanent, transient, Notice, death, lagged, stops, goes_on, watching, watch_root}
use plasmoid.App.Root.{Watched, watch_root-exit_now}

abbrev died : ℕ → ExitReason → Notice
died seq reason = death (record {
  pid = pid_at 7 seq;
  name = none;
  reason = reason;
  remote_links = [];
  remote_monitors = [];
})

-- A root's supervisor that gives up exits with `shutdown`, a failure here.
gave_up :
    watch_root (pid_at 7 1) permanent (died 2 kill ∷ died 1 (shutdown "shutdown") ∷ []) ≡ stops 1
unfolding watch_root
gave_up = refl

clean : watch_root (pid_at 7 1) transient (died 1 normal ∷ []) ≡ goes_on
unfolding watch_root
clean = refl

-- The notices between were passed over, the root's among them.
passed_over : watch_root (pid_at 7 1) permanent (died 2 kill ∷ lagged ∷ died 3 kill ∷ []) ≡ watching
unfolding watch_root
passed_over = refl

watch_root-exit_now_example :
    Returns
      (Watched (pid_at 7 1) permanent kill (registry_of 7))
      (registry_of 7)
      (exit_now (pid_at 7 1) kill (registry_of 7))
watch_root-exit_now_example =
    watch_root-exit_now (pid_at 7 1) (pid_at 7 1) permanent kill (registry_of 7)
