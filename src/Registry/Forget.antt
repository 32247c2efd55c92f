-- ===== src/Registry/Forget.antt =====
-- `forget_node` of src/registry.rs keeps the registry sound: it cuts the links to another node alone.
use plasmoid.Prelude.{
  ◌≡◌, refl, true, false, not, ◌&&◌, List, [], ◌∷◌, arith, filter, map, ◌==◌, nat_eq,
}
use plasmoid.Prelude.Map.{get, contains_key}
use plasmoid.Prelude.Set
use plasmoid.Pid.{Pid, EndpointId, pid_eq, pid_beq_iff, is_local_to}
use plasmoid.Registry.State.{ParticleRegistry}
use plasmoid.Registry.Relate.{forget_node, forget_in}
use plasmoid.Registry.Views.{States, is_linked}
use plasmoid.Registry.Symmetry.{is_alive, linked, is_linked-alive}
use plasmoid.Registry.Sound.{IsSound}

module _ (node : EndpointId) where
  contains-kept :
      (p : Pid) (ls : List Pid)
      → Set.contains p (filter (λ l. not (is_local_to l node)) ls)
        ≡ (Set.contains p ls && not (is_local_to p node))
  unfolding Set.contains is_local_to
  contains-kept p [] = refl
  contains-kept p (l ∷ ls) = ground (arith, contains-kept p ls, pid_beq_iff l p)

  is_linked-forgotten :
      (q p : Pid) (m : States)
      → is_linked q p (map (λ e. (e.0, forget_in node e.1)) m)
        ≡ (is_linked q p m && not (is_local_to p node))
  unfolding get forget_in
  is_linked-forgotten q p [] = refl
  is_linked-forgotten q p ((pid, s) ∷ m) =
      ground (arith, is_linked-forgotten q p m, contains-kept p s.links)

  contains_key-forgotten :
      (q : Pid) (m : States)
      → contains_key q (map (λ e. (e.0, forget_in node e.1)) m) ≡ contains_key q m
  unfolding contains_key
  contains_key-forgotten q [] = refl
  contains_key-forgotten q ((pid, s) ∷ m) = ground (arith, contains_key-forgotten q m)

  pub forget_node-IsSound :
      (me : EndpointId) (r : ParticleRegistry)
      → (me == node) ≡ false
      → IsSound me r
      → IsSound me (forget_node node r)
  unfolding forget_node is_local_to
  forget_node-IsSound me r other h = record {
    links = record {
      both_ways = λ q p l a.
          let was : linked q p r ≡ true =
            ground (arith, is_linked-forgotten q p r.particle_states) in
          let lives : is_alive p r ≡ true =
            ground (arith, contains_key-forgotten p r.particle_states) in
          let home = h.home q (is_linked-alive q p r.particle_states was) in
          let back = h.links.both_ways q p was lives in
          ground (arith, is_linked-forgotten p q r.particle_states);
      to_living = λ q p l here.
          let was : linked q p r ≡ true =
            ground (arith, is_linked-forgotten q p r.particle_states) in
          let lives = h.links.to_living q p was here in
          ground (arith, contains_key-forgotten p r.particle_states);
    };
    home = λ p a. h.home p (ground (arith, contains_key-forgotten p r.particle_states));
    generated = λ p a. h.generated p (ground (arith, contains_key-forgotten p r.particle_states));
    identity = h.identity;
  }
