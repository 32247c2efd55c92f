-- ===== src/Signals/Told.antt =====
-- src/signals.rs: that a particle's death is sent to whoever is linked to it from another node.
use mathlib.Core.List.{map-append}
use plasmoid.Prelude.{
  ℕ, ◌≡◌, refl, sym, ap, ◌∙◌, Bool, true, false, not, List, [], ◌∷◌, ◌++◌, append_assoc, arith,
  filter, map, ◌==◌, nat_eq, Bool-cases, inl, inr,
}
use plasmoid.Prelude.Set
use plasmoid.Pid.{Pid, pid_eq, pid_beq_iff, is_local_to}
use plasmoid.Message.{ExitReason}
use plasmoid.Registry.State.{ParticleRegistry, ParticleState}
use plasmoid.Registry.Deaths.{notice}
use plasmoid.Signals.{exit, down, forward}

-- An element stands in a list.
abbrev pub Among {ℓ} : {A : Type ℓ} → A → List A → Type ℓ
Among {A = A} x xs = (pre post : List A) × (xs ≡ pre ++ x ∷ post)

pub Among-cons {ℓ} : {A : Type ℓ} (y : A) (x : A) (xs : List A) → Among x xs → Among x (y ∷ xs)
Among-cons y x xs (pre, post, e) = (y ∷ pre, post, ap (λ ys. y ∷ ys) e)

contains-Among : (q : Pid) (qs : List Pid) → Set.contains q qs ≡ true → Among q qs
unfolding Set.contains
contains-Among q [] c = absurd (cc)
contains-Among q (x ∷ qs) c = elim (Bool-cases (x == q)) [
  | inl e ↦ ([], qs, ap (λ y. y ∷ qs) ((pid_beq_iff x q).0 e))
  | inr e ↦ Among-cons x q qs (contains-Among q qs (ground (arith, c, e)))
]

filter-append {ℓ} :
    {A : Type ℓ} (p : A → Bool) (xs ys : List A) → filter p (xs ++ ys) ≡ filter p xs ++ filter p ys
filter-append p [] ys = refl
filter-append p (x ∷ xs) ys = elim (Bool-cases (p x)) [
  | inl e ↦ rw e (ap (λ zs. x ∷ zs) (filter-append p xs ys))
  | inr e ↦ rw e (filter-append p xs ys)
]

pub Among-filter {ℓ} :
    {A : Type ℓ} (p : A → Bool) (x : A) (xs : List A)
    → p x ≡ true
    → Among x xs
    → Among x (filter p xs)
Among-filter p x xs hit (pre, post, e) =
    (filter p pre, filter p post, ap (filter p) e ∙ (filter-append p pre (x ∷ post) ∙ rw hit refl))

pub Among-map {ℓ κ} :
    {A : Type ℓ} {B : Type κ} (f : A → B) (x : A) (xs : List A)
    → Among x xs
    → Among (f x) (map f xs)
Among-map f x xs (pre, post, e) =
    (map f pre, map f post, ap (map f) e ∙ map-append f pre (x ∷ post))

pub Among-append_left {ℓ} : {A : Type ℓ} (x : A) (xs ys : List A) → Among x xs → Among x (xs ++ ys)
Among-append_left x xs ys (pre, post, e) =
    (pre, post ++ ys, ap (λ zs. zs ++ ys) e ∙ append_assoc pre (x ∷ post) ys)

pub Among-append_right {ℓ} : {A : Type ℓ} (x : A) (xs ys : List A) → Among x ys → Among x (xs ++ ys)
Among-append_right x xs ys (pre, post, e) =
    (xs ++ pre, post, ap (λ zs. xs ++ zs) e ∙ sym (append_assoc xs pre (x ∷ post)))

-- A death is forwarded to each particle of another node that its particle was linked to.
pub forward-notice :
    (pid other : Pid) (s : ParticleState) (reason : ExitReason) (r : ParticleRegistry)
    → Set.contains other s.links ≡ true
    → is_local_to other r.pid_gen.node ≡ false
    → Among (other.node, exit pid other reason) (forward (notice pid s reason r))
unfolding forward
forward-notice pid other s reason r linked away =
    let links = filter (λ p. not (is_local_to p r.pid_gen.node)) s.links in
    Among-append_left (other.node, exit pid other reason)
      (map (λ p. (p.node, exit pid p reason)) links) _
      (Among-map (λ p. (p.node, exit pid p reason)) other links
        (Among-filter (λ p. not (is_local_to p r.pid_gen.node)) other s.links (rw away refl)
          (contains-Among other s.links linked)))

-- And to each particle of another node that monitored it, with the reference.
pub forward-monitored :
    (pid watcher : Pid) (ref_id : ℕ) (s : ParticleState) (reason : ExitReason)
    (r : ParticleRegistry)
    → Among (watcher, ref_id) s.monitored_by
    → is_local_to watcher r.pid_gen.node ≡ false
    → Among (watcher.node, down pid watcher ref_id reason) (forward (notice pid s reason r))
unfolding forward
forward-monitored pid watcher ref_id s reason r watched away =
    let watchers = filter (λ w. not (is_local_to w.0 r.pid_gen.node)) s.monitored_by in
    Among-append_right (watcher.node, down pid watcher ref_id reason) _
      (map (λ w. (w.0.node, down pid w.0 w.1 reason)) watchers)
      (Among-map (λ w. (w.0.node, down pid w.0 w.1 reason)) (watcher, ref_id) watchers
        (Among-filter (λ w. not (is_local_to w.0 r.pid_gen.node)) (watcher, ref_id) s.monitored_by
          (rw away refl) watched))
