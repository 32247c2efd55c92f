-- ===== src/Host/Starting/Ends.antt =====
-- src/runtime/invoke.rs and src/registry.rs: what the end of a start function takes.
use plasmoid.Prelude.{
  ◌≡◌, refl, sym, ◌∙◌, Bool, true, false, Option, none, some, some-injective, subst, [], ◌∷◌, arith,
  ◌==◌, beq_refl, Bool-cases, inl, inr,
}
use plasmoid.Pid.{Pid, pid_eq}
use plasmoid.Message.{is_abnormal}
use plasmoid.Registry.State.{ParticleRegistry}
use plasmoid.Registry.Cascade.{Returns}
use plasmoid.Registry.Symmetry.{is_alive}
use plasmoid.Registry.Spread.{Spreads, itself}
use plasmoid.Registry.Closed.{exit_now-Spreads}
use plasmoid.Registry.Alone.{exit_now-normal}
use plasmoid.Host.Starting.{
  Values, ResultVal, ok_val, err_val, CallOutcome, returned, trapped, result_reason, end_reason,
  finish_start,
}

module _ {Val : Type 0} ⦃values : Values Val⦄ where
  -- Whether the call trapped or returned an `Err` first.
  abbrev pub is_err : Option (ResultVal Val) → Bool
  is_err (some (err_val e)) = true
  is_err _ = false

  abbrev pub has_failed : CallOutcome Val → Bool
  has_failed (trapped e) = true
  has_failed (returned []) = false
  has_failed (returned (v ∷ more)) = is_err (values.as_result v)

  is_abnormal-result_reason :
      (o : Option (ResultVal Val)) → is_abnormal (result_reason o) ≡ is_err o
  unfolding is_abnormal
  is_abnormal-result_reason none = refl
  is_abnormal-result_reason (some ok_val) = refl
  is_abnormal-result_reason (some (err_val none)) = refl
  is_abnormal-result_reason (some (err_val (some v))) = refl

  is_abnormal-end_reason : (o : CallOutcome Val) → is_abnormal (end_reason o) ≡ has_failed o
  unfolding is_abnormal
  is_abnormal-end_reason (trapped e) = refl
  is_abnormal-end_reason (returned []) = refl
  is_abnormal-end_reason (returned (v ∷ more)) = is_abnormal-result_reason (values.as_result v)

  -- A particle lives no longer than its start function. However the call ends, the exit that follows
  -- ends too and takes the particle. If the call returned, and not an `Err` first, then every other
  -- particle is as alive as before; and if it trapped, or returned an `Err` first, then the exit takes
  -- whoever links reach from the particle through those that do not trap exits.
  pub finish_start-ends :
      (pid q : Pid) (outcome : CallOutcome Val) (r : ParticleRegistry)
      → is_alive pid r ≡ true
      → Returns
          (λ r'.
            (is_alive pid r' ≡ false)
            × (has_failed outcome ≡ false → (pid == q) ≡ false → is_alive q r' ≡ is_alive q r)
            × (has_failed outcome ≡ true → Spreads r pid q → is_alive q r' ≡ false))
          r
          (finish_start pid outcome r)
  unfolding finish_start
  finish_start-ends pid q outcome r there = elim (Bool-cases (is_abnormal (end_reason outcome))) [
    | inl failed ↦
        let (r', e, dead, le) =
          exit_now-Spreads (end_reason outcome) failed pid pid r there itself in
        let bad = sym (is_abnormal-end_reason outcome) ∙ failed in
        (
          r',
          e,
          (
            dead,
            λ returned other. absurd (ground (arith, bad, returned)),
            λ again s.
                let (n, en, gone, len) =
                  exit_now-Spreads (end_reason outcome) failed pid q r there s in
                subst (λ m. is_alive q m ≡ false) (some-injective n r' (sym en ∙ e)) gone,
          ),
          le,
        )
    | inr calm ↦
        let (r', e, rest, le) = exit_now-normal pid (end_reason outcome) r calm in
        let ok = sym (is_abnormal-end_reason outcome) ∙ calm in
        (
          r',
          e,
          (
            rest pid ∙ rw (beq_refl pid) refl,
            λ returned other. rest q ∙ rw other refl,
            λ failed s. absurd (ground (arith, ok, failed)),
          ),
          le,
        )
  ]
