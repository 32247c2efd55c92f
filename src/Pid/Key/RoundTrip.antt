-- ===== src/Pid/Key/RoundTrip.antt =====
-- src/pid.rs: that `from_key` reads back what `to_key` writes.
use plasmoid.Prelude.{
  ℕ, zero, suc, ◌+◌, ◌-◌, ◌*◌, ◌/◌, ◌%◌, ◌≤◌, ◌<◌, ◌≡◌, ◌≢◌, refl, ap, ◌∙◌, none, some, [], ◌∷◌,
  ◌++◌, arith, Bool-cases, inl, inr, ltb, All, All-append, nat_eq, u64_mod,
}
use plasmoid.Pid.{Pid, EndpointId}
use plasmoid.Pid.Key.{
  NodeIds, Text, digits, parse_digits, parse_u64, rsplit_once, to_key, from_key, parse_node,
  pid_of_parts,
}

-- The numbers with so many digits are below this.
limit : ℕ → ℕ
limit zero = 1
limit (suc n) = 10 * limit n

abbrev IsDigit : ℕ → Type 0
IsDigit c = (b'0' ≤ c) × (c ≤ b'9')

digits-IsDigit : (fuel n : ℕ) → All IsDigit (digits fuel n)
unfolding digits
digits-IsDigit zero n = tt
digits-IsDigit (suc fuel) n = elim (Bool-cases (ltb n 10)) [
  | inl e ↦ rw e ((ground arith, ground arith), tt)
  | inr e ↦ rw e (
      All-append IsDigit (digits fuel (n / 10)) _ (digits-IsDigit fuel (n / 10))
        ((omega arith, omega arith), tt))
]

-- Digits are read one after another.
parse_digits-append :
    (acc : ℕ) (xs ys : Text) (m : ℕ)
    → parse_digits acc xs ≡ some m
    → parse_digits acc (xs ++ ys) ≡ parse_digits m ys
unfolding parse_digits
parse_digits-append acc [] ys m h = let e : acc ≡ m = ground arith in rw e refl
parse_digits-append acc (c ∷ xs) ys m h =
    ground (arith, parse_digits-append (acc * 10 + (c - b'0')) xs ys m)

parse_last :
    (acc d : ℕ)
    → d < 10
    → acc * 10 + d < u64_mod
    → parse_digits acc ((b'0' + d) ∷ []) ≡ some (acc * 10 + d)
unfolding parse_digits
parse_last acc d h fits = ground arith

-- One digit is enough below ten, and otherwise there is fuel for the digits in front.
front_fits : (fuel n : ℕ) → n < limit (suc fuel) → 10 ≤ n → (n / 10 < limit fuel) × (0 < fuel)
unfolding limit
front_fits zero n h big = absurd (omega arith)
front_fits (suc fuel) n h big = (omega arith, omega arith)

parse_digits-digits :
    (fuel n : ℕ) → n < limit fuel → 0 < fuel → n < u64_mod → parse_digits 0 (digits fuel n) ≡ some n
unfolding digits
parse_digits-digits zero n h p fits = absurd (omega arith)
parse_digits-digits (suc fuel) n h p fits = elim (Bool-cases (ltb n 10)) [
  | inl e ↦ rw e (parse_last 0 n (ground arith) (omega arith) ∙ ap some (omega arith))
  | inr e ↦
      let (below, positive) = front_fits fuel n h (ground arith) in
      let front = parse_digits-digits fuel (n / 10) below positive (omega arith) in
      rw e (
        parse_digits-append 0 (digits fuel (n / 10)) ((b'0' + n % 10) ∷ []) (n / 10) front
        ∙ parse_last (n / 10) (n % 10) (omega arith) (omega arith)
        ∙ ap some (omega arith))
]

-- A text of digits has no sign and no dot.
parse_u64-digits :
    (s : Text) (m : ℕ) → All IsDigit s → s ≢ [] → parse_digits 0 s ≡ some m → parse_u64 s ≡ some m
unfolding parse_u64
parse_u64-digits [] m d ne h = absurd (ne refl)
parse_u64-digits (c ∷ cs) m d ne h = ground (arith, h)

append_last-ne-nil : (s : Text) (c : ℕ) → (s ++ c ∷ []) ≢ []
append_last-ne-nil [] c h = cc
append_last-ne-nil (d ∷ s) c h = cc

digits-ne-nil : (fuel n : ℕ) → 0 < fuel → digits fuel n ≢ []
unfolding digits
digits-ne-nil zero n p = absurd (omega arith)
digits-ne-nil (suc fuel) n p = elim (Bool-cases (ltb n 10)) [
  | inl e ↦ rw e (λ h. cc)
  | inr e ↦ rw e (append_last-ne-nil (digits fuel (n / 10)) (b'0' + n % 10))
]

rsplit_once-digits : (s : Text) → All IsDigit s → rsplit_once s ≡ none
unfolding rsplit_once
rsplit_once-digits [] d = refl
rsplit_once-digits (c ∷ cs) d = ground (arith, rsplit_once-digits cs d.1)

rsplit_once-append :
    (before after : Text)
    → rsplit_once after ≡ none
    → rsplit_once (before ++ b'.' ∷ after) ≡ some (before, after)
unfolding rsplit_once
rsplit_once-append [] after h = ground arith
rsplit_once-append (c ∷ before) after h = ground (arith, rsplit_once-append before after h)

fits_limit : (n : ℕ) → n < u64_mod → n < limit 20
unfolding limit
fits_limit n h = omega arith

module _ ⦃ids : NodeIds⦄ where
  parse_node-encoded :
      (node : EndpointId) → parse_node (ids.hex_encode (ids.as_bytes node)) ≡ some node
  unfolding parse_node
  parse_node-encoded node =
      rw (ids.hex_decode-hex_encode node)
        (ground (arith, ids.length-as_bytes node, ids.from_bytes-as_bytes node))

  from_key-joined :
      (node_hex seq_str : Text)
      → rsplit_once seq_str ≡ none
      → from_key (node_hex ++ b'.' ∷ seq_str)
        ≡ pid_of_parts (parse_node node_hex) (parse_u64 seq_str)
  unfolding from_key
  from_key-joined node_hex seq_str h = rw (rsplit_once-append node_hex seq_str h, from_key) refl

  to_key-joined :
      (p : Pid) → to_key p ≡ ids.hex_encode (ids.as_bytes p.node) ++ b'.' ∷ digits 20 p.seq
  unfolding to_key
  to_key-joined p = refl

  -- Every pid is read back from its key, which carries the whole node identity, given that its
  -- sequence number is a `u64` and that the hex text and the bytes of a node identity are read back.
  pub from_key-to_key : (p : Pid) → p.seq < u64_mod → from_key (to_key p) ≡ some p
  from_key-to_key p fits =
      let plain = digits-IsDigit 20 p.seq in
      let seq =
        parse_u64-digits (digits 20 p.seq) p.seq plain (digits-ne-nil 20 p.seq (omega arith))
          (parse_digits-digits 20 p.seq (fits_limit p.seq fits) (omega arith) fits) in
      rw (to_key-joined p) (
        rw
          (from_key-joined (ids.hex_encode (ids.as_bytes p.node)) (digits 20 p.seq)
            (rsplit_once-digits _ plain))
          (rw (parse_node-encoded p.node) (rw seq refl)))
