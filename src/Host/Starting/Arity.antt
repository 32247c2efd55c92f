-- ===== src/Host/Starting/Arity.antt =====
-- src/runtime/invoke.rs: how many arguments a start function is called with.
use plasmoid.Prelude.{
  ℕ, zero, suc, ◌≤◌, ◌<◌, ◌≡◌, refl, ap, true, false, Option, none, some, List, [], ◌∷◌, arith,
  length, if◌then◌else◌, ◌==◌, nat_eq, nat_beq_iff, ◌∙◌, leb, Bool-cases, Option-cases, inl, inr,
}
use plasmoid.Pid.Key.{Text}
use plasmoid.Host.Starting.{
  Wave, ArgsResult, args, no_argument, unparsable, wrong_count, split_once, splitn, pieces, trim,
  parse_parts, read_one, put_first, parse_single, parse_each, parse_wave_args,
}

-- How many separators there are.
unfoldable pub count : ℕ → Text → ℕ
count sep [] = 0
count sep (c ∷ cs) = let rest = count sep cs in if c == sep then suc rest else rest

split_once-none : (sep : ℕ) (s : Text) → split_once sep s ≡ none → count sep s ≡ 0
unfolding split_once count
split_once-none sep [] h = refl
split_once-none sep (c ∷ cs) h = elim (Bool-cases (c == sep)) [
  | inl e ↦ absurd (ground (arith, e, h))
  | inr e ↦ elim (Option-cases (split_once sep cs)) [
    | inl n ↦ ground (arith, e, split_once-none sep cs n)
    | inr (p, n) ↦ absurd (ground (arith, e, n, h))
  ]
]

split_once-some :
    (sep : ℕ) (s before after : Text)
    → split_once sep s ≡ some (before, after)
    → count sep s ≡ suc (count sep after)
unfolding split_once count
split_once-some sep [] before after h = absurd (cc)
split_once-some sep (c ∷ cs) before after h = elim (Bool-cases (c == sep)) [
  | inl e ↦ ground (arith, e, h)
  | inr e ↦ elim (Option-cases (split_once sep cs)) [
    | inl n ↦ absurd (ground (arith, e, n, h))
    | inr ((b, a), n) ↦ ground (arith, e, n, h, split_once-some sep cs b a n)
  ]
]

-- The pieces, as many as the separators allow.
length-splitn :
    (n sep : ℕ) (s : Text)
    → length (splitn (suc n) sep s) ≡ (if leb (count sep s) n then suc (count sep s) else suc n)
unfolding splitn
length-splitn zero sep s = elim (Bool-cases (leb (count sep s) 0)) [
  | inl e ↦ rw e (ground (arith, e))
  | inr e ↦ rw e refl
]
length-splitn (suc n) sep s = elim (Option-cases (split_once sep s)) [
  | inl e ↦
      ap (λ o. length (pieces (splitn (suc n) sep) s o)) e ∙ ground (arith, split_once-none sep s e)
  | inr ((before, after), e) ↦
      ap (λ o. length (pieces (splitn (suc n) sep) s o)) e
      ∙ ground (arith, split_once-some sep s before after e, length-splitn n sep after)
]

-- If the arguments were read then there are so many.
abbrev pub HasArity : (Val : Type 0) → ℕ → ArgsResult Val → Type 0
HasArity Val n (args vals) = length vals ≡ n
HasArity Val n _ = Unit {0}

module _ {Val : Type 0} where
  read_one-HasArity : (o : Option Val) → HasArity Val 1 (read_one o)
  read_one-HasArity none = tt
  read_one-HasArity (some v) = refl

  put_first-HasArity :
      (n : ℕ) (o : Option Val) (rest : ArgsResult Val)
      → HasArity Val n rest
      → HasArity Val (suc n) (put_first o rest)
  put_first-HasArity n none rest h = tt
  put_first-HasArity n (some v) (args vs) h = ap suc h
  put_first-HasArity n (some v) no_argument h = tt
  put_first-HasArity n (some v) unparsable h = tt
  put_first-HasArity n (some v) (wrong_count e g) h = tt

module _ (Ty Val : Type 0) ⦃wave : Wave Ty Val⦄ where
  parse_single-HasArity : (s : Text) (ty : Ty) → HasArity Val 1 (parse_single s ty)
  parse_single-HasArity [] ty = tt
  parse_single-HasArity (c ∷ cs) ty = elim (Bool-cases (wave.is_string ty)) [
    | inl e ↦ rw e refl
    | inr e ↦ rw e (read_one-HasArity (wave.from_str ty (c ∷ cs)))
  ]

  parse_each-HasArity :
      (parts : List Text) (tys : List Ty)
      → length parts ≡ length tys
      → HasArity Val (length tys) (parse_each parts tys)
  unfolding parse_each
  parse_each-HasArity [] tys same = same
  parse_each-HasArity (part ∷ parts) [] same = absurd (omega (arith, same))
  parse_each-HasArity (part ∷ parts) (ty ∷ tys) same =
      put_first-HasArity (length tys) (wave.from_str ty (trim part)) (parse_each parts tys)
        (parse_each-HasArity parts tys (omega (arith, same)))

  parse_parts-HasArity :
      (parts : List Text) (tys : List Ty) → HasArity Val (length tys) (parse_parts parts tys)
  parse_parts-HasArity parts tys = elim (Bool-cases (length parts == length tys)) [
    | inl e ↦ rw e (parse_each-HasArity parts tys ((nat_beq_iff (length parts) (length tys)).0 e))
    | inr e ↦ rw e tt
  ]

  parse_parts-few :
      (parts : List Text) (tys : List Ty) (n : ℕ)
      → length parts ≡ n
      → n < length tys
      → parse_parts {Val = Val} parts tys ≡ wrong_count (length tys) n
  parse_parts-few parts tys n e short =
      let differ : (length parts == length tys) ≡ false =
        ground (arith, nat_beq_iff (length parts) (length tys), e, short) in
      rw differ (ap (wrong_count (length tys)) e)

  -- A start function is called with as many arguments as it has parameters, whatever text it is
  -- given. And with several parameters, a text with too few commas is refused with the number of its
  -- parts; with more commas than are needed, the last part keeps them.
  pub parse_wave_args-HasArity :
      (init_args : Text) (tys : List Ty)
      → HasArity Val (length tys) (parse_wave_args init_args tys)
        × (1 < length tys
            → suc (count b',' init_args) < length tys
            → parse_wave_args {Val = Val} init_args tys
              ≡ wrong_count (length tys) (suc (count b',' init_args)))
        × (1 < length tys
            → length tys ≤ suc (count b',' init_args)
            → parse_wave_args {Val = Val} init_args tys
              ≡ parse_each (splitn (length tys) b',' init_args) tys)
  unfolding parse_wave_args
  parse_wave_args-HasArity init_args [] =
      (refl, λ more. absurd (omega (arith, more)), λ more. absurd (omega (arith, more)))
  parse_wave_args-HasArity init_args (ty ∷ []) = (
    parse_single-HasArity init_args ty,
    λ more. absurd (omega (arith, more)),
    λ more. absurd (omega (arith, more)),
  )
  parse_wave_args-HasArity init_args (ty ∷ next ∷ tys) =
      let all = ty ∷ next ∷ tys in
      let parts = splitn (length all) b',' init_args in
      let size = length-splitn (suc (length tys)) b',' init_args in
      (
        parse_parts-HasArity parts all,
        λ more short.
            parse_parts-few parts all (suc (count b',' init_args)) (ground (arith, size, short))
              short,
        λ more enough.
            let same : (length parts == length all) ≡ true =
              ground (arith, size, enough, nat_beq_iff (length parts) (length all)) in
            rw same refl,
      )
