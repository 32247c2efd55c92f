-- ===== src/Pid/Key.antt =====
-- src/pid.rs: the text forms of a pid. A text is the list of its characters' code points.
-- The hex crate and iroh's reading of a key from its bytes are a parameter, `NodeIds`; `u64`'s
-- printing and parsing are the standard library's.
pub mod RoundTrip
pub mod Tests
use plasmoid.Prelude.{
  ℕ, zero, suc, ◌+◌, ◌-◌, ◌*◌, ◌/◌, ◌%◌, ◌≡◌, Bool, ◌&&◌, Option, none, some, List, [], ◌∷◌, ◌++◌,
  if◌then◌else◌, ◌==◌, nat_eq, ltb, leb, length, u64_mod,
}
use plasmoid.Pid.{Pid, EndpointId}

abbrev pub Text : Type 0
Text = List ℕ

-- `as_bytes` and `from_bytes` of an `EndpointId`, and the hex crate's `encode` and `decode`.
pub record NodeIds : Type 0 where
  pub as_bytes : EndpointId → List ℕ
  pub from_bytes : List ℕ → Option EndpointId
  pub hex_encode : List ℕ → Text
  pub hex_decode : Text → Option (List ℕ)
  -- A key has 32 bytes, which are read back; so is the hex text of a key's bytes.
  pub length-as_bytes : (node : EndpointId) → length (as_bytes node) ≡ 32
  pub from_bytes-as_bytes : (node : EndpointId) → from_bytes (as_bytes node) ≡ some node
  pub hex_decode-hex_encode :
      (node : EndpointId) → hex_decode (hex_encode (as_bytes node)) ≡ some (as_bytes node)

-- A `u64` in decimal. Twenty digits are enough for every `u64`.
unfoldable pub digits : ℕ → ℕ → Text
digits zero n = []
digits (suc fuel) n =
    let front = digits fuel (n / 10) in
    if ltb n 10 then (b'0' + n) ∷ [] else front ++ (b'0' + n % 10) ∷ []

unfoldable pub to_decimal : ℕ → Text
unfolding digits
to_decimal n = digits 20 n

-- The digits of `str::parse::<u64>`: each is checked, and so is each step for overflow.
unfoldable pub parse_digits : ℕ → Text → Option ℕ
parse_digits acc [] = some acc
parse_digits acc (c ∷ cs) =
    let next = acc * 10 + (c - b'0') in
    let rest = parse_digits next cs in
    if leb b'0' c && leb c b'9' then (if ltb next u64_mod then rest else none) else none

abbrev pub parse_after_plus : Text → Option ℕ
parse_after_plus [] = none
parse_after_plus (c ∷ cs) = parse_digits 0 (c ∷ cs)

-- One plus sign may stand in front; the empty text is an error.
unfoldable pub parse_u64 : Text → Option ℕ
unfolding parse_digits
parse_u64 [] = none
parse_u64 (c ∷ cs) = if c == b'+' then parse_after_plus cs else parse_digits 0 (c ∷ cs)

-- `s.rsplit_once('.')`: at the last dot.
unfoldable pub rsplit_once : Text → Option (Text × Text)
rsplit_once [] = none
rsplit_once (c ∷ cs) = elim (rsplit_once cs) [
  | some (before, after) ↦ some (c ∷ before, after)
  | none ↦ if c == b'.' then some ([], cs) else none
]

unfoldable pub first_bytes : ℕ → List ℕ → List ℕ
first_bytes zero bytes = []
first_bytes (suc n) [] = []
first_bytes (suc n) (b ∷ bytes) = b ∷ first_bytes n bytes

module _ ⦃ids : NodeIds⦄ where
  unfoldable pub node_prefix : Pid → Text
  unfolding first_bytes
  node_prefix p = ids.hex_encode (first_bytes 4 (ids.as_bytes p.node))

  -- `impl fmt::Display for Pid`
  unfoldable pub display : Pid → Text
  unfolding node_prefix to_decimal
  display p = b'<' ∷ (node_prefix p ++ b'.' ∷ (to_decimal p.seq ++ b'>' ∷ []))

  unfoldable pub to_key : Pid → Text
  unfolding to_decimal
  to_key p = ids.hex_encode (ids.as_bytes p.node) ++ b'.' ∷ to_decimal p.seq

  -- The bytes of a full key, `try_into` included.
  abbrev pub node_of_bytes : Option (List ℕ) → Option EndpointId
  node_of_bytes none = none
  node_of_bytes (some bytes) = if length bytes == 32 then ids.from_bytes bytes else none

  -- A node's identity from its hex text: in `from_key`, and in `parse_node` of
  -- src/runtime/invoke.rs.
  unfoldable pub parse_node : Text → Option EndpointId
  parse_node text = node_of_bytes (ids.hex_decode text)

  abbrev pub pid_of_parts : Option EndpointId → Option ℕ → Option Pid
  pid_of_parts none seq = none
  pid_of_parts (some node) none = none
  pid_of_parts (some node) (some seq) = some (record { node = node; seq = seq })

  -- `none` is any of its errors.
  unfoldable pub from_key : Text → Option Pid
  unfolding rsplit_once parse_node parse_u64
  from_key s = elim (rsplit_once s) [
    | none ↦ none
    | some (node_hex, seq_str) ↦ pid_of_parts (parse_node node_hex) (parse_u64 seq_str)
  ]
