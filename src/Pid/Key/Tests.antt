-- ===== src/Pid/Key/Tests.antt =====
-- Runs of the text forms of src/pid.rs, over a simple reading of identities.
use plasmoid.Prelude.{ℕ, zero, suc, ◌≡◌, refl, Option, none, some, List, [], ◌∷◌, arith}
use plasmoid.Pid.Key.{NodeIds, to_key, from_key, parse_u64, to_decimal}
use plasmoid.Pid.Key.RoundTrip.{from_key-to_key}

abbrev zeros : ℕ → List ℕ
zeros zero = []
zeros (suc n) = 0 ∷ zeros n

abbrev first_of : List ℕ → Option ℕ
first_of [] = none
first_of (n ∷ rest) = some n

-- An identity is its first byte, and the text of bytes is the bytes.
instance abbrev pub small_ids : NodeIds
small_ids = record {
  as_bytes = λ node. node ∷ zeros 31;
  from_bytes = first_of;
  hex_encode = λ bytes. bytes;
  hex_decode = some;
  length-as_bytes = λ node. refl;
  from_bytes-as_bytes = λ node. refl;
  hex_decode-hex_encode = λ node. refl;
}

-- The node's identity has a byte that is the code of a dot.
from_key-to_key_example :
    from_key (to_key (record { node = b'.'; seq = 42 })) ≡ some (record { node = b'.'; seq = 42 })
from_key-to_key_example = from_key-to_key (record { node = b'.'; seq = 42 }) (omega arith)

plus_sign : parse_u64 (b'+' ∷ b'0' ∷ b'7' ∷ []) ≡ some 7
unfolding parse_u64
plus_sign = refl

too_large : parse_u64 (b'1' ∷ to_decimal 18446744073709551615) ≡ none
unfolding parse_u64 to_decimal
too_large = refl

no_separator : from_key (b'1' ∷ []) ≡ none
unfolding from_key
no_separator = refl
