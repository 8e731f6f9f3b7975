-- ===== src/Types/Names.antt =====
-- Names of sub-accounts (types.rs): their validation, the key under which they are stored, and
-- the length that the rent depends on.
pub mod Keys
pub mod Accepted
use hos_tla.Base.{
  ℕ, ◌+◌, Bool, true, false, not, ◌&&◌, ◌||◌, List, [], ◌∷◌, ◌++◌, Text, length, nat_eq, ltb, leb,
  if◌then◌else◌, as_u8, Result, ok, err, err_if, ◌>>=◌, ◌>>◌,
}
use hos_tla.Types.{AccountId}

pub data NameInvalidReason : Type 0 where
  length_out_of_bounds disallowed_character edge_separator : NameInvalidReason

-- The bytes that `validate_name` lets through.
unfoldable pub is_name_byte : ℕ → Bool
is_name_byte c =
    (leb b'a' c && leb c b'z') || (leb b'0' c && leb c b'9') || nat_eq c b'-' || nat_eq c b'_'

unfoldable pub all_name_bytes : Text → Bool
all_name_bytes [] = true
all_name_bytes (c ∷ s) = is_name_byte c && all_name_bytes s

abbrev pub is_separator : ℕ → Bool
is_separator c = nat_eq c b'-' || nat_eq c b'_'

-- `name.starts_with('-') || name.starts_with('_')`
unfoldable pub starts_with_separator : Text → Bool
starts_with_separator [] = false
starts_with_separator (c ∷ _) = is_separator c

-- `name.ends_with('-') || name.ends_with('_')`
unfoldable pub ends_with_separator : Text → Bool
ends_with_separator [] = false
ends_with_separator (c ∷ []) = is_separator c
ends_with_separator (_ ∷ d ∷ s) = ends_with_separator (d ∷ s)

-- The `Err` holds the reason of `ContractError::InvalidName`.
unfoldable pub validate_name : Text → Result NameInvalidReason (Unit {0})
validate_name name = do
  err_if (nat_eq (length name) 0 || ltb 60 (length name)) NameInvalidReason.length_out_of_bounds
  err_if (not (all_name_bytes name)) NameInvalidReason.disallowed_character
  err_if (starts_with_separator name || ends_with_separator name) NameInvalidReason.edge_separator
  ok tt

-- `format!("{}.{}", name, tla_id)`
unfoldable pub sub_account_key : AccountId → Text → Text
sub_account_key tla_id name = name ++ b'.' ∷ tla_id

unfoldable pub total_name_length : AccountId → Text → ℕ
total_name_length tla_id name = as_u8 (length name + 1 + length tla_id)
