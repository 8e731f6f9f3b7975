-- ===== src/Types/Names/Accepted.antt =====
-- Exactly which names `validate_name` accepts.
use hos_tla.Base.{
  ℕ, ◌+◌, ◌≤◌, ◌<◌, ◌≡◌, ◌≢◌, ◌↔◌, ◌⊎◌, true, false, [], ◌∷◌, arith, Text, length, ok,
}
use hos_tla.Types.{AccountId}
use hos_tla.Types.Names.{
  is_name_byte, all_name_bytes, starts_with_separator, ends_with_separator, validate_name,
  total_name_length,
}

-- A lower-case letter, a digit, a dash or an underscore.
abbrev pub IsNameByte : ℕ → Type 0
IsNameByte c = ((b'a' ≤ c) × (c ≤ b'z')) ⊎ ((b'0' ≤ c) × (c ≤ b'9')) ⊎ (c ≡ b'-') ⊎ (c ≡ b'_')

abbrev pub AllNameBytes : Text → Type 0
AllNameBytes [] = Unit
AllNameBytes (c ∷ s) = IsNameByte c × AllNameBytes s

-- A letter or digit.
abbrev pub IsEdge : ℕ → Type 0
IsEdge c = (c ≢ b'-') × (c ≢ b'_')

abbrev pub LastIsEdge : Text → Type 0
LastIsEdge [] = Unit
LastIsEdge (c ∷ []) = IsEdge c
LastIsEdge (_ ∷ d ∷ s) = LastIsEdge (d ∷ s)

abbrev pub FirstIsEdge : Text → Type 0
FirstIsEdge [] = Unit
FirstIsEdge (c ∷ _) = IsEdge c

-- What the name rules promise.
pub record IsName (name : Text) : Type 0 where
  pub nonempty : 0 < length name
  pub short : length name ≤ 60
  pub bytes : AllNameBytes name
  pub first : FirstIsEdge name
  pub last : LastIsEdge name

IsNameByte-iff : (c : ℕ) → (is_name_byte c ≡ true) ↔ IsNameByte c
unfolding is_name_byte
IsNameByte-iff c = (λ h. ground arith, λ h. ground arith)

bytes_of : (s : Text) → all_name_bytes s ≡ true → AllNameBytes s
unfolding all_name_bytes
bytes_of [] h = tt
bytes_of (c ∷ s) h = ((IsNameByte-iff c).0 (ground arith), bytes_of s (ground arith))

of_bytes : (s : Text) → AllNameBytes s → all_name_bytes s ≡ true
unfolding all_name_bytes
of_bytes [] h = ground arith
of_bytes (c ∷ s) h = ground (arith, of_bytes s h.1, (IsNameByte-iff c).1 h.0)

last_of : (s : Text) → ends_with_separator s ≡ false → LastIsEdge s
unfolding ends_with_separator
last_of [] h = tt
last_of (c ∷ []) h = ground arith
last_of (c ∷ d ∷ s) h = last_of (d ∷ s) h

of_last : (s : Text) → LastIsEdge s → ends_with_separator s ≡ false
unfolding ends_with_separator
of_last [] h = ground arith
of_last (c ∷ []) h = ground arith
of_last (c ∷ d ∷ s) h = of_last (d ∷ s) h

first_of_name : (s : Text) → starts_with_separator s ≡ false → FirstIsEdge s
unfolding starts_with_separator
first_of_name [] h = tt
first_of_name (c ∷ s) h = ground arith

of_first : (s : Text) → FirstIsEdge s → starts_with_separator s ≡ false
unfolding starts_with_separator
of_first [] h = ground arith
of_first (c ∷ s) h = ground arith

-- `validate_name` accepts a name exactly when it has 1 to 60 bytes, each a lower-case letter, a
-- digit, `-` or `_`, and neither the first nor the last is a separator.
pub accepted_iff : (name : Text) → (validate_name name ≡ ok tt) ↔ IsName name
unfolding validate_name
accepted_iff name = (
  λ h. record {
    nonempty = ground arith;
    short = ground arith;
    bytes = bytes_of name (ground arith);
    first = first_of_name name (ground arith);
    last = last_of name (ground arith);
  },
  λ h. ground (
    arith,
    of_bytes name h.bytes,
    of_first name h.first,
    of_last name h.last,
    h.nonempty,
    h.short,
  ),
)

-- For an accepted name under an account id of at most 64 bytes the length is not cut off.
pub total_name_length_exact :
    (tla_id : AccountId) (name : Text)
    → validate_name name ≡ ok tt
    → length tla_id ≤ 64
    → total_name_length tla_id name ≡ length name + 1 + length tla_id
unfolding total_name_length
total_name_length_exact tla_id name h le = omega (arith, ((accepted_iff name).0 h).short)
