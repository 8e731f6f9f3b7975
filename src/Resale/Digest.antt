-- ===== src/Resale/Digest.antt =====
-- The printed digest of the bundled locker.
use hos_tla.Base.{
  ℕ, ◌+◌, ◌-◌, ◌*◌, ◌<◌, ◌≡◌, refl, Option, none, some, List, [], ◌∷◌, arith, Text, length, ltb,
  if◌then◌else◌,
}
use hos_tla.Resale.{hex_of, get_resale_locker_sha256}

abbrev pub AllBytes : List ℕ → Type 0
AllBytes [] = Unit
AllBytes (b ∷ bs) = (b < 256) × AllBytes bs

-- A reader of lower-case hexadecimal digits, two to a byte.
abbrev digit_value : ℕ → Option ℕ
digit_value c =
    if ltb c b'0'
    then none
    else if ltb c (b'9' + 1)
    then some (c - b'0')
    else if ltb c b'a'
    then none
    else if ltb c (b'f' + 1)
    then some (c - b'a' + 10)
    else none

abbrev joined : Option ℕ → Option ℕ → Option (List ℕ) → Option (List ℕ)
joined (some h) (some l) (some bytes) = some ((16 * h + l) ∷ bytes)
joined _ _ _ = none

pub read_hex : Text → Option (List ℕ)
read_hex [] = some []
read_hex (_ ∷ []) = none
read_hex (h ∷ l ∷ rest) = joined (digit_value h) (digit_value l) (read_hex rest)

read-hex_of : (bytes : List ℕ) → AllBytes bytes → read_hex (hex_of bytes) ≡ some bytes
unfolding hex_of read_hex
read-hex_of [] all = refl
read-hex_of (b ∷ bytes) all = ground (arith, read-hex_of bytes all.1)

length-hex_of : (bytes : List ℕ) → length (hex_of bytes) ≡ 2 * length bytes
unfolding hex_of
length-hex_of [] = refl
length-hex_of (b ∷ bytes) = omega (arith, length-hex_of bytes)

-- As long as the hash is bytes, the printed digest has two digits for each of them, and a reader
-- of hexadecimal digits gets the hash back from it.
pub digest_read_back :
    (wasm : List ℕ) (sha256 : List ℕ → List ℕ)
    → AllBytes (sha256 wasm)
    → (read_hex (get_resale_locker_sha256 wasm sha256) ≡ some (sha256 wasm))
      × (length (get_resale_locker_sha256 wasm sha256) ≡ 2 * length (sha256 wasm))
unfolding get_resale_locker_sha256
digest_read_back wasm sha256 all = (read-hex_of (sha256 wasm) all, length-hex_of (sha256 wasm))
