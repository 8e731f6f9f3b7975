-- ===== src/Types/Names/Keys.antt =====
-- The keys under which sub-accounts are stored tell them apart, and their length is not cut off.
use hos_tla.Base.{◌≡◌, Bool, true, false, not, ◌&&◌, [], ◌∷◌, ◌++◌, arith, Text, nat_eq, ok}
use hos_tla.Types.{AccountId}
use hos_tla.Types.Names.{is_name_byte, all_name_bytes, validate_name, sub_account_key}

dot_is_no_name_byte : is_name_byte b'.' ≡ false
unfolding is_name_byte
dot_is_no_name_byte = ground arith

pub valid-all_name_bytes : (name : Text) → validate_name name ≡ ok tt → all_name_bytes name ≡ true
unfolding validate_name
valid-all_name_bytes name h = ground arith

pub key_injective_bytes :
    (t u : AccountId) (m n : Text)
    → all_name_bytes m ≡ true
    → all_name_bytes n ≡ true
    → sub_account_key t m ≡ sub_account_key u n
    → (t ≡ u) × (m ≡ n)
unfolding sub_account_key all_name_bytes
key_injective_bytes t u [] [] hm hn e = ground arith
key_injective_bytes t u [] (d ∷ n) hm hn e = ground (arith, dot_is_no_name_byte)
key_injective_bytes t u (c ∷ m) [] hm hn e = ground (arith, dot_is_no_name_byte)
key_injective_bytes t u (c ∷ m) (d ∷ n) hm hn e = ground (arith, key_injective_bytes t u m n)

-- Two valid names have the same key only if they are the same name under the same TLA.
pub key_injective :
    (t u : AccountId) (m n : Text)
    → validate_name m ≡ ok tt
    → validate_name n ≡ ok tt
    → sub_account_key t m ≡ sub_account_key u n
    → (t ≡ u) × (m ≡ n)
key_injective t u m n hm hn e =
    key_injective_bytes t u m n (valid-all_name_bytes m hm) (valid-all_name_bytes n hn) e

abbrev pub no_dot : Text → Bool
no_dot [] = true
no_dot (c ∷ s) = not (nat_eq c b'.') && no_dot s

dotted : (m t u : Text) → m ++ b'.' ∷ t ≡ u → no_dot u ≡ true → ⊥
dotted [] t [] e h = cc
dotted [] t (c ∷ u) e h = ground arith
dotted (a ∷ m) t [] e h = cc
dotted (a ∷ m) t (c ∷ u) e h = dotted m t u (ground arith) (ground arith)

-- A key that is a valid name under a TLA without a dot is no name under another TLA, whatever that
-- name is.
pub one_reading :
    (t u : AccountId) (m n : Text)
    → all_name_bytes n ≡ true
    → no_dot u ≡ true
    → sub_account_key t m ≡ sub_account_key u n
    → t ≡ u
unfolding sub_account_key all_name_bytes
one_reading t u [] [] hn hu e = ground arith
one_reading t u [] (d ∷ n) hn hu e = ground (arith, dot_is_no_name_byte)
one_reading t u (c ∷ m) [] hn hu e = absurd (dotted m t u (ground arith) hu)
one_reading t u (c ∷ m) (d ∷ n) hn hu e = ground (arith, one_reading t u m n)
