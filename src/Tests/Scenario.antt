-- ===== src/Tests/Scenario.antt =====
-- A small history: an open TLA `fun`, the name `alice` below it, and its sale to `bob.near`.
use hos_tla.Base.{ℕ, ◌*◌, ◌+◌, Bool, true, Option, none, some, [], ◌∷◌, Text, text, ok, err}
use hos_tla.Types.{
  AccountId, TlaType, TlaStatus, PremiumCategory, SubAccountEntry, TlaEntry, one_near, one_year_ns,
}
use hos_tla.Registry.{Env, Registry, Promise, new}
use hos_tla.System.{Op, Answer, Ending}

abbrev pub hos : AccountId
hos = text "hos.near"

abbrev pub alice : AccountId
alice = text "alice.near"

abbrev pub bob : AccountId
bob = text "bob.near"

abbrev pub fun : AccountId
fun = text "fun"

abbrev pub name : Text
name = text "alice"

abbrev pub key : Text
key = text "alice.fun"

-- Every text is taken as an account id, and a response is its first byte.
abbrev pub first_byte : Text → Option ℕ
first_byte [] = none
first_byte (c ∷ _) = some c

abbrev pub any_text : Text → Bool
any_text _ = true

abbrev pub env_of : AccountId → ℕ → ℕ → Env
env_of who deposit now = record {
  predecessor = who;
  attached_deposit = deposit;
  block_timestamp = now;
  account_balance = 1000 * one_near;
  storage_byte_cost = 10;
  storage_usage = 1000;
  is_account_id = any_text;
  from_slice = first_byte;
}

abbrev pub state_of : Registry → Answer → Registry
state_of s (ok (t, _)) = t
state_of s (err _) = s

abbrev pub promise_of : Answer → Option Promise
promise_of (ok (_, p)) = p
promise_of (err _) = none

abbrev pub fine : Ending
fine = record { success = true; results = [] }

abbrev pub register : Op
register = Op.register_tla fun TlaType.open_tla PremiumCategory.standard none

abbrev pub rent : Op
rent = Op.rent_sub_account fun name (text "ed25519:alice") alice

-- The state in which `alice.fun` is rented, written out.
abbrev pub fun_entry : TlaEntry
fun_entry = record {
  tla_type = TlaType.open_tla;
  status = TlaStatus.active;
  licensee = none;
  premium_category = PremiumCategory.standard;
  activated_at = 100;
  expires_at = 100 + one_year_ns;
}

abbrev pub alice_entry : SubAccountEntry
alice_entry = record {
  owner = alice;
  tla_id = fun;
  main_wallet = alice;
  rented_at = 200;
  expires_at = 200 + one_year_ns;
  retraction_at = none;
}

abbrev pub rented : Registry
rented = record (new hos) {
  tlas = (fun, fun_entry) ∷ [];
  sub_accounts = (key, alice_entry) ∷ [];
  sub_account_count = 1;
  mothers = (alice, alice) ∷ [];
  total_revenue = 15 * one_near;
}
