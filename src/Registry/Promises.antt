-- ===== src/Registry/Promises.antt =====
-- What a handler asks the network to do: the calls of other contracts, run side by side where
-- there are several (`Promise::and`), and the callback that gets their results (`Promise::then`).
-- Gas is in units of 10^12.
use hos_tla.Base.{ℕ, ◌+◌, Option, none, some, List, [], ◌∷◌, Text}
use hos_tla.Types.{AccountId, PublicKey}

pub data Call : Type 0 where
  -- `Promise::transfer`
  transfer : AccountId → ℕ → Call
  -- the manager at a TLA, with the attached deposit
  create_sub_account : AccountId → Text → PublicKey → ℕ → Call
  -- the sub-account locker at an account
  sweep_ft : AccountId → AccountId → AccountId → Call
  finalize_delete : AccountId → AccountId → Call
  export : AccountId → Call
  transfer_key : AccountId → PublicKey → Call
  -- a token contract, and the account whose balance is asked for
  ft_balance_of : AccountId → AccountId → Call
  -- the resale locker at an account
  unlock : AccountId → PublicKey → Call
  abort : AccountId → Call

-- marketplace.rs
pub record PendingBuy : Type 0 where
  pub tla_id : AccountId
  pub name : Text
  pub buyer : AccountId
  pub new_owner_key : PublicKey
  pub price : ℕ
  pub deposit : ℕ

pub data Callback : Type 0 where
  on_claim_refund_settled : AccountId → ℕ → Callback
  on_sub_account_created : AccountId → Text → AccountId → ℕ → ℕ → Callback
  on_balances_checked : AccountId → Text → AccountId → List AccountId → Callback
  on_reclaim_finalized : AccountId → Text → AccountId → Callback
  on_export_settled : AccountId → Text → Callback
  on_buy_balances_checked : PendingBuy → List AccountId → Callback
  on_sub_account_sold : AccountId → Text → AccountId → ℕ → ℕ → Callback

pub record Promise : Type 0 where
  -- each with its static gas
  pub calls : List (Call × ℕ)
  pub callback : Option (Callback × ℕ)

abbrev pub one_call : Call → ℕ → Promise
one_call c gas = record { calls = (c, gas) ∷ []; callback = none }

abbrev pub then_call : Promise → Callback → ℕ → Promise
then_call p cb gas = record p { callback = some (cb, gas) }

abbrev pub gas_of_calls : List (Call × ℕ) → ℕ
gas_of_calls [] = 0
gas_of_calls ((_, gas) ∷ rest) = gas + gas_of_calls rest

abbrev gas_of_callback : Option (Callback × ℕ) → ℕ
gas_of_callback none = 0
gas_of_callback (some (_, gas)) = gas

-- The static gas of all the calls of a promise and of its callback.
abbrev pub static_gas : Promise → ℕ
static_gas p = gas_of_calls p.calls + gas_of_callback p.callback

-- What `env::promise_result_checked` gives for one call: the returned bytes, or an error, which is
-- `PromiseError::Failed` or another.
pub data PromiseResult : Type 0 where
  returned : Text → PromiseResult
  failed unverifiable : PromiseResult
