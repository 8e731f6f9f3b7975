-- ===== src/System/Slots.antt =====
-- What the registry promises of a single name, as a machine of its own: a slot that is free or
-- taken, and the few actions that there are on it. No other name plays a part.
pub mod Refinement
pub mod Histories
use hos_tla.Base.{
  ◌==◌, ℕ, max, ◌≡◌, Bool, true, false, ◌&&◌, not, Option, none, some, Text, if◌then◌else◌, add_u64,
}
use hos_tla.Types.{AccountId, SubAccountEntry, one_year_ns}
use hos_tla.Types.Names.{sub_account_key}
use hos_tla.Registry.{Callback, Env}
use hos_tla.System.{Op, Ending}

abbrev pub Slot : Type 0
Slot = Option SubAccountEntry

pub data Action : Type 0 where
  -- by a caller, at a time
  take : SubAccountEntry → Action
  extend : ℕ → Action
  redirect : AccountId → Action
  retract : ℕ → Action
  keep : Action
  -- at the end of what the registry asked other contracts for
  sell : AccountId → Action
  leave : Action

abbrev pub on_taken : Action → SubAccountEntry → Slot
on_taken (Action.take e) old = some old
on_taken (Action.extend now) old =
    some (record old { expires_at = add_u64 (max now old.expires_at) one_year_ns })
on_taken (Action.redirect wallet) old = some (record old { main_wallet = wallet })
on_taken (Action.retract now) old = some (record old { retraction_at = some now })
on_taken Action.keep old = some (record old { retraction_at = none })
on_taken (Action.sell buyer) old = some (record old { owner = buyer; main_wallet = buyer })
on_taken Action.leave old = none

abbrev pub on_free : Action → Slot
on_free (Action.take e) = some e
on_free _ = none

abbrev pub act : Action → Slot → Slot
act a none = on_free a
act a (some old) = on_taken a old

abbrev pub perform : Option Action → Slot → Slot
perform none slot = slot
perform (some a) slot = act a slot

-- Whom the slot belongs to, and to nobody else.
abbrev pub IsOwnedBy : AccountId → Slot → Type 0
IsOwnedBy who none = ⊥
IsOwnedBy who (some e) = e.owner ≡ who

-- What a caller may do: take a free slot for a year, in the caller's own name, and change a slot
-- that is the caller's. Nobody sells or frees a slot by a call.
abbrev pub May : AccountId → ℕ → Action → Slot → Type 0
May who now (Action.take e) slot =
    (slot ≡ none) × (e.owner ≡ who) × (e.rented_at ≡ now) × (e.expires_at ≡ add_u64 now one_year_ns)
May who now (Action.sell buyer) slot = ⊥
May who now Action.leave slot = ⊥
May who now a slot = IsOwnedBy who slot

abbrev pub MayPerform : AccountId → ℕ → Option Action → Slot → Type 0
MayPerform who now none slot = Unit
MayPerform who now (some a) slot = May who now a slot

-- An action on the slot of `at` is one on the slot of `key` only if these are one.
abbrev pub at_key : Text → Text → Action → Option Action
at_key at key a = if at == key then some a else none

-- The action that a method means, once it succeeds.
abbrev pub action_of : Env → Op → Text → Option Action
action_of env (Op.rent_sub_account tla n _ w) key = at_key (sub_account_key tla n) key (
    Action.take (record {
      owner = env.predecessor;
      tla_id = tla;
      main_wallet = w;
      rented_at = env.block_timestamp;
      expires_at = add_u64 env.block_timestamp one_year_ns;
      retraction_at = none;
    }))
action_of env (Op.renew_sub_account tla n) key =
    at_key (sub_account_key tla n) key (Action.extend env.block_timestamp)
action_of env (Op.set_main_wallet tla n w) key =
    at_key (sub_account_key tla n) key (Action.redirect w)
action_of env (Op.schedule_retraction tla n) key =
    at_key (sub_account_key tla n) key (Action.retract env.block_timestamp)
action_of env (Op.cancel_retraction tla n) key = at_key (sub_account_key tla n) key Action.keep
action_of env _ key = none

-- The action that a callback means, by how the awaited call ended.
abbrev pub action_after : Bool → Callback → Text → Option Action
action_after false (Callback.on_sub_account_created tla n _ _ _) key =
    at_key (sub_account_key tla n) key Action.leave
action_after true (Callback.on_reclaim_finalized tla n _) key =
    at_key (sub_account_key tla n) key Action.leave
action_after true (Callback.on_export_settled tla n) key =
    at_key (sub_account_key tla n) key Action.leave
action_after true (Callback.on_sub_account_sold tla n buyer _ _) key =
    at_key (sub_account_key tla n) key (Action.sell buyer)
action_after _ _ key = none
