-- ===== src/System/Census.antt =====
-- How many names each TLA has, beside the registry's own count of those of a business TLA.
pub mod Kinds
pub mod Updates
pub mod Rentals
pub mod Calls
pub mod Callbacks
pub mod Traces
use hos_tla.Base.{
  ◌==◌, ℕ, ◌≤◌, ◌≡◌, Bool, true, false, Option, none, some, Text, if◌then◌else◌, unwrap_or, u32_max,
}
use hos_tla.Base.Maps.{get}
use hos_tla.Base.Maps.Sums.{IsMap, sum_by, weight}
use hos_tla.Types.{AccountId, TlaType, TlaEntry, SubAccountEntry}
use hos_tla.Registry.{Registry}

abbrev pub type_of : Option TlaEntry → Option TlaType
type_of none = none
type_of (some e) = some e.tla_type

-- The type that a TLA is registered with.
abbrev pub kind : AccountId → Registry → Option TlaType
kind a s = type_of (get a s.tlas)

abbrev pub is_counted : Option TlaType → Bool
is_counted (some TlaType.business) = true
is_counted _ = false

abbrev pub under : AccountId → SubAccountEntry → ℕ
under b e = if e.tla_id == b then 1 else 0

-- The entries of a TLA, and the registry's count of them.
abbrev pub names_of : AccountId → Registry → ℕ
names_of b s = sum_by (under b) s.sub_accounts

abbrev pub count : AccountId → Registry → ℕ
count b s = unwrap_or 0 (get b s.business_sub_count)

-- The count of a business TLA is right, no other has one, and no name is under a TLA that is not
-- registered.
pub record Tally (b : AccountId) (s : Registry) : Type 0 where
  pub is_map : IsMap s.sub_accounts
  pub none_yet : kind b s ≡ none → names_of b s ≡ 0
  pub counted : count b s ≡ (if is_counted (kind b s) then names_of b s else 0)

-- The caps are numbers of 32 bits.
pub record IsCapped (b : AccountId) (s : Registry) : Type 0 where
  pub everyone : s.fee_config.business_max_subs ≤ u32_max
  pub own : weight (λ n. n) (get b s.business_sub_cap_override) ≤ u32_max
