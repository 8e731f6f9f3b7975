-- ===== src/System/Ledger.antt =====
-- Money: what the registry owes, and the sum of the refund queue.
pub mod Calls
pub mod Callbacks
use hos_tla.Base.{
  if◌then◌else◌, ℕ, ◌+◌, ◌-◌, ◌≤◌, ◌≡◌, refl, none, some, arith, u128_max, ok, err, unwrap_or,
  Option, Bool, true, false, inl, inr, Bool-cases, ltb, add_u128, Text, as_u8, length,
}
use hos_tla.Base.Maps.{Map, get, insert}
use hos_tla.Base.Maps.Sums.{
  IsMap, insert-IsMap, remove-IsMap, weight, sum_by, sum_by-insert, sum_by-remove, weight-le-sum_by,
}
use hos_tla.Types.{AccountId, FeeConfig}
use hos_tla.Fees.{base_rent, calculate_rent}
use hos_tla.Registry.{Registry, Env, Promise, Callback, Outcome, add_pending_refund, refund_excess}

-- What can be claimed or withdrawn.
abbrev pub money : Registry → ℕ
money s = s.total_revenue + s.total_pending_refunds

abbrev pub amount : ℕ → ℕ
amount n = n

-- The refund queue adds up to its recorded total.
pub record IsLedger (s : Registry) : Type 0 where
  pub is_map : IsMap s.pending_refunds
  pub adds_up : sum_by amount s.pending_refunds ≡ s.total_pending_refunds

-- What the registry owes to the user of a promise until its callback has run.
abbrev pub held : Callback → ℕ
held (Callback.on_claim_refund_settled _ n) = n
held (Callback.on_sub_account_created _ _ _ _ attached) = attached
held (Callback.on_balances_checked _ _ _ _) = 0
held (Callback.on_reclaim_finalized _ _ _) = 0
held (Callback.on_export_settled _ _) = 0
held (Callback.on_buy_balances_checked b _) = b.deposit
held (Callback.on_sub_account_sold _ _ _ _ deposit) = deposit

abbrev held_then : Option (Callback × ℕ) → ℕ
held_then none = 0
held_then (some (cb, _)) = held cb

abbrev pub held_by : Option Promise → ℕ
held_by none = 0
held_by (some p) = held_then p.callback

-- With `d` received and `paid` gone, the state `t` and the promise owe no more than `s` did, and
-- `d` less `paid`; and the refund queue of `t` adds up, if what is owed stays in range.
pub record Moves (d paid : ℕ) (s t : Registry) (p : Option Promise) : Type 0 where
  pub owed : money t + held_by p + paid ≤ money s + d
  pub ledger : money s + d ≤ u128_max → IsLedger t

-- The queue after `add_pending_refund`.
abbrev pub enqueue : AccountId → ℕ → Map ℕ → Map ℕ
enqueue a n m = insert a (add_u128 (unwrap_or 0 (get a m)) n) m

enqueue-adds_up :
    (a : AccountId) (n total : ℕ) (m : Map ℕ)
    → IsMap m
    → sum_by amount m ≡ total
    → total + n ≤ u128_max
    → IsMap (enqueue a n m) × (sum_by amount (enqueue a n m) ≡ add_u128 total n)
enqueue-adds_up a n total m h e le =
    let v = add_u128 (unwrap_or 0 (get a m)) n in
    (insert-IsMap a v m h, ground (arith, weight-le-sum_by amount a m, sum_by-insert amount a v m))

-- With one more refund queued, or none.
pub refunded-IsLedger :
    (a : AccountId) (n : ℕ) (s t : Registry)
    → IsLedger s
    → s.total_pending_refunds + n ≤ u128_max
    → t.pending_refunds ≡ enqueue a n s.pending_refunds
    → t.total_pending_refunds ≡ add_u128 s.total_pending_refunds n
    → IsLedger t
refunded-IsLedger a n s t l le e f =
    let q = enqueue-adds_up a n s.total_pending_refunds s.pending_refunds l.is_map l.adds_up le in
    record { is_map = rw e q.0; adds_up = rw (e, f) q.1 }

-- With the excess of a payment queued.
pub excess-IsLedger :
    (a : AccountId) (n : ℕ) (s t : Registry)
    → IsLedger s
    → s.total_pending_refunds + n ≤ u128_max
    → t.pending_refunds ≡ (refund_excess a n s).pending_refunds
    → t.total_pending_refunds ≡ (refund_excess a n s).total_pending_refunds
    → IsLedger t
unfolding refund_excess
excess-IsLedger a n s t l le e f = elim (Bool-cases (ltb 0 n)) [
  | inl more ↦ refunded-IsLedger a n s t l le (ground arith) (ground arith)
  | inr exact ↦ record { is_map = ground (arith, l.is_map); adds_up = ground (arith, l.adds_up) }
]

-- What is known of a promise whose callback is still to run, when `sent` went out with it: the
-- money of a claim is out; a rental has paid its rent and the creation deposit that went out, and
-- the configured deposit is no lower; a sale is paid in full.
abbrev pub IsFunded : FeeConfig → ℕ → Callback → Type 0
IsFunded config sent (Callback.on_claim_refund_settled _ n) = sent ≡ n
IsFunded config sent (Callback.on_sub_account_created _ _ _ rent attached) =
    (rent + sent ≤ attached) × (sent ≤ config.account_creation_deposit)
IsFunded config sent (Callback.on_balances_checked _ _ _ _) = sent ≡ 0
IsFunded config sent (Callback.on_reclaim_finalized _ _ _) = sent ≡ 0
IsFunded config sent (Callback.on_export_settled _ _) = sent ≡ 0
IsFunded config sent (Callback.on_buy_balances_checked b _) = (sent ≡ 0) × (b.price ≤ b.deposit)
IsFunded config sent (Callback.on_sub_account_sold _ _ _ price deposit) =
    (sent ≡ 0) × (price ≤ deposit)

-- What stays out of what was sent, by how the promise ended: a failed one gives it back.
abbrev pub spent : Bool → ℕ → ℕ
spent success sent = if success then sent else 0
