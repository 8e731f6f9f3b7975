-- ===== src/Rental/Renewal.antt =====
-- What a renewal buys.
use hos_tla.Base.{◌+◌, ◌<◌, ◌≡◌, none, some, arith, Text, add_u64, max, ok, eq_iff}
use hos_tla.Base.Maps.{get, get-insert_self}
use hos_tla.Types.{AccountId, SubAccountEntry, one_year_ns, grace_period_ns}
use hos_tla.Types.Names.{sub_account_key}
use hos_tla.Registry.{Env, Registry}
use hos_tla.Rental.{renew_sub_account}

-- A renewal succeeds only for the owner, within the grace period and with no retraction pending.
-- It adds a year to the term, from now if the term is over, and changes nothing else of the
-- account.
pub renewal_extends :
    (env : Env) (tla_id : AccountId) (name : Text) (s t : Registry) (sub : SubAccountEntry)
    → get (sub_account_key tla_id name) s.sub_accounts ≡ some sub
    → renew_sub_account env tla_id name s ≡ ok t
    → (sub.owner ≡ env.predecessor)
      × (sub.retraction_at ≡ none)
      × (env.block_timestamp < sub.expires_at + grace_period_ns)
      × (get (sub_account_key tla_id name) t.sub_accounts
          ≡ some (record sub {
            expires_at = add_u64 (max env.block_timestamp sub.expires_at) one_year_ns;
          }))
unfolding renew_sub_account
renewal_extends env tla_id name s t sub e h =
    let key = sub_account_key tla_id name in
    let longer = record sub {
      expires_at = add_u64 (max env.block_timestamp sub.expires_at) one_year_ns;
    } in
    (
      ground (arith, eq_iff env.predecessor sub.owner),
      ground arith,
      ground arith,
      ground (arith, get-insert_self key longer s.sub_accounts),
    )
