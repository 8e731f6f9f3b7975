-- ===== src/Rental/Admission.antt =====
-- What a rental has checked and recorded, and what it costs.
use hos_tla.Base.{
  ◌≤◌, ◌<◌, ◌≡◌, ◌≢◌, false, Option, none, some, arith, Text, add_u64, add_u128, ok, Option-cases,
  refl, inl, inr, eq_iff, if◌then◌else◌, ◌⊎◌,
}
use hos_tla.Base.Maps.{get, contains_key, get-insert_self}
use hos_tla.Types.{
  AccountId, PublicKey, TlaType, TlaEntry, TlaStatus, SubAccountEntry, one_year_ns, is_business,
}
use hos_tla.Types.Lifecycle.{is_accepting_rentals}
use hos_tla.Types.Names.{validate_name, sub_account_key}
use hos_tla.Fees.{calculate_rent}
use hos_tla.Registry.{Env, Registry, Outcome}
use hos_tla.Business.{business_count_check_and_bump, effective_business_cap, get_business_sub_count}
use hos_tla.Mother.{ensure_mother_default}
use hos_tla.Views.{get_rent_price, RentPriceView}
use hos_tla.Rental.{assert_licensee, rent_sub_account}

-- The name is good and free, the TLA takes rentals, a business TLA's licensee is the caller, and
-- the quoted price is paid.
pub record IsRentable (env : Env) (tla_id : AccountId) (name : Text) (wallet : AccountId)
    (s : Registry) : Type 0 where
  pub running : s.paused ≡ false
  pub good_name : validate_name name ≡ ok tt
  pub free : contains_key (sub_account_key tla_id name) s.sub_accounts ≡ false
  pub other_wallet : wallet ≢ sub_account_key tla_id name
  pub tla : TlaEntry
  pub tla_found : get tla_id s.tlas ≡ some tla
  pub tla_active : tla.status ≡ TlaStatus.active
  pub in_term : env.block_timestamp < tla.expires_at
  pub licensed : (tla.tla_type ≡ TlaType.open_tla) ⊎ (tla.licensee ≡ some env.predecessor)
  pub price : RentPriceView
  pub quoted : get_rent_price tla_id name s ≡ ok price
  pub paid : price.total_yocto ≤ env.attached_deposit

licensed_by :
    (caller : AccountId) (l : Option AccountId) → assert_licensee caller l ≡ ok tt → l ≡ some caller
licensed_by caller none h = ground arith
licensed_by caller (some l) h = ground (arith, eq_iff caller l, eq_iff l caller)

licensee_or_open :
    (env : Env) (ty : TlaType) (l : Option AccountId)
    → (if is_business ty then assert_licensee env.predecessor l else ok tt) ≡ ok tt
    → (ty ≡ TlaType.open_tla) ⊎ (l ≡ some env.predecessor)
licensee_or_open env TlaType.open_tla l h = inl refl
licensee_or_open env TlaType.business l h = inr (licensed_by env.predecessor l h)

module _ (env : Env) (tla_id : AccountId) (name : Text) (k : PublicKey) (wallet : AccountId)
    (s : Registry) (o : Outcome) (rented : rent_sub_account env tla_id name k wallet s ≡ ok o) where
  -- A rental is taken only while the contract runs, for a valid name that is free, with another
  -- account as the main wallet, below a TLA that is active and within its term and either open or
  -- licensed to the caller, and with at least the quoted price attached.
  pub rental_admitted : IsRentable env tla_id name wallet s
  unfolding rent_sub_account is_accepting_rentals get_rent_price
  rental_admitted = elim (Option-cases (get tla_id s.tlas)) [
    | inl e ↦ ground arith
    | inr (tla, e) ↦ record {
      running = ground arith;
      good_name = ground arith;
      free = ground arith;
      other_wallet = λ same. ground (arith, eq_iff wallet (sub_account_key tla_id name));
      tla = tla;
      tla_found = e;
      tla_active = ground arith;
      in_term = ground arith;
      licensed = licensee_or_open env tla.tla_type tla.licensee (ground arith);
      price = record {
        rent_yocto = calculate_rent tla tla_id name s.fee_config;
        creation_deposit_yocto = s.fee_config.account_creation_deposit;
        total_yocto =
            add_u128 (calculate_rent tla tla_id name s.fee_config)
              s.fee_config.account_creation_deposit;
      };
      quoted = ground arith;
      paid = ground arith;
    }
  ]

  -- A rental that is taken records the caller as the owner for a year from now, and books no money
  -- yet.
  pub rental_recorded :
      (get (sub_account_key tla_id name) o.state.sub_accounts
        ≡ some (record {
          owner = env.predecessor;
          tla_id = tla_id;
          main_wallet = wallet;
          rented_at = env.block_timestamp;
          expires_at = add_u64 env.block_timestamp one_year_ns;
          retraction_at = none;
        }))
      × (o.state.total_revenue ≡ s.total_revenue)
      × (o.state.pending_refunds ≡ s.pending_refunds)
  unfolding rent_sub_account ensure_mother_default business_count_check_and_bump
  rental_recorded =
      let key = sub_account_key tla_id name in
      let entry : SubAccountEntry = record {
        owner = env.predecessor;
        tla_id = tla_id;
        main_wallet = wallet;
        rented_at = env.block_timestamp;
        expires_at = add_u64 env.block_timestamp one_year_ns;
        retraction_at = none;
      } in
      (ground (arith, get-insert_self key entry s.sub_accounts), ground arith, ground arith)

  -- A rental under a business TLA is taken only below the cap of its sub-accounts.
  pub cap_respected :
      (tla : TlaEntry)
      → get tla_id s.tlas ≡ some tla
      → tla.tla_type ≡ TlaType.business
      → get_business_sub_count tla_id s < effective_business_cap tla_id s
  unfolding rent_sub_account ensure_mother_default business_count_check_and_bump
      get_business_sub_count
  cap_respected tla e b = ground arith
