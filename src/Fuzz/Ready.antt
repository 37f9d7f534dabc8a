-- ===== src/Fuzz/Ready.antt =====
-- The storage of the tests' contract between two calls: several creators have registered.
pub mod Tips
pub mod Withdrawals
pub mod Pausing
use stellar_tip_contract.Base.{
  ℕ, ◌≤◌, ◌<◌, ◌+◌, pos, ◌≡◌, Bool, true, false, some, is_some, unwrap_or, arith,
}
use stellar_tip_contract.Host.{Host, MapLaws, Address}
use stellar_tip_contract.Env.{Env}
use stellar_tip_contract.System.Config.{ConfigValid}
use stellar_tip_contract.System.Tokens.{TokensValid}
use stellar_tip_contract.Fuzz.Environment.{TestUtils}

module _ {h : Host} (maps : MapLaws h) (sdk : TestUtils h) where
  -- The creators are made after the accounts of the fixture.
  abbrev pub owner : ℕ → Address
  owner i = sdk.address (5 + i)

  -- The contract is set up as the fixture leaves it, except for the pause flag. The first `k` owners
  -- are creators, each with its balance `held` in the token and at most `count` tips.
  pub record Ready (k fee_bps : ℕ) (paused : Bool) (held : ℕ → ℕ) (count : ℕ) (e : Env h)
      : Type 0 where
    pub authorized : (a : Address) → e.authorized a ≡ true
    pub contract_is : e.current_contract_address ≡ sdk.address 2
    pub admin_is : e.inst.admin ≡ some (sdk.address 0)
    pub flag : unwrap_or e.inst.paused false ≡ paused
    pub rate : unwrap_or e.inst.fee_bps 0 ≡ fee_bps
    pub recipient : e.inst.fee_recipient ≡ some (sdk.address 1)
    pub minimum : unwrap_or e.inst.min_tip_amount (pos 0) ≡ pos 0
    pub uncapped : unwrap_or e.inst.max_tips_per_creator 0 ≡ 0
    pub registered : (i : ℕ) → i < k → is_some (e.inst.profile (owner i)) ≡ true
    pub counted : (i : ℕ) → i < k → unwrap_or (e.pers.tip_count (owner i)) 0 ≤ count
    pub balance :
        (i : ℕ)
        → i < k
        → unwrap_or (e.pers.balance (owner i) (sdk.address 4)) (pos 0) ≡ pos (held i)
    pub config : ConfigValid e
    pub tracking : TokensValid maps e

  -- It is known of the first `k` balances only.
  pub Ready-held :
      (k fee_bps : ℕ) (paused : Bool) (held other : ℕ → ℕ) (count : ℕ) (e : Env h)
      → ((i : ℕ) → i < k → held i ≡ other i)
      → Ready k fee_bps paused held count e
      → Ready k fee_bps paused other count e
  Ready-held k fee_bps paused held other count e same s = record {
    authorized = s.authorized;
    contract_is = s.contract_is;
    admin_is = s.admin_is;
    flag = s.flag;
    rate = s.rate;
    recipient = s.recipient;
    minimum = s.minimum;
    uncapped = s.uncapped;
    registered = s.registered;
    counted = s.counted;
    balance = λ i p. rw (← same i p) (s.balance i p);
    config = s.config;
    tracking = s.tracking;
  }

  -- It says nothing of the ledger.
  pub Ready-ledger :
      (k fee_bps : ℕ) (paused : Bool) (held : ℕ → ℕ) (count : ℕ) (e : Env h) (l : h.Ledger)
      → Ready k fee_bps paused held count e
      → Ready k fee_bps paused held count (record e { ledger = l })
  Ready-ledger k fee_bps paused held count e l s = record {
    authorized = s.authorized;
    contract_is = s.contract_is;
    admin_is = s.admin_is;
    flag = s.flag;
    rate = s.rate;
    recipient = s.recipient;
    minimum = s.minimum;
    uncapped = s.uncapped;
    registered = s.registered;
    counted = s.counted;
    balance = s.balance;
    config = s.config;
    tracking = s.tracking;
  }
