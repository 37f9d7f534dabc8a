-- ===== src/System/Reach.antt =====
-- The steps of the contract and of the world around it, from its deployment on.
use stellar_tip_contract.Base.{ℕ, pos, ◌≤ℤ◌, ◌≡◌, Bool, false, none, []}
use stellar_tip_contract.Host.{Host, TokenLaws, Address}
use stellar_tip_contract.Env.{Env, InstanceStorage, PersistentStorage, ok}
use stellar_tip_contract.Contract.{Call, execute}

abbrev pub empty_instance : InstanceStorage
empty_instance = record {
  admin = none;
  paused = none;
  fee_bps = none;
  fee_recipient = none;
  max_creators = none;
  max_tips_per_creator = none;
  min_tip_amount = none;
  creator_count = none;
  profile = λ a. none;
  username_to_address = λ u. none;
}

abbrev pub empty_persistent : {TokenSet : Type 0} → PersistentStorage TokenSet
empty_persistent = record {
  balance = λ c t. none;
  tip_count = λ c. none;
  tip = λ c i. none;
  creator_tokens = λ c. none;
}

module _ {h : Host} where
  -- The contract before any call.
  abbrev pub deployed : (Address → Bool) → Address → ℕ → h.Ledger → Env h
  deployed authorized contract timestamp ledger = record {
    authorized = authorized;
    current_contract_address = contract;
    timestamp = timestamp;
    inst = empty_instance;
    pers = empty_persistent;
    ledger = ledger;
    extensions = [];
    events = [];
  }

module _ {h : Host} (laws : TokenLaws h) where
  open laws use {token_balance}

  -- A call that returns, or a change outside the contract. Nobody has the contract's authorization,
  -- so outside changes leave its token balances as high as they were. A call that panics is no step:
  -- it leaves everything as it was.
  pub data Step (e : Env h) : Env h → Type 0 where
    call : (c : Call) (e' : Env h) → execute c e ≡ ok (tt, e') → Step e e'
    outside :
        (authorized : Address → Bool) (timestamp : ℕ) (ledger : h.Ledger)
        → authorized e.current_contract_address ≡ false
        → ((token : Address)
            → token_balance e.ledger token e.current_contract_address
              ≤ℤ token_balance ledger token e.current_contract_address)
        → Step e (record e { authorized = authorized; timestamp = timestamp; ledger = ledger })

  -- From a deployment at an address that holds no negative balance.
  pub data Reach : Env h → Type 0 where
    start :
        (authorized : Address → Bool) (contract : Address) (timestamp : ℕ) (ledger : h.Ledger)
        → authorized contract ≡ false
        → ((token : Address) → pos 0 ≤ℤ token_balance ledger token contract)
        → Reach (deployed authorized contract timestamp ledger)
    next : {e e' : Env h} → Reach e → Step e e' → Reach e'
