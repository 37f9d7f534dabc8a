-- ===== src/Env/State.antt =====
-- The state that an invocation reads and writes. Each `DataKey` variant is used in one storage
-- domain and with one type of value, so the two storages are records with a field for each of
-- theirs; `none` is a key that holds no entry.
use stellar_tip_contract.Base.{ℕ, ℤ, Bool, Option, List}
use stellar_tip_contract.Host.{Host, Address, Symbol}
use stellar_tip_contract.Types.{CreatorProfile, Tip, DataKey, Event}

-- `env.storage().instance()`
pub record InstanceStorage : Type 0 where
  pub admin : Option Address
  pub paused : Option Bool
  pub fee_bps : Option ℕ
  pub fee_recipient : Option Address
  pub max_creators : Option ℕ
  pub max_tips_per_creator : Option ℕ
  pub min_tip_amount : Option ℤ
  pub creator_count : Option ℕ
  pub profile : Address → Option CreatorProfile
  pub username_to_address : Symbol → Option Address

-- `env.storage().persistent()`
pub record PersistentStorage (TokenSet : Type 0) : Type 0 where
  pub balance : Address → Address → Option ℤ
  pub tip_count : Address → Option ℕ
  pub tip : Address → ℕ → Option Tip
  pub creator_tokens : Address → Option TokenSet

-- A request to the host to extend a time to live, with its threshold and target.
pub data TtlExtension : Type 0 where
  of_instance : ℕ → ℕ → TtlExtension
  of_entry : DataKey → ℕ → ℕ → TtlExtension

pub record Env (h : Host) : Type 0 where
  -- the addresses whose `require_auth` succeeds in this invocation
  pub authorized : Address → Bool
  pub current_contract_address : Address
  pub timestamp : ℕ
  -- the entries of the two storages
  pub inst : InstanceStorage
  pub pers : PersistentStorage h.TokenSet
  -- the other contracts
  pub ledger : h.Ledger
  -- what was asked of the host, oldest last
  pub extensions : List TtlExtension
  pub events : List Event
