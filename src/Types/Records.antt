-- ===== src/Types/Records.antt =====
-- `DataKey`, `CreatorProfile` and `Tip`.
use stellar_tip_contract.Base.{ℕ, ℤ}
use stellar_tip_contract.Host.{Address, Symbol, Text}

pub data DataKey : Type 0 where
  admin paused fee_bps fee_recipient max_creators max_tips_per_creator : DataKey
  min_tip_amount creator_count : DataKey
  profile : Address → DataKey
  username_to_address : Symbol → DataKey
  balance : Address → Address → DataKey
  tip_count : Address → DataKey
  tip : Address → ℕ → DataKey
  creator_tokens : Address → DataKey

pub record CreatorProfile : Type 0 where
  pub username : Symbol
  pub display_name : Text
  pub bio : Text
  pub registered_at : ℕ

pub record Tip : Type 0 where
  pub from : Address
  pub token : Address
  pub amount : ℤ
  pub message : Text
  pub timestamp : ℕ
