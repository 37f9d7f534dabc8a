-- ===== src/Types/Errors.antt =====
-- `TipError`, and the ways in which an invocation ends early.
use stellar_tip_contract.Base.{ℕ}

pub data TipError : Type 0 where
  creator_already_exists creator_not_found username_taken insufficient_balance : TipError
  transfer_failed invalid_amount no_tips not_initialized already_initialized : TipError
  paused not_authorized invalid_input balance_not_empty cap_exceeded : TipError
  fee_recipient_not_set below_minimum : TipError

-- The discriminants that clients see as `#N`.
unfoldable pub code : TipError → ℕ
code TipError.creator_already_exists = 1
code TipError.creator_not_found = 2
code TipError.username_taken = 3
code TipError.insufficient_balance = 4
code TipError.transfer_failed = 5
code TipError.invalid_amount = 6
code TipError.no_tips = 7
code TipError.not_initialized = 8
code TipError.already_initialized = 9
code TipError.paused = 10
code TipError.not_authorized = 11
code TipError.invalid_input = 12
code TipError.balance_not_empty = 13
code TipError.cap_exceeded = 14
code TipError.fee_recipient_not_set = 15
code TipError.below_minimum = 16

-- `tip_error` is `panic_with_error!`. The others are raised below the source: a missing
-- authorization, arithmetic out of range (overflow-checks are on), a failed token transfer, and
-- `extend_ttl` on a key that holds no entry.
pub data Panic : Type 0 where
  tip_error : TipError → Panic
  unauthorized overflow token_error missing_entry : Panic
