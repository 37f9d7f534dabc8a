-- ===== src/Panics/Listed.antt =====
-- The tests of each call in the order of the code, each with the panic that it raises, in terms of
-- the view functions.
use stellar_tip_contract.Base.{
  ◌+◌, ltb, leb, ℤ, pos, ◌+ℤ◌, ◌-ℤ◌, ◌*ℤ◌, ltb_ℤ, leb_ℤ, Bool, false, not, ◌&&◌, ◌||◌, ◌==◌, Option,
  none, some, is_some, List, [], ◌∷◌, length, if◌then◌else◌,
}
use stellar_tip_contract.Host.{Host, Address, Text}
use stellar_tip_contract.Types.{
  TipError, Panic, tip_error, unauthorized, overflow, token_error, max_fee_bps,
  max_display_name_len, max_bio_len,
}
use stellar_tip_contract.Env.{Env, fits_u32, fits_u64, fits_i128}
use stellar_tip_contract.Contract.{
  Call, get_admin, is_paused, get_balance, get_all_tokens, get_tip_count, get_fee_percentage,
  get_fee_recipient, get_max_creators, get_max_tips_per_creator, get_min_tip_amount,
  get_creator_count, is_creator, is_username_taken,
}
use stellar_tip_contract.Outcome.Tipping.{fee_amount}
use stellar_tip_contract.Access.{caller_of}
use stellar_tip_contract.Governance.{acceptable}

abbrev pub Tests : Type 0
Tests = List (Bool × Panic)

abbrev pub too_long : Text → Text → Bool
too_long display_name bio =
    ltb max_display_name_len (length display_name) || ltb max_bio_len (length bio)

abbrev pub is_admin : Address → Option Address → Bool
is_admin caller none = false
is_admin caller (some admin) = caller == admin

-- The ledger after the transfer of the fee, if both transfers of a tip succeed.
abbrev pub after_fee :
    (h : Host) → Address → Address → Option Address → ℤ → Option h.Ledger → Option h.Ledger
after_fee h token contract recipient fee none = none
after_fee h token contract none fee (some l) = if ltb_ℤ (pos 0) fee then none else some l
after_fee h token contract (some recipient) fee (some l) =
    if ltb_ℤ (pos 0) fee then h.transfer l token contract recipient fee else some l

module _ {h : Host} where
  abbrev pub user_tests : Address → Env h → Tests → Tests
  user_tests caller e tests =
      (not (e.authorized caller), unauthorized)
      ∷ (not (is_some (get_admin e)), tip_error TipError.not_initialized)
      ∷ (is_paused e, tip_error TipError.paused)
      ∷ tests

  abbrev pub admin_tests : Call → Env h → Tests
  admin_tests c e =
      (not (e.authorized (caller_of c)), unauthorized)
      ∷ (not (is_some (get_admin e)), tip_error TipError.not_initialized)
      ∷ (not (is_admin (caller_of c) (get_admin e)), tip_error TipError.not_authorized)
      ∷ (not (acceptable c e), tip_error TipError.invalid_input)
      ∷ []

  -- Whether the contract still owes the creator something in one of the tokens.
  abbrev pub owes_any : Address → Env h → List Address → Bool
  owes_any creator e [] = false
  owes_any creator e (token ∷ tokens) =
      ltb_ℤ (pos 0) (get_balance creator token e) || owes_any creator e tokens

  abbrev pub tip_tests : Address → Address → Address → ℤ → Env h → Tests
  tip_tests from creator token amount e =
      let contract = e.current_contract_address in
      let index = get_tip_count creator e in
      let fee = fee_amount amount (get_fee_percentage e) in
      let paid = h.transfer e.ledger token from contract amount in
      let forwarded = after_fee h token contract (get_fee_recipient e) fee paid in
      let limit = get_max_tips_per_creator e in
      (leb_ℤ amount (pos 0), tip_error TipError.invalid_amount)
      ∷ (
        ltb_ℤ (pos 0) (get_min_tip_amount e) && ltb_ℤ amount (get_min_tip_amount e),
        tip_error TipError.below_minimum,
      )
      ∷ (not (is_creator creator e), tip_error TipError.creator_not_found)
      ∷ (ltb 0 limit && leb limit index, tip_error TipError.cap_exceeded)
      ∷ (not (fits_i128 (amount *ℤ pos (get_fee_percentage e))), overflow)
      ∷ (not (is_some forwarded), token_error)
      ∷ (not (fits_i128 (get_balance creator token e +ℤ (amount -ℤ fee))), overflow)
      ∷ (not (fits_u64 (index + 1)), overflow)
      ∷ []

  abbrev pub tests : Call → Env h → Tests
  tests (Call.init caller recipient bps creators tips minimum) e =
      (not (e.authorized caller), unauthorized)
      ∷ (is_some (get_admin e), tip_error TipError.already_initialized)
      ∷ (ltb max_fee_bps bps, tip_error TipError.invalid_input)
      ∷ (ltb_ℤ minimum (pos 0), tip_error TipError.invalid_input)
      ∷ (recipient == e.current_contract_address, tip_error TipError.invalid_input)
      ∷ []
  tests (Call.set_admin caller new_admin) e = admin_tests (Call.set_admin caller new_admin) e
  tests (Call.pause caller) e = admin_tests (Call.pause caller) e
  tests (Call.unpause caller) e = admin_tests (Call.unpause caller) e
  tests (Call.set_fee_percentage caller bps) e = admin_tests (Call.set_fee_percentage caller bps) e
  tests (Call.set_fee_recipient caller recipient) e =
      admin_tests (Call.set_fee_recipient caller recipient) e
  tests (Call.set_max_creators caller n) e = admin_tests (Call.set_max_creators caller n) e
  tests (Call.set_max_tips_per_creator caller n) e =
      admin_tests (Call.set_max_tips_per_creator caller n) e
  tests (Call.set_min_tip_amount caller amount) e =
      admin_tests (Call.set_min_tip_amount caller amount) e
  tests (Call.register caller username display_name bio) e =
      let limit = get_max_creators e in
      let count = get_creator_count e in
      user_tests caller e (
        (too_long display_name bio, tip_error TipError.invalid_input)
        ∷ (is_creator caller e, tip_error TipError.creator_already_exists)
        ∷ (is_username_taken username e, tip_error TipError.username_taken)
        ∷ (ltb 0 limit && leb limit count, tip_error TipError.cap_exceeded)
        ∷ (not (fits_u32 (count + 1)), overflow)
        ∷ [])
  tests (Call.update_profile caller display_name bio) e = user_tests caller e (
      (too_long display_name bio, tip_error TipError.invalid_input)
      ∷ (not (is_creator caller e), tip_error TipError.creator_not_found)
      ∷ [])
  tests (Call.unregister caller) e = user_tests caller e (
      (not (is_creator caller e), tip_error TipError.creator_not_found)
      ∷ (owes_any caller e (get_all_tokens caller e), tip_error TipError.balance_not_empty)
      ∷ [])
  tests (Call.tip from creator token amount message) e =
      user_tests from e (tip_tests from creator token amount e)
  tests (Call.withdraw caller token amount) e =
      let contract = e.current_contract_address in
      user_tests caller e (
        (not (is_creator caller e), tip_error TipError.creator_not_found)
        ∷ (leb_ℤ amount (pos 0), tip_error TipError.invalid_amount)
        ∷ (ltb_ℤ (get_balance caller token e) amount, tip_error TipError.insufficient_balance)
        ∷ (not (is_some (h.transfer e.ledger token contract caller amount)), token_error)
        ∷ [])
