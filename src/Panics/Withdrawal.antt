-- ===== src/Panics/Withdrawal.antt =====
-- The panics of `withdraw`.
use stellar_tip_contract.Base.{ℤ, pos, ◌-ℤ◌, unwrap_or}
use stellar_tip_contract.Host.{Host, MapLaws, Address}
use stellar_tip_contract.Env.{Env}
use stellar_tip_contract.Env.Runs.{ends_checked, ends_publish}
use stellar_tip_contract.Env.Decides.{
  Decided, first_panic, decides, decide_on, decide_gets, decide_if, decide_transfer,
}
use stellar_tip_contract.Contract.{Call, withdraw, get_balance, is_creator}
use stellar_tip_contract.Outcome.Common.{extended}
use stellar_tip_contract.System.Tokens.{TokensValid, left_fits}
use stellar_tip_contract.Liveness.Withdrawal.{is_tracked, store-Runs}
use stellar_tip_contract.Panics.Listed.{tests}
use stellar_tip_contract.Panics.Common.{user-Decided}

module _ {h : Host} (maps : MapLaws h) where
  pub withdraw-Decided :
      (caller token : Address) (amount : ℤ) (e : Env h)
      → TokensValid maps e
      → Decided
          (withdraw caller token amount)
          e
          (first_panic (tests (Call.withdraw caller token amount) e))
  unfolding withdraw get_balance is_creator
  withdraw-Decided caller token amount e v =
      let balance = unwrap_or (e.pers.balance caller token) (pos 0) in
      user-Decided caller _ e _ λ _. decide_gets _ _ _ (
        decide_if _ _ _ _ λ _. decide_if _ _ _ _ λ positive. decide_gets _ _ _ (
          decide_if _ _ _ _ λ covered.
            let set = is_tracked maps caller token amount e v positive covered in
            decide_gets _ _ _ (
              decide_transfer _ _ _ _ _ _ λ l moves.
                decide_on _ _ _
                  (ends_checked _ _
                    (left_fits balance amount (v.in_range caller token) positive covered))
                  (decide_on _ _ _
                    (store-Runs caller token (balance -ℤ amount)
                      (record (extended e) { ledger = l }) set).1
                    (decides (ends_publish _ _ _))))))
