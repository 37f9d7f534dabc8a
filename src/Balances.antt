-- ===== src/Balances.antt =====
-- How the creators' balances move (every function of src/lib.rs that changes state).
use stellar_tip_contract.Base.{
  ℤ, pos, ◌+ℤ◌, ◌-ℤ◌, int_laws, ◌==◌, ◌&&◌, ◌≡◌, unwrap_or, if◌then◌else◌,
}
use stellar_tip_contract.Host.{Host, MapLaws, TokenLaws, Address}
use stellar_tip_contract.Env.{Env, ok}
use stellar_tip_contract.Contract.{Call, execute, get_balance, get_fee_percentage}
use stellar_tip_contract.Outcome.Calls.{Done, executed}
use stellar_tip_contract.Outcome.Tipping.{fee_amount}
use stellar_tip_contract.System.Solvency.{stored_value, left_nonneg}
use stellar_tip_contract.System.Reach.{Reach}

module _ {h : Host} where
  -- What a call adds to a balance: a tip adds the amount less the fee, a withdrawal takes the amount
  -- away, and no other call moves a balance.
  unfoldable pub balance_change : Call → Env h → Address → Address → ℤ
  balance_change (Call.tip _ creator token amount _) e c t =
      if c == creator && t == token
      then amount -ℤ fee_amount amount (get_fee_percentage e)
      else pos 0
  balance_change (Call.withdraw caller token amount) e c t =
      if c == caller && t == token then pos 0 -ℤ amount else pos 0
  balance_change _ e c t = pos 0

module _ {h : Host} (maps : MapLaws h) (tokens : TokenLaws h) where
  -- When any call returns in a reachable state, every balance is the old one and what the call adds
  -- to it: a tip adds the amount less the fee to the creator's balance in the token, a withdrawal
  -- takes the amount from the caller's, and nothing else moves a balance.
  pub balances_move :
      (call : Call) (e e' : Env h)
      → Reach tokens e
      → execute call e ≡ ok (tt, e')
      → (c t : Address) → get_balance c t e' ≡ get_balance c t e +ℤ balance_change call e c t
  unfolding get_balance balance_change get_fee_percentage
  balances_move call e e' r p c t = by call (executed call e e' p)
    where
      by :
          (call : Call)
          → Done call e e'
          → get_balance c t e' ≡ get_balance c t e +ℤ balance_change call e c t
      by (Call.init _ _ _ _ _ _) o = rw o.result (grind int_laws)
      by (Call.set_admin _ _) o = rw o.1.result (grind int_laws)
      by (Call.pause _) o = rw o.result (grind int_laws)
      by (Call.unpause _) o = rw o.result (grind int_laws)
      by (Call.set_fee_percentage _ _) o = rw o.1.result (grind int_laws)
      by (Call.set_fee_recipient _ _) o = rw o.1.result (grind int_laws)
      by (Call.set_max_creators _ _) o = rw o.result (grind int_laws)
      by (Call.set_max_tips_per_creator _ _) o = rw o.result (grind int_laws)
      by (Call.set_min_tip_amount _ _) o = rw o.1.result (grind int_laws)
      by (Call.register _ _ _ _) o = rw o.result (grind int_laws)
      by (Call.update_profile _ _ _) o = rw o.result (grind int_laws)
      by (Call.unregister _) o = rw o.result (grind int_laws)
      by (Call.tip _ creator token amount _) o = rw (o.1.result, o.1.fee_is) (grind int_laws)
      by (Call.withdraw caller token amount) o =
          let kept =
            stored_value _
              (left_nonneg (unwrap_or (e.pers.balance caller token) (pos 0)) amount o.covered) in
          rw o.result (grind (int_laws, kept))
