-- ===== src/Liveness/Common.antt =====
-- What the users' calls have in common: the shared checks of src/lib.rs on a contract that is open,
-- and the token contracts that pay.
use stellar_tip_contract.Base.{
  ℤ, pos, ◌+ℤ◌, ◌≤ℤ◌, ◌==◌, false, some, ◌≡◌, refl, not, Bool, true, ◌&&◌, is_some, arith,
}
use stellar_tip_contract.Host.{Host, TokenLaws, Address}
use stellar_tip_contract.Env.{
  Env, ok, fits_i128, check_initialized_and_not_paused, extend_instance_ttl,
}
use stellar_tip_contract.Env.Runs.{Runs, go_gets, go_panic_if}
use stellar_tip_contract.Contract.{get_admin, is_paused}
use stellar_tip_contract.Outcome.Common.{extended}

-- The documented behaviour of a SEP-41 token without conditions of its own: a transfer to another
-- holder succeeds if the amount is not negative, the sender's balance covers it and the recipient's
-- stays an i128. The sender is the contract itself, or the supporter who has authorized the tip.
pub record PaymentLaws (h : Host) (tokens : TokenLaws h) : Type 0 where
  pub pays :
      (l : h.Ledger) (token from to : Address) (amount : ℤ)
      → (from == to) ≡ false
      → pos 0 ≤ℤ amount
      → amount ≤ℤ tokens.token_balance l token from
      → fits_i128 (tokens.token_balance l token to +ℤ amount) ≡ true
      → (l' : h.Ledger) × (h.transfer l token from to amount ≡ some l')

module _ {h : Host} where
  -- The contract has an admin and is not paused.
  abbrev pub is_open : Env h → Bool
  is_open e = is_some (get_admin e) && not (is_paused e)

  pub check-Runs :
      (e : Env h) → is_open e ≡ true → Runs check_initialized_and_not_paused e (ok (tt, extended e))
  unfolding check_initialized_and_not_paused get_admin is_paused extend_instance_ttl
  check-Runs e p = go_gets _ _ (
      go_panic_if _ _ _ (ground (arith, p))
        (go_gets _ _ (go_panic_if _ _ _ (ground (arith, p)) (record { ends = refl }))))
