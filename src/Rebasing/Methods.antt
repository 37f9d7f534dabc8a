-- ===== src/Rebasing/Methods.antt =====
-- The methods of `RebasingToken`, and the helper functions below them.
use stellar_tip_contract.Base.{
  ℕ, ℤ, pos, ◌+ℤ◌, ◌-ℤ◌, ◌*ℤ◌, ◌/ℤ◌, ltb_ℤ, leb_ℤ, ◌&&◌, ◌||◌, some, ⊤, String, unwrap_or, update,
}
use stellar_tip_contract.Host.{Address}
use stellar_tip_contract.Rebasing.State.{
  RebasingTokenError, TokenAction, pure, reads, writes, panic_with_error, panic_if, require_auth,
  checked, ◌>>=◌, ◌>>◌,
}

-- Current `(num, den)`.
unfoldable pub factor : TokenAction (ℤ × ℤ)
factor = do
  num ← reads (λ s. unwrap_or s.num (pos 1))
  den ← reads (λ s. unwrap_or s.den (pos 1))
  pure (num, den)

unfoldable pub shares_of : Address → TokenAction ℤ
shares_of id = reads (λ s. unwrap_or (s.shares id) (pos 0))

unfoldable pub nominal_to_shares : ℤ → TokenAction ℤ
nominal_to_shares amount = do
  f ← factor
  panic_if (leb_ℤ f.0 (pos 0) && leb_ℤ (pos 0) f.0) RebasingTokenError.invalid_rebase_factor
  product ← checked (amount *ℤ f.1)
  checked (product /ℤ f.0)

unfoldable pub mint : Address → ℤ → TokenAction ⊤
mint to amount = do
  shares ← nominal_to_shares amount
  current ← shares_of to
  total ← checked (current +ℤ shares)
  writes (λ s. record s { shares = update s.shares to (some total) })

unfoldable pub rebase : ℤ → ℤ → TokenAction ⊤
rebase num den = do
  panic_if (ltb_ℤ num (pos 0) || leb_ℤ den (pos 0)) RebasingTokenError.invalid_rebase_factor
  writes (λ s. record s { num = some num })
  writes (λ s. record s { den = some den })

unfoldable pub balance : Address → TokenAction ℤ
balance id = do
  f ← factor
  shares ← shares_of id
  product ← checked (shares *ℤ f.0)
  checked (product /ℤ f.1)

unfoldable pub transfer : Address → Address → ℤ → TokenAction ⊤
transfer from to amount = do
  require_auth from
  shares ← nominal_to_shares amount
  from_shares ← shares_of from
  panic_if (ltb_ℤ from_shares shares) RebasingTokenError.insufficient_balance
  to_shares ← shares_of to
  from_left ← checked (from_shares -ℤ shares)
  writes (λ s. record s { shares = update s.shares from (some from_left) })
  to_total ← checked (to_shares +ℤ shares)
  writes (λ s. record s { shares = update s.shares to (some to_total) })

unfoldable pub decimals : TokenAction ℕ
decimals = pure 7

unfoldable pub name : TokenAction String
name = pure "Rebasing"

unfoldable pub symbol : TokenAction String
symbol = pure "REBASE"

unfoldable pub allowance : Address → Address → TokenAction ℤ
allowance from spender = panic_with_error RebasingTokenError.not_supported

unfoldable pub approve : Address → Address → ℤ → ℕ → TokenAction ⊤
approve from spender amount expiration = panic_with_error RebasingTokenError.not_supported

unfoldable pub transfer_from : Address → Address → Address → ℤ → TokenAction ⊤
transfer_from spender from to amount = panic_with_error RebasingTokenError.not_supported

unfoldable pub burn : Address → ℤ → TokenAction ⊤
burn from amount = panic_with_error RebasingTokenError.not_supported

unfoldable pub burn_from : Address → Address → ℤ → TokenAction ⊤
burn_from spender from amount = panic_with_error RebasingTokenError.not_supported
