-- ===== src/Rebasing/Hosting.antt =====
-- `TipContract` among rebasing tokens: every token contract is a `RebasingToken` of
-- src/fixtures.rs.
use stellar_tip_contract.Base.{
  ℤ, pos, ltb_ℤ, leb_ℤ, ◌||◌, ◌≡◌, refl, true, Option, some, none, ⊤, update, arith,
}
use stellar_tip_contract.Host.{Host, Address}
use stellar_tip_contract.Types.{token_error}
use stellar_tip_contract.Env.{Env, panic, token_transfer}
use stellar_tip_contract.Env.Runs.{go_on, stop, go_auth, go_gets, go_panic_if}
use stellar_tip_contract.Contract.{withdraw, get_balance, is_creator}
use stellar_tip_contract.Liveness.Common.{is_open, check-Runs}
use stellar_tip_contract.Rebasing.State.{RebasingStorage, TokenEnv, TokenResult, returns, fails}
use stellar_tip_contract.Rebasing.Methods
use stellar_tip_contract.Rebasing.Outcome.{num_of, held, is_zero, shares_for, transfer_runs}

-- What remains of a token after a call: the host undoes a panicking one.
abbrev pub committed : TokenResult (⊤ × TokenEnv) → Option RebasingStorage
committed (returns (_, e)) = some e.storage
committed (fails _) = none

-- `TipContract` transfers from the account that has authorized the tip, and from itself as the
-- caller, so the token's `require_auth` succeeds.
unfoldable pub transfer_of : RebasingStorage → Address → Address → ℤ → Option RebasingStorage
transfer_of s from to amount =
    committed (Methods.transfer from to amount (record { authorized = λ a. true; storage = s }))

abbrev pub stored :
    (Address → RebasingStorage)
    → Address
    → Option RebasingStorage
    → Option (Address → RebasingStorage)
stored l token none = none
stored l token (some s) = some (update l token s)

-- The host `h` with rebasing tokens.
abbrev pub rebasing : Host → Host
rebasing h = record h {
  Ledger = Address → RebasingStorage;
  transfer = λ l token from to amount. stored l token (transfer_of (l token) from to amount);
}

refuses :
    (s : RebasingStorage) (from to : Address) (amount : ℤ)
    → (is_zero (num_of s) || ltb_ℤ (held s from) (shares_for s amount)) ≡ true
    → transfer_of s from to amount ≡ none
unfolding transfer_of
refuses s from to amount p =
    rw (transfer_runs from to amount (record { authorized = λ a. true; storage = s }))
      (ground (arith, p))

module _ (h : Host) where
  -- Where every token is a rebasing one, a creator's withdrawal that the contract's own tests let
  -- through panics in the token call if the token has been wiped out, or if the contract's shares of
  -- it are fewer than the amount is worth at the factor of the moment, however much the contract
  -- owes the creator.
  pub withdraw_panics :
      (caller token : Address) (amount : ℤ) (e : Env (rebasing h))
      → e.authorized caller ≡ true
      → is_open e ≡ true
      → is_creator caller e ≡ true
      → ltb_ℤ (pos 0) amount ≡ true
      → leb_ℤ amount (get_balance caller token e) ≡ true
      → (is_zero (num_of (e.ledger token))
          || ltb_ℤ
              (held (e.ledger token) e.current_contract_address)
              (shares_for (e.ledger token) amount))
        ≡ true
      → withdraw caller token amount e ≡ panic token_error
  unfolding withdraw get_balance is_creator token_transfer
  withdraw_panics caller token amount e a open₁ creator positive covered short =
      (go_auth _ _ a (
        go_on _ _ (check-Runs e open₁) (
          go_gets _ _ (
            go_panic_if _ _ _ (ground (arith, creator)) (
              go_panic_if _ _ _ (ground (arith, positive)) (
                go_gets _ _ (
                  go_panic_if _ _ _ (ground (arith, covered)) (
                    go_gets _ _ (
                      stop _ _ (record {
                        ends =
                            rw
                              (
                                refuses (e.ledger token) e.current_contract_address caller amount
                                    short,
                                token_transfer,
                              )
                              refl;
                      })))))))))).ends
