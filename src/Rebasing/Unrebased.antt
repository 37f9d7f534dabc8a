-- ===== src/Rebasing/Unrebased.antt =====
-- A `RebasingToken` that has not been rebased keeps the laws that `TipContract` relies on.
use stellar_tip_contract.Base.{
  ℤ, pos, ◌*ℤ◌, ◌/ℤ◌, int_laws, ◌==◌, ◌≡◌, refl, sym, ◌∙◌, true, false, Option, some, none, of_some,
  ⊤, update, unwrap_or, if◌then◌else◌, arith,
}
use stellar_tip_contract.Host.{Host, TokenLaws, Address, moved}
use stellar_tip_contract.Rebasing.State.{RebasingStorage, TokenEnv, TokenResult, returns, fails}
use stellar_tip_contract.Rebasing.Methods.{transfer}
use stellar_tip_contract.Rebasing.Outcome.{shares_for, after_transfer, transfer_lem}
use stellar_tip_contract.Rebasing.Hosting.{committed, transfer_of}

abbrev pub Shares : Type 0
Shares = Address → Option ℤ

-- A token that has only been minted and transferred: no factor is stored.
abbrev pub unrebased_token : Shares → RebasingStorage
unrebased_token shares = record { shares = shares; num = none; den = none }

abbrev pub stored_shares :
    (Address → Shares) → Address → Option RebasingStorage → Option (Address → Shares)
stored_shares l token none = none
stored_shares l token (some s) = some (update l token s.shares)

abbrev pub unrebased : Host → Host
unrebased h = record h {
  Ledger = Address → Shares;
  transfer = λ l token from to amount.
      stored_shares l token (transfer_of (unrebased_token (l token)) from to amount);
}

shares_for_one :
    (shares : Shares) (amount : ℤ) → shares_for (unrebased_token shares) amount ≡ amount
unfolding shares_for ◌*ℤ◌ ◌/ℤ◌
shares_for_one shares amount = ground arith

committed_lem :
    (r : TokenResult (⊤ × TokenEnv)) (s : RebasingStorage)
    → committed r ≡ some s
    → (e : TokenEnv) × (r ≡ returns (tt, e)) × (e.storage ≡ s)
committed_lem (returns (_, e)) s p = (e, refl, of_some p)
committed_lem (fails f) s p = cc p

-- A transfer that succeeds leaves the shares moved by the amount itself.
transferred :
    (shares : Shares) (from to : Address) (amount : ℤ) (s : RebasingStorage)
    → transfer_of (unrebased_token shares) from to amount ≡ some s
    → s ≡ after_transfer from to amount (unrebased_token shares)
unfolding transfer_of
transferred shares from to amount s p =
    let start : TokenEnv = record { authorized = λ a. true; storage = unrebased_token shares } in
    let (e, done, same) = committed_lem (transfer from to amount start) s p in
    let o = transfer_lem from to amount start e done in
    sym same ∙ rw (o.result, shares_for_one shares amount) refl

stored_lem :
    (l l' : Address → Shares) (token : Address) (o : Option RebasingStorage)
    → stored_shares l token o ≡ some l'
    → (s : RebasingStorage) × (o ≡ some s) × (update l token s.shares ≡ l')
stored_lem l l' token none p = cc p
stored_lem l l' token (some s) p = (s, refl, of_some p)

balance-transfer :
    (l l' : Address → Shares) (token from to : Address) (amount : ℤ)
    → (from == to) ≡ false
    → stored_shares l token (transfer_of (unrebased_token (l token)) from to amount) ≡ some l'
    → (u holder : Address)
    → unwrap_or (l' u holder) (pos 0) ≡ (
        if u == token
        then moved (unwrap_or (l token holder) (pos 0)) from to amount holder
        else unwrap_or (l u holder) (pos 0))
balance-transfer l l' token from to amount other p u holder =
    let (s, done, same) =
      stored_lem l l' token (transfer_of (unrebased_token (l token)) from to amount) p in
    rw (← same, transferred (l token) from to amount s done) (grind int_laws)

pub unrebased_laws : (h : Host) → TokenLaws (unrebased h)
unrebased_laws h = record {
  token_balance = λ l token a. unwrap_or (l token a) (pos 0);
  balance-transfer = balance-transfer;
}
