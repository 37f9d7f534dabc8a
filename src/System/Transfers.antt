-- ===== src/System/Transfers.antt =====
-- What the token transfers of a tip and of a withdrawal do to the contract's own balances.
use stellar_tip_contract.Base.{
  ℤ, pos, ◌+ℤ◌, ◌-ℤ◌, ◌≤ℤ◌, int_laws, ◌==◌, arith, inl, inr, ◌≡◌, ◌∙◌, false, Option, some,
  if◌then◌else◌,
}
use stellar_tip_contract.Host.{Host, TokenLaws, Address}
use stellar_tip_contract.Outcome.Tipping.{FeePaid}

module _ {h : Host} (laws : TokenLaws h) where
  open laws use {token_balance, balance-transfer}

  -- A transfer to the contract from another holder adds the amount.
  pub received :
      (l l' : h.Ledger) (token from contract : Address) (amount : ℤ)
      → h.transfer l token from contract amount ≡ some l'
      → (from == contract) ≡ false
      → (u : Address)
      → token_balance l' u contract
        ≡ (if u == token then token_balance l u contract +ℤ amount else token_balance l u contract)
  received l l' token from contract amount p other u =
      balance-transfer l l' token from contract amount other p u contract ∙ grind int_laws

  -- A transfer from the contract to another holder takes it away.
  pub sent :
      (l l' : h.Ledger) (token contract to : Address) (amount : ℤ)
      → h.transfer l token contract to amount ≡ some l'
      → (to == contract) ≡ false
      → (u : Address)
      → token_balance l' u contract
        ≡ (if u == token then token_balance l u contract -ℤ amount else token_balance l u contract)
  sent l l' token contract to amount p other u =
      balance-transfer l l' token contract to amount (ground (arith, other)) p u contract
      ∙ grind int_laws

  -- The two transfers of a tip leave the amount without the fee.
  pub tip_received :
      (l l₁ l₂ : h.Ledger) (token from contract : Address) (amount fee : ℤ)
      (recipient : Option Address)
      → h.transfer l token from contract amount ≡ some l₁
      → FeePaid h token contract recipient fee l₁ l₂
      → (from == contract) ≡ false
      → ((r : Address) → recipient ≡ some r → (r == contract) ≡ false)
      → pos 0 ≤ℤ fee
      → (u : Address)
      → token_balance l₂ u contract ≡ (
          if u == token
          then token_balance l u contract +ℤ (amount -ℤ fee)
          else token_balance l u contract)
  tip_received l l₁ l₂ token from contract amount fee recipient p (inl (free, same)) other not_self
        nonneg u =
      rw same (received l l₁ token from contract amount p other u ∙ grind int_laws)
  tip_received l l₁ l₂ token from contract amount fee recipient p (inr (r, _, set, q)) other
        not_self nonneg u =
      sent l₁ l₂ token contract r fee q (not_self r set) u
      ∙ grind (int_laws, received l l₁ token from contract amount p other u)
