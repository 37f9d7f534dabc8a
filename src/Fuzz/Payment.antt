-- ===== src/Fuzz/Payment.antt =====
-- The token transfers of the tests' tip.
use stellar_tip_contract.Base.{
  ℕ, ℤ, ◌≤◌, ◌+◌, Bool-cases, pos, ◌+ℤ◌, ◌-ℤ◌, ltb_ℤ, ◌==◌, ◌≡◌, refl, ◌∙◌, Bool, true, false,
  of_some, some, inl, inr, if◌then◌else◌, arith, int_laws,
}
use stellar_tip_contract.Host.{Host, Address, moved}
use stellar_tip_contract.Outcome.Tipping.{FeePaid}
use stellar_tip_contract.Fuzz.Environment.{TestUtils}
use stellar_tip_contract.Fuzz.Laws.{TestLaws, itself}
use stellar_tip_contract.Fuzz.Amounts.{pos_add, small_fits, added}

no_fee :
    (x : ℤ) (f : ℕ) (b c : Bool)
    → ltb_ℤ (pos 0) (pos f) ≡ false
    → x ≡ x -ℤ (if b then pos f else pos 0) +ℤ (if c then pos f else pos 0)
no_fee x f true true p = let zero : f ≡ 0 = ground (arith, p) in rw zero (omega int_laws)
no_fee x f true false p = let zero : f ≡ 0 = ground (arith, p) in rw zero (omega int_laws)
no_fee x f false true p = let zero : f ≡ 0 = ground (arith, p) in rw zero (omega int_laws)
no_fee x f false false p = omega int_laws

module _ {h : Host} (sdk : TestUtils h) (laws : TestLaws h sdk) where
  -- The balances in the token after the two transfers.
  pub paid_balance :
      (l l₁ l₂ : h.Ledger) (token from contract recipient : Address) (n f : ℕ)
      → (from == contract) ≡ false
      → (contract == recipient) ≡ false
      → h.transfer l token from contract (pos n) ≡ some l₁
      → FeePaid h token contract (some recipient) (pos f) l₁ l₂
      → (a : Address)
      → sdk.balance l₂ token a
        ≡ moved (moved (sdk.balance l token a) from contract (pos n) a) contract recipient (pos f) a
  paid_balance l l₁ l₂ token from contract recipient n f p q paid fee a =
      let same : (token == token) ≡ true = ground arith in
      let first : sdk.balance l₁ token a ≡ moved (sdk.balance l token a) from contract (pos n) a =
        laws.balance-transfer l l₁ token from contract (pos n) p paid token a ∙ rw same refl in
      elim fee [
        | inl (none_paid, unchanged) ↦
            rw (unchanged, first) (no_fee _ f (a == contract) (a == recipient) none_paid)
        | inr (r, some_paid, is_recipient, sent) ↦
            laws.balance-transfer l₁ l₂ token contract recipient (pos f) q
              (rw (← of_some is_recipient) at sent) token a
            ∙ rw (same, first) refl
      ]

  -- The token contract makes the two transfers of a tip.
  pub pays :
      (l : h.Ledger) (token from contract recipient : Address) (rest held fees n f : ℕ)
      → (from == contract) ≡ false
      → (contract == from) ≡ false
      → (recipient == from) ≡ false
      → (recipient == contract) ≡ false
      → (contract == recipient) ≡ false
      → sdk.balance l token from ≡ pos rest
      → sdk.balance l token contract ≡ pos held
      → sdk.balance l token recipient ≡ pos fees
      → n ≤ rest
      → f ≤ n
      → held + n ≤ 1_000_000_000_000_000
      → fees + n ≤ 1_000_000_000_000_000
      → (l₁ : h.Ledger) × (h.transfer l token from contract (pos n) ≡ some l₁)
        × (l₂ : h.Ledger) × ((if ltb_ℤ (pos 0) (pos f)
              then h.transfer l₁ token contract recipient (pos f)
              else some l₁)
            ≡ some l₂)
  pays l token from contract recipient rest held fees n f p p' q r r' from_has contract_has
        recipient_has covered below room₁ room₂ =
      let first =
        laws.moves l token from contract n p (rw from_has (ground (arith, covered)))
          (rw (contract_has, pos_add held n) (small_fits (held + n) room₁)) in
      let l₁ = first.0 in
      let at = laws.balance-transfer l l₁ token from contract (pos n) p first.1 token in
      let contract₁ : sdk.balance l₁ token contract ≡ pos (held + n) =
        at contract ∙ rw (itself token, itself contract, p', contract_has) (added held n) in
      let recipient₁ : sdk.balance l₁ token recipient ≡ pos fees =
        at recipient ∙ rw (itself token, q, r, recipient_has) (omega int_laws) in
      let second =
        laws.moves l₁ token contract recipient f r' (rw contract₁ (ground (arith, below)))
          (rw (recipient₁, pos_add fees f) (small_fits (fees + f) (omega (arith, below, room₂)))) in
      elim (Bool-cases (ltb_ℤ (pos 0) (pos f))) [
        | inl some_fee ↦ (l₁, first.1, second.0, rw some_fee second.1)
        | inr none_due ↦ (l₁, first.1, l₁, rw none_due refl)
      ]
