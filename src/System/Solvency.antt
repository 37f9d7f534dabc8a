-- ===== src/System/Solvency.antt =====
-- The contract holds, of every token, at least what it owes to the creators together.
use stellar_tip_contract.Base.{
  sym, subst, ◌&&◌, ℤ, pos, ◌+ℤ◌, ◌-ℤ◌, ◌≤ℤ◌, int_laws, ltb_ℤ, ◌==◌, ==_iff, Bool-cases, inl, inr,
  ◌≡◌, refl, false, true, Option, none, some, List, [], ◌∷◌, mem, IsDistinct, unwrap_or, update₂,
  if◌then◌else◌, arith,
}
use stellar_tip_contract.Host.{Host, TokenLaws, Address}
use stellar_tip_contract.Env.{Env}
use stellar_tip_contract.Fees.{fee_bounds}
use stellar_tip_contract.System.Kind.{
  Kind, a_setting, an_init, a_registration, an_update, an_unregistration, a_tip, a_withdrawal,
}
use stellar_tip_contract.System.Config.{ConfigValid}
use stellar_tip_contract.System.Transfers.{tip_received, sent}

-- What is owed to the listed creators in one token.
abbrev pub total : List Address → Address → (Address → Address → Option ℤ) → ℤ
total [] token balance = pos 0
total (c ∷ cs) token balance = unwrap_or (balance c token) (pos 0) +ℤ total cs token balance

pub total-update_absent :
    (cs : List Address) (u c t : Address) (balance : Address → Address → Option ℤ) (o : Option ℤ)
    → (mem c cs && u == t) ≡ false
    → total cs u (update₂ balance c t o) ≡ total cs u balance
total-update_absent [] u c t balance o p = refl
total-update_absent (x ∷ cs) u c t balance o p =
    ground (arith, total-update_absent cs u c t balance o)

-- A write of one balance changes the total by the difference.
pub total-update :
    (cs : List Address) (c t : Address) (balance : Address → Address → Option ℤ) (o : Option ℤ)
    → IsDistinct cs
    → mem c cs ≡ true
    → total cs t (update₂ balance c t o)
      ≡ total cs t balance -ℤ unwrap_or (balance c t) (pos 0) +ℤ unwrap_or o (pos 0)
total-update [] c t balance o d m = cc
total-update (x ∷ cs) c t balance o d m = elim (Bool-cases (c == x)) [
  | inl same ↦ rw (← (==_iff c x).0 same) (
      grind (
        int_laws,
        total-update_absent cs t c t balance o (ground (arith, d.0, (==_iff c x).0 same)),
      ))
  | inr other ↦ grind (int_laws, total-update cs c t balance o d.1)
]

at_self : (a : Address) (x y z : ℤ) → x ≡ (if a == a then y else z) → x ≡ y
at_self a x y z p = ground (arith, p)

covered-le : (balance amount : ℤ) → ltb_ℤ balance amount ≡ false → amount ≤ℤ balance
covered-le balance amount p = ground arith

pub left_nonneg : (balance amount : ℤ) → ltb_ℤ balance amount ≡ false → pos 0 ≤ℤ balance -ℤ amount
left_nonneg balance amount p = omega (int_laws, covered-le balance amount p)

-- A remaining balance of 0 is stored as no entry.
pub stored_value :
    (r : ℤ) → pos 0 ≤ℤ r → unwrap_or (if ltb_ℤ (pos 0) r then some r else none) (pos 0) ≡ r
stored_value r p = ground arith

-- An address that has authorized the call is not the contract, which has not.
pub outsider :
    {h : Host} (e : Env h) (a : Address)
    → e.authorized e.current_contract_address ≡ false
    → e.authorized a ≡ true
    → (a == e.current_contract_address) ≡ false
outsider e a self p = ground (arith, self, p)

module _ {h : Host} (laws : TokenLaws h) where
  open laws use {token_balance}

  abbrev pub IsSolvent : (Address → Address → Option ℤ) → h.Ledger → Address → Type 0
  IsSolvent balance ledger contract =
      (token : Address) (creators : List Address)
      → IsDistinct creators
      → total creators token balance ≤ℤ token_balance ledger token contract

  abbrev pub SolvencyValid : Env h → Type 0
  SolvencyValid e = IsSolvent e.pers.balance e.ledger e.current_contract_address

  -- A credit of no more than what the contract received.
  credit-IsSolvent :
      (c t : Address) (x : ℤ) (balance : Address → Address → Option ℤ) (l l' : h.Ledger)
      (contract : Address)
      → pos 0 ≤ℤ x
      → ((u : Address)
          → token_balance l' u contract
            ≡ (if u == t then token_balance l u contract +ℤ x else token_balance l u contract))
      → IsSolvent balance l contract
      → IsSolvent (update₂ balance c t (some (unwrap_or (balance c t) (pos 0) +ℤ x))) l' contract
  credit-IsSolvent c t x balance l l' contract nonneg gain v u cs d =
      let o = some (unwrap_or (balance c t) (pos 0) +ℤ x) in
      elim (Bool-cases (u == t)) [
        | inr other ↦
            rw (total-update_absent cs u c t balance o (ground (arith, other)), gain u, other)
              (v u cs d)
        | inl same ↦ rw ((==_iff u t).0 same) (elim (Bool-cases (mem c cs)) [
          | inl listed ↦
              rw
                (
                  total-update cs c t balance o d listed,
                  at_self t _ (token_balance l t contract +ℤ x) (token_balance l t contract)
                      (gain t),
                )
                (omega (int_laws, v t cs d))
          | inr absent ↦
              rw
                (
                  total-update_absent cs t c t balance o (ground (arith, absent)),
                  at_self t _ (token_balance l t contract +ℤ x) (token_balance l t contract)
                      (gain t),
                )
                (omega (int_laws, v t cs d))
        ])
      ]

  -- A debit of a covered amount that the contract has sent.
  debit-IsSolvent :
      (c t : Address) (x : ℤ) (balance : Address → Address → Option ℤ) (o : Option ℤ)
      (l l' : h.Ledger) (contract : Address)
      → x ≤ℤ unwrap_or (balance c t) (pos 0)
      → unwrap_or o (pos 0) ≡ unwrap_or (balance c t) (pos 0) -ℤ x
      → ((u : Address)
          → token_balance l' u contract
            ≡ (if u == t then token_balance l u contract -ℤ x else token_balance l u contract))
      → IsSolvent balance l contract
      → IsSolvent (update₂ balance c t o) l' contract
  debit-IsSolvent c t x balance o l l' contract covered left loss v u cs d =
      elim (Bool-cases (u == t)) [
        | inr other ↦
            rw (total-update_absent cs u c t balance o (ground (arith, other)), loss u, other)
              (v u cs d)
        | inl same ↦ rw ((==_iff u t).0 same) (elim (Bool-cases (mem c cs)) [
          | inl listed ↦
              rw
                (
                  total-update cs c t balance o d listed,
                  at_self t _ (token_balance l t contract -ℤ x) (token_balance l t contract)
                      (loss t),
                  left,
                )
                (omega (int_laws, v t cs d))
          | inr absent ↦
              rw
                (
                  total-update_absent cs t c t balance o (ground (arith, absent)),
                  at_self t _ (token_balance l t contract -ℤ x) (token_balance l t contract)
                      (loss t),
                )
                (omega (int_laws, v t (c ∷ cs) (absent, d)))
        ])
      ]

  -- Every call that returns keeps the contract solvent.
  pub Kind-SolvencyValid :
      (e e' : Env h)
      → e.authorized e.current_contract_address ≡ false
      → ConfigValid e
      → Kind e e'
      → SolvencyValid e
      → SolvencyValid e'
  Kind-SolvencyValid e e' _ _ (a_setting _ _ _ _ _ _ _ _ _ _ _ o) v = rw o.result v
  Kind-SolvencyValid e e' _ _ (an_init _ _ _ _ _ _ o) v = rw o.result v
  Kind-SolvencyValid e e' _ _ (a_registration _ _ _ _ o) v = rw o.result v
  Kind-SolvencyValid e e' _ _ (an_update _ _ _ o) v = rw o.result v
  Kind-SolvencyValid e e' _ _ (an_unregistration _ o) v = rw o.result v
  Kind-SolvencyValid e e' self config (a_tip from creator token amount message index o) v =
      let bounds =
        subst (λ f. (pos 0 ≤ℤ f) × (f ≤ℤ amount)) (sym o.fee_is)
          (fee_bounds amount (unwrap_or e.inst.fee_bps 0) o.positive config.fee_range) in
      rw o.result (
        credit-IsSolvent creator token (amount -ℤ o.fee) e.pers.balance e.ledger o.paid_out
          e.current_contract_address (omega (int_laws, bounds))
          (tip_received laws e.ledger o.paid_in o.paid_out token from e.current_contract_address
            amount o.fee e.inst.fee_recipient o.payment o.fee_payment
            (outsider e from self o.authorized) config.not_self bounds.0)
          v)
  Kind-SolvencyValid e e' self _ (a_withdrawal caller token amount o) v = rw o.result (
      debit-IsSolvent caller token amount e.pers.balance _ e.ledger o.paid_out
        e.current_contract_address (covered-le _ amount o.covered)
        (stored_value _ (left_nonneg _ amount o.covered))
        (sent laws e.ledger o.paid_out token e.current_contract_address caller amount o.payment
          (outsider e caller self o.authorized))
        v)
