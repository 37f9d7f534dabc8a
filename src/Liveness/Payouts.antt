-- ===== src/Liveness/Payouts.antt =====
-- Withdrawals by several creators, one after another (`withdraw` of src/lib.rs).
use stellar_tip_contract.Base.{
  if◌then◌else◌, Bool-cases, ==_iff, inl, inr, ℤ, pos, ◌+ℤ◌, ◌-ℤ◌, ◌≤ℤ◌, ltb_ℤ, leb_ℤ, ◌==◌, ◌≡◌,
  refl, ◌∙◌, true, false, List, [], ◌∷◌, mem, IsDistinct, ⊤, unwrap_or, arith, int_laws,
}
use stellar_tip_contract.Host.{Host, MapLaws, TokenLaws, Address}
use stellar_tip_contract.Env.{Env, Action, ok, pure, fits_i128, ◌>>=◌}
use stellar_tip_contract.Env.Runs.{go_on}
use stellar_tip_contract.Env.Ensures.{returned}
use stellar_tip_contract.Contract.{
  Call, execute, withdraw, get_balance, is_creator, get_admin, is_paused,
}
use stellar_tip_contract.Outcome.Withdrawal.{withdraw_lem}
use stellar_tip_contract.Liveness.Common.{is_open, PaymentLaws}
use stellar_tip_contract.Liveness.Withdrawal.{withdraw_returns}
use stellar_tip_contract.System.Solvency.{outsider}
use stellar_tip_contract.System.Reach.{Reach, next, call}
use stellar_tip_contract.System.Invariant.{Reach-IsValid}

untouched :
    (u token : Address) (balance : Address → ℤ)
    → (if u == token then balance token -ℤ pos 0 +ℤ pos 0 else balance u) ≡ balance u
untouched u token balance = elim (Bool-cases (u == token)) [
  | inl same ↦ rw (same, (==_iff u token).0 same) (omega int_laws)
  | inr other ↦ rw other refl
]

-- The arguments of one withdrawal.
pub record Payout : Type 0 where
  pub caller : Address
  pub token : Address
  pub amount : ℤ

abbrev pub callers : List Payout → List Address
callers [] = []
callers (p ∷ ps) = p.caller ∷ callers ps

module _ {h : Host} where
  -- The withdrawals in order, each in the state that the one before it left.
  unfoldable pub withdraw_all : List Payout → Action h ⊤
  withdraw_all [] = pure tt
  withdraw_all (p ∷ ps) = withdraw p.caller p.token p.amount >>= λ _. withdraw_all ps

module _ {h : Host} (tokens : TokenLaws h) where
  open tokens use {token_balance}

  -- An authorized withdrawal of a positive amount by a creator whose balance covers it, and who can
  -- receive it.
  pub record IsDue (e : Env h) (p : Payout) : Type 0 where
    pub authorized : e.authorized p.caller ≡ true
    pub creator : is_creator p.caller e ≡ true
    pub positive : ltb_ℤ (pos 0) p.amount ≡ true
    pub covered : leb_ℤ p.amount (get_balance p.caller p.token e) ≡ true
    pub room : fits_i128 (token_balance e.ledger p.token p.caller +ℤ p.amount) ≡ true

  abbrev pub AreDue : Env h → List Payout → Type 0
  AreDue e [] = ⊤
  AreDue e (p ∷ ps) = IsDue e p × AreDue e ps

module _ {h : Host} (maps : MapLaws h) (tokens : TokenLaws h)
    (payments : PaymentLaws h tokens) where
  open tokens use {token_balance}

  -- What is due returns: the contract holds enough, since it is solvent.
  one_succeeds :
      (e : Env h) (p : Payout)
      → Reach tokens e
      → is_open e ≡ true
      → IsDue tokens e p
      → (e' : Env h) × (withdraw p.caller p.token p.amount e ≡ ok (tt, e'))
  unfolding get_balance
  one_succeeds e p r opened d =
      let v = Reach-IsValid maps tokens r in
      let contract = e.current_contract_address in
      let other = outsider e p.caller v.self d.authorized in
      let held = v.solvency p.token (p.caller ∷ []) (refl, tt) in
      let owed : p.amount ≤ℤ unwrap_or (e.pers.balance p.caller p.token) (pos 0) =
        ground (arith, d.covered) in
      let (l, paid) =
        payments.pays e.ledger p.token contract p.caller p.amount (ground (arith, other))
          (ground (arith, d.positive)) (omega (int_laws, held, owed)) d.room in
      withdraw_returns maps tokens p.caller p.token p.amount e l r d.authorized opened d.creator
        d.positive d.covered paid

  -- A withdrawal by another creator leaves the contract open and takes away nothing that is due.
  still-is_open :
      (p : Payout) (e e' : Env h)
      → withdraw p.caller p.token p.amount e ≡ ok (tt, e')
      → is_open e ≡ true
      → is_open e' ≡ true
  unfolding get_admin is_paused
  still-is_open p e e' ran opened =
      let o = returned _ (withdraw_lem p.caller p.token p.amount e) tt e' ran in rw o.result opened

  still-IsDue :
      (p q : Payout) (e e' : Env h)
      → Reach tokens e
      → withdraw p.caller p.token p.amount e ≡ ok (tt, e')
      → (q.caller == p.caller) ≡ false
      → IsDue tokens e q
      → IsDue tokens e' q
  unfolding get_balance is_creator
  still-IsDue p q e e' r ran apart d =
      let v = Reach-IsValid maps tokens r in
      let o = returned _ (withdraw_lem p.caller p.token p.amount e) tt e' ran in
      let not_contract = outsider e p.caller v.self o.authorized in
      let outside = outsider e q.caller v.self d.authorized in
      let same : token_balance o.paid_out q.token q.caller
          ≡ token_balance e.ledger q.token q.caller =
        tokens.balance-transfer e.ledger o.paid_out p.token e.current_contract_address p.caller
          p.amount (ground (arith, not_contract)) o.payment q.token q.caller
        ∙ rw (apart, outside)
            (untouched q.token p.token (λ t. token_balance e.ledger t q.caller)) in
      rw o.result (record {
        authorized = d.authorized;
        creator = d.creator;
        positive = d.positive;
        covered = rw apart d.covered;
        room = rw same d.room;
      })

  still-AreDue :
      (p : Payout) (ps : List Payout) (e e' : Env h)
      → Reach tokens e
      → withdraw p.caller p.token p.amount e ≡ ok (tt, e')
      → mem p.caller (callers ps) ≡ false
      → AreDue tokens e ps
      → AreDue tokens e' ps
  still-AreDue p [] e e' r ran absent due = tt
  still-AreDue p (q ∷ qs) e e' r ran absent due = (
    still-IsDue p q e e' r ran (ground (arith, absent)) due.0,
    still-AreDue p qs e e' r ran (ground (arith, absent)) due.1,
  )

  -- In every reachable state where the contract has an admin and is not paused, any list of
  -- withdrawals by different creators, in any tokens, all return when they are made one after another,
  -- if each is authorized and of a positive amount that the creator's balance covers and that fits in
  -- the creator's account, and the token contracts make every transfer that the sender's holdings
  -- cover. Nothing is assumed of what the contract holds.
  pub withdrawals_succeed :
      (ps : List Payout) (e : Env h)
      → Reach tokens e
      → is_open e ≡ true
      → IsDistinct (callers ps)
      → AreDue tokens e ps
      → (e' : Env h) × (withdraw_all ps e ≡ ok (tt, e'))
  unfolding withdraw_all pure execute
  withdrawals_succeed [] e r opened distinct due = (e, refl)
  withdrawals_succeed (p ∷ ps) e r opened distinct due =
      let (e₁, ran) = one_succeeds e p r opened due.0 in
      let (e', rest) =
        withdrawals_succeed ps e₁ (next r (call (Call.withdraw p.caller p.token p.amount) e₁ ran))
          (still-is_open p e e₁ ran opened) distinct.1
          (still-AreDue p ps e e₁ r ran distinct.0 due.1) in
      (e', (go_on _ _ (record { ends = ran }) (record { ends = rest })).ends)
