-- ===== src/Liveness/Tipping.antt =====
-- When `tip` of src/lib.rs succeeds.
use stellar_tip_contract.Base.{
  ℕ, ◌+◌, ltb, leb, ℤ, pos, ◌+ℤ◌, ◌-ℤ◌, ◌*ℤ◌, ◌≤ℤ◌, ltb_ℤ, leb_ℤ, ◌≡◌, refl, ◌&&◌, not, Bool-cases,
  inl, inr, true, false, Option, some, of_some, unwrap_or, if◌then◌else◌, arith,
}
use stellar_tip_contract.Host.{Host, MapLaws, TokenLaws, Address, Text}
use stellar_tip_contract.Types.{Tip}
use stellar_tip_contract.Env.{Env, ok, fits_i128, fits_u64}
use stellar_tip_contract.Env.Runs.{
  Runs, go_on, go_auth, go_gets, go_or_panic, go_panic_if, go_transfer, go_checked, go_persistent,
  go_extend, go_then, go_else, ends_pure, ends_checked, ends_publish, ends_persistent, ends_extend,
  ends_transfer,
}
use stellar_tip_contract.Contract.{
  tip, settle, fee_of, forward_fee, credit_balance, track_token, record_tip, get_balance,
  get_tip_count, get_fee_percentage, get_fee_recipient, get_max_tips_per_creator,
  get_min_tip_amount, is_creator,
}
use stellar_tip_contract.Liveness.Common.{is_open, check-Runs}
use stellar_tip_contract.Outcome.Common.{extended}
use stellar_tip_contract.Outcome.Tipping.{fee_amount, after_credit, after_track, after_record}
use stellar_tip_contract.Fees.{fee_bounds}
use stellar_tip_contract.System.Reach.{Reach}
use stellar_tip_contract.System.Invariant.{Reach-IsValid}

pub between_fits :
    (x amount : ℤ)
    → pos 0 ≤ℤ x
    → x ≤ℤ amount
    → fits_i128 amount ≡ true
    → (fits_i128 x ≡ true) × (fits_i128 (amount -ℤ x) ≡ true)
unfolding fits_i128 ◌-ℤ◌
between_fits x amount p q r = (ground arith, ground arith)

module _ {h : Host} where
  pub fee_of-Runs :
      (amount : ℤ) (fee_bps : ℕ) (e : Env h)
      → fits_i128 (amount *ℤ pos fee_bps) ≡ true
      → fits_i128 (fee_amount amount fee_bps) ≡ true
      → Runs (fee_of amount fee_bps) e (ok (fee_amount amount fee_bps, e))
  unfolding fee_of fee_amount
  fee_of-Runs amount fee_bps e p q = go_checked _ _ _ p (ends_checked _ _ q)

  pub forward-Runs :
      (token recipient : Address) (opt : Option Address) (fee : ℤ) (e : Env h) (l : h.Ledger)
      → opt ≡ some recipient
      → (if ltb_ℤ (pos 0) fee
          then h.transfer e.ledger token e.current_contract_address recipient fee
          else some e.ledger)
        ≡ some l
      → Runs (forward_fee token opt fee) e (ok (tt, record e { ledger = l }))
  unfolding forward_fee
  forward-Runs token recipient opt fee e l set paid = elim (Bool-cases (ltb_ℤ (pos 0) fee)) [
    | inl some_fee ↦
        go_then _ _ _ some_fee
          (go_or_panic _ _ _ set (go_gets _ _ (ends_transfer _ _ _ _ (rw some_fee at paid))))
    | inr no_fee ↦ go_else _ _ _ no_fee (rw (← of_some (rw no_fee at paid)) (ends_pure tt))
  ]

  pub credit-Runs :
      (creator token : Address) (amount : ℤ) (e : Env h)
      → let balance = unwrap_or (e.pers.balance creator token) (pos 0) +ℤ amount in
        fits_i128 balance ≡ true
        → Runs
            (credit_balance creator token amount)
            e
            (ok (tt, after_credit creator token balance e))
  unfolding credit_balance
  credit-Runs creator token amount e p =
      go_gets _ _ (go_checked _ _ _ p (go_persistent _ _ (ends_extend _ (ground arith))))

  pub track-Runs :
      (creator token : Address) (e : Env h)
      → (maps : MapLaws h)
      → Runs (track_token creator token) e (ok (tt, after_track creator token e))
  unfolding track_token
  track-Runs creator token e maps =
      let tokens = unwrap_or (e.pers.creator_tokens creator) h.new_map in
      elim (Bool-cases (h.contains_key tokens token)) [
        | inr new ↦
            let is_new : not (h.contains_key tokens token) ≡ true = rw new refl in
            rw new (
              go_gets _ _ (
                go_on _ _ (go_then _ _ _ is_new (ends_persistent _))
                  (ends_extend _ (ground arith))))
        | inl old ↦
            let is_old : not (h.contains_key tokens token) ≡ false = rw old refl in
            rw old (
              go_gets _ _ (
                go_on _ _ (go_else _ _ _ is_old (ends_pure tt))
                  (ends_extend _ (ground (arith, old, maps.contains-new token)))))
      ]

  pub record-Runs :
      (creator : Address) (index : ℕ) (t : Tip) (e : Env h)
      → fits_u64 (index + 1) ≡ true
      → Runs (record_tip creator index t) e (ok (tt, after_record creator index t e))
  unfolding record_tip
  record-Runs creator index t e p = go_persistent _ _ (
      go_extend _ _ (ground arith)
        (go_checked _ _ _ p (go_persistent _ _ (ends_extend _ (ground arith)))))

  settle-Runs :
      (from creator token : Address) (amount : ℤ) (message : Text) (fee creator_amount : ℤ)
      (opt : Option Address) (index : ℕ) (recipient : Address) (e : Env h) (l₁ l₂ : h.Ledger)
      → MapLaws h
      → opt ≡ some recipient
      → h.transfer e.ledger token from e.current_contract_address amount ≡ some l₁
      → (if ltb_ℤ (pos 0) fee
          then h.transfer l₁ token e.current_contract_address recipient fee
          else some l₁)
        ≡ some l₂
      → fits_i128 (unwrap_or (e.pers.balance creator token) (pos 0) +ℤ creator_amount) ≡ true
      → fits_u64 (index + 1) ≡ true
      → (e' : Env h) × Runs
          (settle from creator token amount message fee creator_amount opt index)
          e
          (ok (tt, e'))
  unfolding settle
  settle-Runs from creator token amount message fee creator_amount opt index recipient e l₁ l₂ maps
        set paid forwarded credit_fits index_fits =
      (
        _,
        go_gets _ _ (
            go_transfer _ _ _ _ _ paid (
              go_on _ _
                (forward-Runs token recipient opt fee (record e { ledger = l₁ }) l₂ set forwarded)
                (go_on _ _ (credit-Runs _ _ _ _ credit_fits) (
                  go_on _ _ (track-Runs _ _ _ maps) (
                    go_gets _ _
                      (go_on _ _ (record-Runs _ _ _ _ index_fits) (ends_publish _ _ _))))))),
      )

module _ {h : Host} (maps : MapLaws h) (tokens : TokenLaws h) where
  -- In every reachable state where the contract has an admin and is not paused, an authorized tip to
  -- a creator returns the creator's tip count, if the amount is positive and not below the minimum,
  -- the creator's history is not full, the arithmetic stays in range, and the token contract makes
  -- the transfer of the amount and, where there is a fee, of the fee to the fee recipient.
  pub tip_returns :
      (from creator token recipient : Address) (amount : ℤ) (message : Text) (e : Env h)
      (l₁ l₂ : h.Ledger)
      → Reach tokens e
      → e.authorized from ≡ true
      → is_open e ≡ true
      → ltb_ℤ (pos 0) amount ≡ true
      → leb_ℤ (get_min_tip_amount e) amount ≡ true
      → is_creator creator e ≡ true
      → (ltb 0 (get_max_tips_per_creator e)
          && leb (get_max_tips_per_creator e) (get_tip_count creator e))
        ≡ false
      → get_fee_recipient e ≡ some recipient
      → fits_i128 amount ≡ true
      → fits_i128 (amount *ℤ pos (get_fee_percentage e)) ≡ true
      → fits_u64 (get_tip_count creator e + 1) ≡ true
      → h.transfer e.ledger token from e.current_contract_address amount ≡ some l₁
      → (if ltb_ℤ (pos 0) (fee_amount amount (get_fee_percentage e))
          then h.transfer l₁ token e.current_contract_address recipient
              (fee_amount amount (get_fee_percentage e))
          else some l₁)
        ≡ some l₂
      → fits_i128
          (get_balance creator token e +ℤ (amount -ℤ fee_amount amount (get_fee_percentage e)))
        ≡ true
      → (e' : Env h) × (tip from creator token amount message e ≡ ok (get_tip_count creator e, e'))
  unfolding tip get_balance get_tip_count get_fee_percentage get_fee_recipient
      get_max_tips_per_creator get_min_tip_amount is_creator
  tip_returns from creator token recipient amount message e l₁ l₂ r a open₁ positive minimum found
        below_cap set amount_fits product_fits index_fits paid forwarded credit_fits =
      let v = Reach-IsValid maps tokens r in
      let fee_bps = unwrap_or e.inst.fee_bps 0 in
      let fee = fee_amount amount fee_bps in
      let not_positive : leb_ℤ amount (pos 0) ≡ false = ground (arith, positive) in
      let bounds = fee_bounds amount fee_bps not_positive v.config.fee_range in
      let fits = between_fits fee amount bounds.0 bounds.1 amount_fits in
      let settled =
        settle-Runs from creator token amount message fee (amount -ℤ fee) e.inst.fee_recipient
          (unwrap_or (e.pers.tip_count creator) 0) recipient (extended e) l₁ l₂ maps set paid
          forwarded credit_fits index_fits in
      (
        _,
        (go_auth _ _ a (
            go_on _ _ (check-Runs e open₁) (
              go_panic_if _ _ _ not_positive (
                go_gets _ _ (
                  go_panic_if _ _ _ (ground (arith, minimum)) (
                    go_gets _ _ (
                      go_panic_if _ _ _ (rw found refl) (
                        go_gets _ _ (
                          go_gets _ _ (
                            go_panic_if _ _ _ below_cap (
                              go_gets _ _ (
                                go_on _ _
                                  (fee_of-Runs amount fee_bps (extended e) product_fits fits.0)
                                  (go_checked _ _ _ fits.1 (
                                    go_gets _ _ (
                                      go_panic_if _ _ _ (rw set (ground arith))
                                        (go_on _ _ settled.1 (ends_pure _))))))))))))))))).ends,
      )
