-- ===== src/Liveness/Withdrawal.antt =====
-- When `withdraw` of src/lib.rs succeeds.
use stellar_tip_contract.Base.{
  ◌≡◌, refl, ℤ, pos, ◌-ℤ◌, ltb_ℤ, leb_ℤ, Bool-cases, Option-cases, inl, inr, true, false, some,
  none, is_some, unwrap_or, update₂, arith,
}
use stellar_tip_contract.Host.{Host, MapLaws, TokenLaws, Address}
use stellar_tip_contract.Env.{Env, ok}
use stellar_tip_contract.Env.Runs.{
  Runs, go_then, go_else, ends_pure, ends_publish, ends_persistent, ends_extend, go_on, go_auth,
  go_gets, go_panic_if, go_transfer, go_checked, go_persistent, go_extend,
}
use stellar_tip_contract.Contract.{
  withdraw, store_remaining, untrack_token, get_balance, is_creator,
}
use stellar_tip_contract.Liveness.Common.{is_open, check-Runs}
use stellar_tip_contract.Outcome.Common.{extended}
use stellar_tip_contract.System.Tokens.{TokensValid, left_fits, funded}
use stellar_tip_contract.System.Reach.{Reach}
use stellar_tip_contract.System.Invariant.{Reach-IsValid}

module _ {h : Host} where
  untrack-Runs :
      (caller token : Address) (e : Env h)
      → (e' : Env h) × Runs (untrack_token caller token) e (ok (tt, e'))
  unfolding untrack_token
  untrack-Runs caller token e =
      let old = unwrap_or (e.pers.creator_tokens caller) h.new_map in
      elim (Bool-cases (is_some (h.remove_key old token).0)) [
        | inr absent ↦ (_, go_gets _ _ (go_else _ _ _ absent (ends_pure tt)))
        | inl found ↦ elim (Bool-cases (h.is_empty (h.remove_key old token).1)) [
          | inl last ↦
              (_, go_gets _ _ (go_then _ _ _ found (go_then _ _ _ last (ends_persistent _))))
          | inr more ↦ (
            _,
            go_gets _ _ (
                go_then _ _ _ found
                  (go_else _ _ _ more (go_persistent _ _ (ends_extend _ (ground arith))))),
          )
        ]
      ]

  pub store-Runs :
      (caller token : Address) (remaining : ℤ) (e : Env h)
      → is_some (e.pers.creator_tokens caller) ≡ true
      → (e' : Env h) × Runs (store_remaining caller token remaining) e (ok (tt, e'))
  unfolding store_remaining
  store-Runs caller token remaining e set = elim (Bool-cases (ltb_ℤ (pos 0) remaining)) [
    | inl more ↦ (
      _,
      go_then _ _ _ more (go_persistent _ _ (go_extend _ _ (ground arith) (ends_extend _ set))),
    )
    | inr done ↦
        let e₁ = record e {
          pers = record e.pers { balance = update₂ e.pers.balance caller token none };
        } in
        let untracked = untrack-Runs caller token e₁ in
        (untracked.0, go_else _ _ _ done (go_persistent _ _ untracked.1))
  ]

module _ {h : Host} (maps : MapLaws h) where
  -- A creator with a balance has a token set.
  pub is_tracked :
      (caller token : Address) (amount : ℤ) (e : Env h)
      → TokensValid maps e
      → leb_ℤ amount (pos 0) ≡ false
      → ltb_ℤ (unwrap_or (e.pers.balance caller token) (pos 0)) amount ≡ false
      → is_some (e.pers.creator_tokens caller) ≡ true
  is_tracked caller token amount e v positive covered =
      let balance = unwrap_or (e.pers.balance caller token) (pos 0) in
      elim (Option-cases (e.pers.creator_tokens caller)) [
        | inr (s, a_set) ↦ rw a_set refl
        | inl no_set ↦
            let tracked = v.tracked caller token (funded balance amount positive covered) in
            cc (rw no_set at tracked, maps.contains-new token)
      ]

module _ {h : Host} (maps : MapLaws h) (tokens : TokenLaws h) where
  -- In every reachable state where the contract has an admin and is not paused, a creator's
  -- authorized withdrawal of a positive amount that its balance covers returns, if the token
  -- contract makes the transfer.
  pub withdraw_returns :
      (caller token : Address) (amount : ℤ) (e : Env h) (l : h.Ledger)
      → Reach tokens e
      → e.authorized caller ≡ true
      → is_open e ≡ true
      → is_creator caller e ≡ true
      → ltb_ℤ (pos 0) amount ≡ true
      → leb_ℤ amount (get_balance caller token e) ≡ true
      → h.transfer e.ledger token e.current_contract_address caller amount ≡ some l
      → (e' : Env h) × (withdraw caller token amount e ≡ ok (tt, e'))
  unfolding withdraw get_balance is_creator
  withdraw_returns caller token amount e l r a open₁ creator positive covered paid =
      let v = (Reach-IsValid maps tokens r).tracking in
      let balance = unwrap_or (e.pers.balance caller token) (pos 0) in
      let not_positive : leb_ℤ amount (pos 0) ≡ false = ground (arith, positive) in
      let is_covered : ltb_ℤ balance amount ≡ false = ground (arith, covered) in
      let set = is_tracked maps caller token amount e v not_positive is_covered in
      let stored =
        store-Runs caller token (balance -ℤ amount) (record (extended e) { ledger = l }) set in
      (
        _,
        (go_auth _ _ a (
            go_on _ _ (check-Runs e open₁) (
              go_gets _ _ (
                go_panic_if _ _ _ (ground (arith, creator)) (
                  go_panic_if _ _ _ not_positive (
                    go_gets _ _ (
                      go_panic_if _ _ _ is_covered (
                        go_gets _ _ (
                          go_transfer _ _ _ _ _ paid (
                            go_checked _ _ _
                              (left_fits balance amount (v.in_range caller token) not_positive
                                is_covered)
                              (go_on _ _ stored.1 (ends_publish _ _ _)))))))))))).ends,
      )
