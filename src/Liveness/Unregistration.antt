-- ===== src/Liveness/Unregistration.antt =====
-- When `unregister` of src/lib.rs succeeds, and when a balance stands in its way.
use stellar_tip_contract.Base.{
  ◌≡◌, refl, pos, ltb, ltb_ℤ, Bool-cases, Option-cases, inl, inr, ◌∙◌, true, false, some, none,
  Option, List, [], ◌∷◌, mem, unwrap_or, arith,
}
use stellar_tip_contract.Host.{Host, MapLaws, TokenLaws, Address}
use stellar_tip_contract.Types.{TipError, tip_error}
use stellar_tip_contract.Env.{Env, ok, panic}
use stellar_tip_contract.Env.Runs.{
  Runs, go_on, stop, go_auth, go_gets, go_or_panic, go_panic_if, stop_if, go_persistent,
  go_instance, go_then, go_else, ends_pure, ends_publish, ends_persistent, ends_instance,
}
use stellar_tip_contract.Contract.{unregister, drop_tokens, check_balances, get_balance, is_creator}
use stellar_tip_contract.Liveness.Common.{is_open, check-Runs}
use stellar_tip_contract.Outcome.Common.{extended}
use stellar_tip_contract.System.Reach.{Reach}
use stellar_tip_contract.System.Invariant.{Reach-IsValid}

module _ {h : Host} where
  -- A positive balance in a listed token ends the loop.
  check_stops :
      (caller token : Address) (tokens : List Address) (e : Env h)
      → mem token tokens ≡ true
      → ltb_ℤ (pos 0) (unwrap_or (e.pers.balance caller token) (pos 0)) ≡ true
      → Runs (check_balances caller tokens) e (panic (tip_error TipError.balance_not_empty))
  unfolding check_balances
  check_stops caller token [] e listed positive = cc listed
  check_stops caller token (t ∷ tokens) e listed positive =
      go_gets _ _ (elim (Bool-cases (ltb_ℤ (pos 0) (unwrap_or (e.pers.balance caller t) (pos 0)))) [
        | inl some_left ↦ stop_if _ _ _ some_left
        | inr empty ↦
            go_panic_if _ _ _ empty
              (check_stops caller token tokens e (ground (arith, listed, empty, positive)) positive)
      ])

  -- Without a positive balance the loop ends well.
  check_passes :
      (caller : Address) (tokens : List Address) (e : Env h)
      → ((t : Address) → ltb_ℤ (pos 0) (unwrap_or (e.pers.balance caller t) (pos 0)) ≡ false)
      → Runs (check_balances caller tokens) e (ok (tt, e))
  unfolding check_balances
  check_passes caller [] e empty = ends_pure tt
  check_passes caller (t ∷ tokens) e empty =
      go_gets _ _ (go_panic_if _ _ _ (empty t) (check_passes caller tokens e empty))

module _ {h : Host} (maps : MapLaws h) (tokens : TokenLaws h) where
  -- In every reachable state where the contract has an admin and is not paused, a creator's
  -- authorized unregistration panics with `BalanceNotEmpty` if the creator has a positive balance in
  -- any token.
  pub unregister_blocked :
      (caller token : Address) (e : Env h)
      → Reach tokens e
      → e.authorized caller ≡ true
      → is_open e ≡ true
      → is_creator caller e ≡ true
      → ltb_ℤ (pos 0) (get_balance caller token e) ≡ true
      → unregister caller e ≡ panic (tip_error TipError.balance_not_empty)
  unfolding unregister drop_tokens get_balance is_creator
  unregister_blocked caller token e r a open₁ creator positive =
      let v = (Reach-IsValid maps tokens r).tracking in
      let listed = v.tracked caller token positive in
      elim (Option-cases (e.inst.profile caller)) [
        | inl absent ↦ cc (creator, absent)
        | inr (p, found) ↦ elim (Option-cases (e.pers.creator_tokens caller)) [
          | inl no_set ↦ cc (rw no_set at listed, maps.contains-new token)
          | inr (s, a_set) ↦
              (go_auth _ _ a (
                go_on _ _ (check-Runs e open₁) (
                  go_gets _ _ (
                    go_or_panic _ _ _ found (
                      go_gets _ _ (
                        stop _ _ (
                          rw a_set (
                            stop _ _ (
                              check_stops caller token (h.keys s) (extended e)
                                (maps.mem-keys s token ∙ rw a_set at listed) positive))))))))).ends
        ]
      ]

module _ {h : Host} where
  drop-Runs :
      (caller : Address) (e : Env h)
      → ((t : Address) → ltb_ℤ (pos 0) (unwrap_or (e.pers.balance caller t) (pos 0)) ≡ false)
      → (o : Option h.TokenSet) → (e' : Env h) × Runs (drop_tokens caller o) e (ok (tt, e'))
  unfolding drop_tokens
  drop-Runs caller e empty none = (_, ends_pure tt)
  drop-Runs caller e empty (some s) =
      (_, go_on _ _ (check_passes caller (h.keys s) e empty) (ends_persistent _))

  -- A creator's authorized unregistration returns, where the contract has an admin and is not
  -- paused, if the creator's balance is 0 in every token.
  pub unregister_succeeds :
      (caller : Address) (e : Env h)
      → e.authorized caller ≡ true
      → is_open e ≡ true
      → is_creator caller e ≡ true
      → ((t : Address) → get_balance caller t e ≡ pos 0)
      → (e' : Env h) × (unregister caller e ≡ ok (tt, e'))
  unfolding unregister get_balance is_creator
  unregister_succeeds caller e a open₁ creator zero_balances =
      let dropped =
        drop-Runs caller (extended e) (λ t. rw (zero_balances t) refl)
          (e.pers.creator_tokens caller) in
      let counted = unwrap_or dropped.0.inst.creator_count 0 in
      elim (Option-cases (e.inst.profile caller)) [
        | inl absent ↦ cc (creator, absent)
        | inr (p, found) ↦ elim (Bool-cases (ltb 0 counted)) [
          | inl more ↦ (
            _,
            (go_auth _ _ a (
                go_on _ _ (check-Runs e open₁) (
                  go_gets _ _ (
                    go_or_panic _ _ _ found (
                      go_gets _ _ (
                        go_on _ _ dropped.1 (
                          go_persistent _ _ (
                            go_instance _ _ (
                              go_instance _ _ (
                                go_gets _ _ (
                                  go_on _ _ (go_then _ _ _ more (ends_instance _))
                                    (ends_publish _ _ _)))))))))))).ends,
          )
          | inr none_left ↦ (
            _,
            (go_auth _ _ a (
                go_on _ _ (check-Runs e open₁) (
                  go_gets _ _ (
                    go_or_panic _ _ _ found (
                      go_gets _ _ (
                        go_on _ _ dropped.1 (
                          go_persistent _ _ (
                            go_instance _ _ (
                              go_instance _ _ (
                                go_gets _ _ (
                                  go_on _ _ (go_else _ _ _ none_left (ends_pure tt))
                                    (ends_publish _ _ _)))))))))))).ends,
          )
        ]
      ]
