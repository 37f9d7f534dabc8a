-- ===== src/Panics/Registration.antt =====
-- The panics of `register`, `update_profile` and `unregister`.
use stellar_tip_contract.Base.{
  ◌≡◌, refl, true, false, Option, none, some, List, [], ◌∷◌, ⊤, Bool-cases, length, inl, inr,
  unwrap_or, pos, ltb, ltb_ℤ, if◌then◌else◌, arith,
}
use stellar_tip_contract.Host.{Host, Address, Symbol, Text}
use stellar_tip_contract.Types.{TipError, Panic, tip_error, max_display_name_len, max_bio_len}
use stellar_tip_contract.Env.{Env, Action, ◌>>=◌, panic_if, validate_input, ok, panic}
use stellar_tip_contract.Env.Runs.{
  Runs, go_gets, stop_if, stop, go_on, go_panic_if, ends_pure, ends_publish, ends_instance,
  ends_persistent, ends_extend, ends_extend_instance, go_then, go_else,
}
use stellar_tip_contract.Env.Decides.{
  Decided, first_panic, decides, decide_test, decide_on, decide_gets, decide_checked,
  decide_or_panic, decide_if,
}
use stellar_tip_contract.Contract.{
  Call, register, update_profile, unregister, drop_tokens, check_balances, get_balance,
  get_all_tokens, get_max_creators, get_creator_count, is_creator, is_username_taken,
}
use stellar_tip_contract.Panics.Listed.{tests, too_long, owes_any}
use stellar_tip_contract.Panics.Common.{user-Decided}

module _ {h : Host} where
  validate_passes :
      (username : Option Symbol) (display_name bio : Text) (e : Env h)
      → ltb max_display_name_len (length display_name) ≡ false
      → ltb max_bio_len (length bio) ≡ false
      → Runs (validate_input username display_name bio) e (ok (tt, e))
  unfolding validate_input panic_if
  validate_passes username display_name bio e p q =
      go_panic_if _ _ _ p (record { ends = rw q refl })

  validate-Decided :
      {B : Type 0} (username : Option Symbol) (display_name bio : Text) (f : ⊤ → Action h B)
      (e : Env h) (o : Option Panic)
      → Decided (f tt) e o
      → Decided
          (validate_input username display_name bio >>= f)
          e
          (if too_long display_name bio then some (tip_error TipError.invalid_input) else o)
  unfolding validate_input
  validate-Decided username display_name bio f e o d =
      let long_name = ltb max_display_name_len (length display_name) in
      let long_bio = ltb max_bio_len (length bio) in
      decide_test (too_long display_name bio) _ o
        (λ p. stop _ _ (elim (Bool-cases long_name) [
          | inl long ↦ stop_if _ _ _ long
          | inr short ↦
              let long : long_bio ≡ true = ground (arith, p, short) in
              go_panic_if _ _ _ short (record { ends = unfold panic_if in rw long refl })
        ]))
        (λ p.
          decide_on _ _ o
            (validate_passes username display_name bio e (ground (arith, p)) (ground (arith, p))) d)

  pub register-Decided :
      (caller : Address) (username : Symbol) (display_name bio : Text) (e : Env h)
      → Decided
          (register caller username display_name bio)
          e
          (first_panic (tests (Call.register caller username display_name bio) e))
  unfolding register get_max_creators get_creator_count is_creator is_username_taken
  register-Decided caller username display_name bio e = user-Decided caller _ e _ (λ _.
      validate-Decided _ _ _ _ _ _ (
        decide_gets _ _ _ (
          decide_if _ _ _ _ λ _. decide_gets _ _ _ (
            decide_if _ _ _ _ λ _. decide_gets _ _ _ (
              decide_gets _ _ _ (
                decide_if _ _ _ _ λ _. decide_gets _ _ _ (
                  decide_on _ _ _ (ends_instance _) (
                    decide_on _ _ _ (ends_instance _) (
                      decide_on _ _ _ (ends_persistent _) (
                        decide_on _ _ _ (ends_extend _ (ground arith)) (
                          decide_checked _ _ _ _ λ _.
                            decide_on _ _ _ (ends_instance _)
                              (decides (ends_publish _ _ _)))))))))))))

  pub update_profile-Decided :
      (caller : Address) (display_name bio : Text) (e : Env h)
      → Decided
          (update_profile caller display_name bio)
          e
          (first_panic (tests (Call.update_profile caller display_name bio) e))
  unfolding update_profile is_creator
  update_profile-Decided caller display_name bio e = user-Decided caller _ e _ (λ _.
      validate-Decided _ _ _ _ _ _ (
        decide_gets _ _ _ (
          decide_or_panic _ _ _ _ λ profile _.
            decide_on _ _ _ (ends_instance _)
              (decide_on _ _ _ ends_extend_instance (decides (ends_publish _ _ _))))))

  check-Decided :
      (caller : Address) (tokens : List Address) (e : Env h)
      → Runs (check_balances caller tokens) e (
          if owes_any caller e tokens
          then panic (tip_error TipError.balance_not_empty)
          else ok (tt, e))
  unfolding check_balances get_balance
  check-Decided caller [] e = ends_pure tt
  check-Decided caller (token ∷ tokens) e =
      elim (Bool-cases (ltb_ℤ (pos 0) (get_balance caller token e))) [
        | inl owes ↦ rw owes (go_gets _ _ (stop_if _ _ _ owes))
        | inr settled ↦
            rw settled (go_gets _ _ (go_panic_if _ _ _ settled (check-Decided caller tokens e)))
      ]

  drop-Decided :
      {B : Type 0} (caller : Address) (held : Option h.TokenSet) (f : ⊤ → Action h B) (e : Env h)
      (o : Option Panic)
      → ((e' : Env h) → Decided (f tt) e' o)
      → Decided (drop_tokens caller held >>= f) e (
          if owes_any caller e (elim held [ some tokens ↦ h.keys tokens | none ↦ [] ])
          then some (tip_error TipError.balance_not_empty)
          else o)
  unfolding drop_tokens
  drop-Decided caller none f e o k = decide_on _ _ o (ends_pure tt) (k e)
  drop-Decided caller (some set) f e o k =
      decide_test (owes_any caller e (h.keys set)) _ o
        (λ p. stop _ _ (stop _ _ (rw p at (check-Decided caller (h.keys set) e))))
        (λ p.
          decide_on _ _ o
            (go_on _ _ (rw p at (check-Decided caller (h.keys set) e)) (ends_persistent _)) (k _))

  pub unregister-Decided :
      (caller : Address) (e : Env h)
      → Decided (unregister caller) e (first_panic (tests (Call.unregister caller) e))
  unfolding unregister is_creator get_balance get_all_tokens
  unregister-Decided caller e = user-Decided caller _ e _ (λ _. decide_gets _ _ _ (
      decide_or_panic _ _ _ _ λ profile _. decide_gets _ _ _ (
        drop-Decided caller _ _ _ _ λ e'. decide_on _ _ _ (ends_persistent _) (
          decide_on _ _ _ (ends_instance _) (
            decide_on _ _ _ (ends_instance _) (
              decide_gets _ _ _ (elim (Bool-cases (ltb 0 (unwrap_or e'.inst.creator_count 0))) [
                | inl counted ↦
                    decide_on _ _ _ (go_then _ _ _ counted (ends_instance _))
                      (decides (ends_publish _ _ _))
                | inr empty ↦
                    decide_on _ _ _ (go_else _ _ _ empty (ends_pure tt))
                      (decides (ends_publish _ _ _))
              ])))))))
