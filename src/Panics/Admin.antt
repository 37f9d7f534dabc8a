-- ===== src/Panics/Admin.antt =====
-- The panics of `init` and of the admin's functions.
use stellar_tip_contract.Base.{
  ℕ, ℤ, ◌≡◌, refl, sym, ap, ◌∙◌, true, not, ◌==◌, ==_iff, none, some, Bool-cases, Option-cases, inl,
  inr, if◌then◌else◌, arith,
}
use stellar_tip_contract.Host.{Host, Address}
use stellar_tip_contract.Types.{TipError, tip_error}
use stellar_tip_contract.Env.{Env}
use stellar_tip_contract.Env.Runs.{ends_instance, ends_extend_instance, ends_publish}
use stellar_tip_contract.Env.Decides.{
  Decided, first_panic, decides, decide_test, decide_on, decide_gets, decide_if, decide_auth,
}
use stellar_tip_contract.Contract.{Call, execute, init, get_admin, is_paused}
use stellar_tip_contract.Access.{
  caller_of, role_of, administrator, refusal, refused_panics, unauthorized_panics,
}
use stellar_tip_contract.Governance.{acceptable, admin_call_runs}
use stellar_tip_contract.Panics.Listed.{tests, admin_tests}

module _ {h : Host} where
  pub init-Decided :
      (caller recipient : Address) (bps creators tips : ℕ) (minimum : ℤ) (e : Env h)
      → Decided
          (init caller recipient bps creators tips minimum)
          e
          (first_panic (tests (Call.init caller recipient bps creators tips minimum) e))
  unfolding init get_admin
  init-Decided caller recipient bps creators tips minimum e = decide_auth _ _ _ (
      decide_gets _ _ _ (
        decide_if _ _ _ _ λ _. decide_if _ _ _ _ λ _. decide_if _ _ _ _ λ _. decide_gets _ _ _ (
          decide_if _ _ _ _ λ _. decide_on _ _ _ (ends_instance _) (
            decide_on _ _ _ (ends_instance _) (
              decide_on _ _ _ (ends_instance _) (
                decide_on _ _ _ (ends_instance _) (
                  decide_on _ _ _ (ends_instance _) (
                    decide_on _ _ _ (ends_instance _) (
                      decide_on _ _ _ (ends_instance _) (
                        decide_on _ _ _ (ends_instance _) (
                          decide_on _ _ _ ends_extend_instance
                            (decides (ends_publish _ _ _)))))))))))))

  refused-Decided :
      (c : Call) (e : Env h) (error : TipError)
      → role_of c ≡ administrator
      → e.authorized (caller_of c) ≡ true
      → refusal administrator (get_admin e) (caller_of c) (is_paused e) ≡ some error
      → Decided (execute c) e (some (tip_error error))
  refused-Decided c e error role a p = record {
    ends = record { ends = refused_panics c e error a (rw role p) };
  }

  -- What is left once the admin has called.
  accepted-Decided :
      (c : Call) (e : Env h)
      → role_of c ≡ administrator
      → e.authorized (caller_of c) ≡ true
      → get_admin e ≡ some (caller_of c)
      → Decided
          (execute c)
          e
          (if not (acceptable c e) then some (tip_error TipError.invalid_input) else none)
  accepted-Decided c e role a found =
      let ran = admin_call_runs c e role a found in
      decide_test (not (acceptable c e)) _ _ (λ p. record { ends = ran.1 ∙ ground (arith, p) })
        (λ p. decides {a = tt} {e' = ran.0} (record { ends = ran.1 ∙ ground (arith, p) }))

  pub admin-Decided :
      (c : Call) (e : Env h)
      → role_of c ≡ administrator
      → Decided (execute c) e (first_panic (admin_tests c e))
  admin-Decided c e role =
      decide_test (not (e.authorized (caller_of c))) _ _
        (λ p. record { ends = unauthorized_panics c e (ground (arith, p)) })
        (λ p.
          let a : e.authorized (caller_of c) ≡ true = ground (arith, p) in
          elim (Option-cases (get_admin e)) [
            | inl absent ↦ rw absent (refused-Decided c e _ role a (rw absent refl))
            | inr (admin, found) ↦ elim (Bool-cases (caller_of c == admin)) [
              | inr other ↦
                  rw (found, other) (refused-Decided c e _ role a (rw (found, other) refl))
              | inl same ↦
                  rw (found, same)
                    (accepted-Decided c e role a
                      (found ∙ ap some (sym ((==_iff (caller_of c) admin).0 same))))
            ]
          ])
