-- ===== src/Panics/Common.antt =====
-- The panics of the checks at the head of every user's function.
use stellar_tip_contract.Base.{
  ◌≡◌, true, false, not, Option, some, is_some, ⊤, unwrap_or, if◌then◌else◌, arith,
}
use stellar_tip_contract.Host.{Host, Address}
use stellar_tip_contract.Types.{TipError, Panic, tip_error, unauthorized}
use stellar_tip_contract.Env.{Env, Action, ◌>>=◌, require_auth, check_initialized_and_not_paused}
use stellar_tip_contract.Env.Runs.{go_gets, stop_if, stop, go_panic_if}
use stellar_tip_contract.Env.Decides.{Decided, decide_test, decide_on, decide_auth}
use stellar_tip_contract.Contract.{get_admin, is_paused}
use stellar_tip_contract.Outcome.Common.{extended}
use stellar_tip_contract.Liveness.Common.{is_open, check-Runs}

module _ {h : Host} where
  -- The head of every user's function.
  pub user-Decided :
      {B : Type 0} (caller : Address) (f : ⊤ → Action h B) (e : Env h) (o : Option Panic)
      → (is_open e ≡ true → Decided (f tt) (extended e) o)
      → Decided (require_auth caller >>= λ _. check_initialized_and_not_paused >>= f) e (
          if not (e.authorized caller)
          then some unauthorized
          else (if not (is_some (get_admin e))
              then some (tip_error TipError.not_initialized)
              else (if is_paused e then some (tip_error TipError.paused) else o)))
  unfolding check_initialized_and_not_paused get_admin is_paused
  user-Decided caller f e o d = decide_auth caller _ _ (
      decide_test (not (is_some e.inst.admin)) _ _ (λ p. stop _ _ (go_gets _ _ (stop_if _ _ _ p)))
        (λ p.
          decide_test (unwrap_or e.inst.paused false) _ _
            (λ q. stop _ _ (go_gets _ _ (go_panic_if _ _ _ p (go_gets _ _ (stop_if _ _ _ q)))))
            (λ q.
              let open₁ : is_open e ≡ true = ground (arith, p, q) in
              decide_on _ _ _ (check-Runs e open₁) (d open₁))))
