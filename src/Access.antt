-- ===== src/Access.antt =====
-- Who may call what, and when (the guards at the head of every function of src/lib.rs).
use stellar_tip_contract.Base.{
  ℤ, ◌≡◌, refl, sym, Bool, true, false, not, ◌==◌, Bool-cases, Option, Option-cases, none, some,
  inl, inr, of_some, ⊤, is_some, unwrap_or, if◌then◌else◌,
}
use stellar_tip_contract.Host.{Host, Address, Text}
use stellar_tip_contract.Types.{TipError, tip_error, unauthorized}
use stellar_tip_contract.Env.{
  Env, Action, panic, gets, or_panic, panic_if, require_auth, ◌>>=◌, ◌>>◌,
  check_initialized_and_not_paused,
}
use stellar_tip_contract.Env.Runs.{
  Runs, stop, stop_auth, go_auth, go_gets, go_or_panic, stop_or_panic, stop_if, go_panic_if,
}
use stellar_tip_contract.Contract.{
  Call, execute, get_admin, is_paused, init, set_admin, pause, unpause, set_fee_percentage,
  set_fee_recipient, set_max_creators, set_max_tips_per_creator, set_min_tip_amount, register,
  update_profile, unregister, tip, withdraw,
}

-- The address whose authorization a call asks for.
abbrev pub caller_of : Call → Address
caller_of (Call.init caller _ _ _ _ _) = caller
caller_of (Call.set_admin caller _) = caller
caller_of (Call.pause caller) = caller
caller_of (Call.unpause caller) = caller
caller_of (Call.set_fee_percentage caller _) = caller
caller_of (Call.set_fee_recipient caller _) = caller
caller_of (Call.set_max_creators caller _) = caller
caller_of (Call.set_max_tips_per_creator caller _) = caller
caller_of (Call.set_min_tip_amount caller _) = caller
caller_of (Call.register caller _ _ _) = caller
caller_of (Call.update_profile caller _ _) = caller
caller_of (Call.unregister caller) = caller
caller_of (Call.tip from _ _ _ _) = from
caller_of (Call.withdraw caller _ _) = caller

-- `init`, the admin's functions, and everybody's.
pub data Role : Type 0 where
  deployer administrator user : Role

abbrev pub role_of : Call → Role
role_of (Call.init _ _ _ _ _ _) = deployer
role_of (Call.set_admin _ _) = administrator
role_of (Call.pause _) = administrator
role_of (Call.unpause _) = administrator
role_of (Call.set_fee_percentage _ _) = administrator
role_of (Call.set_fee_recipient _ _) = administrator
role_of (Call.set_max_creators _ _) = administrator
role_of (Call.set_max_tips_per_creator _ _) = administrator
role_of (Call.set_min_tip_amount _ _) = administrator
role_of (Call.register _ _ _ _) = user
role_of (Call.update_profile _ _ _) = user
role_of (Call.unregister _) = user
role_of (Call.tip _ _ _ _ _) = user
role_of (Call.withdraw _ _ _) = user

-- The error that a role meets, from the admin, the caller and the pause flag.
abbrev pub refusal : Role → Option Address → Address → Bool → Option TipError
refusal deployer none caller paused = none
refusal deployer (some admin) caller paused = some TipError.already_initialized
refusal administrator none caller paused = some TipError.not_initialized
refusal administrator (some admin) caller paused =
    if caller == admin then none else some TipError.not_authorized
refusal user none caller paused = some TipError.not_initialized
refusal user (some admin) caller paused = if paused then some TipError.paused else none

module _ {h : Host} where
  -- The access policy in terms of the view functions.
  abbrev pub refused : Call → Env h → Option TipError
  refused c e = refusal (role_of c) (get_admin e) (caller_of c) (is_paused e)

  module _ {B : Type 0} {e : Env h} {error : TipError} (caller : Address)
      (authorized : e.authorized caller ≡ true) where
    admin_gate :
        (f : Address → ⊤ → Action h B)
        → refusal administrator e.inst.admin caller (unwrap_or e.inst.paused false) ≡ some error
        → Runs
            (require_auth caller
              >> (gets (λ (s : Env h). s.inst.admin) >>= λ o.
                  or_panic o TipError.not_initialized >>= λ admin.
                  panic_if (not (caller == admin)) TipError.not_authorized >>= f admin))
            e
            (panic (tip_error error))
    admin_gate f p = go_auth _ _ authorized (
        go_gets _ _ (elim (Option-cases e.inst.admin) [
          | inl absent ↦ rw (of_some (sym (rw absent at p))) (stop_or_panic _ _ _ absent)
          | inr (admin, found) ↦ go_or_panic _ _ _ found (elim (Bool-cases (caller == admin)) [
            | inl same ↦ cc (rw (found, same) at p)
            | inr other ↦
                rw (of_some (sym (rw (found, other) at p))) (stop_if _ _ _ (rw other refl))
          ])
        ]))

    user_gate :
        (f : ⊤ → Action h B)
        → refusal user e.inst.admin caller (unwrap_or e.inst.paused false) ≡ some error
        → Runs
            (require_auth caller >> (check_initialized_and_not_paused >>= f))
            e
            (panic (tip_error error))
    unfolding check_initialized_and_not_paused
    user_gate f p = go_auth _ _ authorized (
        stop _ _ (
          go_gets _ _ (elim (Option-cases e.inst.admin) [
            | inl absent ↦ rw (of_some (sym (rw absent at p))) (stop_if _ _ _ (rw absent refl))
            | inr (admin, found) ↦ go_panic_if _ _ _ (rw found refl) (
                go_gets _ _ (elim (Bool-cases (unwrap_or e.inst.paused false)) [
                  | inl paused ↦ rw (of_some (sym (rw (found, paused) at p))) (stop_if _ _ _ paused)
                  | inr unpaused ↦ cc (rw (found, unpaused) at p)
                ]))
          ])))

    init_gate :
        (f : ⊤ → Action h B)
        → refusal deployer e.inst.admin caller (unwrap_or e.inst.paused false) ≡ some error
        → Runs
            (require_auth caller
              >> (gets (λ (s : Env h). s.inst.admin) >>= λ o.
                  panic_if (is_some o) TipError.already_initialized >>= f))
            e
            (panic (tip_error error))
    init_gate f p = go_auth _ _ authorized (
        go_gets _ _ (elim (Option-cases e.inst.admin) [
          | inl absent ↦ cc (rw absent at p)
          | inr (admin, found) ↦ rw (of_some (sym (rw found at p))) (stop_if _ _ _ (rw found refl))
        ]))

  auth_first :
      {B : Type 0} (caller : Address) (f : ⊤ → Action h B) (e : Env h)
      → e.authorized caller ≡ false
      → (require_auth caller >>= f) e ≡ panic unauthorized
  auth_first caller f e p = (stop_auth caller f p).ends

  pub tip_unauthorized :
      (from creator token : Address) (amount : ℤ) (message : Text) (e : Env h)
      → e.authorized from ≡ false
      → Runs (tip from creator token amount message) e (panic unauthorized)
  unfolding tip
  tip_unauthorized from creator token amount message e p = stop_auth from _ p

  tip_refused :
      (from creator token : Address) (amount : ℤ) (message : Text) (e : Env h) (error : TipError)
      → e.authorized from ≡ true
      → refusal user e.inst.admin from (unwrap_or e.inst.paused false) ≡ some error
      → Runs (tip from creator token amount message) e (panic (tip_error error))
  unfolding tip
  tip_refused from creator token amount message e error a p = user_gate from a _ p

  -- Every call whose caller has not authorized it panics.
  pub unauthorized_panics :
      (c : Call) (e : Env h) → e.authorized (caller_of c) ≡ false → execute c e ≡ panic unauthorized
  unfolding execute init set_admin pause unpause set_fee_percentage set_fee_recipient
      set_max_creators set_max_tips_per_creator set_min_tip_amount register update_profile
      unregister withdraw
  unauthorized_panics (Call.init _ _ _ _ _ _) e p = auth_first _ _ e p
  unauthorized_panics (Call.set_admin _ _) e p = auth_first _ _ e p
  unauthorized_panics (Call.pause _) e p = auth_first _ _ e p
  unauthorized_panics (Call.unpause _) e p = auth_first _ _ e p
  unauthorized_panics (Call.set_fee_percentage _ _) e p = auth_first _ _ e p
  unauthorized_panics (Call.set_fee_recipient _ _) e p = auth_first _ _ e p
  unauthorized_panics (Call.set_max_creators _ _) e p = auth_first _ _ e p
  unauthorized_panics (Call.set_max_tips_per_creator _ _) e p = auth_first _ _ e p
  unauthorized_panics (Call.set_min_tip_amount _ _) e p = auth_first _ _ e p
  unauthorized_panics (Call.register _ _ _ _) e p = auth_first _ _ e p
  unauthorized_panics (Call.update_profile _ _ _) e p = auth_first _ _ e p
  unauthorized_panics (Call.unregister _) e p = auth_first _ _ e p
  unauthorized_panics (Call.tip from creator token amount message) e p =
      (stop (tip from creator token amount message) _
        (tip_unauthorized from creator token amount message e p)).ends
  unauthorized_panics (Call.withdraw _ _ _) e p = auth_first _ _ e p

  -- Every authorized call that the access policy refuses panics with the policy's error: a second
  -- `init`, any other call before `init`, an admin's function called by somebody else, and a user's
  -- call while the contract is paused.
  pub refused_panics :
      (c : Call) (e : Env h) (error : TipError)
      → e.authorized (caller_of c) ≡ true
      → refused c e ≡ some error
      → execute c e ≡ panic (tip_error error)
  unfolding execute init set_admin pause unpause set_fee_percentage set_fee_recipient
      set_max_creators set_max_tips_per_creator set_min_tip_amount register update_profile
      unregister withdraw get_admin is_paused
  refused_panics (Call.init caller _ _ _ _ _) e error a p = (init_gate caller a _ p).ends
  refused_panics (Call.set_admin caller _) e error a p = (admin_gate caller a _ p).ends
  refused_panics (Call.pause caller) e error a p = (admin_gate caller a _ p).ends
  refused_panics (Call.unpause caller) e error a p = (admin_gate caller a _ p).ends
  refused_panics (Call.set_fee_percentage caller _) e error a p = (admin_gate caller a _ p).ends
  refused_panics (Call.set_fee_recipient caller _) e error a p = (admin_gate caller a _ p).ends
  refused_panics (Call.set_max_creators caller _) e error a p = (admin_gate caller a _ p).ends
  refused_panics (Call.set_max_tips_per_creator caller _) e error a p =
      (admin_gate caller a _ p).ends
  refused_panics (Call.set_min_tip_amount caller _) e error a p = (admin_gate caller a _ p).ends
  refused_panics (Call.register caller _ _ _) e error a p = (user_gate caller a _ p).ends
  refused_panics (Call.update_profile caller _ _) e error a p = (user_gate caller a _ p).ends
  refused_panics (Call.unregister caller) e error a p = (user_gate caller a _ p).ends
  refused_panics (Call.tip from creator token amount message) e error a p =
      (stop (tip from creator token amount message) _
        (tip_refused from creator token amount message e error a p)).ends
  refused_panics (Call.withdraw caller _ _) e error a p = (user_gate caller a _ p).ends
