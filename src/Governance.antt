-- ===== src/Governance.antt =====
-- The settings and the admin's functions of src/lib.rs.
use stellar_tip_contract.Base.{
  ℕ, ◌≤◌, ltb, ℤ, pos, ◌≤ℤ◌, ltb_ℤ, ◌≡◌, ◌≢◌, refl, Bool, true, false, not, ◌==◌, ◌||◌, Option,
  some, ◌⊎◌, inl, inr, ⊤, String, is_some, if◌then◌else◌, arith,
}
use stellar_tip_contract.Host.{Host, MapLaws, TokenLaws, Address}
use stellar_tip_contract.Types.{TipError, tip_error, Payload, max_fee_bps, zero_account}
use stellar_tip_contract.Env.{
  Env, InstanceStorage, Action, Result, ok, panic, gets, or_panic, panic_if, require_auth,
  modify_instance, extend_instance_ttl, publish, ◌>>=◌, ◌>>◌,
}
use stellar_tip_contract.Env.Runs.{
  Runs, go_auth, go_gets, go_or_panic, go_panic_if, stop_if, go_instance, go_extend_instance,
}
use stellar_tip_contract.Contract.{
  Call, execute, set_admin, pause, unpause, set_fee_percentage, set_fee_recipient, set_max_creators,
  set_max_tips_per_creator, set_min_tip_amount, get_admin, is_paused, get_fee_percentage,
  get_fee_recipient, get_max_creators, get_max_tips_per_creator, get_min_tip_amount,
}
use stellar_tip_contract.Outcome.Admin.{after_change}
use stellar_tip_contract.Outcome.Calls.{Done, executed}
use stellar_tip_contract.Access.{caller_of, role_of, administrator}
use stellar_tip_contract.System.Reach.{Reach}
use stellar_tip_contract.System.Invariant.{Reach-IsValid}

-- What the admin decides, as the view functions show it.
pub record Settings : Type 0 where
  pub admin : Option Address
  pub paused : Bool
  pub fee_percentage : ℕ
  pub fee_recipient : Option Address
  pub max_creators : ℕ
  pub max_tips_per_creator : ℕ
  pub min_tip_amount : ℤ

-- The settings that an admin's call asks for.
abbrev pub requested : Call → Settings → Settings
requested (Call.set_admin _ new_admin) s = record s { admin = some new_admin }
requested (Call.pause _) s = record s { paused = true }
requested (Call.unpause _) s = record s { paused = false }
requested (Call.set_fee_percentage _ bps) s = record s { fee_percentage = bps }
requested (Call.set_fee_recipient _ recipient) s = record s { fee_recipient = some recipient }
requested (Call.set_max_creators _ n) s = record s { max_creators = n }
requested (Call.set_max_tips_per_creator _ n) s = record s { max_tips_per_creator = n }
requested (Call.set_min_tip_amount _ amount) s = record s { min_tip_amount = amount }
requested _ s = s

module _ {h : Host} where
  unfoldable pub settings : Env h → Settings
  unfolding get_admin is_paused get_fee_percentage get_fee_recipient get_max_creators
      get_max_tips_per_creator get_min_tip_amount
  settings e = record {
    admin = get_admin e;
    paused = is_paused e;
    fee_percentage = get_fee_percentage e;
    fee_recipient = get_fee_recipient e;
    max_creators = get_max_creators e;
    max_tips_per_creator = get_max_tips_per_creator e;
    min_tip_amount = get_min_tip_amount e;
  }

  -- Whether the argument of an admin's call is one that the contract accepts.
  abbrev pub acceptable : Call → Env h → Bool
  acceptable (Call.set_admin caller new_admin) e =
      not (new_admin == caller || new_admin == h.address_from_string zero_account)
  acceptable (Call.set_fee_percentage _ bps) e = not (ltb max_fee_bps bps)
  acceptable (Call.set_fee_recipient _ recipient) e = not (recipient == e.current_contract_address)
  acceptable (Call.set_min_tip_amount _ amount) e = not (ltb_ℤ amount (pos 0))
  acceptable _ e = true

  admin_passes :
      {e : Env h} {r : Result (⊤ × Env h)} (caller : Address) (f : Address → ⊤ → Action h ⊤)
      → e.authorized caller ≡ true
      → e.inst.admin ≡ some caller
      → Runs (f caller tt) e r
      → Runs
          (require_auth caller
            >> (gets (λ (s : Env h). s.inst.admin) >>= λ o.
                or_panic o TipError.not_initialized >>= λ admin.
                panic_if (not (caller == admin)) TipError.not_authorized >>= f admin))
          e
          r
  admin_passes caller f a found q =
      go_auth _ _ a (go_gets _ _ (go_or_panic _ _ _ found (go_panic_if _ _ _ (ground arith) q)))

  stores :
      {e : Env h} (caller : Address) (g : InstanceStorage → InstanceStorage) (topic : String)
      (payload : Payload)
      → Runs
          (modify_instance g >> (extend_instance_ttl >> publish topic caller payload))
          e
          (ok (tt, after_change caller (g e.inst) topic payload e))
  unfolding publish
  stores caller g topic payload = go_instance _ _ (go_extend_instance _ (record { ends = refl }))

  -- A setter that tests its argument first.
  tested :
      {e : Env h} (caller : Address) (bad : Bool) (g : InstanceStorage → InstanceStorage)
      (topic : String) (payload : Payload)
      → Runs
          (panic_if bad TipError.invalid_input
            >> (modify_instance g >> (extend_instance_ttl >> publish topic caller payload)))
          e
          (if not bad
            then ok (tt, after_change caller (g e.inst) topic payload e)
            else panic (tip_error TipError.invalid_input))
  tested caller true g topic payload = stop_if _ _ _ refl
  tested caller false g topic payload = go_panic_if _ _ _ refl (stores caller g topic payload)

  -- An admin's function that the admin has authorized returns just when its argument is acceptable,
  -- with the settings that the call asks for, the same persistent entries and the same token
  -- balances; otherwise it panics with `InvalidInput`.
  pub admin_call_runs :
      (c : Call) (e : Env h)
      → role_of c ≡ administrator
      → e.authorized (caller_of c) ≡ true
      → get_admin e ≡ some (caller_of c)
      → (e' : Env h) × (execute c e
          ≡ (if acceptable c e then ok (tt, e') else panic (tip_error TipError.invalid_input)))
        × (settings e' ≡ requested c (settings e))
        × (e'.pers ≡ e.pers)
        × (e'.ledger ≡ e.ledger)
  unfolding execute set_admin pause unpause set_fee_percentage set_fee_recipient set_max_creators
      set_max_tips_per_creator set_min_tip_amount get_admin settings
  admin_call_runs (Call.set_admin caller new_admin) e role a found =
      (_, (admin_passes caller _ a found (tested caller _ _ _ _)).ends, refl, refl, refl)
  admin_call_runs (Call.pause caller) e role a found =
      (_, (admin_passes caller _ a found (stores caller _ _ _)).ends, refl, refl, refl)
  admin_call_runs (Call.unpause caller) e role a found =
      (_, (admin_passes caller _ a found (stores caller _ _ _)).ends, refl, refl, refl)
  admin_call_runs (Call.set_fee_percentage caller bps) e role a found =
      (_, (admin_passes caller _ a found (tested caller _ _ _ _)).ends, refl, refl, refl)
  admin_call_runs (Call.set_fee_recipient caller recipient) e role a found = (
    _,
    (admin_passes caller _ a found (go_gets _ _ (tested caller _ _ _ _))).ends,
    refl,
    refl,
    refl,
  )
  admin_call_runs (Call.set_max_creators caller n) e role a found =
      (_, (admin_passes caller _ a found (stores caller _ _ _)).ends, refl, refl, refl)
  admin_call_runs (Call.set_max_tips_per_creator caller n) e role a found =
      (_, (admin_passes caller _ a found (stores caller _ _ _)).ends, refl, refl, refl)
  admin_call_runs (Call.set_min_tip_amount caller amount) e role a found =
      (_, (admin_passes caller _ a found (tested caller _ _ _ _)).ends, refl, refl, refl)
  admin_call_runs (Call.init _ _ _ _ _ _) e role a found = cc role
  admin_call_runs (Call.register _ _ _ _) e role a found = cc role
  admin_call_runs (Call.update_profile _ _ _) e role a found = cc role
  admin_call_runs (Call.unregister _) e role a found = cc role
  admin_call_runs (Call.tip _ _ _ _ _) e role a found = cc role
  admin_call_runs (Call.withdraw _ _ _) e role a found = cc role

  -- After `init`, the settings change only by a call that the admin itself has authorized.
  pub settings_need_admin :
      (c : Call) (e e' : Env h)
      → is_some (get_admin e) ≡ true
      → execute c e ≡ ok (tt, e')
      → (settings e' ≡ settings e)
        ⊎ ((get_admin e ≡ some (caller_of c))
            × (e.authorized (caller_of c) ≡ true)
            × (settings e' ≡ requested c (settings e)))
  unfolding get_admin settings
  settings_need_admin c e e' initialized p = by c (executed c e e' p)
    where
      by :
          (c : Call)
          → Done c e e'
          → (settings e' ≡ settings e)
            ⊎ ((e.inst.admin ≡ some (caller_of c))
                × (e.authorized (caller_of c) ≡ true)
                × (settings e' ≡ requested c (settings e)))
      by (Call.init _ _ _ _ _ _) o = cc (initialized, o.uninitialized)
      by (Call.set_admin _ _) o = inr (o.1.by_admin, o.1.authorized, rw o.1.result refl)
      by (Call.pause _) o = inr (o.by_admin, o.authorized, rw o.result refl)
      by (Call.unpause _) o = inr (o.by_admin, o.authorized, rw o.result refl)
      by (Call.set_fee_percentage _ _) o = inr (o.1.by_admin, o.1.authorized, rw o.1.result refl)
      by (Call.set_fee_recipient _ _) o = inr (o.1.by_admin, o.1.authorized, rw o.1.result refl)
      by (Call.set_max_creators _ _) o = inr (o.by_admin, o.authorized, rw o.result refl)
      by (Call.set_max_tips_per_creator _ _) o = inr (o.by_admin, o.authorized, rw o.result refl)
      by (Call.set_min_tip_amount _ _) o = inr (o.1.by_admin, o.1.authorized, rw o.1.result refl)
      by (Call.register _ _ _ _) o = inl (rw o.result refl)
      by (Call.update_profile _ _ _) o = inl (rw o.result refl)
      by (Call.unregister _) o = inl (rw o.result refl)
      by (Call.tip _ _ _ _ _) o = inl (rw o.1.result refl)
      by (Call.withdraw _ _ _) o = inl (rw o.result refl)

module _ {h : Host} (maps : MapLaws h) (tokens : TokenLaws h) where
  -- In every reachable state, the fee is at most 100%, the minimum tip is not negative, the contract
  -- is not its own fee recipient, and there is a fee recipient where there is an admin.
  pub settings_in_range :
      (e : Env h)
      → Reach tokens e
      → let s = settings e in
        (s.fee_percentage ≤ max_fee_bps)
        × (pos 0 ≤ℤ s.min_tip_amount)
        × (s.fee_recipient ≢ some e.current_contract_address)
        × ((not (is_some s.admin) || is_some s.fee_recipient) ≡ true)
  unfolding settings get_fee_percentage get_min_tip_amount get_fee_recipient get_admin
  settings_in_range e r =
      let v = (Reach-IsValid maps tokens r).config in
      (
        v.fee_range,
        v.minimum_range,
        (λ p. ground (arith, v.not_self e.current_contract_address p)),
        ground (arith, v.complete),
      )
