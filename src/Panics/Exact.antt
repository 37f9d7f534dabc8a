-- ===== src/Panics/Exact.antt =====
-- The list of tests is all that decides how a call ends.
use stellar_tip_contract.Base.{◌≡◌, refl, Bool, true, Option, none, some, ⊤}
use stellar_tip_contract.Host.{Host, MapLaws, TokenLaws}
use stellar_tip_contract.Types.{Panic}
use stellar_tip_contract.Env.{Env, Result, ok, panic, fits_i128}
use stellar_tip_contract.Env.Decides.{Decided, first_panic, decide_pure}
use stellar_tip_contract.Contract.{Call, execute, tip}
use stellar_tip_contract.System.Reach.{Reach}
use stellar_tip_contract.System.Invariant.{Reach-IsValid}
use stellar_tip_contract.Panics.Listed.{tests}
use stellar_tip_contract.Panics.Registration.{
  register-Decided, update_profile-Decided, unregister-Decided,
}
use stellar_tip_contract.Panics.Tipping.{tip-Decided}
use stellar_tip_contract.Panics.Withdrawal.{withdraw-Decided}
use stellar_tip_contract.Panics.Admin.{init-Decided, admin-Decided}

-- The amount of a tip is an `i128`.
abbrev pub is_typed : Call → Bool
is_typed (Call.tip _ _ _ amount _) = fits_i128 amount
is_typed _ = true

-- A call ends in the panic, or with the environment when there is none.
abbrev pub ending : {h : Host} → Option Panic → Env h → Result (⊤ × Env h)
ending none e' = ok (tt, e')
ending (some p) e' = panic p

module _ {h : Host} where
  ended :
      (c : Call) (e : Env h) (o : Option Panic)
      → Decided (execute c) e o
      → (e' : Env h) × (execute c e ≡ ending o e')
  ended c e none d = (d.ends.1, d.ends.2.ends)
  ended c e (some p) d = (e, d.ends.ends)

module _ {h : Host} (maps : MapLaws h) (tokens : TokenLaws h) where
  decided :
      (c : Call) (e : Env h)
      → Reach tokens e
      → is_typed c ≡ true
      → Decided (execute c) e (first_panic (tests c e))
  unfolding execute
  decided (Call.init caller recipient bps creators tips minimum) e r typed =
      init-Decided caller recipient bps creators tips minimum e
  decided (Call.set_admin caller a) e r typed = admin-Decided (Call.set_admin caller a) e refl
  decided (Call.pause caller) e r typed = admin-Decided (Call.pause caller) e refl
  decided (Call.unpause caller) e r typed = admin-Decided (Call.unpause caller) e refl
  decided (Call.set_fee_percentage caller n) e r typed =
      admin-Decided (Call.set_fee_percentage caller n) e refl
  decided (Call.set_fee_recipient caller a) e r typed =
      admin-Decided (Call.set_fee_recipient caller a) e refl
  decided (Call.set_max_creators caller n) e r typed =
      admin-Decided (Call.set_max_creators caller n) e refl
  decided (Call.set_max_tips_per_creator caller n) e r typed =
      admin-Decided (Call.set_max_tips_per_creator caller n) e refl
  decided (Call.set_min_tip_amount caller amount) e r typed =
      admin-Decided (Call.set_min_tip_amount caller amount) e refl
  decided (Call.register caller username display_name bio) e r typed =
      register-Decided caller username display_name bio e
  decided (Call.update_profile caller display_name bio) e r typed =
      update_profile-Decided caller display_name bio e
  decided (Call.unregister caller) e r typed = unregister-Decided caller e
  decided (Call.tip from creator token amount message) e r typed =
      decide_pure (tip from creator token amount message) (λ _. tt) _
        (tip-Decided maps from creator token amount message e (Reach-IsValid maps tokens r).config
          typed)
  decided (Call.withdraw caller token amount) e r typed =
      withdraw-Decided maps caller token amount e (Reach-IsValid maps tokens r).tracking

  -- In every reachable state, every call whose amount, if it is a tip, is an `i128` ends in the panic
  -- of the first test on the call's list that holds, and returns if none does. So the list has all
  -- the panics of the call, in the order of precedence: `FeeRecipientNotSet` and a time-to-live
  -- extension of a missing entry are on none of the lists.
  pub panics_exactly :
      (c : Call) (e : Env h)
      → Reach tokens e
      → is_typed c ≡ true
      → (e' : Env h) × (execute c e ≡ ending (first_panic (tests c e)) e')
  panics_exactly c e r typed = ended c e (first_panic (tests c e)) (decided c e r typed)
