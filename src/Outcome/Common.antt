-- ===== src/Outcome/Common.antt =====
-- What the shared checks of src/lib.rs establish.
use stellar_tip_contract.Base.{
  of_not, ltb, ◌≡◌, refl, true, false, Option, ◌∷◌, length, is_some, unwrap_or,
}
use stellar_tip_contract.Host.{Host, Symbol, Text}
use stellar_tip_contract.Types.{ttl_threshold, ttl_extend, max_display_name_len, max_bio_len}
use stellar_tip_contract.Env.{Env, of_instance, check_initialized_and_not_paused, validate_input}
use stellar_tip_contract.Env.Ensures.{
  Ensures, after_gets, after_panic_if, by_extend_instance, by_panic_if,
}

-- The environment after an extension of the instance's time to live.
abbrev pub extended : {h : Host} → Env h → Env h
extended e = record e { extensions = of_instance ttl_threshold ttl_extend ∷ e.extensions }

-- The contract has an admin and is not paused.
pub record IsOpen {h : Host} (e : Env h) : Type 0 where
  pub initialized : is_some e.inst.admin ≡ true
  pub unpaused : unwrap_or e.inst.paused false ≡ false

pub check_lem :
    {h : Host} (e : Env h)
    → Ensures check_initialized_and_not_paused e (λ _ e'. IsOpen e × (e' ≡ extended e))
unfolding check_initialized_and_not_paused
check_lem e = after_gets _ _ (
    after_panic_if _ _ _ λ initialized. after_gets _ _ (
      after_panic_if _ _ _ λ unpaused.
        by_extend_instance
          (record { initialized = of_not initialized; unpaused = unpaused }, refl)))

-- Both texts are within their limits.
pub record IsShort (display_name bio : Text) : Type 0 where
  pub name_fits : ltb max_display_name_len (length display_name) ≡ false
  pub bio_fits : ltb max_bio_len (length bio) ≡ false

pub validate_lem :
    {h : Host} (e : Env h) (username : Option Symbol) (display_name bio : Text)
    → Ensures
        (validate_input username display_name bio)
        e
        (λ _ e'. IsShort display_name bio × (e' ≡ e))
unfolding validate_input
validate_lem e username display_name bio = after_panic_if _ _ _ λ name_fits.
    by_panic_if _ _ λ bio_fits. (record { name_fits = name_fits; bio_fits = bio_fits }, refl)
