-- ===== src/Env/Helpers.antt =====
-- The helper functions of src/lib.rs.
use stellar_tip_contract.Base.{ltb, false, not, Option, ⊤, length, is_some, unwrap_or}
use stellar_tip_contract.Host.{Host, Symbol, Text}
use stellar_tip_contract.Types.{TipError, max_display_name_len, max_bio_len}
use stellar_tip_contract.Env.Effects.{Action, gets, ◌>>=◌, ◌>>◌, panic_if, extend_instance_ttl}

module _ {h : Host} where
  unfoldable pub check_initialized_and_not_paused : Action h ⊤
  check_initialized_and_not_paused = do
    panic_if (not (is_some (← gets (λ e. e.inst.admin)))) TipError.not_initialized
    is_paused ← gets (λ e. unwrap_or e.inst.paused false)
    panic_if is_paused TipError.paused
    extend_instance_ttl

  unfoldable pub validate_input : Option Symbol → Text → Text → Action h ⊤
  validate_input _ display_name bio = do
    panic_if (ltb max_display_name_len (length display_name)) TipError.invalid_input
    panic_if (ltb max_bio_len (length bio)) TipError.invalid_input
