-- ===== src/Contract/Views.antt =====
-- The view functions: they read the environment and change nothing, and only `get_tips` can panic.
use stellar_tip_contract.Base.{
  ℕ, zero, suc, ◌+◌, ◌-◌, min, ℤ, pos, Bool, false, Option, none, some, List, [], ◌∷◌, ◌++◌,
  is_some, unwrap_or,
}
use stellar_tip_contract.Host.{Host, Address, Symbol}
use stellar_tip_contract.Types.{CreatorProfile, Tip, contract_version}
use stellar_tip_contract.Env.{Env, Action, gets, ◌>>=◌, checked, fits_u64}

abbrev pub push_found : List Tip → Option Tip → List Tip
push_found results none = results
push_found results (some tip) = results ++ tip ∷ []

module _ {h : Host} where
  unfoldable pub get_profile : Address → Env h → Option CreatorProfile
  get_profile address e = e.inst.profile address

  unfoldable pub get_creator_from_username : Symbol → Env h → Option Address
  get_creator_from_username username e = e.inst.username_to_address username

  unfoldable pub get_balance : Address → Address → Env h → ℤ
  get_balance creator token e = unwrap_or (e.pers.balance creator token) (pos 0)

  unfoldable pub get_tip_count : Address → Env h → ℕ
  get_tip_count creator e = unwrap_or (e.pers.tip_count creator) 0

  unfoldable pub get_tip : Address → ℕ → Env h → Option Tip
  get_tip creator index e = e.pers.tip creator index

  -- The loop of `get_tips`: `n` rounds from index `i`.
  unfoldable pub get_tips_loop : Address → ℕ → ℕ → List Tip → Env h → List Tip
  get_tips_loop creator zero i results e = results
  get_tips_loop creator (suc n) i results e =
      get_tips_loop creator n (i + 1) (push_found results (e.pers.tip creator i)) e

  unfoldable pub get_tips : Address → ℕ → ℕ → Action h (List Tip)
  get_tips creator start limit = do
    count ← gets (λ e. unwrap_or (e.pers.tip_count creator) 0)
    stop ← checked fits_u64 (start + limit)
    let end = min stop count
    gets (get_tips_loop creator (end - start) start [])

  unfoldable pub get_profile_by_username : Symbol → Env h → Option CreatorProfile
  get_profile_by_username username e = elim (e.inst.username_to_address username) [
    | some addr ↦ e.inst.profile addr
    | none ↦ none
  ]

  unfoldable pub is_creator : Address → Env h → Bool
  is_creator address e = is_some (e.inst.profile address)

  unfoldable pub is_username_taken : Symbol → Env h → Bool
  is_username_taken username e = is_some (e.inst.username_to_address username)

  unfoldable pub get_all_tokens : Address → Env h → List Address
  get_all_tokens creator e = elim (e.pers.creator_tokens creator) [
    | some tokens ↦ h.keys tokens
    | none ↦ []
  ]

  unfoldable pub get_contract_version : Env h → ℕ
  get_contract_version e = contract_version

  unfoldable pub get_admin : Env h → Option Address
  get_admin e = e.inst.admin

  unfoldable pub is_paused : Env h → Bool
  is_paused e = unwrap_or e.inst.paused false

  unfoldable pub get_fee_percentage : Env h → ℕ
  get_fee_percentage e = unwrap_or e.inst.fee_bps 0

  unfoldable pub get_fee_recipient : Env h → Option Address
  get_fee_recipient e = e.inst.fee_recipient

  unfoldable pub get_max_creators : Env h → ℕ
  get_max_creators e = unwrap_or e.inst.max_creators 0

  unfoldable pub get_max_tips_per_creator : Env h → ℕ
  get_max_tips_per_creator e = unwrap_or e.inst.max_tips_per_creator 0

  unfoldable pub get_min_tip_amount : Env h → ℤ
  get_min_tip_amount e = unwrap_or e.inst.min_tip_amount (pos 0)

  unfoldable pub get_creator_count : Env h → ℕ
  get_creator_count e = unwrap_or e.inst.creator_count 0
