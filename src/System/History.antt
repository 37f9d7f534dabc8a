-- ===== src/System/History.antt =====
-- Every index below a creator's tip count holds a tip.
use stellar_tip_contract.Base.{ℕ, ◌<◌, ◌≡◌, true, Option, is_some, unwrap_or, arith}
use stellar_tip_contract.Host.{Host, Address}
use stellar_tip_contract.Types.{Tip, CreatorProfile}
use stellar_tip_contract.Env.{Env}
use stellar_tip_contract.System.Kind.{
  Kind, a_setting, an_init, a_registration, an_update, an_unregistration, a_tip, a_withdrawal,
}

-- The history has no gap, and just the creators have a tip count.
pub record IsRecorded (profile : Address → Option CreatorProfile) (tip_count : Address → Option ℕ)
    (tip : Address → ℕ → Option Tip) : Type 0 where
  pub no_gap : (c : Address) (i : ℕ) → i < unwrap_or (tip_count c) 0 → is_some (tip c i) ≡ true
  pub has_count : (c : Address) → is_some (tip_count c) ≡ is_some (profile c)

module _ {h : Host} where
  abbrev pub HistoryValid : Env h → Type 0
  HistoryValid e = IsRecorded e.inst.profile e.pers.tip_count e.pers.tip

  pub Kind-HistoryValid : (e e' : Env h) → Kind e e' → HistoryValid e → HistoryValid e'
  Kind-HistoryValid e e' (a_setting _ _ _ _ _ _ _ _ _ _ _ o) v = rw o.result v
  Kind-HistoryValid e e' (an_init _ _ _ _ _ _ o) v = rw o.result v
  Kind-HistoryValid e e' (a_registration caller username display_name bio o) v =
      rw o.result (record {
        no_gap = λ c i p. ground (arith, v.no_gap c i);
        has_count = λ c. ground (arith, v.has_count c);
      })
  Kind-HistoryValid e e' (an_update caller display_name bio o) v =
      rw o.result
        (record { no_gap = v.no_gap; has_count = λ c. ground (arith, v.has_count c, o.found) })
  Kind-HistoryValid e e' (an_unregistration caller o) v = rw o.result (record {
    no_gap = λ c i p. ground (arith, v.no_gap c i);
    has_count = λ c. ground (arith, v.has_count c);
  })
  Kind-HistoryValid e e' (a_tip from creator token amount message index o) v = rw o.result (record {
    no_gap = λ c i p. ground (arith, o.index_is, v.no_gap c i);
    has_count = λ c. ground (arith, v.has_count c, o.registered);
  })
  Kind-HistoryValid e e' (a_withdrawal _ _ _ o) v = rw o.result v
