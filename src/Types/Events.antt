-- ===== src/Types/Events.antt =====
-- The events that the contract publishes: a topic, the address beside it, and the data.
use stellar_tip_contract.Base.{ℕ, ℤ, String}
use stellar_tip_contract.Host.{Address, Symbol, Text}

abbrev pub event_creator_registered : String
event_creator_registered = "CREG"

abbrev pub event_tip_sent : String
event_tip_sent = "TIP"

abbrev pub event_withdraw : String
event_withdraw = "WDRW"

abbrev pub event_profile_updated : String
event_profile_updated = "PUPD"

abbrev pub event_creator_unregistered : String
event_creator_unregistered = "UREG"

abbrev pub event_paused : String
event_paused = "PAUS"

abbrev pub event_unpaused : String
event_unpaused = "UNPA"

abbrev pub event_fee_changed : String
event_fee_changed = "FEEC"

abbrev pub event_admin_changed : String
event_admin_changed = "ADMC"

abbrev pub event_fee_recipient_changed : String
event_fee_recipient_changed = "FERC"

abbrev pub event_max_creators_changed : String
event_max_creators_changed = "CAPMC"

abbrev pub event_max_tips_changed : String
event_max_tips_changed = "CAPMT"

abbrev pub event_min_tip_changed : String
event_min_tip_changed = "MINTC"

abbrev pub event_init : String
event_init = "INIT"

-- The data of an event, by the shapes that `publish` is called with.
pub data Payload : Type 0 where
  nothing : Payload
  an_address : Address → Payload
  a_number : ℕ → Payload
  an_amount : ℤ → Payload
  init_data : Address → ℕ → Payload
  registered : Symbol → ℕ → Payload
  profile_data : Symbol → Text → Payload
  tip_data : Address → Address → ℤ → ℤ → ℕ → Payload
  withdraw_data : Address → ℤ → Payload

pub record Event : Type 0 where
  pub topic : String
  pub subject : Address
  pub payload : Payload
