-- ===== src/Types/Constants.antt =====
-- The constants of src/lib.rs.
use stellar_tip_contract.Base.{ℕ, ◌*◌, ℤ, pos, String}

abbrev pub contract_version : ℕ
contract_version = 3

abbrev pub max_fee_bps : ℕ
max_fee_bps = 10_000

abbrev pub max_display_name_len : ℕ
max_display_name_len = 64

abbrev pub max_bio_len : ℕ
max_bio_len = 256

abbrev pub default_max_creators : ℕ
default_max_creators = 10_000

abbrev pub default_max_tips_per_creator : ℕ
default_max_tips_per_creator = 10_000

abbrev pub default_min_tip_amount : ℤ
default_min_tip_amount = pos 1

abbrev pub ttl_threshold : ℕ
ttl_threshold = 17_280 * 15

abbrev pub ttl_extend : ℕ
ttl_extend = 17_280 * 30

-- The account that `set_admin` refuses as the new admin.
abbrev pub zero_account : String
zero_account = "GAAAAAAAAAAAAAAAAAAAAAAAAAAAAAAAAAAAAAAAAAAAAAAAAAAAAWHF"
