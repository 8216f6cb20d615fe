-- ===== src/Config.antt =====
-- internal/config/config.go: the configuration after the YAML file is decoded over the defaults, and
-- the checks of Load.
pub mod Load
mod Tests
use qbitx_pool.Base.{
  ℕ, ◌*◌, if◌then◌else◌, Bool, true, false, not, ◌&&◌, ◌||◌, List, [], ◌∷◌, Text, codes, text_eq, ℤ,
  pos, ltb_ℤ, leb_ℤ,
}
use qbitx_pool.Base.Results.{Result, ok, err, ◌>>=◌}
use qbitx_pool.Float64.{Float64, zero_f, hundred, nano, of_ratio, le, lt, mul, sub, abs, round}

pub record Stratum : Type 0 where
  pub listen : Text
  pub max_conn : ℤ

pub record Daemon : Type 0 where
  pub url : Text
  pub user : Text
  pub pass : Text

pub record Coinbase : Type 0 where
  pub address : Text
  pub tag : Text
  pub reward : ℤ
  pub payout_spk_hex : Text
  pub developer_fee_percent : Float64
  pub developer_fee_address : Text

pub record Jobs : Type 0 where
  pub poll_interval : ℤ
  pub notify_on_new_block : Bool

pub record Difficulty : Type 0 where
  pub start : Float64
  pub gpu_start : Float64
  pub asic_start : Float64
  pub min : Float64
  pub max : Float64
  pub target_time : ℤ
  pub retarget_interval : ℤ

pub record Payouts : Type 0 where
  pub enabled : Bool
  pub scheme : Text
  pub pplns_window : ℤ
  pub pool_fee_percent : Float64
  pub min_payout_sat : ℤ
  pub interval_sec : ℤ
  pub block_maturity : ℤ

pub record Config : Type 0 where
  pub pool_id : Text
  pub stratum : Stratum
  pub daemon : Daemon
  pub coinbase : Coinbase
  pub jobs : Jobs
  pub difficulty : Difficulty
  pub payouts : Payouts
  pub max_sps : ℤ
  pub max_sps_grace_sec : ℤ
  pub shares_file : Text
  pub database_url : Text
  pub log_level : Text
  pub log_dir : Text

-- What the file is decoded over.
unfoldable pub defaults : Config
unfolding of_ratio zero_f
defaults = record {
  pool_id = codes "default";
  stratum = record { listen = codes ":3333"; max_conn = pos 4096 };
  daemon = record { url = []; user = []; pass = [] };
  coinbase = record {
    address = [];
    tag = [];
    reward = pos 0;
    payout_spk_hex = [];
    developer_fee_percent = zero_f;
    developer_fee_address = [];
  };
  jobs = record { poll_interval = pos 10; notify_on_new_block = true };
  difficulty = record {
    start = of_ratio 30000 1;
    gpu_start = of_ratio 10 1;
    asic_start = of_ratio 30000 1;
    min = of_ratio 64 1;
    max = of_ratio 10000000 1;
    target_time = pos 10;
    retarget_interval = pos 30;
  };
  payouts = record {
    enabled = false;
    scheme = codes "lprop";
    pplns_window = pos 1000;
    pool_fee_percent = zero_f;
    min_payout_sat = pos 100000;
    interval_sec = pos 60;
    block_maturity = pos 100;
  };
  max_sps = pos 300;
  max_sps_grace_sec = pos 3;
  shares_file = codes "data/shares.json";
  database_url = [];
  log_level = codes "info";
  log_dir = [];
}

-- The errors of Load, in the order of its checks.
pub data ConfigError : Type 0 where
  read_config parse_config pool_id_required address_required developer_fee_range
        developer_fee_decimals developer_fee_address_required scheme_unknown pool_fee_range
        pool_fee_decimals min_payout_negative interval_not_positive maturity_not_positive :
      ConfigError

unfoldable pub has_at_most_two_decimals : Float64 → Bool
unfolding mul sub abs round lt hundred nano
has_at_most_two_decimals v = lt (abs (sub (mul v hundred) (round (mul v hundred)))) nano

-- `v < 0 || v >= 100`
abbrev pub out_of_range : Float64 → Bool
out_of_range v = lt v zero_f || le hundred v

-- `if failed { return nil, e }`
abbrev pub refuse_if : Bool → ConfigError → Result ConfigError (Unit {0})
refuse_if failed e = if failed then err e else ok tt

-- The scheme with its default.
abbrev pub or_lprop : Text → Text
or_lprop scheme = if text_eq scheme [] then codes "lprop" else scheme

unfoldable pub check_coinbase : Coinbase → Result ConfigError (Unit {0})
unfolding has_at_most_two_decimals
check_coinbase c = refuse_if (text_eq c.address []) address_required >>= λ u0.
    refuse_if (out_of_range c.developer_fee_percent) developer_fee_range >>= λ u1.
    refuse_if (not (has_at_most_two_decimals c.developer_fee_percent)) developer_fee_decimals
    >>= λ u2.
        refuse_if (lt zero_f c.developer_fee_percent && text_eq c.developer_fee_address [])
          developer_fee_address_required

-- The checks behind the default of the scheme.
unfoldable pub check_payouts : Payouts → Result ConfigError (Unit {0})
unfolding has_at_most_two_decimals
check_payouts p =
    refuse_if (not (text_eq p.scheme (codes "lprop")) && not (text_eq p.scheme (codes "solo")))
      scheme_unknown
    >>= λ u0. refuse_if (out_of_range p.pool_fee_percent) pool_fee_range >>= λ u1.
        refuse_if (not (has_at_most_two_decimals p.pool_fee_percent)) pool_fee_decimals >>= λ u2.
        refuse_if (ltb_ℤ p.min_payout_sat (pos 0)) min_payout_negative >>= λ u3.
        refuse_if (leb_ℤ p.interval_sec (pos 0)) interval_not_positive >>= λ u4.
        refuse_if (leb_ℤ p.block_maturity (pos 0)) maturity_not_positive

-- `cfg` is decoded; `database_url` is the environment variable of that name.
unfoldable pub check_config : Text → Config → Result ConfigError Config
unfolding check_coinbase check_payouts
check_config database_url cfg =
    let payouts = record cfg.payouts { scheme = or_lprop cfg.payouts.scheme } in
    refuse_if (text_eq cfg.pool_id []) pool_id_required >>= λ u0.
    check_coinbase cfg.coinbase >>= λ u1. check_payouts payouts >>= λ u2.
    ok (record cfg { database_url = database_url; payouts = payouts })

-- Load: the file, if it can be read; what its decoding makes of the defaults; and the environment.
unfoldable pub load :
    {File : Type 0}
    → (File → Config → Result ConfigError Config)
    → Text
    → Result ConfigError File
    → Result ConfigError Config
unfolding check_config defaults
load unmarshal database_url file =
    file >>= λ text. unmarshal text defaults >>= λ cfg. check_config database_url cfg
