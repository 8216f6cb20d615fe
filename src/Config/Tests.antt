-- ===== src/Config/Tests.antt =====
-- The theorem on Load at a concrete input, and runs of Load.
use qbitx_pool.Base.{◌≡◌, refl, true, false, [], Text, codes, text_eq, ◌⊎◌}
use qbitx_pool.Base.Results.{ok, err}
use qbitx_pool.Float64.{of_ratio, operations}
use qbitx_pool.Config.{
  Config, ConfigError, address_required, defaults, has_at_most_two_decimals, check_config, load,
}
use qbitx_pool.Config.Load.{Valid, finished, check_config_lem}

abbrev with_address : Config
unfolding defaults
with_address = record defaults { coinbase = record defaults.coinbase { address = codes "addr" } }

-- The defaults have no address.
no_address : load {File = Text} (λ file cfg. ok cfg) (codes "db") (ok []) ≡ err address_required
unfolding load operations text_eq
no_address = refl

decimals :
    (has_at_most_two_decimals (of_ratio 29 100) ≡ true)
    × (has_at_most_two_decimals (of_ratio 1234 1000) ≡ false)
unfolding has_at_most_two_decimals operations
decimals = (refl, refl)

check_config_lem_example :
    (Valid (finished (codes "db") with_address)
      × (check_config (codes "db") with_address ≡ ok (finished (codes "db") with_address)))
    ⊎ (¬ Valid (finished (codes "db") with_address)
        × (e : ConfigError) × (check_config (codes "db") with_address ≡ err e))
check_config_lem_example = check_config_lem (codes "db") with_address

accepted : check_config (codes "db") with_address ≡ ok (finished (codes "db") with_address)
unfolding check_config defaults operations text_eq
accepted = refl
