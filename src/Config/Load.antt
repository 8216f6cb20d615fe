-- ===== src/Config/Load.antt =====
-- What Load accepts.
use qbitx_pool.Base.{
  ◌^◌, ◌≡◌, ◌≢◌, refl, ap, sym, ◌∙◌, ◌⊎◌, inl, inr, Bool, true, false, Bool-cases, not, ◌&&◌, [],
  Text, codes, text_eq, text_eq→eq, eq→text_eq, ℤ, pos, ltb_ℤ, leb_ℤ, arith,
}
use qbitx_pool.Base.Results.{ok-err, Result, ok, err, ◌>>=◌, >>=_ok, ok_injective, Result-cases}
use qbitx_pool.Float64.{Float64, zero_f, hundred, nano, of_ratio, le, lt, abs, sub, mul, round}
use qbitx_pool.Config.{
  Coinbase, Payouts, Config, ConfigError, has_at_most_two_decimals, out_of_range, refuse_if,
  or_lprop, check_coinbase, check_payouts, check_config,
}

-- A hundred times the value is less than 1e-9 away from its nearest whole number, in float64.
abbrev pub IsHundredths : Float64 → Type 0
IsHundredths v = lt (abs (sub (mul v hundred) (round (mul v hundred)))) (of_ratio 1 (10 ^ 9)) ≡ true

decimals_ok : (v : Float64) → has_at_most_two_decimals v ≡ true → IsHundredths v
unfolding has_at_most_two_decimals nano
decimals_ok v h = h

decimals_complete : (v : Float64) → IsHundredths v → has_at_most_two_decimals v ≡ true
unfolding has_at_most_two_decimals nano
decimals_complete v h = h

-- A fee between 0 and 100 percent, of whole hundredths up to an error of 1e-9.
pub record IsFee (v : Float64) : Type 0 where
  pub from_zero : lt v zero_f ≡ false
  pub below_hundred : le hundred v ≡ false
  pub decimals : IsHundredths v

refuse_if_ok : (b : Bool) (e : ConfigError) (u : Unit {0}) → refuse_if b e ≡ ok u → b ≡ false
refuse_if_ok true e u h = cc
refuse_if_ok false e u h = refl

fee_lem :
    (v : Float64) → out_of_range v ≡ false → not (has_at_most_two_decimals v) ≡ false → IsFee v
fee_lem v r d = record {
  from_zero = ground (arith, r);
  below_hundred = ground (arith, r);
  decimals = decimals_ok v (ground (arith, d));
}

pub record ValidCoinbase (c : Coinbase) : Type 0 where
  pub address : c.address ≢ []
  pub fee : IsFee c.developer_fee_percent
  pub fee_address :
      (lt zero_f c.developer_fee_percent && text_eq c.developer_fee_address []) ≡ false

pub record ValidPayouts (p : Payouts) : Type 0 where
  pub scheme : (p.scheme ≡ codes "lprop") ⊎ (p.scheme ≡ codes "solo")
  pub fee : IsFee p.pool_fee_percent
  pub min_payout : leb_ℤ (pos 0) p.min_payout_sat ≡ true
  pub interval : ltb_ℤ (pos 0) p.interval_sec ≡ true
  pub maturity : ltb_ℤ (pos 0) p.block_maturity ≡ true

-- What the rest of the program can rely on.
pub record Valid (cfg : Config) : Type 0 where
  pub pool_id : cfg.pool_id ≢ []
  pub coinbase : ValidCoinbase cfg.coinbase
  pub payouts : ValidPayouts cfg.payouts

not_empty : (s : Text) → text_eq s [] ≡ false → s ≢ []
not_empty s h e = ground (arith, eq→text_eq s [] e)

check_coinbase_ok : (c : Coinbase) (u : Unit {0}) → check_coinbase c ≡ ok u → ValidCoinbase c
unfolding check_coinbase
check_coinbase_ok c u h =
    let (u0, a, h0) = >>=_ok (refuse_if _ _) _ u h in
    let (u1, b, h1) = >>=_ok (refuse_if _ _) _ u h0 in
    let (u2, d, h2) = >>=_ok (refuse_if _ _) _ u h1 in
    record {
      address = not_empty c.address (refuse_if_ok _ _ u0 a);
      fee = fee_lem c.developer_fee_percent (refuse_if_ok _ _ u1 b) (refuse_if_ok _ _ u2 d);
      fee_address = refuse_if_ok _ _ u h2;
    }

scheme_lem :
    (s : Text) (a b : Bool)
    → text_eq s (codes "lprop") ≡ a
    → text_eq s (codes "solo") ≡ b
    → (not a && not b) ≡ false
    → (s ≡ codes "lprop") ⊎ (s ≡ codes "solo")
scheme_lem s true b h k e = inl (text_eq→eq s _ h)
scheme_lem s false true h k e = inr (text_eq→eq s _ k)
scheme_lem s false false h k e = ground (arith, e)

check_payouts_ok : (p : Payouts) (u : Unit {0}) → check_payouts p ≡ ok u → ValidPayouts p
unfolding check_payouts
check_payouts_ok p u h =
    let (u0, a, h0) = >>=_ok (refuse_if _ _) _ u h in
    let (u1, b, h1) = >>=_ok (refuse_if _ _) _ u h0 in
    let (u2, d, h2) = >>=_ok (refuse_if _ _) _ u h1 in
    let (u3, f, h3) = >>=_ok (refuse_if _ _) _ u h2 in
    let (u4, g, h4) = >>=_ok (refuse_if _ _) _ u h3 in
    record {
      scheme = scheme_lem p.scheme _ _ refl refl (refuse_if_ok _ _ u0 a);
      fee = fee_lem p.pool_fee_percent (refuse_if_ok _ _ u1 b) (refuse_if_ok _ _ u2 d);
      min_payout = flip_lt p.min_payout_sat (refuse_if_ok _ _ u3 f);
      interval = flip_le p.interval_sec (refuse_if_ok _ _ u4 g);
      maturity = flip_le p.block_maturity (refuse_if_ok _ _ u h4);
    }
  where
    flip_lt : (z : ℤ) → ltb_ℤ z (pos 0) ≡ false → leb_ℤ (pos 0) z ≡ true
    flip_lt z h = ground (arith, h)

    flip_le : (z : ℤ) → leb_ℤ z (pos 0) ≡ false → ltb_ℤ (pos 0) z ≡ true
    flip_le z h = ground (arith, h)

-- The configuration that Load returns of what it decoded.
abbrev pub finished : Text → Config → Config
finished database_url cfg = record cfg {
  database_url = database_url;
  payouts = record cfg.payouts { scheme = or_lprop cfg.payouts.scheme };
}

check_config_ok :
    (url : Text) (cfg out : Config)
    → check_config url cfg ≡ ok out
    → (out ≡ finished url cfg) × Valid out
unfolding check_config
check_config_ok url cfg out h =
    let (u0, a, h0) = >>=_ok (refuse_if _ _) _ out h in
    let (u1, b, h1) = >>=_ok (check_coinbase cfg.coinbase) _ out h0 in
    let (u2, d, h2) =
      >>=_ok (check_payouts (finished url cfg).payouts) (λ u. ok (finished url cfg)) out h1 in
    let e = ok_injective (finished url cfg) out h2 in
    (
      sym e,
      rw (← e) (record {
        pool_id = not_empty cfg.pool_id (refuse_if_ok _ _ u0 a);
        coinbase = check_coinbase_ok cfg.coinbase u1 b;
        payouts = check_payouts_ok _ u2 d;
      }),
    )

-- The converse: each check passes.
pass : (b : Bool) (e : ConfigError) → b ≡ false → refuse_if b e ≡ ok tt
pass b e h = rw h refl

passes :
    {A : Type 0} (r : Result ConfigError (Unit {0})) (f : Unit {0} → Result ConfigError A) (a : A)
    → r ≡ ok tt
    → f tt ≡ ok a
    → (r >>= f) ≡ ok a
passes r f a h k = rw h k

in_range : (v : Float64) → IsFee v → out_of_range v ≡ false
in_range v h = ground (arith, h.from_zero, h.below_hundred)

empty_test : (s : Text) → s ≢ [] → text_eq s [] ≡ false
empty_test s h = elim (Bool-cases (text_eq s [])) [
  | inl e ↦ absurd (h (text_eq→eq s [] e))
  | inr e ↦ e
]

check_coinbase_complete : (c : Coinbase) → ValidCoinbase c → check_coinbase c ≡ ok tt
unfolding check_coinbase
check_coinbase_complete c v = passes _ _ tt (pass _ _ (empty_test c.address v.address)) (
    passes _ _ tt (pass _ _ (in_range c.developer_fee_percent v.fee)) (
      passes _ _ tt (pass _ _ (ap not (decimals_complete c.developer_fee_percent v.fee.decimals)))
        (pass _ _ v.fee_address)))

and_not : (a b : Bool) → (a ≡ true) ⊎ (b ≡ true) → (not a && not b) ≡ false
and_not true b h = refl
and_not false true h = refl
and_not false false (inl h) = ground (arith, h)
and_not false false (inr h) = ground (arith, h)

known :
    (s : Text)
    → (s ≡ codes "lprop") ⊎ (s ≡ codes "solo")
    → (not (text_eq s (codes "lprop")) && not (text_eq s (codes "solo"))) ≡ false
known s (inl e) = and_not _ _ (inl (eq→text_eq s (codes "lprop") e))
known s (inr e) = and_not _ _ (inr (eq→text_eq s (codes "solo") e))

not_negative : (z : ℤ) → leb_ℤ (pos 0) z ≡ true → ltb_ℤ z (pos 0) ≡ false
not_negative z h = ground (arith, h)

not_zero : (z : ℤ) → ltb_ℤ (pos 0) z ≡ true → leb_ℤ z (pos 0) ≡ false
not_zero z h = ground (arith, h)

check_payouts_complete : (p : Payouts) → ValidPayouts p → check_payouts p ≡ ok tt
unfolding check_payouts
check_payouts_complete p v = passes _ _ tt (pass _ _ (known p.scheme v.scheme)) (
    passes _ _ tt (pass _ _ (in_range p.pool_fee_percent v.fee)) (
      passes _ _ tt (pass _ _ (ap not (decimals_complete p.pool_fee_percent v.fee.decimals))) (
        passes _ _ tt (pass _ _ (not_negative p.min_payout_sat v.min_payout)) (
          passes _ _ tt (pass _ _ (not_zero p.interval_sec v.interval))
            (pass _ _ (not_zero p.block_maturity v.maturity))))))

check_config_complete :
    (url : Text) (cfg : Config)
    → Valid (finished url cfg)
    → check_config url cfg ≡ ok (finished url cfg)
unfolding check_config
check_config_complete url cfg v = passes _ _ _ (pass _ _ (empty_test cfg.pool_id v.pool_id)) (
    passes _ _ _ (check_coinbase_complete cfg.coinbase v.coinbase)
      (passes _ _ _ (check_payouts_complete _ v.payouts) refl))

-- Load returns of a decoded file the configuration with the default scheme and with the database URL
-- of the environment where that is valid, and an error where it is not: it is valid if it has a pool
-- and an address, both fees are from 0 to below 100 percent and a hundred times each is less than
-- 1e-9 away from its nearest whole number, in float64, a developer fee has an address, the scheme is
-- one of the two, and of the three bounds of the payouts the smallest payout is at least 0 and the
-- other two are above 0.
pub check_config_lem :
    (url : Text) (cfg : Config)
    → (Valid (finished url cfg) × (check_config url cfg ≡ ok (finished url cfg)))
      ⊎ (¬ Valid (finished url cfg) × (e : ConfigError) × (check_config url cfg ≡ err e))
check_config_lem url cfg = elim (Result-cases (check_config url cfg)) [
  | inl (out, h) ↦ let (e, v) = check_config_ok url cfg out h in inl (rw (sym e) v, h ∙ ap ok e)
  | inr (e, h) ↦ inr ((λ v. ok-err (sym (check_config_complete url cfg v) ∙ h)), e, h)
]
