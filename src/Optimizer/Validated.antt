-- ===== src/Optimizer/Validated.antt =====
-- What ValidateConfig promises of the configuration that the plan is built with.
use vpp_lab.Prelude.{
  String, true, false, Option, none, some, List, [], ◌∷◌, ◌≡◌, ◌≢◌, refl, ◌&&◌, not, arith,
}
use vpp_lab.Prelude.Int.{pos, ◌<ℤ◌, ltb_ℤ}
use vpp_lab.Prelude.Float.{Float}
use vpp_lab.Optimizer.{
  Config, TariffBand, divides_60, or_else, normalize_config, validate_fields, validate_bands,
  validate_normalized, validate_config, default_tariffs,
}

or_else-none : (a b : Option String) → or_else a b ≡ none → (a ≡ none) × (b ≡ none)
or_else-none none b e = (refl, e)
or_else-none (some m) b e = absurd (cc)

module _ {R : Type 0} ⦃F : Float R⦄ where
  -- A horizon and a slot above zero, the slot a divisor of an hour, a capacity and a power that are not
  -- zero or less, limits of charge in order, and a tariff.
  pub record IsUsable (c : Config R) : Type 0 where
    pub horizon_pos : pos 0 <ℤ c.horizon_hours
    pub slot_pos : pos 0 <ℤ c.slot_minutes
    pub slot_divides : divides_60 c.slot_minutes ≡ true
    pub capacity_pos : F.le c.battery_capacity_wh (F.decimal 0 0) ≡ false
    pub power_pos : F.le c.battery_power_limit_w (F.decimal 0 0) ≡ false
    pub limits_ordered : F.lt c.max_soc c.min_soc ≡ false
    pub has_tariff : c.tariffs ≢ []

  record Positive (n : Config R) : Type 0 where
    horizon_pos : pos 0 <ℤ n.horizon_hours
    slot_pos : pos 0 <ℤ n.slot_minutes
    capacity_pos : F.le n.battery_capacity_wh (F.decimal 0 0) ≡ false
    power_pos : F.le n.battery_power_limit_w (F.decimal 0 0) ≡ false
    limits_ordered : F.lt n.max_soc n.min_soc ≡ false

  validate_normalized-Positive : (n : Config R) → validate_normalized n ≡ none → Positive n
  unfolding validate_normalized
  validate_normalized-Positive n e = ground arith

  validate_fields-divides :
      (c : Config R)
      → validate_fields c ≡ none
      → (ltb_ℤ (pos 0) c.slot_minutes && not (divides_60 c.slot_minutes)) ≡ false
  unfolding validate_fields
  validate_fields-divides c e = ground arith

  normalize_config-divides :
      (c : Config R)
      → (ltb_ℤ (pos 0) c.slot_minutes && not (divides_60 c.slot_minutes)) ≡ false
      → pos 0 <ℤ (normalize_config c).slot_minutes
      → divides_60 (normalize_config c).slot_minutes ≡ true
  unfolding normalize_config divides_60
  normalize_config-divides c e h = ground arith

  default_tariffs-ne-nil : (bs : List (TariffBand R)) → default_tariffs bs ≢ []
  unfolding default_tariffs
  default_tariffs-ne-nil [] e = cc
  default_tariffs-ne-nil (b ∷ bs) e = cc

  pub normalize_config-IsUsable :
      (c : Config R) → validate_config c ≡ none → IsUsable (normalize_config c)
  unfolding validate_config
  normalize_config-IsUsable c e =
      let (fields, rest) = or_else-none (validate_fields c) _ e in
      let (bands, normal) = or_else-none (validate_bands 0 c.tariffs) _ rest in
      let p = validate_normalized-Positive (normalize_config c) normal in
      record {
        horizon_pos = p.horizon_pos;
        slot_pos = p.slot_pos;
        slot_divides = normalize_config-divides c (validate_fields-divides c fields) (p.slot_pos);
        capacity_pos = p.capacity_pos;
        power_pos = p.power_pos;
        limits_ordered = p.limits_ordered;
        has_tariff = default_tariffs-ne-nil c.tariffs;
      }
