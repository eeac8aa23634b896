-- ===== src/Optimizer.antt =====
-- internal/optimizer/plan.go: the configuration of the day-ahead plan, its defaults and its checks. The
-- plan itself is in the modules below.
pub mod Forecast
pub mod Plan
pub mod Validated
pub mod Prices
pub mod Soc
pub mod Minutes
pub mod Slots
use Prim.Native.String.{◌++◌ as append}
use vpp_lab.Prelude.{
  ℕ, suc, String, Bool, true, false, Option, none, some, List, [], ◌∷◌, ◌&&◌, ◌||◌, not, ◌%◌,
  if◌then◌else◌, format_int, beq,
}
use vpp_lab.Prelude.Int.{ℤ, pos, neg_part, pos_part, ltb_ℤ, leb_ℤ, eq_ℤ, ◌*ℤ◌, ◌-ℤ◌, quot, int64}
use vpp_lab.Prelude.Float.{Float}

pub record TariffBand (R : Type 0) : Type 0 where
  pub name : String
  pub start_hour : ℤ
  pub end_hour : ℤ
  pub price : R

pub record Config (R : Type 0) : Type 0 where
  pub horizon_hours : ℤ
  pub slot_minutes : ℤ
  pub battery_capacity_wh : R
  pub battery_power_limit_w : R
  pub min_soc : R
  pub max_soc : R
  pub tariffs : List (TariffBand R)
  pub min_soc_set : Bool
  pub max_soc_set : Bool

-- UnmarshalJSON, after encoding/json has read the other fields into `c`: the two limits are kept with the
-- fact that the text had them, so that zero is told from absence.
unfoldable pub unmarshal_limits : {R : Type 0} → Option R → Option R → Config R → Config R
unmarshal_limits min max c =
    let c' : Config _ = elim min [
      | none ↦ c
      | some v ↦ record c { min_soc = v; min_soc_set = true }
    ] in
    elim max [ none ↦ c' | some v ↦ record c' { max_soc = v; max_soc_set = true } ]

-- 60%m == 0, for m above zero.
unfoldable pub divides_60 : ℤ → Bool
divides_60 m = beq (60 % pos_part m) 0

abbrev outside_day : ℤ → Bool
outside_day h = ltb_ℤ h (pos 0) || ltb_ℤ (pos 24) h

tariff_error : ℕ → String → Option String
tariff_error i what = some (append "tariffs[" (append (format_int (pos i)) (append "]" what)))

abbrev or_else : Option String → Option String → Option String
or_else none next = next
or_else (some e) next = some e

module _ {R : Type 0} ⦃F : Float R⦄ where
  abbrev band : String → ℕ → ℕ → ℕ → TariffBand R
  band name start stop cents = record {
    name = name;
    start_hour = pos start;
    end_hour = pos stop;
    price = F.decimal cents 2;
  }

  unfoldable pub default_config : Config R
  default_config = record {
    horizon_hours = pos 24;
    slot_minutes = pos 15;
    battery_capacity_wh = F.decimal 150 0;
    battery_power_limit_w = F.decimal 50 0;
    min_soc = F.decimal 25 2;
    max_soc = F.decimal 90 2;
    tariffs =
        band "valley" 0 7 32
        ∷ band "flat" 7 18 58
        ∷ band "peak" 18 23 95
        ∷ band "flat" 23 24 58
        ∷ [];
    min_soc_set = false;
    max_soc_set = false;
  }

  abbrev is_zero_float : R → Bool
  is_zero_float v = F.eq v (F.decimal 0 0)

  default_tariffs : List (TariffBand R) → List (TariffBand R)
  unfolding default_config
  default_tariffs [] = default_config.tariffs
  default_tariffs (b ∷ bs) = b ∷ bs

  unfoldable pub normalize_config : Config R → Config R
  unfolding default_config default_tariffs
  normalize_config c = record {
    horizon_hours =
        if eq_ℤ c.horizon_hours (pos 0) then default_config.horizon_hours else c.horizon_hours;
    slot_minutes =
        if eq_ℤ c.slot_minutes (pos 0) then default_config.slot_minutes else c.slot_minutes;
    battery_capacity_wh =
        if is_zero_float c.battery_capacity_wh
        then default_config.battery_capacity_wh
        else c.battery_capacity_wh;
    battery_power_limit_w =
        if is_zero_float c.battery_power_limit_w
        then default_config.battery_power_limit_w
        else c.battery_power_limit_w;
    min_soc =
        if is_zero_float c.min_soc && not c.min_soc_set then default_config.min_soc else c.min_soc;
    max_soc =
        if is_zero_float c.max_soc && not c.max_soc_set then default_config.max_soc else c.max_soc;
    tariffs = default_tariffs c.tariffs;
    min_soc_set = c.min_soc_set;
    max_soc_set = c.max_soc_set;
  }

  abbrev outside_unit : R → Bool
  outside_unit v = F.lt v (F.decimal 0 0) || F.lt (F.decimal 1 0) v

  -- The loop over the bands, from the i-th.
  unfoldable pub validate_bands : ℕ → List (TariffBand R) → Option String
  unfolding tariff_error
  validate_bands i [] = none
  validate_bands i (b ∷ bs) =
      let rest = validate_bands (suc i) bs in
      if outside_day b.start_hour || outside_day b.end_hour
      then tariff_error i " hours must be between 0 and 24"
      else if leb_ℤ b.end_hour b.start_hour
      then tariff_error i " start_hour must be < end_hour"
      else if F.lt b.price (F.decimal 0 0)
      then tariff_error i " price must be >= 0"
      else rest

  -- The checks of the fields as they came.
  unfoldable pub validate_fields : Config R → Option String
  unfolding divides_60
  validate_fields c =
      if ltb_ℤ c.horizon_hours (pos 0)
      then some "horizon_hours must be > 0"
      else if ltb_ℤ c.slot_minutes (pos 0)
      then some "slot_minutes must be > 0"
      else if ltb_ℤ (pos 0) c.slot_minutes && not (divides_60 c.slot_minutes)
      then some "slot_minutes must divide 60"
      else if F.lt c.battery_capacity_wh (F.decimal 0 0)
      then some "battery_capacity_wh must be > 0"
      else if F.lt c.battery_power_limit_w (F.decimal 0 0)
      then some "battery_power_limit_w must be > 0"
      else if outside_unit c.min_soc
      then some "min_soc must be between 0 and 1"
      else if outside_unit c.max_soc
      then some "max_soc must be between 0 and 1"
      else if F.lt c.max_soc c.min_soc
      then some "min_soc must be <= max_soc"
      else none

  -- The checks of the fields with the defaults filled in.
  unfoldable pub validate_normalized : Config R → Option String
  validate_normalized n =
      if leb_ℤ n.horizon_hours (pos 0)
      then some "horizon_hours must be > 0"
      else if leb_ℤ n.slot_minutes (pos 0)
      then some "slot_minutes must be > 0"
      else if F.le n.battery_capacity_wh (F.decimal 0 0)
      then some "battery_capacity_wh must be > 0"
      else if F.le n.battery_power_limit_w (F.decimal 0 0)
      then some "battery_power_limit_w must be > 0"
      else if F.lt n.max_soc n.min_soc
      then some "min_soc must be <= max_soc"
      else none

  -- The message of the error, if there is one.
  unfoldable pub validate_config : Config R → Option String
  unfolding validate_fields validate_bands validate_normalized normalize_config
  validate_config c =
      or_else (validate_fields c)
        (or_else (validate_bands 0 c.tariffs) (validate_normalized (normalize_config c)))
