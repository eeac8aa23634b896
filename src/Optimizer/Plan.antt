-- ===== src/Optimizer/Plan.antt =====
-- plan.go: BuildDayAheadPlan and CurrentSlot.
use vpp_lab.Prelude.{
  ℕ, zero, suc, String, Bool, Option, none, some, List, [], ◌∷◌, ◌&&◌, ◌*◌, ◌≡◌, arith,
  if◌then◌else◌,
}
use vpp_lab.Prelude.Int.{ℤ, pos, pos_part, leb_ℤ, eq_ℤ, ◌+ℤ◌, ◌*ℤ◌, ◌<ℤ◌, quot, int64}
use vpp_lab.Prelude.Float.{Float}
use vpp_lab.Prelude.Clock.{Time, Duration, minute, truncate, before}
use vpp_lab.Model.{SiteSummary}
use vpp_lab.Optimizer.{Config, normalize_config}
use vpp_lab.Optimizer.Forecast.{
  forecast_pv, forecast_load, price_at, low_price, high_price, clamp, next_soc, round2, round4,
}

pub record Slot (R : Type 0) : Type 0 where
  pub start_at : Time
  pub end_at : Time
  pub battery_mode : String
  pub target_power_w : R
  pub expected_price : R
  pub forecast_pv_w : R
  pub forecast_load_w : R
  pub forecast_soc : R
  pub net_load_w : R
  pub reason : String

pub record Plan (R : Type 0) : Type 0 where
  pub generated_at : Time
  pub site_id : String
  pub config : Config R
  pub slots : List (Slot R)

-- What the `switch` of the loop decides.
pub record Action (R : Type 0) : Type 0 where
  pub mode : String
  pub target : R
  pub reason : String

-- time.Duration(n) * time.Minute, on int64.
unfoldable pub minutes : ℤ → Duration
unfolding ◌*ℤ◌ int64
minutes n = int64 (n *ℤ pos minute)

-- The prices and forecasts that a slot is decided on.
pub record Outlook (R : Type 0) : Type 0 where
  pub price : R
  pub low : R
  pub high : R
  pub pv : R
  pub load : R

module _ {R : Type 0} ⦃F : Float R⦄ where
  abbrev pub net_load : Outlook R → R
  net_load o = F.sub o.load o.pv

  -- The four tests of the `switch`.
  abbrev pub in_surplus : Config R → Outlook R → R → Bool
  in_surplus cfg o soc = F.lt (F.add o.load (F.decimal 10 0)) o.pv && F.lt soc cfg.max_soc

  abbrev pub at_low_price : Config R → Outlook R → R → Bool
  at_low_price cfg o soc = F.lt o.low o.high && (F.le o.price o.low && F.lt soc cfg.max_soc)

  abbrev pub at_high_price : Config R → Outlook R → R → Bool
  at_high_price cfg o soc =
      F.lt o.low o.high
      && (F.le o.high o.price && (F.lt (F.decimal 0 0) (net_load o) && F.lt cfg.min_soc soc))

  abbrev pub over_limit : Config R → Outlook R → R → Bool
  over_limit cfg o soc = F.lt cfg.battery_power_limit_w (net_load o) && F.lt cfg.min_soc soc

  abbrev pub act : String → R → String → Action R
  act mode target reason = record { mode = mode; target = target; reason = reason }

  unfoldable pub choose : Config R → Outlook R → R → Action R
  choose cfg o soc =
      if in_surplus cfg o soc
      then act "charge" (F.min cfg.battery_power_limit_w (F.sub o.pv o.load)) "pv surplus"
      else if at_low_price cfg o soc
      then act "charge" cfg.battery_power_limit_w "low tariff"
      else if at_high_price cfg o soc
      then act "discharge" (F.min cfg.battery_power_limit_w (net_load o))
          "peak tariff and load deficit"
      else if over_limit cfg o soc
      then act "discharge" (F.min cfg.battery_power_limit_w (net_load o)) "reduce net load"
      else act "idle" (F.decimal 0 0) "balanced or battery held for constraints"

  -- The slot of an action, and the state of charge after it.
  unfoldable pub make_slot : Config R → Time → Outlook R → Action R → R → Slot R
  make_slot cfg start o a soc = record {
    start_at = start;
    end_at = start +ℤ minutes cfg.slot_minutes;
    battery_mode = a.mode;
    target_power_w = round2 a.target;
    expected_price = o.price;
    forecast_pv_w = round2 o.pv;
    forecast_load_w = round2 o.load;
    forecast_soc = round4 soc;
    net_load_w = round2 (net_load o);
    reason = a.reason;
  }

-- What stays the same through the loop.
pub record Setting (R : Type 0) : Type 0 where
  pub zone : Duration
  pub config : Config R
  pub start : Time
  pub current_pv : R
  pub current_load : R
  pub low : R
  pub high : R

module _ {R : Type 0} ⦃F : Float R⦄ where
  unfoldable pub slot_start : Setting R → ℕ → Time
  slot_start g i = g.start +ℤ minutes (int64 (pos i *ℤ g.config.slot_minutes))

  unfoldable pub outlook : Setting R → Time → Outlook R
  outlook g t = record {
    price = price_at g.zone t g.config.tariffs;
    low = g.low;
    high = g.high;
    pv = forecast_pv g.zone t g.current_pv;
    load = forecast_load g.zone t g.current_load;
  }

  unfoldable pub action_at : Setting R → ℕ → R → Action R
  action_at g i soc = choose g.config (outlook g (slot_start g i)) soc

  unfoldable pub soc_after : Setting R → ℕ → R → R
  soc_after g i soc = let a = action_at g i soc in next_soc soc a.mode a.target g.config

  -- The loop, with `rounds` turns left, from the i-th.
  unfoldable pub plan_slots : Setting R → ℕ → ℕ → R → List (Slot R)
  plan_slots g zero i soc = []
  plan_slots g (suc rounds) i soc =
      make_slot g.config (slot_start g i) (outlook g (slot_start g i)) (action_at g i soc)
        (soc_after g i soc)
      ∷ plan_slots g rounds (suc i) (soc_after g i soc)

  unfoldable pub slot_count : Config R → ℕ
  slot_count cfg =
      let n = quot (int64 (cfg.horizon_hours *ℤ pos 60)) cfg.slot_minutes in
      if leb_ℤ n (pos 0) then 96 else pos_part n

  -- The state of charge that the plan starts from.
  unfoldable pub first_soc : Config R → SiteSummary R → R
  first_soc cfg now =
      clamp (if F.eq now.avg_soc (F.decimal 0 0) then F.decimal 5 1 else now.avg_soc) cfg.min_soc
        cfg.max_soc

  unfoldable pub setting : Duration → Time → SiteSummary R → Config R → R → R → Setting R
  setting zone now summary cfg low high = record {
    zone = zone;
    config = cfg;
    start = truncate now (15 * minute);
    current_pv = F.max summary.pv_power_w (F.decimal 20 0);
    current_load = F.max summary.load_power_w (F.decimal 30 0);
    low = low;
    high = high;
  }

  unfoldable pub plan_at : Duration → Time → SiteSummary R → Config R → R → R → Plan R
  plan_at zone now summary cfg low high = record {
    generated_at = now;
    site_id = summary.site_id;
    config = cfg;
    slots =
        plan_slots (setting zone now summary cfg low high) (slot_count cfg) 0
          (first_soc cfg summary);
  }

  priced : (R → R → Plan R) → Option R → Option R → Option (Plan R)
  priced make none high = none
  priced make (some low) none = none
  priced make (some low) (some high) = some (make low high)

  -- The plan for a configuration with its defaults filled in. `none` is a panic: a division by a slot of
  -- zero minutes, or bands[0] where there is no band. The lowest and the highest price, which the loop
  -- computes anew in each turn, are computed once; the loop has at least one turn.
  unfoldable pub build_normalized : Duration → Time → SiteSummary R → Config R → Option (Plan R)
  unfolding priced
  build_normalized zone now summary cfg =
      if eq_ℤ cfg.slot_minutes (pos 0)
      then none
      else priced (plan_at zone now summary cfg) (low_price cfg.tariffs) (high_price cfg.tariffs)

  priced-some :
      (make : R → R → Plan R) (low high : Option R) (plan : Plan R)
      → priced make low high ≡ some plan
      → (l : R) × (h : R) × (plan ≡ make l h)
  unfolding priced
  priced-some make none high plan e = absurd (cc)
  priced-some make (some low) none plan e = absurd (cc)
  priced-some make (some low) (some high) plan e = (low, high, cc)

  -- A plan that is built is that of some lowest and highest price.
  pub build_normalized-some :
      (zone : Duration) (now : Time) (summary : SiteSummary R) (cfg : Config R) (plan : Plan R)
      → build_normalized zone now summary cfg ≡ some plan
      → (low : R) × (high : R) × (plan ≡ plan_at zone now summary cfg low high)
  unfolding build_normalized
  build_normalized-some zone now summary cfg plan e = priced-some _ _ _ plan (build e)
    where
      build :
          build_normalized zone now summary cfg ≡ some plan
          → priced (plan_at zone now summary cfg) (low_price cfg.tariffs) (high_price cfg.tariffs)
            ≡ some plan
      build e = ground arith

  pub priced_plan :
      (zone : Duration) (now : Time) (summary : SiteSummary R) (cfg : Config R) (l h : R)
      → pos 0 <ℤ cfg.slot_minutes
      → low_price cfg.tariffs ≡ some l
      → high_price cfg.tariffs ≡ some h
      → build_normalized zone now summary cfg ≡ some (plan_at zone now summary cfg l h)
  unfolding build_normalized
  priced_plan zone now summary cfg l h p el eh = ground arith

  unfoldable pub build_day_ahead_plan : Duration → Time → SiteSummary R → Config R → Option (Plan R)
  unfolding build_normalized
  build_day_ahead_plan zone now summary cfg =
      build_normalized zone now summary (normalize_config cfg)

-- The test of CurrentSlot: the start is not after the time, and the end is.
abbrev pub contains : {R : Type 0} → Time → Slot R → Bool
contains at s = leb_ℤ s.start_at at && before at s.end_at

unfoldable pub slot_at : {R : Type 0} → Time → List (Slot R) → Option (Slot R)
slot_at at [] = none
slot_at at (s ∷ ss) = if contains at s then some s else slot_at at ss

unfoldable pub current_slot : {R : Type 0} → Plan R → Time → Option (Slot R)
unfolding slot_at
current_slot plan at = slot_at at plan.slots
