-- ===== src/Examples/Planning.antt =====
-- The theorems on the plan and its dispatch, applied to the site.
use vpp_lab.Prelude.{true, none, some, [], ◌∷◌, ◌≡◌, refl, arith}
use vpp_lab.Prelude.Int.{ℤ, pos, ◌≤ℤ◌}
use vpp_lab.Optimizer.{Config, TariffBand, normalize_config, validate_config}
use vpp_lab.Optimizer.Forecast.{low_price, high_price}
use vpp_lab.Optimizer.Plan.{
  Slot, Plan, build_normalized, build_day_ahead_plan, current_slot, contains, first_soc, plan_at,
}
use vpp_lab.Optimizer.Minutes.{max_hours}
use vpp_lab.Optimizer.Slots.{Covers, build_day_ahead_plan-Covers}
use vpp_lab.Optimizer.Soc.{InLimits, Feasible, build_normalized-Feasible}
use vpp_lab.Optimizer.Prices.{IsPriceOf, AtLeast, AtMost, low_high_price}
use vpp_lab.Dispatch.Outcome.{Outcome}
use vpp_lab.Examples.Fixed.{fixed, fixed_laws}
use vpp_lab.Examples.Site.{dusk, evening, no_config}

no_config-accepted : validate_config ⦃F = fixed⦄ no_config ≡ none
unfolding validate_config
no_config-accepted = refl

horizon-le : (normalize_config ⦃F = fixed⦄ no_config).horizon_hours ≤ℤ pos max_hours
unfolding normalize_config
horizon-le = omega arith

-- The plan of the evening has an active slot.
build_day_ahead_plan-Covers_example :
    (plan : Plan ℤ) × (s : Slot ℤ) × (build_day_ahead_plan ⦃F = fixed⦄
        (pos 0)
        dusk
        evening
        no_config
      ≡ some plan)
    × Covers ⦃F = fixed⦄ dusk (normalize_config ⦃F = fixed⦄ no_config) plan
    × (current_slot plan dusk ≡ some s)
    × (contains dusk s ≡ true)
build_day_ahead_plan-Covers_example =
    build_day_ahead_plan-Covers ⦃F = fixed⦄ (pos 0) dusk evening no_config no_config-accepted
      horizon-le

abbrev valley : TariffBand ℤ
valley = record { name = "valley"; start_hour = pos 0; end_hour = pos 7; price = pos 320000 }

abbrev peak : TariffBand ℤ
peak = record { name = "peak"; start_hour = pos 18; end_hour = pos 23; price = pos 950000 }

low_high_price_example :
    (low : ℤ) × (high : ℤ) × (low_price ⦃F = fixed⦄ (valley ∷ peak ∷ []) ≡ some low)
    × (high_price ⦃F = fixed⦄ (valley ∷ peak ∷ []) ≡ some high)
    × IsPriceOf low (valley ∷ peak ∷ [])
    × IsPriceOf high (valley ∷ peak ∷ [])
    × AtLeast ⦃F = fixed⦄ fixed_laws low (valley ∷ peak ∷ [])
    × AtMost ⦃F = fixed⦄ fixed_laws high (valley ∷ peak ∷ [])
low_high_price_example = low_high_price ⦃F = fixed⦄ fixed_laws valley (peak ∷ [])

-- One hour in four slots, at the two prices.
abbrev one_hour : Config ℤ
one_hour = record {
  horizon_hours = pos 1;
  slot_minutes = pos 15;
  battery_capacity_wh = pos 150000000;
  battery_power_limit_w = pos 50000000;
  min_soc = pos 250000;
  max_soc = pos 900000;
  tariffs = valley ∷ peak ∷ [];
  min_soc_set = true;
  max_soc_set = true;
}

one_hour_plan :
    build_normalized ⦃F = fixed⦄ (pos 0) dusk evening one_hour
    ≡ some (plan_at ⦃F = fixed⦄ (pos 0) dusk evening one_hour (pos 320000) (pos 950000))
unfolding build_normalized low_price high_price
one_hour_plan = refl

build_normalized-Feasible_example :
    InLimits ⦃F = fixed⦄ one_hour (first_soc ⦃F = fixed⦄ one_hour evening)
    × Feasible ⦃F = fixed⦄ one_hour
        (first_soc ⦃F = fixed⦄ one_hour evening)
        (plan_at ⦃F = fixed⦄ (pos 0) dusk evening one_hour (pos 320000) (pos 950000)).slots
build_normalized-Feasible_example =
    build_normalized-Feasible ⦃F = fixed⦄ fixed_laws (pos 0) dusk evening one_hour _ refl
      one_hour_plan
