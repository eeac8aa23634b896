-- ===== src/Optimizer/Forecast.antt =====
-- plan.go: the forecasts of an hour, the prices of the tariff bands, and the next state of charge.
use vpp_lab.Prelude.{
  ℕ, String, Option, none, some, List, [], ◌∷◌, ◌&&◌, ◌==◌, ltb, leb, if◌then◌else◌,
}
use vpp_lab.Prelude.Int.{pos, ltb_ℤ, leb_ℤ}
use vpp_lab.Prelude.Float.{Float}
use vpp_lab.Prelude.Clock.{Time, Duration, hour_of, minute_of}
use vpp_lab.Optimizer.{TariffBand, Config}

module _ {R : Type 0} ⦃F : Float R⦄ where
  unfoldable pub forecast_pv : Duration → Time → R → R
  forecast_pv zone t current =
      let hour =
        F.add (F.of_int (pos (hour_of zone t)))
          (F.div (F.of_int (pos (minute_of zone t))) (F.decimal 60 0)) in
      let shape = F.sin (F.mul (F.div (F.sub hour (F.decimal 6 0)) (F.decimal 12 0)) F.pi) in
      if F.lt shape (F.decimal 0 0) then F.decimal 0 0 else F.mul current shape

  load_multiplier : ℕ → R
  load_multiplier hour =
      if leb 7 hour && ltb hour 10
      then F.decimal 115 2
      else if leb 18 hour && ltb hour 23
      then F.decimal 135 2
      else if leb 0 hour && ltb hour 6
      then F.decimal 75 2
      else F.decimal 10 1

  unfoldable pub forecast_load : Duration → Time → R → R
  unfolding load_multiplier
  forecast_load zone t current = F.mul current (load_multiplier (hour_of zone t))

  unfoldable pub price_in : ℕ → List (TariffBand R) → R
  price_in h [] = F.decimal 58 2
  price_in h (b ∷ bs) =
      if leb_ℤ b.start_hour (pos h) && ltb_ℤ (pos h) b.end_hour then b.price else price_in h bs

  unfoldable pub price_at : Duration → Time → List (TariffBand R) → R
  unfolding price_in
  price_at zone t bands = price_in (hour_of zone t) bands

  unfoldable pub low_from : R → List (TariffBand R) → R
  low_from min [] = min
  low_from min (b ∷ bs) = low_from (if F.lt b.price min then b.price else min) bs

  -- lowPrice; `none` is the panic of bands[0] where there is no band.
  unfoldable pub low_price : List (TariffBand R) → Option R
  unfolding low_from
  low_price [] = none
  low_price (b ∷ bs) = some (low_from b.price (b ∷ bs))

  unfoldable pub high_from : R → List (TariffBand R) → R
  high_from max [] = max
  high_from max (b ∷ bs) = high_from (if F.lt max b.price then b.price else max) bs

  unfoldable pub high_price : List (TariffBand R) → Option R
  unfolding high_from
  high_price [] = none
  high_price (b ∷ bs) = some (high_from b.price (b ∷ bs))

  unfoldable pub clamp : R → R → R → R
  clamp v min max = if F.lt v min then min else if F.lt max v then max else v

  unfoldable pub next_soc : R → String → R → Config R → R
  unfolding clamp
  next_soc soc mode power cfg =
      let delta =
        F.div (F.div (F.mul power (F.of_int cfg.slot_minutes)) (F.decimal 60 0))
          cfg.battery_capacity_wh in
      clamp
        (if mode == "charge"
          then F.add soc delta
          else if mode == "discharge"
          then F.sub soc delta
          else soc)
        cfg.min_soc cfg.max_soc

  unfoldable pub round2 : R → R
  round2 v = F.div (F.round (F.mul v (F.decimal 100 0))) (F.decimal 100 0)

  unfoldable pub round4 : R → R
  round4 v = F.div (F.round (F.mul v (F.decimal 10000 0))) (F.decimal 10000 0)
