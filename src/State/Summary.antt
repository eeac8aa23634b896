-- ===== src/State/Summary.antt =====
-- (*Store).Summary: the sums over the telemetry of the devices of a site.
use vpp_lab.Prelude.{ℕ, zero, suc, String, none, some, List, [], ◌∷◌, ◌==◌, if◌then◌else◌}
use vpp_lab.Prelude.Int.{pos}
use vpp_lab.Prelude.Float.{Float}
use vpp_lab.Prelude.Dict.{Dict, lookup, values}
use vpp_lab.Prelude.Clock.{Time, zero_time, unix, after}
use vpp_lab.Model.{Device, Telemetry, SiteSummary, device_pv, device_load, device_battery}
use vpp_lab.State.{Store, state_key}

-- The variables of the loop.
pub record Sums (R : Type 0) : Type 0 where
  pub pv : R
  pub load : R
  pub battery : R
  pub soc_sum : R
  pub soc_count : ℕ
  pub updated : Time

module _ {R : Type 0} ⦃F : Float R⦄ where
  abbrev pub zero_float : R
  zero_float = F.decimal 0 0

  -- m[k] on a map of numbers: zero where the key is missing.
  unfoldable pub metric : String → Telemetry R → R
  metric key t = elim (lookup key t.metrics) [ none ↦ zero_float | some v ↦ v ]

  -- The `switch` on the device's type.
  unfoldable pub add_power : Device R → Telemetry R → Sums R → Sums R
  unfolding metric
  add_power d t a =
      let power = metric "power" t in
      if d.type == device_pv
      then record a { pv = F.add a.pv power }
      else if d.type == device_load
      then record a { load = F.add a.load power }
      else if d.type == device_battery
      then (elim (lookup "soc" t.metrics) [
        | none ↦ record a { battery = F.add a.battery power }
        | some soc ↦ record a {
          battery = F.add a.battery power;
          soc_sum = F.add a.soc_sum soc;
          soc_count = suc a.soc_count;
        }
      ])
      else a

  unfoldable pub touch : Telemetry R → Sums R → Sums R
  touch t a =
      let ts = unix t.timestamp in if after ts a.updated then record a { updated = ts } else a

  -- One turn of the loop: `continue` where the telemetry's device is unknown or of another site.
  unfoldable pub add_telemetry : String → Dict (Device R) → Telemetry R → Sums R → Sums R
  unfolding add_power touch
  add_telemetry site devices t a = elim (lookup (state_key t.site_id t.device_id) devices) [
    | none ↦ a
    | some d ↦ if d.site_id == site then touch t (add_power d t a) else a
  ]

  unfoldable pub add_all : String → Dict (Device R) → List (Telemetry R) → Sums R → Sums R
  unfolding add_telemetry
  add_all site devices [] a = a
  add_all site devices (t ∷ ts) a = add_all site devices ts (add_telemetry site devices t a)

  unfoldable pub no_sums : Sums R
  no_sums = record {
    pv = zero_float;
    load = zero_float;
    battery = zero_float;
    soc_sum = zero_float;
    soc_count = 0;
    updated = zero_time;
  }

  finish : String → Sums R → SiteSummary R
  finish site a = record {
    site_id = site;
    pv_power_w = a.pv;
    load_power_w = a.load;
    battery_power = a.battery;
    net_power_w = F.sub (F.sub a.load a.pv) a.battery;
    avg_soc = elim a.soc_count [
      | zero ↦ zero_float
      | suc n ↦ F.div a.soc_sum (F.of_int (pos (suc n)))
    ];
    last_updated = a.updated;
  }

  unfoldable pub summary : String → Store R → SiteSummary R
  unfolding add_all no_sums finish
  summary site s = finish site (add_all site s.devices (values s.telemetry) no_sums)
