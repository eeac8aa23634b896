-- ===== src/Examples/Site.antt =====
-- A site with a battery and a load that is not critical: its devices, telemetry, store and policy.
use vpp_lab.Prelude.{String, true, false, [], ◌∷◌, ◌*◌, ◌+◌}
use vpp_lab.Prelude.Int.{ℤ, pos}
use vpp_lab.Prelude.Clock.{Time, second, hour, unix_epoch}
use vpp_lab.Model.{
  Device, Telemetry, Command, CommandAck, DeviceEvent, SiteSummary, Policy, text, device_battery,
  device_load,
}
use vpp_lab.Optimizer.{Config}
use vpp_lab.Examples.Fixed.{scale}

abbrev pub home : String
home = "home-lab"

abbrev pub battery : Device ℤ
battery = record {
  id = "battery_01";
  site_id = home;
  type = device_battery;
  name = "battery";
  rated_power_w = pos (50 * scale);
  capacity_wh = pos (150 * scale);
  critical_load = false;
  created_at = pos 0;
}

abbrev pub lamp : Device ℤ
lamp = record {
  id = "load_02";
  site_id = home;
  type = device_load;
  name = "lamp";
  rated_power_w = pos (45 * scale);
  capacity_wh = pos 0;
  critical_load = false;
  created_at = pos 0;
}

abbrev pub battery_telemetry : Telemetry ℤ
battery_telemetry = record {
  device_id = "battery_01";
  site_id = home;
  type = device_battery;
  timestamp = pos 1700000000;
  metrics = ("power", pos 0) ∷ ("soc", pos 650000) ∷ [];
  state = "idle";
  seq = pos 1;
}

abbrev pub lamp_telemetry : Telemetry ℤ
lamp_telemetry = record {
  device_id = "load_02";
  site_id = home;
  type = device_load;
  timestamp = pos 1700000000;
  metrics = ("power", pos (45 * scale)) ∷ [];
  state = "on";
  seq = pos 1;
}

-- Noon of the day 2023-11-14, in UTC.
abbrev pub noon : Time
noon = pos ((unix_epoch + 1699963200) * second)

-- Eight hours later, when power is dear.
abbrev pub dusk : Time
dusk = pos ((unix_epoch + 1699963200) * second + 8 * hour)

abbrev pub policy : Policy ℤ
policy = record {
  battery_min_soc = pos 250000;
  battery_max_soc = pos 900000;
  load_shed_threshold = pos (80 * scale);
}

abbrev pub discharge_command : Command ℤ
discharge_command = record {
  command_id = "battery_01-1";
  action = "set_mode";
  params = ("mode", text "discharging") ∷ [];
  issued_at = pos 1699963200;
  reason = "load deficit: discharge battery";
}

abbrev pub accepted : CommandAck
accepted = record { command_id = "battery_01-1"; ok = true; error = ""; timestamp = pos 1699963201 }

abbrev pub low_soc : DeviceEvent ℤ
low_soc = record {
  event_id = "battery_01-low_soc-1";
  site_id = home;
  device_id = "battery_01";
  device_type = device_battery;
  severity = "warning";
  code = "low_soc";
  message = "battery SOC is below 20%";
  details = [];
  timestamp = pos 1699963200;
  created_at = noon;
}

-- A load of 45 W, and nothing else.
abbrev pub evening : SiteSummary ℤ
evening = record {
  site_id = home;
  pv_power_w = pos 0;
  load_power_w = pos (45 * scale);
  battery_power = pos 0;
  net_power_w = pos (45 * scale);
  avg_soc = pos 650000;
  last_updated = noon;
}

-- The request of a plan that leaves all to the defaults.
abbrev pub no_config : Config ℤ
no_config = record {
  horizon_hours = pos 0;
  slot_minutes = pos 0;
  battery_capacity_wh = pos 0;
  battery_power_limit_w = pos 0;
  min_soc = pos 0;
  max_soc = pos 0;
  tariffs = [];
  min_soc_set = false;
  max_soc_set = false;
}
