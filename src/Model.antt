-- ===== src/Model.antt =====
-- The data of internal/model/model.go. `R` is float64; a time is an integer of nanoseconds.
use vpp_lab.Prelude.{ℕ, String, Bool, Option}
use vpp_lab.Prelude.Int.{ℤ}
use vpp_lab.Prelude.Dict.{Dict}
use vpp_lab.Prelude.Clock.{Time}

-- A value of type interface{} as encoding/json makes it; `raw` is the text of an array or object.
pub data Value (R : Type 0) : Type 0 where
  null : Value R
  bool : Bool → Value R
  num : R → Value R
  text : String → Value R
  raw : String → Value R

-- model.DeviceType is a string, and any string may stand in it.
abbrev pub DeviceType : Type 0
DeviceType = String

abbrev pub device_pv : DeviceType
device_pv = "pv"

abbrev pub device_battery : DeviceType
device_battery = "battery"

abbrev pub device_load : DeviceType
device_load = "load"

pub record Device (R : Type 0) : Type 0 where
  pub id : String
  pub site_id : String
  pub type : DeviceType
  pub name : String
  pub rated_power_w : R
  pub capacity_wh : R
  pub critical_load : Bool
  pub created_at : Time

pub record Telemetry (R : Type 0) : Type 0 where
  pub device_id : String
  pub site_id : String
  pub type : DeviceType
  pub timestamp : ℤ
  pub metrics : Dict R
  pub state : String
  pub seq : ℤ

pub record Command (R : Type 0) : Type 0 where
  pub command_id : String
  pub action : String
  pub params : Dict (Value R)
  pub issued_at : ℤ
  pub reason : String

pub record CommandAck : Type 0 where
  pub command_id : String
  pub ok : Bool
  pub error : String
  pub timestamp : ℤ

pub record CommandRecord (R : Type 0) : Type 0 where
  pub site_id : String
  pub device_id : String
  pub device_type : DeviceType
  pub command : Command R
  pub status : String
  pub ack : Option CommandAck
  pub updated_at : Time

pub record DeviceEvent (R : Type 0) : Type 0 where
  pub event_id : String
  pub site_id : String
  pub device_id : String
  pub device_type : DeviceType
  pub severity : String
  pub code : String
  pub message : String
  pub details : Dict (Value R)
  pub timestamp : ℤ
  pub created_at : Time

pub record AuditLog (R : Type 0) : Type 0 where
  pub id : String
  pub occurred_at : Time
  pub actor : String
  pub action : String
  pub method : String
  pub path : String
  pub status_code : ℕ
  pub client_ip : String
  pub user_agent : String
  pub details : Dict (Value R)

pub record SiteSummary (R : Type 0) : Type 0 where
  pub site_id : String
  pub pv_power_w : R
  pub load_power_w : R
  pub battery_power : R
  pub net_power_w : R
  pub avg_soc : R
  pub last_updated : Time

pub record DeviceRuntimeState (R : Type 0) : Type 0 where
  pub device : Device R
  pub telemetry : Option (Telemetry R)
  pub online : Bool
  pub last_seen_at : Time
  pub stale_for_sec : ℤ

pub record Policy (R : Type 0) : Type 0 where
  pub battery_min_soc : R
  pub battery_max_soc : R
  pub load_shed_threshold : R
