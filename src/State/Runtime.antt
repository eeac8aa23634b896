-- ===== src/State/Runtime.antt =====
-- (*Store).DeviceStates: the runtime state of each device of a site, in the order of type and id.
use vpp_lab.Prelude.{
  String, Bool, false, Option, none, some, List, [], ◌∷◌, ◌==◌, if◌then◌else◌, str_lt,
}
use vpp_lab.Prelude.Int.{pos, ltb_ℤ, leb_ℤ}
use vpp_lab.Prelude.Float.{Float}
use vpp_lab.Prelude.Dict.{Dict, lookup, values}
use vpp_lab.Prelude.Clock.{Time, Duration, zero_time, is_zero, unix, sub_time, seconds}
use vpp_lab.Prelude.Sort.{sort}
use vpp_lab.Model.{Device, Telemetry, DeviceRuntimeState}
use vpp_lab.State.{Store, state_key}

-- `less` of the sort: by type, then by id.
unfoldable pub device_less : {R : Type 0} → DeviceRuntimeState R → DeviceRuntimeState R → Bool
device_less a b =
    if a.device.type == b.device.type
    then str_lt a.device.id b.device.id
    else str_lt a.device.type b.device.type

-- A duration below zero counts as zero.
unfoldable pub stale_for : Time → Time → Duration
stale_for now seen = let d = sub_time now seen in if ltb_ℤ d (pos 0) then pos 0 else d

module _ {R : Type 0} ⦃F : Float R⦄ where
  unfoldable pub runtime_state :
      Time → Duration → Device R → Option (Telemetry R) → DeviceRuntimeState R
  runtime_state now ttl d none = record {
    device = d;
    telemetry = none;
    online = false;
    last_seen_at = zero_time;
    stale_for_sec = pos 0;
  }
  runtime_state now ttl d (some t) =
      let seen = unix t.timestamp in
      let stale = stale_for now seen in
      record {
        device = d;
        telemetry = some t;
        online = if is_zero seen then false else leb_ℤ stale ttl;
        last_seen_at = seen;
        stale_for_sec = if is_zero seen then pos 0 else F.to_int (seconds stale);
      }

  unfoldable pub site_states :
      String → Time → Duration → Dict (Telemetry R) → List (Device R) → List (DeviceRuntimeState R)
  site_states site now ttl telemetry [] = []
  site_states site now ttl telemetry (d ∷ ds) =
      let rest = site_states site now ttl telemetry ds in
      if d.site_id == site
      then runtime_state now ttl d (lookup (state_key site d.id) telemetry) ∷ rest
      else rest

  unfoldable pub device_states : String → Time → Duration → Store R → List (DeviceRuntimeState R)
  unfolding sort site_states runtime_state
  device_states site now ttl s =
      sort device_less (site_states site now ttl s.telemetry (values s.devices))
