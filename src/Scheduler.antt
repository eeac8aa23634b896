-- ===== src/Scheduler.antt =====
-- internal/scheduler/scheduler.go: the rules that a tick applies to the state of the site, and the
-- cooldown of repeated commands. Ticks run one after another, as in `Run`.
pub mod Published
pub mod Rules
pub mod Keeps
pub mod Cooldown
use Prim.Native.String.{◌++◌ as append}
use vpp_lab.Prelude.{
  ℕ, suc, String, Bool, true, false, Option, none, some, List, [], ◌∷◌, ◌==◌, if◌then◌else◌, not,
  keep, format_int, ◌||◌, ◌&&◌,
}
use vpp_lab.Prelude.Int.{ℤ, pos, negsuc, ltb_ℤ, eq_ℤ}
use vpp_lab.Prelude.Float.{Float}
use vpp_lab.Prelude.Dict.{Dict, lookup, insert, erase}
use vpp_lab.Prelude.Clock.{Time, Duration, zero_time, second, sub_time, unix_seconds, unix_nano}
use vpp_lab.Model.{
  Device, Telemetry, Command, Policy, SiteSummary, Value, bool, text, device_battery, device_load,
}
use vpp_lab.State.{Store, list_devices, telemetry_for_site}
use vpp_lab.State.Summary.{summary, metric, zero_float}

-- A call of PublishCommand: the reading of the clock that made the command, and whether it was accepted.
pub record Call (R : Type 0) : Type 0 where
  pub device : Device R
  pub command : Command R
  pub read : ℕ
  pub accepted : Bool

-- The fields of the struct, with the readings of the clock and the calls (the last first) so far.
pub record Scheduler (R : Type 0) : Type 0 where
  pub site_id : String
  pub policy : Policy R
  pub last_sent : Dict Time
  pub cooldown : Duration
  pub reads : ℕ
  pub calls : List (Call R)

-- What the scheduler does not implement. The n-th reading of the clock is `clock n`. The commander (the
-- MQTT client) answers each call as it likes, given the calls before it: true where it returns no error.
-- `marshal` is json.Marshal on the parameters of a command.
pub record Env (R : Type 0) : Type 0 where
  pub clock : ℕ → Time
  pub commander : List (Call R) → String → Device R → Command R → Bool
  pub marshal : Dict (Value R) → String

-- m[k] on a map of times: the zero time where the key is missing.
unfoldable pub time_at : String → Dict Time → Time
time_at key m = elim (lookup key m) [ none ↦ zero_time | some t ↦ t ]

module _ {R : Type 0} where
  unfoldable pub new : String → Policy R → Scheduler R
  new site_id policy = record {
    site_id = site_id;
    policy = policy;
    last_sent = [];
    cooldown = pos 30000000000;
    reads = 0;
    calls = [];
  }

  unfoldable pub set_policy : Policy R → Scheduler R → Scheduler R
  set_policy p s = record s { policy = p }

  abbrev pub mode : String → Dict (Value R)
  mode name = ("mode", text name) ∷ []

  abbrev pub relay : Bool → Dict (Value R)
  relay on = ("on", bool on) ∷ []

  unfoldable pub make_command : Time → Device R → String → String → Dict (Value R) → Command R
  make_command now d action reason params = record {
    command_id = append d.id (append "-" (format_int (unix_nano now)));
    action = action;
    params = params;
    issued_at = unix_seconds now;
    reason = reason;
  }

module _ {R : Type 0} (env : Env R) where
  open env use {clock, commander, marshal}

  unfoldable pub command_key : String → String → Dict (Value R) → String
  command_key device_id action params =
      append device_id (append ":" (append action (append ":" (marshal params))))

  -- After the check of the cooldown: `read` is the reading of the clock taken as `now`.
  unfoldable pub send : ℕ → String → Device R → Command R → Scheduler R → Bool × Scheduler R
  unfolding time_at
  send read key d cmd s =
      let now = clock read in
      let accepted = commander s.calls s.site_id d cmd in
      let call : Call R = record { device = d; command = cmd; read = read; accepted = accepted } in
      let sent = insert key now s.last_sent in
      let kept = if eq_ℤ (time_at key sent) now then erase key sent else sent in
      if accepted
      then (true, record s { last_sent = sent; calls = call ∷ s.calls })
      else (false, record s { last_sent = kept; calls = call ∷ s.calls })

  unfoldable pub publish :
      Device R → String → String → Dict (Value R) → Scheduler R → Bool × Scheduler R
  unfolding send command_key make_command
  publish d action reason params s =
      let key = command_key d.id action params in
      let cmd = make_command (clock s.reads) d action reason params in
      elim (lookup key s.last_sent) [
        | none ↦ send s.reads key d cmd (record s { reads = suc s.reads })
        | some last ↦
            if ltb_ℤ (sub_time (clock (suc s.reads)) last) s.cooldown
            then (false, record s { reads = suc (suc s.reads) })
            else send s.reads key d cmd (record s { reads = suc (suc s.reads) })
      ]

module _ {R : Type 0} ⦃F : Float R⦄ where
  -- telemetry[id].Metrics["soc"], zero where there is no telemetry
  unfoldable pub soc_of : Dict (Telemetry R) → String → R
  soc_of telemetry id = elim (lookup id telemetry) [ none ↦ zero_float | some t ↦ metric "soc" t ]

  abbrev pub can_charge : Policy R → Dict (Telemetry R) → Device R → Bool
  can_charge p telemetry b = F.lt (soc_of telemetry b.id) p.battery_max_soc

  abbrev pub can_discharge : Policy R → Dict (Telemetry R) → Device R → Bool
  can_discharge p telemetry b = F.lt p.battery_min_soc (soc_of telemetry b.id)

-- The devices of a site and type, in order.
unfoldable pub of_type : {R : Type 0} → String → String → List (Device R) → List (Device R)
of_type site type devices = keep (λ d. d.site_id == site && d.type == type) devices

module _ {R : Type 0} ⦃F : Float R⦄ (env : Env R) where
  -- The loop over the batteries where power is in surplus.
  unfoldable pub charge_all :
      Policy R → Dict (Telemetry R) → List (Device R) → Scheduler R → Scheduler R
  charge_all p telemetry [] s = s
  charge_all p telemetry (b ∷ bs) s = charge_all p telemetry bs (
      if can_charge p telemetry b
      then (publish env b "set_mode" "pv surplus: charge battery" (mode "charging") s).1
      else s)

  unfoldable pub discharge_one :
      Policy R → Dict (Telemetry R) → Device R → Bool × Scheduler R → Bool × Scheduler R
  discharge_one p telemetry b (dispatched, s) =
      let (sent, s') =
        publish env b "set_mode" "load deficit: discharge battery" (mode "discharging") s in
      if can_discharge p telemetry b then (dispatched || sent, s') else (dispatched, s)

  -- The loop over the batteries where power is short, and whether a command was sent.
  unfoldable pub discharge_all :
      Policy R → Dict (Telemetry R) → List (Device R) → Bool × Scheduler R → Bool × Scheduler R
  unfolding discharge_one
  discharge_all p telemetry [] r = r
  discharge_all p telemetry (b ∷ bs) r =
      discharge_all p telemetry bs (discharge_one p telemetry b r)

  -- The loop over the loads, which returns at the first that is not critical.
  unfoldable pub shed_first : List (Device R) → Scheduler R → Scheduler R
  shed_first [] s = s
  shed_first (d ∷ ds) s =
      if d.critical_load
      then shed_first ds s
      else (publish env d "set_relay" "load shed: non-critical load off" (relay false) s).1

  unfoldable pub shed : Policy R → SiteSummary R → List (Device R) → Scheduler R → Scheduler R
  unfolding shed_first
  shed p now loads s = if F.lt p.load_shed_threshold now.net_power_w then shed_first loads s else s

  -- Where power is short: `return` if a command was sent, else the loads.
  unfoldable pub discharge_or_shed :
      Policy R → SiteSummary R → List (Device R) → Bool × Scheduler R → Scheduler R
  unfolding shed
  discharge_or_shed p now loads (dispatched, s) = if dispatched then s else shed p now loads s

  -- The body of Tick, on what it has read of the store: three reads, between which the store may change.
  unfoldable pub apply_rules :
      SiteSummary R → List (Device R) → Dict (Telemetry R) → Scheduler R → Scheduler R
  unfolding charge_all discharge_all shed discharge_or_shed of_type
  apply_rules now devices telemetry s =
      let p = s.policy in
      let batteries = of_type s.site_id device_battery devices in
      let loads = of_type s.site_id device_load devices in
      if F.lt now.net_power_w (F.neg (F.decimal 10 0))
      then charge_all p telemetry batteries s
      else if F.lt (F.decimal 10 0) now.net_power_w
      then discharge_or_shed p now loads (discharge_all p telemetry batteries (false, s))
      else shed p now loads s

  unfoldable pub tick : Store R → Scheduler R → Scheduler R
  unfolding apply_rules
  tick store s =
      apply_rules (summary s.site_id store) (list_devices store)
        (telemetry_for_site s.site_id store) s

-- What happens to a running scheduler: a tick, on the store as it is then, or a change of the policy.
pub data Event (R : Type 0) : Type 0 where
  ticked : Store R → Event R
  policy_set : Policy R → Event R

module _ {R : Type 0} ⦃F : Float R⦄ (env : Env R) where
  unfoldable pub run_loop : List (Event R) → Scheduler R → Scheduler R
  unfolding tick set_policy
  run_loop [] s = s
  run_loop (ticked store ∷ es) s = run_loop es (tick env store s)
  run_loop (policy_set p ∷ es) s = run_loop es (set_policy p s)

-- ValidatePolicy: the message of the error, if there is one.
module _ {R : Type 0} ⦃F : Float R⦄ where
  abbrev pub outside_unit : R → Bool
  outside_unit v = F.lt v (F.decimal 0 0) || F.lt (F.decimal 1 0) v

  unfoldable pub validate_policy : Policy R → Option String
  validate_policy p =
      if outside_unit p.battery_min_soc
      then some "battery_min_soc must be between 0 and 1"
      else if outside_unit p.battery_max_soc
      then some "battery_max_soc must be between 0 and 1"
      else if F.lt p.battery_max_soc p.battery_min_soc
      then some "battery_min_soc must be <= battery_max_soc"
      else if F.lt p.load_shed_threshold (F.decimal 0 0)
      then some "load_shed_threshold_w must be >= 0"
      else none
