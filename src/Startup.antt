-- ===== src/Startup.antt =====
-- cmd/vpp-lab/main.go: how the server is put together from its settings, its database and Redis. Connect
-- fails where the keys do not parse or the files of TLS do not load; the broker is taken to be reached.
pub mod Started
pub mod Succeeds
use vpp_lab.Prelude.{
  ℕ, String, Bool, true, false, Option, none, some, List, [], ◌∷◌, ◌==◌, ◌⊎◌, inl, inr,
  if◌then◌else◌, is_some,
}
use vpp_lab.Prelude.Int.{pos}
use vpp_lab.Prelude.Float.{Float}
use vpp_lab.Prelude.Clock.{Time, zero_time}
use vpp_lab.Model.{Device, Telemetry, Policy, device_pv, device_battery, device_load}
use vpp_lab.Config.{Config}
use vpp_lab.State.{
  Redis, Store, new_store, upsert_device, set_commands, set_events, new_redis_store,
}
use vpp_lab.Repository.{Columns, Database, upsert, put_audit_log, recorder}
use vpp_lab.Repository.Queries.{list, list_commands, list_events, list_audit_logs}
use vpp_lab.Scheduler
use vpp_lab.Timeseries.{Writer}
use vpp_lab.DeviceAuth.{Keys}
use vpp_lab.DeviceAuth.Parse.{parse_keys}
use vpp_lab.Mqtt.Tls.{TlsFiles, Files, new_tls_config}
use vpp_lab.Mqtt.{Client, healthy}
use vpp_lab.Api.{HealthCheck, DeviceSaver, AuditRecorder, Server, with_control_token}

module _ {R : Type 0} (unmarshal : String → Option (Telemetry R)) where
  unfoldable pub new_state_store : Config R → Redis → Option (Store R)
  new_state_store cfg redis =
      if cfg.redis_addr == "" then some new_store else new_redis_store unmarshal cfg.site_id redis

module _ {R : Type 0} ⦃F : Float R⦄ where
  abbrev pub seed_device : String → String → String → String → ℕ → ℕ → Bool → Device R
  seed_device site id type name power capacity critical = record {
    id = id;
    site_id = site;
    type = type;
    name = name;
    rated_power_w = F.decimal power 0;
    capacity_wh = F.decimal capacity 0;
    critical_load = critical;
    created_at = zero_time;
  }

  -- The devices of a database that has none.
  unfoldable pub seeds : String → List (Device R)
  seeds site =
      seed_device site "pv_01" device_pv "PV Simulator" 100 0 false
      ∷ seed_device site "battery_01" device_battery "Battery Pack" 80 150 false
      ∷ seed_device site "load_01" device_load "Critical Load" 40 0 true
      ∷ seed_device site "load_02" device_load "Flexible Load" 60 0 false
      ∷ []

module _ {R : Type 0} (db : Columns R) where
  -- The loop over the seeds: `none` is an error of Upsert.
  unfoldable pub save_all : Time → List (Device R) → Database R → Option (Database R)
  save_all now [] s = some s
  save_all now (d ∷ ds) s = elim (upsert db now d s) [ none ↦ none | some s' ↦ save_all now ds s' ]

module _ {R : Type 0} where
  unfoldable pub put_all : Time → List (Device R) → Store R → Store R
  put_all now [] store = store
  put_all now (d ∷ ds) store = put_all now ds (upsert_device now d store)

module _ {R : Type 0} ⦃F : Float R⦄ (db : Columns R) where
  -- From the list of the database on.
  unfoldable pub or_seed :
      Time → String → List (Device R) → Database R → Store R → Option (Database R × Store R)
  unfolding save_all put_all seeds
  or_seed now site (d ∷ ds) s store = some (s, put_all now (d ∷ ds) store)
  or_seed now site [] s store = elim (save_all db now (seeds site) s) [
    | none ↦ none
    | some s' ↦ some (s', put_all now (seeds site) store)
  ]

  unfoldable pub load_or_seed_devices :
      Time → String → Database R → Store R → Option (Database R × Store R)
  unfolding or_seed
  load_or_seed_devices now site s store = elim (list db s) [
    | none ↦ none
    | some devices ↦ or_seed now site devices s store
  ]

module _ {R : Type 0} (db : Columns R) where
  unfoldable pub load_recent_commands : Database R → Store R → Option (Store R)
  load_recent_commands s store = elim (list_commands db (pos 200) s) [
    | none ↦ none
    | some commands ↦ some (set_commands commands store)
  ]

  unfoldable pub load_recent_events : Database R → Store R → Option (Store R)
  load_recent_events s store = elim (list_events db (pos 200) s) [
    | none ↦ none
    | some events ↦ some (set_events events store)
  ]

  -- The repository as the server's DeviceSaver and AuditRecorder.
  unfoldable pub saver : DeviceSaver R (Database R)
  saver = record { upsert = λ now d s. upsert db now d s }

  unfoldable pub auditor : AuditRecorder R (Database R)
  auditor = record {
    put_audit_log = λ now log s. put_audit_log db now log s;
    list_audit_logs = λ limit s. list_audit_logs db limit s;
  }

unfoldable pub then_some {ℓ κ} : {A : Type ℓ} {B : Type κ} → Option A → (A → Option B) → Option B
then_some none f = none
then_some (some a) f = f a

abbrev pub error_of : Bool → Option String
error_of true = none
error_of false = some "disconnected"

module _ {R : Type 0} where
  abbrev pub policy_of : Config R → Policy R
  policy_of cfg = record {
    battery_min_soc = cfg.battery_min_soc;
    battery_max_soc = cfg.battery_max_soc;
    load_shed_threshold = cfg.load_shed_threshold;
  }

module _ {R Bytes : Type 0} where
  -- The checks as they answer now; the state's is Redis, where there is one.
  unfoldable pub health_checks : Client R Bytes (Database R) → List HealthCheck
  unfolding healthy
  health_checks c =
      record { name = "mqtt"; check = some (error_of (healthy c)) }
      ∷ record { name = "postgres"; check = some (error_of c.database.reachable) }
      ∷ record {
        name = "state";
        check = some (elim c.state.redis [ none ↦ none | some r ↦ error_of r.reachable ]);
      }
      ∷ []

  unfoldable pub new_client :
      Columns R → Config R → Keys → Writer R → Database R → Store R → Client R Bytes (Database R)
  new_client db cfg keys ts s store = record {
    state = store;
    ts = some ts;
    recorder = some (recorder db);
    database = s;
    keys = keys;
    max_skew = cfg.device_auth_max_skew;
    rejects = [];
    connected = true;
    sent = [];
  }

  unfoldable pub new_server :
      Columns R → Config R → Client R Bytes (Database R) → Server R Bytes (Database R)
  unfolding health_checks saver auditor
  new_server db cfg c = with_control_token cfg.control_token (record {
    site_id = cfg.site_id;
    publisher = c;
    scheduler = Scheduler.new cfg.site_id (policy_of cfg);
    saver = some (saver db);
    audit = some (auditor db);
    checks = health_checks c;
    token = "";
  })

abbrev pub right_of : {A B : Type 0} → A ⊎ B → Option B
right_of (inl err) = none
right_of (inr b) = some b

abbrev pub tls_files : {R : Type 0} → Config R → TlsFiles
tls_files cfg = record {
  ca_file = cfg.mqtt_tls_ca_file;
  cert_file = cfg.mqtt_tls_cert_file;
  key_file = cfg.mqtt_tls_key_file;
  insecure_skip_verify = cfg.mqtt_tls_insecure;
}

module _ {R Bytes Pem Pool Certificate : Type 0} ⦃F : Float R⦄
    (unmarshal : String → Option (Telemetry R)) (db : Columns R)
    (files : Files Pem Pool Certificate) where
  -- main, up to the server that it starts: `none` where it ends with log.Fatalf.
  unfoldable pub start :
      Time → Config R → Redis → Writer R → Database R → Option (Server R Bytes (Database R))
  unfolding new_state_store load_or_seed_devices load_recent_commands load_recent_events new_client
      new_server
  start now cfg redis ts s = then_some (new_state_store unmarshal cfg redis) (λ store.
      then_some (load_or_seed_devices db now cfg.site_id s store) (λ loaded.
        then_some (load_recent_commands db loaded.0 loaded.1) (λ with_commands.
          then_some (load_recent_events db loaded.0 with_commands) (λ with_events.
            then_some (right_of (parse_keys cfg.device_keys)) (λ keys.
              then_some (right_of (new_tls_config files (tls_files cfg))) (λ tls.
                some (new_server db cfg (new_client db cfg keys ts loaded.0 with_events))))))))
