-- ===== src/State.antt =====
-- internal/state/state.go: the devices, their latest telemetry, the recent commands and events that
-- the platform keeps in memory, and the Redis copy of the telemetry. One operation runs at a time,
-- since each holds the mutex throughout; time.Now() is an argument.
pub mod Summary
pub mod Runtime
pub mod Lookup
pub mod Recent
pub mod Restart
pub mod Stored
use Prim.Native.String.{◌++◌ as append}
use vpp_lab.Prelude.{
  ℕ, suc, String, Bool, true, false, Option, none, some, List, [], ◌∷◌, ◌==◌, beq, ltb, take,
  if◌then◌else◌, length, keep,
}
use vpp_lab.Prelude.Dict.{Dict, lookup, insert, values}
use vpp_lab.Prelude.Clock.{Time, is_zero}
use vpp_lab.Model.{Device, Telemetry, Command, CommandAck, CommandRecord, DeviceEvent}

-- The hash at the key of the store in the Redis server, and whether the server answers.
pub record Redis : Type 0 where
  pub hash : Dict String
  pub reachable : Bool

pub record Store (R : Type 0) : Type 0 where
  pub devices : Dict (Device R)
  pub telemetry : Dict (Telemetry R)
  pub commands : List (CommandRecord R)
  pub events : List (DeviceEvent R)
  pub redis : Option Redis
  pub site_id : String

unfoldable pub state_key : String → String → String
state_key site id = append site (append "\0" id)

module _ {R : Type 0} where
  unfoldable pub new_store : Store R
  new_store = record {
    devices = [];
    telemetry = [];
    commands = [];
    events = [];
    redis = none;
    site_id = "";
  }

  unfoldable pub stamp : Time → Device R → Device R
  stamp now d = if is_zero d.created_at then record d { created_at = now } else d

  unfoldable pub upsert_device : Time → Device R → Store R → Store R
  unfolding stamp
  upsert_device now d s = record s {
    devices = insert (state_key d.site_id d.id) (stamp now d) s.devices;
  }

  unfoldable pub list_devices : Store R → List (Device R)
  list_devices s = values s.devices

  unfoldable pub device_in_site : String → String → Store R → Option (Device R)
  device_in_site site id s = lookup (state_key site id) s.devices

  -- The loop of deviceByIDLocked: the last device with the id, and how many have it.
  unfoldable pub device_scan :
      String → List (Device R) → Option (Device R) → ℕ → Option (Device R) × ℕ
  device_scan id [] found matches = (found, matches)
  device_scan id (d ∷ ds) found matches =
      device_scan id ds (if d.id == id then some d else found)
        (if d.id == id then suc matches else matches)

  only_one : Option (Device R) × ℕ → Option (Device R)
  only_one (found, matches) = if beq matches 1 then found else none

  unfoldable pub device_by_id_locked : String → Store R → Option (Device R)
  unfolding only_one
  device_by_id_locked id s = only_one (device_scan id (values s.devices) none 0)

  unfoldable pub device : String → Store R → Option (Device R)
  unfolding device_by_id_locked
  device id s = device_by_id_locked id s

  -- The site of a telemetry that names none: the device's, or else the store's.
  unfoldable pub resolve_site : Telemetry R → Store R → Telemetry R
  resolve_site t s =
      if t.site_id == ""
      then (elim (device_by_id_locked t.device_id s) [
        | some d ↦ record t { site_id = d.site_id }
        | none ↦ if s.site_id == "" then t else record t { site_id = s.site_id }
      ])
      else t

-- if len(xs) > n { xs = xs[:n] }
unfoldable pub cut {ℓ} : {A : Type ℓ} → ℕ → List A → List A
cut n xs = if ltb n (length xs) then take n xs else xs

-- How many commands and events the store keeps.
abbrev pub kept : ℕ
kept = 200

-- What HSet leaves in the server. A value that did not marshal (json.Marshal fails on a metric that is
-- NaN or infinite) is logged and not sent; a write that fails is logged and lost.
unfoldable pub hset : Redis → String → Option String → Redis
hset r key none = r
hset r key (some payload) = if r.reachable then record r { hash = insert key payload r.hash } else r

module _ {R : Type 0} where
  unfoldable pub persist_telemetry : (Telemetry R → Option String) → Telemetry R → Store R → Store R
  unfolding hset
  persist_telemetry marshal t s = elim s.redis [
    | none ↦ s
    | some r ↦ record s { redis = some (hset r (state_key t.site_id t.device_id) (marshal t)) }
  ]

  unfoldable pub store_telemetry : Telemetry R → Store R → Store R
  store_telemetry t s = record s {
    telemetry = insert (state_key t.site_id t.device_id) t s.telemetry;
  }

  unfoldable pub put_telemetry : (Telemetry R → Option String) → Telemetry R → Store R → Store R
  unfolding persist_telemetry store_telemetry
  put_telemetry marshal t s =
      let t' = resolve_site t s in persist_telemetry marshal t' (store_telemetry t' s)

  unfoldable pub telemetry_for :
      String → List (Telemetry R) → Dict (Telemetry R) → Dict (Telemetry R)
  telemetry_for site [] out = out
  telemetry_for site (t ∷ ts) out =
      telemetry_for site ts (if t.site_id == site then insert t.device_id t out else out)

  unfoldable pub telemetry_for_site : String → Store R → Dict (Telemetry R)
  unfolding telemetry_for
  telemetry_for_site site s = telemetry_for site (values s.telemetry) []

  unfoldable pub issued : Time → String → Device R → Command R → CommandRecord R
  issued now site d cmd = record {
    site_id = site;
    device_id = d.id;
    device_type = d.type;
    command = cmd;
    status = "issued";
    ack = none;
    updated_at = now;
  }

  unfoldable pub put_command_issued : Time → String → Device R → Command R → Store R → Store R
  put_command_issued now site d cmd s = record s {
    commands = cut kept (issued now site d cmd ∷ s.commands);
  }

  unfoldable pub set_commands : List (CommandRecord R) → Store R → Store R
  set_commands commands s = record s { commands = cut kept commands }

  -- The record of a command once its acknowledgement is in.
  unfoldable pub acked : Time → CommandAck → CommandRecord R → CommandRecord R
  acked now ack c = record c {
    ack = some ack;
    status = if ack.ok then "acked" else "failed";
    updated_at = now;
  }

  unfoldable pub is_for : String → CommandAck → CommandRecord R → Bool
  is_for id ack c = if c.device_id == id then c.command.command_id == ack.command_id else false

  unfoldable pub ack_first :
      Time → String → CommandAck → List (CommandRecord R) → List (CommandRecord R)
  unfolding acked is_for
  ack_first now id ack [] = []
  ack_first now id ack (c ∷ cs) =
      if is_for id ack c then acked now ack c ∷ cs else c ∷ ack_first now id ack cs

  unfoldable pub put_command_ack : Time → String → CommandAck → Store R → Store R
  unfolding ack_first
  put_command_ack now id ack s = record s { commands = ack_first now id ack s.commands }

  unfoldable pub put_event : DeviceEvent R → Store R → Store R
  put_event event s = record s { events = cut kept (event ∷ s.events) }

  unfoldable pub set_events : List (DeviceEvent R) → Store R → Store R
  set_events events s = record s { events = cut kept events }

  -- The loop of loadTelemetry over the hash; a value that does not unmarshal is skipped.
  defaults : String → String → Telemetry R → Telemetry R
  defaults site field t = record t {
    device_id = if t.device_id == "" then field else t.device_id;
    site_id = if t.site_id == "" then site else t.site_id;
  }

  load_one : String → String → Option (Telemetry R) → Dict (Telemetry R) → Dict (Telemetry R)
  unfolding defaults
  load_one site field none out = out
  load_one site field (some t) out =
      let t' = defaults site field t in insert (state_key t'.site_id t'.device_id) t' out

  unfoldable pub load_telemetry :
      (String → Option (Telemetry R))
      → String
      → Dict String
      → Dict (Telemetry R)
      → Dict (Telemetry R)
  unfolding load_one
  load_telemetry unmarshal site [] out = out
  load_telemetry unmarshal site ((field, raw) ∷ values) out =
      load_telemetry unmarshal site values (load_one site field (unmarshal raw) out)

  -- NewRedisStore: none if the server does not answer.
  unfoldable pub new_redis_store :
      (String → Option (Telemetry R)) → String → Redis → Option (Store R)
  unfolding load_telemetry new_store
  new_redis_store unmarshal site r =
      if r.reachable
      then some (record new_store {
        telemetry = load_telemetry unmarshal site r.hash [];
        redis = some r;
        site_id = site;
      })
      else none
