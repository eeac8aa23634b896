-- ===== src/Repository.antt =====
-- internal/repository: the PostgreSQL tables of devices, commands, events and audit logs. A statement
-- acts on a table at once; the queries are in Repository/Queries.antt. `now` is the clock of the server, or of the caller where the code reads it.
pub mod Queries
pub mod Commands
pub mod Keys
pub mod Tables
pub mod Lists
use vpp_lab.Prelude.{
  ℕ, String, Bool, true, false, Option, none, some, List, [], ◌∷◌, ◌==◌, ◌&&◌, ◌||◌, if◌then◌else◌,
  str_lt, is_some, take, not, map,
}
use vpp_lab.Prelude.Int.{ℤ, pos, pos_part, leb_ℤ, ltb_ℤ}
use vpp_lab.Prelude.Float.{Float}
use vpp_lab.Prelude.Dict.{Dict}
use vpp_lab.Prelude.Clock.{Time, is_zero, unix, unix_seconds, after}
use vpp_lab.Prelude.Sort.{sort}
use vpp_lab.Model.{
  Device, DeviceType, Command, CommandAck, CommandRecord, DeviceEvent, AuditLog, Value,
}
use vpp_lab.Mqtt.{CommandRecorder}

-- What stands between the program and the tables: encoding/json on a map (`none` where it fails); the
-- text that a column of type JSONB gives back (`none` where it refuses one); the instant that a
-- TIMESTAMPTZ keeps; and the order of texts under the database's collation.
pub record Columns (R : Type 0) : Type 0 where
  pub marshal : Dict (Value R) → Option String
  pub unmarshal : String → Option (Dict (Value R))
  pub jsonb : String → Option String
  pub timestamptz : Time → Time
  pub text_less : String → String → Bool

-- A row of command_records; a nullable column is an option.
pub record CommandRow : Type 0 where
  pub command_id : String
  pub site_id : String
  pub device_id : String
  pub device_type : DeviceType
  pub action : String
  pub params : String
  pub reason : String
  pub issued_at : Time
  pub status : String
  pub ack_ok : Option Bool
  pub ack_error : Option String
  pub ack_timestamp : Option Time
  pub updated_at : Time

pub record EventRow : Type 0 where
  pub event_id : String
  pub site_id : String
  pub device_id : String
  pub device_type : DeviceType
  pub severity : String
  pub code : String
  pub message : String
  pub details : String
  pub event_timestamp : Time
  pub created_at : Time

pub record AuditRow : Type 0 where
  pub id : String
  pub occurred_at : Time
  pub actor : String
  pub action : String
  pub method : String
  pub path : String
  pub status_code : ℕ
  pub client_ip : String
  pub user_agent : String
  pub details : String

-- The tables, and whether the server takes statements.
pub record Database (R : Type 0) : Type 0 where
  pub devices : List (Device R)
  pub commands : List CommandRow
  pub events : List EventRow
  pub audit_logs : List AuditRow
  pub reachable : Bool

-- INSERT ... ON CONFLICT (key) DO UPDATE: `same` says that two rows have the same key, and `merge` is
-- the row that the new one leaves in the place of the old.
module _ {A : Type 0} (same : A → A → Bool) (merge : A → A → A) where
  unfoldable pub upsert_row : A → List A → List A
  upsert_row new [] = new ∷ []
  upsert_row new (old ∷ rows) =
      let rest = upsert_row new rows in if same old new then merge old new ∷ rows else old ∷ rest

unfoldable pub same_command : CommandRow → CommandRow → Bool
same_command a b = a.command_id == b.command_id

unfoldable pub same_event : EventRow → EventRow → Bool
same_event a b = a.event_id == b.event_id

unfoldable pub same_audit : AuditRow → AuditRow → Bool
same_audit a b = a.id == b.id

unfoldable pub same_device : {R : Type 0} → Device R → Device R → Bool
same_device a b = a.site_id == b.site_id && a.id == b.id

-- The DO UPDATE of each statement: the old row, and the row of the VALUES.
unfoldable pub merge_issued : CommandRow → CommandRow → CommandRow
merge_issued old new = record old {
  site_id = new.site_id;
  device_id = new.device_id;
  device_type = new.device_type;
  action = new.action;
  params = new.params;
  reason = new.reason;
  issued_at = new.issued_at;
  status = if is_some old.ack_timestamp then old.status else new.status;
  updated_at = new.updated_at;
}

unfoldable pub merge_ack : CommandRow → CommandRow → CommandRow
merge_ack old new =
    if old.device_id == new.device_id
    then record old {
      status = new.status;
      ack_ok = new.ack_ok;
      ack_error = new.ack_error;
      ack_timestamp = new.ack_timestamp;
      updated_at = new.updated_at;
    }
    else old

unfoldable pub merge_device : {R : Type 0} → Device R → Device R → Device R
merge_device old new = record new { created_at = old.created_at }

abbrev pub replace_row {ℓ} : {A : Type ℓ} → A → A → A
replace_row old new = new

abbrev pub keep_row {ℓ} : {A : Type ℓ} → A → A → A
keep_row old new = old

-- Exec of a statement on one row, whose JSON column may be refused: `none` is an error.
unfoldable pub exec {ℓ} : {A : Type ℓ} → Bool → Option String → (String → A) → Option A
exec reachable none f = none
exec reachable (some column) f = if reachable then some (f column) else none

module _ {R : Type 0} (db : Columns R) where
  -- A map as its column keeps it: `none` where it does not marshal or the column refuses it.
  unfoldable pub json_column : Dict (Value R) → Option String
  json_column m = elim (db.marshal m) [ none ↦ none | some text ↦ db.jsonb text ]

  unfoldable pub issued_row : Time → String → Device R → Command R → String → CommandRow
  issued_row now site d cmd params = record {
    command_id = cmd.command_id;
    site_id = site;
    device_id = d.id;
    device_type = d.type;
    action = cmd.action;
    params = params;
    reason = cmd.reason;
    issued_at = db.timestamptz (unix cmd.issued_at);
    status = "issued";
    ack_ok = none;
    ack_error = none;
    ack_timestamp = none;
    updated_at = db.timestamptz now;
  }

  unfoldable pub ack_row : Time → String → DeviceType → String → CommandAck → String → CommandRow
  ack_row now site type id ack params = record {
    command_id = ack.command_id;
    site_id = site;
    device_id = id;
    device_type = type;
    action = "";
    params = params;
    reason = "";
    issued_at = db.timestamptz (unix ack.timestamp);
    status = if ack.ok then "acked" else "failed";
    ack_ok = some ack.ok;
    ack_error = some ack.error;
    ack_timestamp = some (db.timestamptz (unix ack.timestamp));
    updated_at = db.timestamptz now;
  }

  unfoldable pub put_command_issued :
      Time → String → Device R → Command R → Database R → Option (Database R)
  unfolding exec json_column
  put_command_issued now site d cmd s = exec s.reachable (json_column cmd.params) (λ params.
      record s {
        commands =
            upsert_row same_command merge_issued (issued_row now site d cmd params) s.commands;
      })

  unfoldable pub put_command_ack :
      Time → String → DeviceType → String → CommandAck → Database R → Option (Database R)
  unfolding exec
  put_command_ack now site type id ack s = exec s.reachable (db.jsonb "{}") (λ params. record s {
    commands = upsert_row same_command merge_ack (ack_row now site type id ack params) s.commands;
  })

  unfoldable pub event_row : Time → DeviceEvent R → String → EventRow
  event_row now e details = record {
    event_id = e.event_id;
    site_id = e.site_id;
    device_id = e.device_id;
    device_type = e.device_type;
    severity = e.severity;
    code = e.code;
    message = e.message;
    details = details;
    event_timestamp = db.timestamptz (unix e.timestamp);
    created_at = db.timestamptz (if is_zero e.created_at then now else e.created_at);
  }

  unfoldable pub put_event : Time → DeviceEvent R → Database R → Option (Database R)
  unfolding exec json_column
  put_event now e s = exec s.reachable (json_column e.details) (λ details. record s {
    events = upsert_row same_event replace_row (event_row now e details) s.events;
  })

  unfoldable pub audit_row : Time → AuditLog R → String → AuditRow
  audit_row now log details = record {
    id = log.id;
    occurred_at = db.timestamptz (if is_zero log.occurred_at then now else log.occurred_at);
    actor = log.actor;
    action = log.action;
    method = log.method;
    path = log.path;
    status_code = log.status_code;
    client_ip = log.client_ip;
    user_agent = log.user_agent;
    details = details;
  }

  unfoldable pub put_audit_log : Time → AuditLog R → Database R → Option (Database R)
  unfolding exec json_column
  put_audit_log now log s = exec s.reachable (json_column log.details) (λ details. record s {
    audit_logs = upsert_row same_audit keep_row (audit_row now log details) s.audit_logs;
  })

  unfoldable pub dated_device : Time → Device R → Device R
  dated_device now d = record d {
    created_at = db.timestamptz (if is_zero d.created_at then now else d.created_at);
  }

  unfoldable pub upsert : Time → Device R → Database R → Option (Database R)
  unfolding dated_device
  upsert now d s =
      if s.reachable
      then some (record s {
        devices = upsert_row same_device merge_device (dated_device now d) s.devices;
      })
      else none

  -- The repository as the recorder of the MQTT client.
  unfoldable pub recorder : CommandRecorder R (Database R)
  recorder = record {
    put_command_issued = put_command_issued;
    put_command_ack = put_command_ack;
    put_event = put_event;
  }
