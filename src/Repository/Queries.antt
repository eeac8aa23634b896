-- ===== src/Repository/Queries.antt =====
-- The queries of internal/repository: the rows that a SELECT reads, and what they become.
use vpp_lab.Prelude.{
  ℕ, String, Bool, false, Option, none, some, List, [], ◌==◌, ◌||◌, if◌then◌else◌, is_some, take,
  map,
}
use vpp_lab.Prelude.Int.{ℤ, pos, pos_part, leb_ℤ, ltb_ℤ}
use vpp_lab.Prelude.Dict.{Dict}
use vpp_lab.Prelude.Clock.{Time, unix_seconds, after}
use vpp_lab.Prelude.Sort.{sort}
use vpp_lab.Model.{Device, CommandAck, CommandRecord, DeviceEvent, AuditLog, Value}
use vpp_lab.Repository.{Columns, CommandRow, EventRow, AuditRow, Database}

-- if limit <= 0 || limit > 200 { limit = 200 }
unfoldable pub limit_of : ℤ → ℕ
limit_of limit = if leb_ℤ limit (pos 0) || ltb_ℤ (pos 200) limit then 200 else pos_part limit

abbrev pub null_bool : Option Bool → Bool
null_bool none = false
null_bool (some b) = b

abbrev pub null_string : Option String → String
null_string none = ""
null_string (some s) = s

abbrev pub null_seconds : Option Time → ℤ
unfolding unix_seconds
null_seconds none = pos 0
null_seconds (some t) = unix_seconds t

unfoldable pub scan_ack : CommandRow → Option CommandAck
scan_ack row =
    if is_some row.ack_ok || (is_some row.ack_error || is_some row.ack_timestamp)
    then some (record {
      command_id = row.command_id;
      ok = null_bool row.ack_ok;
      error = null_string row.ack_error;
      timestamp = null_seconds row.ack_timestamp;
    })
    else none

-- ORDER BY ... DESC LIMIT
unfoldable pub newest_command : CommandRow → CommandRow → Bool
newest_command a b = after a.updated_at b.updated_at

unfoldable pub newest_event : EventRow → EventRow → Bool
newest_event a b = after a.created_at b.created_at

unfoldable pub newest_audit : AuditRow → AuditRow → Bool
newest_audit a b = after a.occurred_at b.occurred_at

module _ {R : Type 0} (db : Columns R) where
  -- The map of a column; one that does not unmarshal is left empty.
  unfoldable pub from_column : String → Dict (Value R)
  from_column raw =
      if raw == "" || raw == "null"
      then []
      else (elim (db.unmarshal raw) [ none ↦ [] | some m ↦ m ])

  -- ORDER BY site_id, type, id
  unfoldable pub device_before : Device R → Device R → Bool
  device_before a b =
      if a.site_id == b.site_id
      then if a.type == b.type then db.text_less a.id b.id else db.text_less a.type b.type
      else db.text_less a.site_id b.site_id

  unfoldable pub list : Database R → Option (List (Device R))
  unfolding device_before
  list s = if s.reachable then some (sort device_before s.devices) else none

  unfoldable pub scan_command : CommandRow → CommandRecord R
  unfolding scan_ack from_column
  scan_command row = record {
    site_id = row.site_id;
    device_id = row.device_id;
    device_type = row.device_type;
    command = record {
      command_id = row.command_id;
      action = row.action;
      params = from_column row.params;
      issued_at = unix_seconds row.issued_at;
      reason = row.reason;
    };
    status = row.status;
    ack = scan_ack row;
    updated_at = row.updated_at;
  }

  unfoldable pub list_commands : ℤ → Database R → Option (List (CommandRecord R))
  unfolding scan_command limit_of newest_command
  list_commands limit s =
      if s.reachable
      then some (map scan_command (take (limit_of limit) (sort newest_command s.commands)))
      else none

  unfoldable pub scan_event : EventRow → DeviceEvent R
  unfolding from_column
  scan_event row = record {
    event_id = row.event_id;
    site_id = row.site_id;
    device_id = row.device_id;
    device_type = row.device_type;
    severity = row.severity;
    code = row.code;
    message = row.message;
    details = from_column row.details;
    timestamp = unix_seconds row.event_timestamp;
    created_at = row.created_at;
  }

  unfoldable pub list_events : ℤ → Database R → Option (List (DeviceEvent R))
  unfolding scan_event limit_of newest_event
  list_events limit s =
      if s.reachable
      then some (map scan_event (take (limit_of limit) (sort newest_event s.events)))
      else none

  unfoldable pub scan_audit : AuditRow → AuditLog R
  unfolding from_column
  scan_audit row = record {
    id = row.id;
    occurred_at = row.occurred_at;
    actor = row.actor;
    action = row.action;
    method = row.method;
    path = row.path;
    status_code = row.status_code;
    client_ip = row.client_ip;
    user_agent = row.user_agent;
    details = from_column row.details;
  }

  unfoldable pub list_audit_logs : ℤ → Database R → Option (List (AuditLog R))
  unfolding scan_audit limit_of newest_audit
  list_audit_logs limit s =
      if s.reachable
      then some (map scan_audit (take (limit_of limit) (sort newest_audit s.audit_logs)))
      else none
