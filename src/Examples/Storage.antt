-- ===== src/Examples/Storage.antt =====
-- The theorems on the repository, applied to tables with a device and a command.
use Prim.Native.String.{◌++◌}
use vpp_lab.Prelude.{
  ◌==◌, ◌&&◌, true, false, some, List, [], ◌∷◌, ◌≡◌, refl, length, keep, if◌then◌else◌,
}
use vpp_lab.Prelude.Int.{ℤ, pos}
use vpp_lab.Prelude.Clock.{unix, is_zero}
use vpp_lab.Prelude.Sort.{sort, insert_sorted}
use vpp_lab.Model.{Device, CommandRecord, device_battery}
use vpp_lab.Repository.{
  Columns, CommandRow, AuditRow, Database, issued_row, same_device, same_audit, dated_device,
  upsert, upsert_row, put_command_issued, put_command_ack,
}
use vpp_lab.Repository.Queries.{list_commands, scan_command, limit_of}
use vpp_lab.Repository.Commands.{and_then, undated_commands, issued_acked_commute}
use vpp_lab.Repository.Keys.{find_row}
use vpp_lab.Repository.Tables.{device, execute}
use vpp_lab.Repository.Lists.{
  IsNewest, list_commands-IsNewest, execute-audit_kept, device_at, first_created, device_at-upsert,
}
use vpp_lab.Metrics.{command_status_counts, event_severity_counts}
use vpp_lab.Metrics.Counts.{count_at, has_status, has_severity, counts-length}
use vpp_lab.Metrics.{escape_label}
use vpp_lab.Metrics.Labels.{read_label, read_label-escape_label}
use vpp_lab.State.{issued}
use vpp_lab.Examples.Site.{home, battery, lamp, noon, dusk, discharge_command, accepted, low_soc}

abbrev pub columns : Columns ℤ
columns = record {
  marshal = λ m. some "{}";
  unmarshal = λ text. some [];
  jsonb = λ text. some text;
  timestamptz = λ t. t;
  text_less = λ a b. false;
}

abbrev pub tables : Database ℤ
tables = record {
  devices = battery ∷ [];
  commands = [];
  events = [];
  audit_logs = [];
  reachable = true;
}

issued_acked_commute_example :
    undated_commands (
      and_then
        (put_command_issued columns noon home battery discharge_command tables)
        (put_command_ack columns dusk home device_battery "battery_01" accepted))
    ≡ undated_commands (
        and_then
          (put_command_ack columns dusk home device_battery "battery_01" accepted tables)
          (put_command_issued columns noon home battery discharge_command))
issued_acked_commute_example =
    issued_acked_commute columns noon dusk home battery discharge_command accepted tables refl tt

abbrev lamp_noon : Device ℤ
lamp_noon = record lamp { created_at = noon }

abbrev with_lamp : Database ℤ
with_lamp = record tables { devices = battery ∷ lamp_noon ∷ [] }

lamp_added : execute columns (device noon lamp) tables ≡ some with_lamp
unfolding upsert upsert_row same_device dated_device
lamp_added = refl

device_at-upsert_example : device_at home "load_02" with_lamp.devices ≡ (
    if home == home && "load_02" == "load_02"
    then some (record lamp {
      created_at =
          first_created
            (columns.timestamptz (if is_zero lamp.created_at then noon else lamp.created_at))
            (device_at home "load_02" tables.devices);
    })
    else device_at home "load_02" tables.devices)
device_at-upsert_example =
    device_at-upsert columns noon lamp home "load_02" tables with_lamp lamp_added

abbrev entry : AuditRow
entry = record {
  id = "1";
  occurred_at = noon;
  actor = "operator";
  action = "policy.update";
  method = "PUT";
  path = "/api/v1/policies/default";
  status_code = 200;
  client_ip = "10.0.0.1";
  user_agent = "";
  details = "{}";
}

abbrev audited : Database ℤ
audited = record tables { audit_logs = entry ∷ [] }

abbrev audited_lamp : Database ℤ
audited_lamp = record with_lamp { audit_logs = entry ∷ [] }

entry_found : find_row same_audit entry audited.audit_logs ≡ some entry
unfolding find_row same_audit
entry_found = refl

lamp_added_again : execute columns (device noon lamp) audited ≡ some audited_lamp
unfolding upsert upsert_row same_device dated_device
lamp_added_again = refl

execute-audit_kept_example : find_row same_audit entry audited_lamp.audit_logs ≡ some entry
execute-audit_kept_example =
    execute-audit_kept columns (device noon lamp) audited audited_lamp entry entry entry_found
      lamp_added_again

abbrev command_row : CommandRow
unfolding issued_row unix
command_row = issued_row columns noon home battery discharge_command "{}"

abbrev commanded : Database ℤ
commanded = record tables { commands = command_row ∷ [] }

abbrev listed : List (CommandRecord ℤ)
unfolding scan_command
listed = scan_command columns command_row ∷ []

all_listed : list_commands columns (pos 50) commanded ≡ some listed
unfolding list_commands sort insert_sorted limit_of
all_listed = refl

list_commands-IsNewest_example : IsNewest columns (pos 50) (command_row ∷ []) listed
list_commands-IsNewest_example = list_commands-IsNewest columns (pos 50) commanded listed all_listed

read_label-escape_label_example :
    read_label false (escape_label "a\"b\\c\nd" ++ "\"} 1") ≡ some ("a\"b\\c\nd", "} 1")
read_label-escape_label_example = read_label-escape_label "a\"b\\c\nd" "} 1"

abbrev records : List (CommandRecord ℤ)
unfolding issued
records = issued noon home battery discharge_command ∷ []

counts-length_example :
    (count_at "issued" (command_status_counts records)
      ≡ length (keep (has_status "issued") records))
    × (count_at "issued" (event_severity_counts (low_soc ∷ []))
        ≡ length (keep (has_severity "issued") (low_soc ∷ [])))
counts-length_example = counts-length "issued" records (low_soc ∷ [])
