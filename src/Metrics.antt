-- ===== src/Metrics.antt =====
-- internal/metrics/prometheus.go: the page of metrics, in the text format of Prometheus.
pub mod Labels
pub mod Counts
use Prim.Native.Char.{code}
use Prim.Native.String.{◌++◌ as append}
use vpp_lab.Prelude.{
  ℕ, suc, String, Bool, true, false, Option, none, some, List, [], ◌∷◌, ◌++◌, ◌==◌, ◌&&◌, ◌+◌, ◌*◌,
  ◌^◌, ◌%◌, beq, if◌then◌else◌, join, map, str_lt, format_int, is_some,
}
use vpp_lab.Prelude.Int.{pos, leb_ℤ}
use vpp_lab.Prelude.Float.{Float}
use vpp_lab.Prelude.Dict.{Dict, lookup, insert}
use vpp_lab.Prelude.Clock.{Time, Duration, second, unix, sub_time}
use vpp_lab.Prelude.Sort.{sort}
use vpp_lab.Model.{Device, Telemetry, CommandRecord, DeviceEvent, AuditLog, SiteSummary}

abbrev pub device_online_ttl : Duration
device_online_ttl = pos (30 * second)

pub record Snapshot (R : Type 0) : Type 0 where
  pub generated_at : Time
  pub site_id : String
  pub summary : SiteSummary R
  pub devices : List (Device R)
  pub telemetry : Dict (Telemetry R)
  pub commands : List (CommandRecord R)
  pub events : List (DeviceEvent R)
  pub audit_logs : List (AuditLog R)
  pub mqtt_rejects : Dict ℕ

-- strings.ReplaceAll of the character with the code `old`.
unfoldable pub replace_all : ℕ → String → String → String
replace_all old new String.[] = ""
replace_all old new (String.◌∷◌ c s) =
    let rest = replace_all old new s in
    if beq (code c) old then append new rest else String.◌∷◌ c rest

-- A backslash, a double quote and a line feed, in turn.
unfoldable pub escape_label : String → String
unfolding replace_all
escape_label v = replace_all 10 "\\n" (replace_all 34 "\\\"" (replace_all 92 "\\\\" v))

-- The keys of a map.
unfoldable pub keys {ℓ} : {V : Type ℓ} → Dict V → List String
keys [] = []
keys ((k, v) ∷ m) = k ∷ keys m

-- The value of a map, or a default where the key is missing.
abbrev pub value_or {ℓ} : {V : Type ℓ} → V → Option V → V
value_or v none = v
value_or v (some w) = w

unfoldable pub render_label : String → String → String
unfolding escape_label
render_label k v = append k (append "=\"" (append (escape_label v) "\""))

unfoldable pub render_labels : Dict String → String
unfolding keys render_label
render_labels labels =
    join "," (map (λ k. render_label k (value_or "" (lookup k labels))) (sort str_lt (keys labels)))

unfoldable pub write_help : String → String → String
write_help name help = append "# HELP " (append name (append " " (append help "\n")))

unfoldable pub write_type : String → String → String
write_type name type = append "# TYPE " (append name (append " " (append type "\n")))

unfoldable pub sorted_metric_keys {ℓ} : {V : Type ℓ} → Dict V → List String
unfolding keys
sorted_metric_keys metrics = sort str_lt (keys metrics)

unfoldable pub sorted_reject_reasons : Dict ℕ → List String
unfolding keys
sorted_reject_reasons rejects = sort str_lt (keys rejects)

-- counts[key]++, where a missing key counts as zero.
unfoldable pub bump : String → Dict ℕ → Dict ℕ
bump k counts = insert k (value_or 0 (lookup k counts) + 1) counts

abbrev pub AuditLogKey : Type 0
AuditLogKey = String × String

unfoldable pub bump_pair : AuditLogKey → List (AuditLogKey × ℕ) → List (AuditLogKey × ℕ)
bump_pair (a, s) [] = ((a, s), 1) ∷ []
bump_pair (a, s) (((b, t), n) ∷ counts) =
    let rest = bump_pair (a, s) counts in
    if b == a && t == s then ((b, t), n + 1) ∷ counts else ((b, t), n) ∷ rest

-- The lines of a header: its help and its type.
unfoldable pub header : String → String → String → List String
unfolding write_help write_type
header name help type = write_help name help ∷ write_type name type ∷ []

unfoldable pub telemetry_key : String → String → String
telemetry_key site device = append site (append "\0" device)

module _ {R : Type 0} where
  unfoldable pub telemetry_for_device : Dict (Telemetry R) → Device R → Option (Telemetry R)
  unfolding telemetry_key
  telemetry_for_device telemetry d = elim (lookup (telemetry_key d.site_id d.id) telemetry) [
    | some t ↦ some t
    | none ↦ lookup d.id telemetry
  ]

  unfoldable pub device_before : Device R → Device R → Bool
  device_before a b =
      if a.site_id == b.site_id then str_lt a.id b.id else str_lt a.site_id b.site_id

  unfoldable pub sorted_devices : List (Device R) → List (Device R)
  unfolding device_before
  sorted_devices devices = sort device_before devices

  unfoldable pub count_commands : List (CommandRecord R) → Dict ℕ → Dict ℕ
  unfolding bump
  count_commands [] counts = counts
  count_commands (c ∷ cs) counts = count_commands cs (bump c.status counts)

  unfoldable pub command_status_counts : List (CommandRecord R) → Dict ℕ
  unfolding count_commands
  command_status_counts commands =
      count_commands commands (("issued", 0) ∷ ("acked", 0) ∷ ("failed", 0) ∷ [])

  unfoldable pub severity_of : DeviceEvent R → String
  severity_of e = if e.severity == "" then "info" else e.severity

  unfoldable pub count_events : List (DeviceEvent R) → Dict ℕ → Dict ℕ
  unfolding bump severity_of
  count_events [] counts = counts
  count_events (e ∷ es) counts = count_events es (bump (severity_of e) counts)

  unfoldable pub event_severity_counts : List (DeviceEvent R) → Dict ℕ
  unfolding count_events
  event_severity_counts events =
      count_events events (("info", 0) ∷ ("warning", 0) ∷ ("critical", 0) ∷ [])

  unfoldable pub audit_key : AuditLog R → AuditLogKey
  audit_key log = (
    if log.action == "" then "unknown" else log.action,
    if beq log.status_code 0 then "0" else format_int (pos log.status_code),
  )

  unfoldable pub count_audits : List (AuditLog R) → List (AuditLogKey × ℕ) → List (AuditLogKey × ℕ)
  unfolding bump_pair audit_key
  count_audits [] counts = counts
  count_audits (l ∷ ls) counts = count_audits ls (bump_pair (audit_key l) counts)

  unfoldable pub audit_log_counts : List (AuditLog R) → List (AuditLogKey × ℕ)
  unfolding count_audits
  audit_log_counts logs = count_audits logs []

  -- The test of vpp_device_online.
  unfoldable pub is_online : Time → Option (Telemetry R) → Bool
  is_online now none = false
  is_online now (some t) = leb_ℤ (sub_time now (unix t.timestamp)) device_online_ttl

-- The text of the lines, one after the other.
unfoldable pub concat : List String → String
concat [] = ""
concat (s ∷ ss) = append s (concat ss)

module _ {R : Type 0} ⦃F : Float R⦄ where
  unfoldable pub write_metric : String → Dict String → R → String
  unfolding render_labels
  write_metric name labels value =
      append name
        (append "{" (append (render_labels labels) (append "} " (append (F.format_6 value) "\n"))))

  unfoldable pub site_power : String → String → R → String
  site_power site component value =
      write_metric "vpp_site_power_w" (("site_id", site) ∷ ("component", component) ∷ []) value

  unfoldable pub base_labels : Device R → Dict String
  base_labels d = ("site_id", d.site_id) ∷ ("device_id", d.id) ∷ ("device_type", d.type) ∷ []

  unfoldable pub metric_line : Device R → Dict R → String → String
  unfolding base_labels
  metric_line d metrics k =
      write_metric "vpp_device_metric" (base_labels d ++ ("metric", k) ∷ [])
        (value_or (F.decimal 0 0) (lookup k metrics))

  abbrev pub metrics_of : Option (Telemetry R) → Dict R
  metrics_of none = []
  metrics_of (some t) = t.metrics

  -- The body of the loop over the devices.
  unfoldable pub device_lines : Time → Dict (Telemetry R) → Device R → String
  unfolding telemetry_for_device is_online base_labels metric_line sorted_metric_keys
  device_lines now telemetry d =
      let tele = telemetry_for_device telemetry d in
      let online = if is_online now tele then F.decimal 1 0 else F.decimal 0 0 in
      concat (
        write_metric "vpp_device_online" (base_labels d) online
        ∷ map (metric_line d (metrics_of tele)) (sorted_metric_keys (metrics_of tele)))

module _ {R : Type 0} (F : Float R) where
  unfoldable pub command_line : String → String × ℕ → String
  command_line site (status, n) =
      write_metric ⦃F = F⦄ "vpp_command_records_total" (("site_id", site) ∷ ("status", status) ∷ [])
        (F.of_int (pos n))

  unfoldable pub event_line : String → String × ℕ → String
  event_line site (severity, n) =
      write_metric ⦃F = F⦄ "vpp_device_events_total"
        (("site_id", site) ∷ ("severity", severity) ∷ []) (F.of_int (pos n))

  unfoldable pub audit_line : String → AuditLogKey × ℕ → String
  audit_line site ((action, status), n) =
      write_metric ⦃F = F⦄ "vpp_audit_logs_total"
        (("site_id", site) ∷ ("action", action) ∷ ("status_code", status) ∷ []) (F.of_int (pos n))

  unfoldable pub reject_line : String → Dict ℕ → String → String
  reject_line site rejects reason =
      write_metric ⦃F = F⦄ "vpp_mqtt_rejected_messages_total"
        (("site_id", site) ∷ ("reason", reason) ∷ [])
        (F.of_int (pos (value_or 0 (lookup reason rejects))))

module _ {R : Type 0} ⦃F : Float R⦄ where
  unfoldable pub render_prometheus : Snapshot R → String
  unfolding header site_power device_lines command_line event_line audit_line reject_line
      sorted_devices command_status_counts event_severity_counts audit_log_counts
      sorted_reject_reasons concat
  render_prometheus s = concat (
      header "vpp_site_power_w" "Site power by component." "gauge"
      ++ site_power s.site_id "pv" s.summary.pv_power_w
        ∷ site_power s.site_id "load" s.summary.load_power_w
        ∷ site_power s.site_id "battery" s.summary.battery_power
        ∷ site_power s.site_id "net" s.summary.net_power_w
        ∷ header "vpp_site_battery_soc" "Average site battery SOC ratio." "gauge"
      ++ write_metric "vpp_site_battery_soc" (("site_id", s.site_id) ∷ []) s.summary.avg_soc
        ∷ header "vpp_device_online" "Device online state based on last telemetry timestamp."
            "gauge"
      ++ header "vpp_device_metric" "Latest device telemetry metric." "gauge"
      ++ map (device_lines s.generated_at s.telemetry) (sorted_devices s.devices)
      ++ header "vpp_command_records_total" "Recent command records by status." "gauge"
      ++ map (command_line F s.site_id) (command_status_counts s.commands)
      ++ header "vpp_device_events_total" "Recent device events by severity." "gauge"
      ++ map (event_line F s.site_id) (event_severity_counts s.events)
      ++ header "vpp_audit_logs_total"
          "Recent control operation audit logs by action and status code." "gauge"
      ++ map (audit_line F s.site_id) (audit_log_counts s.audit_logs)
      ++ header "vpp_mqtt_rejected_messages_total" "MQTT messages rejected by the platform."
          "counter"
      ++ map (reject_line F s.site_id s.mqtt_rejects) (sorted_reject_reasons s.mqtt_rejects))
