-- ===== src/Api/Audit.antt =====
-- withAudit: the audit log of a request that asks for a change.
use Prim.Native.String.{◌++◌ as append}
use vpp_lab.Prelude.{
  ℕ, String, Bool, Option, none, some, [], ◌∷◌, ◌==◌, ◌&&◌, if◌then◌else◌, trim_space, has_prefix,
  has_suffix, has_part, cut_at, format_int,
}
use vpp_lab.Prelude.Float.{Float}
use vpp_lab.Prelude.Clock.{Time, Duration, unix_nano}
use vpp_lab.Model.{AuditLog, text}
use vpp_lab.Mqtt.{Codec, or_same}
use vpp_lab.Api.{
  Route, console, healthz, metrics, list_devices, upsert_device, site_summary, site_states,
  site_plan, custom_plan, site_preview, custom_preview, apply_dispatch, list_commands, list_events,
  list_audit_logs, get_policy, set_policy, site_command, device_command, Request, AuditRecorder,
  Server, Io, Result,
}
use vpp_lab.Api.Control.{with_database}
use vpp_lab.Api.Handlers.{handle}

unfoldable pub method_of : Route → String
method_of upsert_device = "POST"
method_of (custom_plan site) = "POST"
method_of (custom_preview site) = "POST"
method_of (apply_dispatch site) = "POST"
method_of (site_command site id) = "POST"
method_of (device_command id) = "POST"
method_of set_policy = "PUT"
method_of _ = "GET"

unfoldable pub in_sites : String → String → String
in_sites site rest = append "/api/v1/sites/" (append site rest)

unfoldable pub path_of : Route → String
unfolding in_sites
path_of (console path) = path
path_of healthz = "/healthz"
path_of metrics = "/metrics"
path_of list_devices = "/api/v1/devices"
path_of upsert_device = "/api/v1/devices"
path_of (site_summary site) = in_sites site "/summary"
path_of (site_states site) = in_sites site "/device-states"
path_of (site_plan site) = in_sites site "/plan"
path_of (custom_plan site) = in_sites site "/plan"
path_of (site_preview site) = in_sites site "/dispatch-preview"
path_of (custom_preview site) = in_sites site "/dispatch-preview"
path_of (apply_dispatch site) = in_sites site "/dispatch/apply"
path_of list_commands = "/api/v1/commands"
path_of list_events = "/api/v1/events"
path_of list_audit_logs = "/api/v1/audit-logs"
path_of get_policy = "/api/v1/policies/default"
path_of set_policy = "/api/v1/policies/default"
path_of (site_command site id) = in_sites site (append "/devices/" (append id "/command"))
path_of (device_command id) = append "/api/v1/devices/" (append id "/command")

-- r.PathValue of "site_id" and of "device_id": empty where the pattern has none.
unfoldable pub site_value : Route → String
site_value (site_summary site) = site
site_value (site_states site) = site
site_value (site_plan site) = site
site_value (custom_plan site) = site
site_value (site_preview site) = site
site_value (custom_preview site) = site
site_value (apply_dispatch site) = site
site_value (site_command site id) = site
site_value _ = ""

unfoldable pub device_value : Route → String
device_value (site_command site id) = id
device_value (device_command id) = id
device_value _ = ""

-- The switch of auditAction on the method and the path.
unfoldable pub audit_action : String → String → Option String
audit_action method path =
    if method == "POST" && path == "/api/v1/devices"
    then some "device.upsert"
    else if method == "PUT" && path == "/api/v1/policies/default"
    then some "policy.update"
    else if method == "POST" && (has_prefix "/api/v1/devices/" path && has_suffix "/command" path)
    then some "command.issue"
    else if method == "POST"
        && (has_prefix "/api/v1/sites/" path
            && (has_part "/devices/" path && has_suffix "/command" path))
    then some "command.issue"
    else if method == "POST"
        && (has_prefix "/api/v1/sites/" path && has_suffix "/dispatch/apply" path)
    then some "dispatch.apply"
    else none

unfoldable pub audit_actor : (String → String) → String
audit_actor header =
    let actor = trim_space (header "X-VPP-Actor") in if actor == "" then "anonymous" else actor

unfoldable pub client_ip : {Bytes : Type 0} → Request Bytes → String
client_ip r =
    let forwarded = trim_space (r.header "X-Forwarded-For") in
    if forwarded == ""
    then (elim r.host [ some host ↦ host | none ↦ r.remote_addr ])
    else (elim (cut_at b',' forwarded) [ some (first, rest) ↦ trim_space first | none ↦ forwarded ])

unfoldable pub audit_entry :
    {R Bytes : Type 0} → (ℕ → Time) → String → Request Bytes → ℕ → AuditLog R
unfolding audit_actor client_ip method_of path_of site_value device_value
audit_entry clock action r status = record {
  id = format_int (unix_nano (clock 100));
  occurred_at = clock 101;
  actor = audit_actor r.header;
  action = action;
  method = method_of r.route;
  path = path_of r.route;
  status_code = status;
  client_ip = client_ip r;
  user_agent = r.user_agent;
  details =
      ("site_id", text (site_value r.route)) ∷ ("device_id", text (device_value r.route)) ∷ [];
}

module _ {R Bytes Db : Type 0} where
  -- After the handler: a panic goes past it, and an error of the recorder is only logged.
  unfoldable pub write_audit :
      (ℕ → Time)
      → String
      → AuditRecorder R Db
      → Request Bytes
      → Result R Bytes Db
      → Result R Bytes Db
  unfolding audit_entry with_database or_same
  write_audit clock action a r (none, s) = (none, s)
  write_audit clock action a r (some response, s) = (
    some response,
    with_database
        (or_same s.publisher.database (
          a.put_audit_log (clock 102) (audit_entry clock action r response.status)
            s.publisher.database))
        s,
  )

module _ {R Bytes Db : Type 0} ⦃F : Float R⦄ (zone : Duration) (codec : Codec R Bytes)
    (takes : String → Bytes → Bool) (io : Io R Bytes) (clock : ℕ → Time) where
  -- The handler of Handler(). The readings of the clock after the handler's are `clock 100` and on.
  unfoldable pub serve : Request Bytes → Server R Bytes Db → Result R Bytes Db
  unfolding handle audit_action write_audit method_of path_of
  serve r s =
      let result = handle zone codec takes io clock r.route r s in
      elim s.audit [
        | none ↦ result
        | some a ↦ elim (audit_action (method_of r.route) (path_of r.route)) [
          | none ↦ result
          | some action ↦ write_audit clock action a r result
        ]
      ]
