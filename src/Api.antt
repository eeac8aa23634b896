-- ===== src/Api.antt =====
-- internal/api/server.go: the requests of the HTTP API and what their handlers do. net/http is a
-- library: its ServeMux gives a request to the route whose method and path are the request's, with the
-- path values in the place of the braces, and a panic of a handler ends the connection.
pub mod Control
pub mod Handlers
pub mod Audit
pub mod Effects
pub mod Authorized
pub mod Audited
use vpp_lab.Prelude.{
  ℕ, String, Bool, true, false, Option, none, some, List, [], ◌∷◌, ◌==◌, ◌||◌, ◌⊎◌, inl, inr,
  if◌then◌else◌, trim_space, after_prefix,
}
use vpp_lab.Prelude.Int.{ℤ}
use vpp_lab.Prelude.Float.{Float}
use vpp_lab.Prelude.Dict.{Dict, insert}
use vpp_lab.Prelude.Clock.{Time, Duration}
use vpp_lab.Model.{
  Device, Telemetry, Command, CommandRecord, DeviceEvent, AuditLog, SiteSummary, DeviceRuntimeState,
  Policy,
}
use vpp_lab.Optimizer.{Config}
use vpp_lab.Optimizer.Plan.{Plan}
use vpp_lab.Dispatch.{Preview, ApplyRequest, ApplyDecision}
use vpp_lab.Scheduler.{Scheduler}
use vpp_lab.Mqtt.{Client, PublishError}

-- The patterns of Handler, with their path values.
pub data Route : Type 0 where
  console : String → Route
  healthz : Route
  metrics : Route
  list_devices : Route
  upsert_device : Route
  site_summary : String → Route
  site_states : String → Route
  site_plan : String → Route
  custom_plan : String → Route
  site_preview : String → Route
  custom_preview : String → Route
  apply_dispatch : String → Route
  list_commands : Route
  list_events : Route
  list_audit_logs : Route
  get_policy : Route
  set_policy : Route
  site_command : String → String → Route
  device_command : String → Route

-- A request: `header` is r.Header.Get, `host` the host of net.SplitHostPort on the address, if it splits.
pub record Request (Bytes : Type 0) : Type 0 where
  pub route : Route
  pub body : Bytes
  pub header : String → String
  pub remote_addr : String
  pub host : Option String
  pub user_agent : String

-- The values that handlers write as JSON, and the two pages that they write as text.
pub data Body (R : Type 0) : Type 0 where
  page : String → Body R
  error : String → Body R
  health : String → Dict String → Body R
  devices : List (Device R) → Body R
  device : Device R → Body R
  summary : SiteSummary R → Body R
  states : List (DeviceRuntimeState R) → Body R
  plan : Plan R → Body R
  preview : Preview R → Body R
  decision : ApplyDecision R → Body R
  applied : Device R → Command R → ApplyDecision R → Body R
  commands : List (CommandRecord R) → Body R
  events : List (DeviceEvent R) → Body R
  audit_logs : List (AuditLog R) → Body R
  policy : Policy R → Body R
  command : Command R → Body R

pub record Response (R : Type 0) : Type 0 where
  pub status : ℕ
  pub body : Body R

-- The interfaces DeviceSaver and AuditRecorder, on a database: `none` is an error, which leaves it as it
-- was.
pub record DeviceSaver (R Db : Type 0) : Type 0 where
  pub upsert : Time → Device R → Db → Option Db

pub record AuditRecorder (R Db : Type 0) : Type 0 where
  pub put_audit_log : Time → AuditLog R → Db → Option Db
  pub list_audit_logs : ℤ → Db → Option (List (AuditLog R))

-- A check without a function is `none`; else it answers, with the text of an error where there is one.
pub record HealthCheck : Type 0 where
  pub name : String
  pub check : Option (Option String)

-- The server with what it works on: the publisher is the MQTT client, which has the store and the
-- database.
pub record Server (R Bytes Db : Type 0) : Type 0 where
  pub site_id : String
  pub publisher : Client R Bytes Db
  pub scheduler : Scheduler R
  pub saver : Option (DeviceSaver R Db)
  pub audit : Option (AuditRecorder R Db)
  pub checks : List HealthCheck
  pub token : String

-- The libraries: the page of the console; encoding/json on a body, with the text of its error; the texts
-- of the errors of a publisher and of the database; and time.Format of the layout
-- "20060102150405.000000000".
pub record Io (R Bytes : Type 0) : Type 0 where
  pub console_html : String
  pub read_device : Bytes → String ⊎ Device R
  pub read_config : Bytes → String ⊎ Config R
  pub read_apply : Bytes → String ⊎ ApplyRequest R
  pub read_policy : Bytes → String ⊎ Policy R
  pub read_command : Bytes → String ⊎ Command R
  pub publish_error : PublishError → String
  pub database_error : String
  pub format_time : Time → String

-- What a handler returns: a response, or nothing where it panics; and the server it leaves.
abbrev pub Result : Type 0 → Type 0 → Type 0 → Type 0
Result R Bytes Db = Option (Response R) × Server R Bytes Db

module _ {R Bytes Db : Type 0} where
  unfoldable pub with_control_token : String → Server R Bytes Db → Server R Bytes Db
  with_control_token token s = record s { token = trim_space token }

  abbrev pub write_json : ℕ → Body R → Server R Bytes Db → Result R Bytes Db
  write_json status body s = (some (record { status = status; body = body }), s)

  abbrev pub write_error : ℕ → String → Server R Bytes Db → Result R Bytes Db
  write_error status message s = write_json status (error message) s

  -- A body that is made by code that may panic.
  unfoldable pub write_option : Option (Body R) → Server R Bytes Db → Result R Bytes Db
  write_option none s = (none, s)
  write_option (some body) s = write_json 200 body s

-- bearerToken
unfoldable pub bearer_token : String → String
bearer_token header = elim (after_prefix "Bearer " header) [
  | none ↦ ""
  | some rest ↦ trim_space rest
]

-- The token that a request has: a header of its own, or else the bearer's.
unfoldable pub request_token : (String → String) → String
unfolding bearer_token
request_token header =
    let token = trim_space (header "X-VPP-Control-Token") in
    if token == "" then bearer_token (header "Authorization") else token

-- The tests of requireControl; ConstantTimeCompare is 1 where the two texts are equal.
unfoldable pub allowed : {R Bytes Db : Type 0} → Request Bytes → Server R Bytes Db → Bool
unfolding request_token
allowed r s = s.token == "" || request_token r.header == s.token

-- if siteID == "" { siteID = s.siteID }
unfoldable pub site_or : {R Bytes Db : Type 0} → String → Server R Bytes Db → String
site_or site s = if site == "" then s.site_id else site

-- The loop of health over the checks: the code, the status and the checks so far.
unfoldable pub run_checks : List HealthCheck → ℕ × String × Dict String → ℕ × String × Dict String
run_checks [] acc = acc
run_checks (c ∷ cs) (status, text, checks) =
    if c.name == "" then run_checks cs (status, text, checks) else (elim c.check [
      | none ↦ run_checks cs (status, text, checks)
      | some none ↦ run_checks cs (status, text, insert c.name "ok" checks)
      | some (some err) ↦ run_checks cs (503, "degraded", insert c.name err checks)
    ])

unfoldable pub health_of : {R : Type 0} → List HealthCheck → Response R
unfolding run_checks
health_of checks =
    let (status, text, results) = run_checks checks (200, "ok", []) in
    record { status = status; body = health text results }
