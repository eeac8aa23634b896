-- ===== src/Api/Handlers.antt =====
-- The handlers of requests that change nothing, and the handler of every route.
use vpp_lab.Prelude.{ℕ, String, Bool, Option, none, some, List, [], ◌⊎◌, inl, inr}
use vpp_lab.Prelude.Int.{pos}
use vpp_lab.Prelude.Float.{Float}
use vpp_lab.Prelude.Clock.{Time, Duration}
use vpp_lab.Model.{AuditLog}
use vpp_lab.State
use vpp_lab.State.Summary
use vpp_lab.State.Runtime
use vpp_lab.Optimizer.{Config, default_config, validate_config}
use vpp_lab.Optimizer.Plan.{Plan, build_day_ahead_plan}
use vpp_lab.Dispatch.{Preview, build_preview}
use vpp_lab.Mqtt.{Codec, rejected_messages}
use vpp_lab.Metrics.{device_online_ttl, render_prometheus}
use vpp_lab.Api.{
  Route, console, healthz, metrics, list_devices, upsert_device, site_summary, site_states,
  site_plan, custom_plan, site_preview, custom_preview, apply_dispatch, list_commands, list_events,
  list_audit_logs, get_policy, set_policy, site_command, device_command, Request, Body, page, error,
  devices, summary, states, plan, preview, commands, events, audit_logs, policy, Response,
  AuditRecorder, Server, Io, Result, write_json, write_error, write_option, site_or, health_of,
}
use vpp_lab.Api.Control

module _ {R : Type 0} where
  abbrev pub plan_body : Option (Plan R) → Option (Body R)
  plan_body none = none
  plan_body (some p) = some (plan p)

  abbrev pub preview_body : Option (Preview R) → Option (Body R)
  preview_body none = none
  preview_body (some p) = some (preview p)

module _ {R Bytes Db : Type 0} where
  unfoldable pub recent_audit_logs : Server R Bytes Db → List (AuditLog R)
  recent_audit_logs s = elim s.audit [
    | none ↦ []
    | some a ↦ elim (a.list_audit_logs (pos 200) s.publisher.database) [
      | none ↦ []
      | some logs ↦ logs
    ]
  ]

module _ {R Bytes Db : Type 0} (io : Io R Bytes) where
  unfoldable pub audit_response : Option (AuditRecorder R Db) → Db → Response R
  audit_response none db = record { status = 200; body = audit_logs [] }
  audit_response (some a) db = elim (a.list_audit_logs (pos 200) db) [
    | none ↦ record { status = 502; body = error io.database_error }
    | some logs ↦ record { status = 200; body = audit_logs logs }
  ]

  unfoldable pub show_audit_logs : Server R Bytes Db → Result R Bytes Db
  unfolding audit_response
  show_audit_logs s = (some (audit_response s.audit s.publisher.database), s)

module _ {R Bytes Db : Type 0} ⦃F : Float R⦄ where
  unfoldable pub show_metrics : Time → Server R Bytes Db → Result R Bytes Db
  unfolding recent_audit_logs
  show_metrics now s =
      write_json 200
        (page (
          render_prometheus (record {
            generated_at = now;
            site_id = s.site_id;
            summary = State.Summary.summary s.site_id s.publisher.state;
            devices = State.list_devices s.publisher.state;
            telemetry = s.publisher.state.telemetry;
            commands = s.publisher.state.commands;
            events = s.publisher.state.events;
            audit_logs = recent_audit_logs s;
            mqtt_rejects = rejected_messages s.publisher;
          })))
        s

  unfoldable pub show_summary : String → Server R Bytes Db → Result R Bytes Db
  unfolding site_or
  show_summary site s =
      write_json 200 (summary (State.Summary.summary (site_or site s) s.publisher.state)) s

  unfoldable pub show_states : Time → String → Server R Bytes Db → Result R Bytes Db
  unfolding site_or
  show_states now site s =
      write_json 200
        (states
          (State.Runtime.device_states (site_or site s) now device_online_ttl s.publisher.state))
        s

module _ {R Bytes Db : Type 0} ⦃F : Float R⦄ (zone : Duration) where
  unfoldable pub show_plan : Time → String → Config R → Server R Bytes Db → Result R Bytes Db
  unfolding site_or write_option
  show_plan now site cfg s =
      write_option
        (plan_body (
          build_day_ahead_plan zone now (State.Summary.summary (site_or site s) s.publisher.state)
            cfg))
        s

  unfoldable pub show_preview : Time → String → Config R → Server R Bytes Db → Result R Bytes Db
  unfolding site_or write_option
  show_preview now site cfg s =
      write_option
        (preview_body (
          build_preview zone now (State.Summary.summary (site_or site s) s.publisher.state)
            (State.list_devices s.publisher.state) cfg))
        s

module _ {R Bytes Db : Type 0} ⦃F : Float R⦄ where
  -- The decoding and checking of a configuration, before a handler that goes on with it.
  unfoldable pub with_config :
      String ⊎ Config R
      → (Config R → Server R Bytes Db → Result R Bytes Db)
      → Server R Bytes Db
      → Result R Bytes Db
  with_config (inl message) go s = write_error 400 message s
  with_config (inr cfg) go s = elim (validate_config cfg) [
    | some message ↦ write_error 400 message s
    | none ↦ go cfg s
  ]

module _ {R Bytes Db : Type 0} ⦃F : Float R⦄ (zone : Duration) (codec : Codec R Bytes)
    (takes : String → Bytes → Bool) (io : Io R Bytes) (clock : ℕ → Time) where
  -- The handler that the mux calls for a request.
  unfoldable pub handle : Route → Request Bytes → Server R Bytes Db → Result R Bytes Db
  unfolding show_metrics show_summary show_states show_plan show_preview with_config show_audit_logs
      Control.upsert_device Control.apply_dispatch Control.set_policy Control.issue health_of
  handle (console path) r s = write_json 200 (page io.console_html) s
  handle healthz r s = (some (health_of s.checks), s)
  handle metrics r s = show_metrics (clock 0) s
  handle list_devices r s = write_json 200 (devices (State.list_devices s.publisher.state)) s
  handle upsert_device r s = Control.upsert_device io clock r s
  handle (site_summary site) r s = show_summary site s
  handle (site_states site) r s = show_states (clock 0) site s
  handle (site_plan site) r s = show_plan zone (clock 0) site default_config s
  handle (custom_plan site) r s =
      with_config (io.read_config r.body) (show_plan zone (clock 0) site) s
  handle (site_preview site) r s = show_preview zone (clock 0) site default_config s
  handle (custom_preview site) r s =
      with_config (io.read_config r.body) (show_preview zone (clock 0) site) s
  handle (apply_dispatch site) r s = Control.apply_dispatch zone codec takes io clock site r s
  handle list_commands r s = write_json 200 (commands s.publisher.state.commands) s
  handle list_events r s = write_json 200 (events s.publisher.state.events) s
  handle list_audit_logs r s = show_audit_logs io s
  handle get_policy r s = write_json 200 (policy s.scheduler.policy) s
  handle set_policy r s = Control.set_policy io r s
  handle (site_command site id) r s = Control.issue zone codec takes io clock site id r s
  handle (device_command id) r s = Control.issue zone codec takes io clock "" id r s
