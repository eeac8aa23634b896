-- ===== src/Api/Control.antt =====
-- The handlers of requests that change something; each asks for the control token first.
use Prim.Native.String.{◌++◌ as append}
use vpp_lab.Prelude.{
  ℕ, String, Bool, Option, none, some, ◌==◌, ◌||◌, ◌+◌, ◌⊎◌, inl, inr, if◌then◌else◌, trim_space,
}
use vpp_lab.Prelude.Float.{Float}
use vpp_lab.Prelude.Clock.{Time, Duration, unix_seconds}
use vpp_lab.Model.{Device, Command, Policy}
use vpp_lab.State
use vpp_lab.State.Summary
use vpp_lab.Optimizer.{validate_config}
use vpp_lab.Dispatch.{Preview, ApplyRequest, ApplyDecision, build_preview, decide_apply}
use vpp_lab.Scheduler
use vpp_lab.Mqtt.{Codec, Client, PublishError, publish_command}
use vpp_lab.Api.{
  DeviceSaver, Request, Server, Io, Result, Body, device, decision, applied, policy, command,
  write_json, write_error, allowed, site_or,
}

module _ {R : Type 0} where
  unfoldable pub named : Device R → Device R
  named d = record d { name = if d.name == "" then d.id else d.name }

module _ {R Bytes : Type 0} (io : Io R Bytes) where
  -- The id that a command of the API gets.
  unfoldable pub command_id : String → Time → String
  command_id id now = append id (append "-" (io.format_time now))

  unfoldable pub stamped_command : (ℕ → Time) → String → Command R → Command R
  unfolding command_id
  stamped_command clock id cmd = record cmd {
    command_id = command_id id (clock 1);
    issued_at = unix_seconds (clock 2);
  }

  -- The command of a plan, as it is sent.
  unfoldable pub dispatch_command : (ℕ → Time) → String → Command R → Command R
  unfolding stamped_command
  dispatch_command clock id cmd =
      let c = stamped_command clock id cmd in
      record c { reason = append "dispatch apply: " c.reason }

module _ {R Bytes Db : Type 0} where
  -- requireControl before the rest of a handler.
  unfoldable pub require_control :
      Request Bytes
      → Server R Bytes Db
      → (Server R Bytes Db → Result R Bytes Db)
      → Result R Bytes Db
  require_control r s handler =
      if allowed r s then handler s else write_error 401 "control token required" s

  unfoldable pub with_store :
      (State.Store R → State.Store R) → Server R Bytes Db → Server R Bytes Db
  with_store f s = record s { publisher = record s.publisher { state = f s.publisher.state } }

  unfoldable pub with_database : Db → Server R Bytes Db → Server R Bytes Db
  with_database db s = record s { publisher = record s.publisher { database = db } }

  -- The device of a request, with the site of the server and its id as the name where it has none.
  unfoldable pub in_site : Device R → Server R Bytes Db → Device R
  unfolding site_or
  in_site d s = record d { site_id = site_or d.site_id s }

  unfoldable pub put_device : Time → Device R → Server R Bytes Db → Result R Bytes Db
  unfolding with_store
  put_device now d s = write_json 200 (device d) (with_store (State.upsert_device now d) s)

module _ {R Bytes Db : Type 0} (io : Io R Bytes) where
  -- From the saving on.
  unfoldable pub after_save :
      (ℕ → Time) → Device R → Server R Bytes Db → Option Db → Result R Bytes Db
  unfolding put_device with_database
  after_save clock d s none = write_error 502 io.database_error s
  after_save clock d s (some db) = put_device (clock 1) d (with_database db s)

  unfoldable pub save_with :
      (ℕ → Time) → Device R → Server R Bytes Db → Option (DeviceSaver R Db) → Result R Bytes Db
  unfolding after_save put_device
  save_with clock d s none = put_device (clock 1) d s
  save_with clock d s (some saver) =
      after_save clock d s (saver.upsert (clock 0) d s.publisher.database)

  unfoldable pub save_device : (ℕ → Time) → Device R → Server R Bytes Db → Result R Bytes Db
  unfolding save_with
  save_device clock d s = save_with clock d s s.saver

  unfoldable pub add_device : (ℕ → Time) → String ⊎ Device R → Server R Bytes Db → Result R Bytes Db
  unfolding save_device in_site named
  add_device clock (inl message) s = write_error 400 message s
  add_device clock (inr d) s =
      if d.id == "" || d.type == ""
      then write_error 400 "id and type are required" s
      else save_device clock (named (in_site d s)) s

  unfoldable pub upsert_device : (ℕ → Time) → Request Bytes → Server R Bytes Db → Result R Bytes Db
  unfolding require_control add_device
  upsert_device clock r s = require_control r s (add_device clock (io.read_device r.body))

  -- The response once PublishCommand has returned.
  unfoldable pub published :
      Body R → Server R Bytes Db → Option PublishError × Client R Bytes Db → Result R Bytes Db
  published body s (none, c) = write_json 202 body (record s { publisher = c })
  published body s (some err, c) =
      write_error 502 (io.publish_error err) (record s { publisher = c })

module _ {R Bytes Db : Type 0} ⦃F : Float R⦄ (io : Io R Bytes) where
  unfoldable pub change_policy : String ⊎ Policy R → Server R Bytes Db → Result R Bytes Db
  change_policy (inl message) s = write_error 400 message s
  change_policy (inr p) s = elim (Scheduler.validate_policy p) [
    | some message ↦ write_error 400 message s
    | none ↦ write_json 200 (policy p) (record s { scheduler = Scheduler.set_policy p s.scheduler })
  ]

  unfoldable pub set_policy : Request Bytes → Server R Bytes Db → Result R Bytes Db
  unfolding require_control change_policy
  set_policy r s = require_control r s (change_policy (io.read_policy r.body))

module _ {R Bytes Db : Type 0} ⦃F : Float R⦄ (zone : Duration) (codec : Codec R Bytes)
    (takes : String → Bytes → Bool) (io : Io R Bytes) where
  -- PublishCommand, which reads the clock from the third reading of the request on.
  unfoldable pub publish :
      (ℕ → Time)
      → String
      → Device R
      → Command R
      → Server R Bytes Db
      → Option PublishError × Client R Bytes Db
  publish clock site d cmd s =
      publish_command codec takes (λ n. clock (n + 3)) site d cmd s.publisher

  -- From the candidate on; a missing one would be a nil pointer.
  unfoldable pub send_candidate :
      (ℕ → Time) → String → ApplyDecision R → Server R Bytes Db → Result R Bytes Db
  unfolding published publish dispatch_command
  send_candidate clock site dec s =
      let id = dec.preview.candidate_device_id in
      elim (State.device_in_site site id s.publisher.state) [
        | none ↦ write_error 404 "candidate device not found" s
        | some d ↦ elim dec.preview.candidate_command [
          | none ↦ (none, s)
          | some cmd ↦
              let sent = dispatch_command io clock id cmd in
              published io (applied d sent dec) s (publish clock site d sent s)
        ]
      ]

  unfoldable pub decided :
      (ℕ → Time) → String → ApplyDecision R → Server R Bytes Db → Result R Bytes Db
  unfolding send_candidate
  decided clock site dec s =
      if dec.can_apply then send_candidate clock site dec s else write_json 412 (decision dec) s

  abbrev pub preview_now :
      (ℕ → Time) → String → ApplyRequest R → Server R Bytes Db → Option (Preview R)
  preview_now clock site req s =
      build_preview zone (clock 0) (State.Summary.summary site s.publisher.state)
        (State.list_devices s.publisher.state) req.config

  unfoldable pub apply_request :
      (ℕ → Time) → String → String ⊎ ApplyRequest R → Server R Bytes Db → Result R Bytes Db
  unfolding decided
  apply_request clock site (inl message) s = write_error 400 message s
  apply_request clock site (inr req) s = elim (validate_config req.config) [
    | some message ↦ write_error 400 message s
    | none ↦
        if F.lt req.max_abs_tracking_error_w (F.decimal 0 0)
        then write_error 400 "max_abs_tracking_error_w must be >= 0" s
        else (elim (preview_now clock site req s) [
          | none ↦ (none, s)
          | some p ↦ decided clock site (decide_apply p req) s
        ])
  ]

  unfoldable pub apply_dispatch :
      (ℕ → Time) → String → Request Bytes → Server R Bytes Db → Result R Bytes Db
  unfolding require_control apply_request site_or
  apply_dispatch clock site r s =
      require_control r s (apply_request clock (site_or site s) (io.read_apply r.body))

  unfoldable pub issue_command :
      (ℕ → Time)
      → String
      → String
      → Device R
      → String ⊎ Command R
      → Server R Bytes Db
      → Result R Bytes Db
  unfolding published publish stamped_command
  issue_command clock site id d (inl message) s = write_error 400 message s
  issue_command clock site id d (inr cmd) s =
      if trim_space cmd.action == ""
      then write_error 400 "action is required" s
      else (let sent = stamped_command io clock id cmd in
          published io (command sent) s (publish clock site d sent s))

  unfoldable pub command_device :
      (ℕ → Time) → String → String → Bytes → Server R Bytes Db → Result R Bytes Db
  unfolding issue_command
  command_device clock site id body s = elim (State.device_in_site site id s.publisher.state) [
    | none ↦ write_error 404 "device not found" s
    | some d ↦ issue_command clock site id d (io.read_command body) s
  ]

  unfoldable pub issue :
      (ℕ → Time) → String → String → Request Bytes → Server R Bytes Db → Result R Bytes Db
  unfolding require_control command_device site_or
  issue clock site id r s = require_control r s (command_device clock (site_or site s) id r.body)
