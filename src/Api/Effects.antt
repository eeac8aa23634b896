-- ===== src/Api/Effects.antt =====
-- What the handler of a request may change.
use vpp_lab.Prelude.{
  ℕ, String, Bool, true, false, Option, none, some, ◌≡◌, refl, ◌⊎◌, inl, inr, ◌==◌, Bool-cases,
  Option-cases, if◌then◌else◌, trim_space,
}
use vpp_lab.Prelude.Float.{Float}
use vpp_lab.Prelude.Clock.{Time, Duration}
use vpp_lab.Model.{Device, Command, Policy}
use vpp_lab.State
use vpp_lab.Optimizer.{Config, validate_config}
use vpp_lab.Dispatch.{ApplyRequest, ApplyDecision, decide_apply}
use vpp_lab.Scheduler
use vpp_lab.Mqtt.{Codec}
use vpp_lab.Api.{
  Route, console, healthz, metrics, list_devices, upsert_device, site_summary, site_states,
  site_plan, custom_plan, site_preview, custom_preview, apply_dispatch, list_commands, list_events,
  list_audit_logs, get_policy, set_policy, site_command, device_command, Request, Body, policy,
  Response, DeviceSaver, Server, Io, Result, write_json, write_option, allowed, site_or,
}
use vpp_lab.Api.Control
use vpp_lab.Api.Handlers.{
  handle, show_metrics, show_summary, show_states, show_plan, show_preview, with_config,
  show_audit_logs,
}

module _ {R Bytes Db : Type 0} ⦃F : Float R⦄ (zone : Duration) (codec : Codec R Bytes)
    (takes : String → Bytes → Bool) (io : Io R Bytes) (clock : ℕ → Time) where
  -- The database once the device has been saved, if the server has a saver.
  pub data IsSaved (d : Device R) (s : Server R Bytes Db) (db : Db) : Type 0 where
    unsaved : s.saver ≡ none → db ≡ s.publisher.database → IsSaved d s db
    saved :
        (saver : DeviceSaver R Db)
        → s.saver ≡ some saver
        → saver.upsert (clock 0) d s.publisher.database ≡ some db
        → IsSaved d s db

  -- What a request may do to the server: nothing; or, with the control token, one of three changes.
  pub data Effect (r : Request Bytes) (s : Server R Bytes Db) : Result R Bytes Db → Type 0 where
    kept : (response : Option (Response R)) → Effect r s (response, s)
    policy_set :
        (p : Policy R)
        → allowed r s ≡ true
        → Scheduler.validate_policy p ≡ none
        → Effect r s (
            write_json 200 (policy p) (record s { scheduler = Scheduler.set_policy p s.scheduler }))
    device_put :
        (d : Device R) (s' : Server R Bytes Db)
        → allowed r s ≡ true
        → (d.id == "") ≡ false
        → (d.type == "") ≡ false
        → IsSaved d s s'.publisher.database
        → s'.publisher.state ≡ s.publisher.state
        → s'.publisher.sent ≡ s.publisher.sent
        → s'.scheduler ≡ s.scheduler
        → Effect r s (Control.put_device (clock 1) d s')
    commanded :
        (site id : String) (d : Device R) (cmd : Command R) (body : Body R)
        → allowed r s ≡ true
        → State.device_in_site site id s.publisher.state ≡ some d
        → Effect r s
            (Control.published io body s (Control.publish zone codec takes io clock site d cmd s))

  if_Effect :
      (r : Request Bytes) (s : Server R Bytes Db) (b : Bool) (x y : Result R Bytes Db)
      → Effect r s x
      → Effect r s y
      → Effect r s (if b then x else y)
  if_Effect r s true x y h k = h
  if_Effect r s false x y h k = k

  require_control-Effect :
      (r : Request Bytes) (s : Server R Bytes Db) (handler : Server R Bytes Db → Result R Bytes Db)
      → (allowed r s ≡ true → Effect r s (handler s))
      → Effect r s (Control.require_control r s handler)
  unfolding Control.require_control
  require_control-Effect r s handler h = elim (Bool-cases (allowed r s)) [
    | inl e ↦ rw e (h e)
    | inr e ↦ rw e (kept _)
  ]

  change_policy-Effect :
      (r : Request Bytes) (s : Server R Bytes Db) (o : String ⊎ Policy R)
      → allowed r s ≡ true
      → Effect r s (Control.change_policy io o s)
  unfolding Control.change_policy
  change_policy-Effect r s (inl message) a = kept _
  change_policy-Effect r s (inr p) a = elim (Option-cases (Scheduler.validate_policy p)) [
    | inl e ↦ rw (e, Control.change_policy) (policy_set p a e)
    | inr (message, e) ↦ rw (e, Control.change_policy) (kept _)
  ]

  after_save-Effect :
      (r : Request Bytes) (s : Server R Bytes Db) (d : Device R) (saver : DeviceSaver R Db)
      (o : Option Db)
      → allowed r s ≡ true
      → (d.id == "") ≡ false
      → (d.type == "") ≡ false
      → s.saver ≡ some saver
      → saver.upsert (clock 0) d s.publisher.database ≡ o
      → Effect r s (Control.after_save io clock d s o)
  unfolding Control.after_save Control.with_database
  after_save-Effect r s d saver none a i t e f = kept _
  after_save-Effect r s d saver (some db) a i t e f =
      device_put d (Control.with_database db s) a i t (saved saver e f) refl refl refl

  save_with-Effect :
      (r : Request Bytes) (s : Server R Bytes Db) (d : Device R) (o : Option (DeviceSaver R Db))
      → allowed r s ≡ true
      → (d.id == "") ≡ false
      → (d.type == "") ≡ false
      → s.saver ≡ o
      → Effect r s (Control.save_with io clock d s o)
  unfolding Control.save_with
  save_with-Effect r s d none a i t e = device_put d s a i t (unsaved e refl) refl refl refl
  save_with-Effect r s d (some saver) a i t e =
      after_save-Effect r s d saver (saver.upsert (clock 0) d s.publisher.database) a i t e refl

  add_device-Effect :
      (r : Request Bytes) (s : Server R Bytes Db) (o : String ⊎ Device R)
      → allowed r s ≡ true
      → Effect r s (Control.add_device io clock o s)
  unfolding Control.add_device Control.save_device Control.in_site Control.named
  add_device-Effect r s (inl message) a = kept _
  add_device-Effect r s (inr d) a = elim (Bool-cases (d.id == "")) [
    | inl i ↦ rw i (kept _)
    | inr i ↦ elim (Bool-cases (d.type == "")) [
      | inl t ↦ rw i (rw t (kept _))
      | inr t ↦
          rw i
            (rw t (save_with-Effect r s (Control.named (Control.in_site d s)) s.saver a i t refl))
    ]
  ]

  issue_command-Effect :
      (r : Request Bytes) (s : Server R Bytes Db) (site id : String) (d : Device R)
      (o : String ⊎ Command R)
      → allowed r s ≡ true
      → State.device_in_site site id s.publisher.state ≡ some d
      → Effect r s (Control.issue_command zone codec takes io clock site id d o s)
  unfolding Control.issue_command
  issue_command-Effect r s site id d (inl message) a e = kept _
  issue_command-Effect r s site id d (inr cmd) a e =
      elim (Bool-cases (trim_space cmd.action == "")) [
        | inl t ↦ rw t (kept _)
        | inr t ↦ rw t (commanded site id d (Control.stamped_command io clock id cmd) _ a e)
      ]

  command_device-Effect :
      (r : Request Bytes) (s : Server R Bytes Db) (site id : String)
      → allowed r s ≡ true
      → Effect r s (Control.command_device zone codec takes io clock site id r.body s)
  unfolding Control.command_device
  command_device-Effect r s site id a =
      elim (Option-cases (State.device_in_site site id s.publisher.state)) [
        | inl e ↦ rw (e, Control.command_device) (kept _)
        | inr (d, e) ↦
            rw (e, Control.command_device)
              (issue_command-Effect r s site id d (io.read_command r.body) a e)
      ]

  send_candidate-Effect :
      (r : Request Bytes) (s : Server R Bytes Db) (site : String) (dec : ApplyDecision R)
      → allowed r s ≡ true
      → Effect r s (Control.send_candidate zone codec takes io clock site dec s)
  unfolding Control.send_candidate
  send_candidate-Effect r s site dec a =
      elim (Option-cases
        (State.device_in_site site dec.preview.candidate_device_id s.publisher.state)) [
          | inl e ↦ rw (e, Control.send_candidate) (kept _)
          | inr (d, e) ↦ elim (Option-cases dec.preview.candidate_command) [
            | inl f ↦ rw (e, Control.send_candidate) (rw (f, Control.send_candidate) (kept _))
            | inr (cmd, f) ↦
                rw (e, Control.send_candidate)
                  (rw (f, Control.send_candidate)
                    (commanded site dec.preview.candidate_device_id d
                      (Control.dispatch_command io clock dec.preview.candidate_device_id cmd) _ a
                      e))
          ]
        ]

  decided-Effect :
      (r : Request Bytes) (s : Server R Bytes Db) (site : String) (dec : ApplyDecision R)
      → allowed r s ≡ true
      → Effect r s (Control.decided zone codec takes io clock site dec s)
  unfolding Control.decided
  decided-Effect r s site dec a =
      if_Effect r s dec.can_apply _ _ (send_candidate-Effect r s site dec a) (kept _)

  apply_request-Effect :
      (r : Request Bytes) (s : Server R Bytes Db) (site : String) (o : String ⊎ ApplyRequest R)
      → allowed r s ≡ true
      → Effect r s (Control.apply_request zone codec takes io clock site o s)
  unfolding Control.apply_request
  apply_request-Effect r s site (inl message) a = kept _
  apply_request-Effect r s site (inr req) a = elim (Option-cases (validate_config req.config)) [
    | inr (message, e) ↦ rw (e, Control.apply_request) (kept _)
    | inl e ↦ elim (Bool-cases (F.lt req.max_abs_tracking_error_w (F.decimal 0 0))) [
      | inl f ↦ rw (e, Control.apply_request) (rw f (kept _))
      | inr f ↦ elim (Option-cases (Control.preview_now zone codec takes io clock site req s)) [
        | inl g ↦ rw (e, Control.apply_request) (rw f (rw (g, Control.apply_request) (kept _)))
        | inr (p, g) ↦
            rw (e, Control.apply_request)
              (rw f
                (rw (g, Control.apply_request) (decided-Effect r s site (decide_apply p req) a)))
      ]
    ]
  ]

  with_config-Effect :
      (r : Request Bytes) (s : Server R Bytes Db) (o : String ⊎ Config R)
      (go : Config R → Server R Bytes Db → Result R Bytes Db)
      → ((cfg : Config R) → Effect r s (go cfg s))
      → Effect r s (with_config o go s)
  unfolding with_config
  with_config-Effect r s (inl message) go h = kept _
  with_config-Effect r s (inr cfg) go h = elim (Option-cases (validate_config cfg)) [
    | inr (message, e) ↦ rw (e, with_config) (kept _)
    | inl e ↦ rw (e, with_config) (h cfg)
  ]

  write_option-Effect :
      (r : Request Bytes) (s : Server R Bytes Db) (o : Option (Body R))
      → Effect r s (write_option o s)
  unfolding write_option
  write_option-Effect r s none = kept none
  write_option-Effect r s (some body) = kept _

  show_audit_logs-Effect :
      (r : Request Bytes) (s : Server R Bytes Db) → Effect r s (show_audit_logs io s)
  unfolding show_audit_logs
  show_audit_logs-Effect r s = kept _

  -- Every request leaves the server as it was, or has the control token and changes one thing: it sets a
  -- policy that ValidatePolicy accepts, stores a device with an id and a type, saved before where there is
  -- a database, or has a command published to a device that the store has in its site.
  pub handle-Effect :
      (route : Route) (r : Request Bytes) (s : Server R Bytes Db)
      → Effect r s (handle zone codec takes io clock route r s)
  unfolding handle show_metrics show_summary show_states show_plan show_preview
      Control.upsert_device Control.apply_dispatch Control.set_policy Control.issue
  handle-Effect (console path) r s = kept _
  handle-Effect healthz r s = kept _
  handle-Effect metrics r s = kept _
  handle-Effect list_devices r s = kept _
  handle-Effect (site_summary site) r s = kept _
  handle-Effect (site_states site) r s = kept _
  handle-Effect (site_plan site) r s = write_option-Effect r s _
  handle-Effect (custom_plan site) r s =
      with_config-Effect r s (io.read_config r.body) _ (λ cfg. write_option-Effect r s _)
  handle-Effect (site_preview site) r s = write_option-Effect r s _
  handle-Effect (custom_preview site) r s =
      with_config-Effect r s (io.read_config r.body) _ (λ cfg. write_option-Effect r s _)
  handle-Effect list_commands r s = kept _
  handle-Effect list_events r s = kept _
  handle-Effect list_audit_logs r s = show_audit_logs-Effect r s
  handle-Effect get_policy r s = kept _
  handle-Effect upsert_device r s =
      require_control-Effect r s (Control.add_device io clock (io.read_device r.body))
        (add_device-Effect r s (io.read_device r.body))
  handle-Effect set_policy r s =
      require_control-Effect r s (Control.change_policy io (io.read_policy r.body))
        (change_policy-Effect r s (io.read_policy r.body))
  handle-Effect (apply_dispatch site) r s =
      require_control-Effect r s
        (Control.apply_request zone codec takes io clock (site_or site s) (io.read_apply r.body))
        (apply_request-Effect r s (site_or site s) (io.read_apply r.body))
  handle-Effect (site_command site id) r s =
      require_control-Effect r s
        (Control.command_device zone codec takes io clock (site_or site s) id r.body)
        (command_device-Effect r s (site_or site s) id)
  handle-Effect (device_command id) r s =
      require_control-Effect r s
        (Control.command_device zone codec takes io clock (site_or "" s) id r.body)
        (command_device-Effect r s (site_or "" s) id)
