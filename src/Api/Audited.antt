-- ===== src/Api/Audited.antt =====
-- Every request for a change that is answered is in the audit log; without the token nothing else changes.
use Prim.Native.String.{◌++◌ as append}
use package.text.Mathlib.TextLemmas.{append_assoc}
use vpp_lab.Prelude.{
  ℕ, String, Bool, true, false, Option, none, some, [], ◌∷◌, format_int, subst, ◌≡◌, ◌≤◌, refl, sym,
  ap, arith, has_suffix, has_part, has_prefix-append, has_suffix-append, has_part-append,
  has_suffix_last, has_prefix-clash, eq_append_clash, eq_append_longer, clash, size, ◌∙◌,
}
use vpp_lab.Prelude.Float.{Float}
use vpp_lab.Prelude.Clock.{Time, Duration, unix_nano}
use vpp_lab.Model.{AuditLog, text}
use vpp_lab.Mqtt.{Codec, or_same}
use vpp_lab.Api.{
  Route, upsert_device, apply_dispatch, set_policy, site_command, device_command, Request, Response,
  AuditRecorder, Server, Io, Result, allowed,
}
use vpp_lab.Api.Control.{with_database}
use vpp_lab.Api.Handlers.{handle}
use vpp_lab.Api.Audit.{
  method_of, in_sites, path_of, audit_action, audit_entry, write_audit, serve, site_value,
  device_value, audit_actor, client_ip,
}
use vpp_lab.Api.Authorized.{handle-unauthorized}

-- The routes whose handlers ask for the control token, with the action of each.
pub data IsControl : Route → String → Type 0 where
  control_device : IsControl upsert_device "device.upsert"
  control_policy : IsControl set_policy "policy.update"
  control_apply : (site : String) → IsControl (apply_dispatch site) "dispatch.apply"
  control_site : (site id : String) → IsControl (site_command site id) "command.issue"
  control_command : (id : String) → IsControl (device_command id) "command.issue"

-- The path of a site ends as what stands last in it does.
has_suffix-in_sites :
    (p site t : String) → size p ≤ size t → has_suffix p (in_sites site t) ≡ has_suffix p t
unfolding in_sites
has_suffix-in_sites p site t h =
    ap (has_suffix p) (sym (append_assoc "/api/v1/sites/" site t))
    ∙ has_suffix_last p (append "/api/v1/sites/" site) t h

apply_action :
    (site : String) → audit_action "POST" (in_sites site "/dispatch/apply") ≡ some "dispatch.apply"
unfolding audit_action in_sites clash size has_suffix
apply_action site =
    rw (eq_append_clash "/api/v1/devices" "/api/v1/sites/" (append site "/dispatch/apply") refl) (
      rw (has_prefix-clash "/api/v1/devices/" "/api/v1/sites/" (append site "/dispatch/apply") refl)
        (rw has_prefix-append (
          ground (
            arith,
            has_suffix-in_sites "/command" site "/dispatch/apply" (omega arith),
            has_suffix-in_sites "/dispatch/apply" site "/dispatch/apply" (omega arith),
          ))))

site_action :
    (site id : String)
    → audit_action "POST" (in_sites site (append "/devices/" (append id "/command")))
      ≡ some "command.issue"
unfolding audit_action in_sites clash
site_action site id =
    rw (eq_append_clash "/api/v1/devices" "/api/v1/sites/" (append site rest) refl) (
      rw (has_prefix-clash "/api/v1/devices/" "/api/v1/sites/" (append site rest) refl)
        (rw has_prefix-append (rw part (rw last refl))))
  where
    rest : String
    rest = append "/devices/" (append id "/command")

    at : String
    at = append "/api/v1/sites/" site

    part : has_part "/devices/" (in_sites site rest) ≡ true
    part =
        ap (has_part "/devices/") (sym (append_assoc "/api/v1/sites/" site rest))
        ∙ has_part-append at "/devices/" (append id "/command")

    last : has_suffix "/command" (in_sites site rest) ≡ true
    last =
        ap (has_suffix "/command") (
          sym (append_assoc "/api/v1/sites/" site rest)
          ∙ ap (append at) (sym (append_assoc "/devices/" id "/command"))
          ∙ sym (append_assoc at (append "/devices/" id) "/command"))
        ∙ has_suffix-append (append at (append "/devices/" id)) "/command"

command_action :
    (id : String)
    → audit_action "POST" (append "/api/v1/devices/" (append id "/command")) ≡ some "command.issue"
unfolding audit_action size
command_action id =
    rw (eq_append_longer "/api/v1/devices" "/api/v1/devices/" (append id "/command") (omega arith))
      (rw has_prefix-append (rw last refl))
  where
    last : has_suffix "/command" (append "/api/v1/devices/" (append id "/command")) ≡ true
    last =
        ap (has_suffix "/command") (sym (append_assoc "/api/v1/devices/" id "/command"))
        ∙ has_suffix-append (append "/api/v1/devices/" id) "/command"

-- A request for a change has its action in the audit log, whatever its site and its device are called.
pub audit_action_lem :
    (route : Route) (action : String)
    → IsControl route action
    → audit_action (method_of route) (path_of route) ≡ some action
unfolding audit_action method_of path_of in_sites
audit_action_lem _ _ control_device = refl
audit_action_lem _ _ control_policy = refl
audit_action_lem _ _ (control_apply site) = apply_action site
audit_action_lem _ _ (control_site site id) = site_action site id
audit_action_lem _ _ (control_command id) = command_action id

-- The audit log of a request, with its action, at the readings 100 and 101 of the clock.
abbrev pub log_of : {R Bytes : Type 0} → (ℕ → Time) → String → Request Bytes → ℕ → AuditLog R
log_of clock action r status = record {
  id = format_int (unix_nano (clock 100));
  occurred_at = clock 101;
  actor = audit_actor r.header;
  action = action;
  method = method_of r.route;
  path = path_of r.route;
  status_code = status;
  client_ip = client_ip r;
  user_agent = r.user_agent;
  details =
      ("site_id", text (site_value r.route)) ∷ ("device_id", text (device_value r.route)) ∷ [];
}

module _ {R Bytes Db : Type 0} ⦃F : Float R⦄ (zone : Duration) (codec : Codec R Bytes)
    (takes : String → Bytes → Bool) (io : Io R Bytes) (clock : ℕ → Time) where
  -- A server with the audit log of a request handed to its recorder; an error of that leaves the database
  -- as it was.
  abbrev pub logged_by :
      AuditRecorder R Db → String → Request Bytes → ℕ → Server R Bytes Db → Server R Bytes Db
  unfolding with_database or_same
  logged_by a action r status s =
      with_database
        (or_same s.publisher.database
          (a.put_audit_log (clock 102) (log_of clock action r status) s.publisher.database))
        s

  -- Where the server has an audit recorder, a request for a change that its handler answers, whatever the
  -- answer and with or without the token, is handed to the recorder as a log with its action, its method,
  -- path, actor and address, and the status of the answer; and the answer is the handler's.
  pub serve_audited :
      (r : Request Bytes) (s s' : Server R Bytes Db) (a : AuditRecorder R Db) (action : String)
      (response : Response R)
      → s.audit ≡ some a
      → IsControl r.route action
      → handle zone codec takes io clock r.route r s ≡ (some response, s')
      → serve zone codec takes io clock r s
        ≡ (some response, logged_by a action r response.status s')
  unfolding serve write_audit audit_entry
  serve_audited r s s' a action response has control e =
      rw (has, serve) (rw (audit_action_lem r.route action control, serve) (rw e refl))

  -- A server that is as it was, but for one audit log handed to its recorder: that of the request, with the
  -- action that is logged for its method and path, and the status of the answer.
  pub data LoggedOnly (r : Request Bytes) (s : Server R Bytes Db) : Result R Bytes Db → Type 0 where
    silent : (answer : Option (Response R)) → LoggedOnly r s (answer, s)
    logged :
        (a : AuditRecorder R Db) (action : String) (response : Response R)
        → s.audit ≡ some a
        → audit_action (method_of r.route) (path_of r.route) ≡ some action
        → LoggedOnly r s (some response, logged_by a action r response.status s)

  write_audit-LoggedOnly :
      (r : Request Bytes) (s : Server R Bytes Db) (a : AuditRecorder R Db) (action : String)
      (result : Result R Bytes Db)
      → s.audit ≡ some a
      → audit_action (method_of r.route) (path_of r.route) ≡ some action
      → result.1 ≡ s
      → LoggedOnly r s (write_audit clock action a r result)
  unfolding write_audit audit_entry
  write_audit-LoggedOnly r s a action (none, s') has act e = rw e (silent none)
  write_audit-LoggedOnly r s a action (some response, s') has act e =
      rw e (logged a action response has act)

  -- A request without the control token, where the server has one, changes nothing of the server, whatever
  -- its route, but for the audit log that the recorder gets of it.
  pub serve-unauthorized :
      (r : Request Bytes) (s : Server R Bytes Db)
      → allowed r s ≡ false
      → LoggedOnly r s (serve zone codec takes io clock r s)
  unfolding serve
  serve-unauthorized r s denied =
      audited s.audit (audit_action (method_of r.route) (path_of r.route)) refl refl
    where
      kept : (handle zone codec takes io clock r.route r s).1 ≡ s
      kept = handle-unauthorized zone codec takes io clock r.route r s denied

      unchanged : LoggedOnly r s (handle zone codec takes io clock r.route r s)
      unchanged =
          subst (λ t. LoggedOnly r s ((handle zone codec takes io clock r.route r s).0, t))
            (sym kept) (silent (handle zone codec takes io clock r.route r s).0)

      audited :
          (recorder : Option (AuditRecorder R Db)) (entry : Option String)
          → s.audit ≡ recorder
          → audit_action (method_of r.route) (path_of r.route) ≡ entry
          → LoggedOnly r s (elim recorder [
            | none ↦ handle zone codec takes io clock r.route r s
            | some a ↦ elim entry [
              | none ↦ handle zone codec takes io clock r.route r s
              | some action ↦
                  write_audit clock action a r (handle zone codec takes io clock r.route r s)
            ]
          ])
      audited none entry h k = unchanged
      audited (some a) none h k = unchanged
      audited (some a) (some action) h k = write_audit-LoggedOnly r s a action _ h k kept
