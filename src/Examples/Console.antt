-- ===== src/Examples/Console.antt =====
-- The theorems on the HTTP API, applied to a server of the site.
use vpp_lab.Prelude.{
  String, Bool, true, false, none, some, [], ◌≡◌, refl, ◌==◌, inl, inr, if◌then◌else◌, trim_space,
  trim_start, trim_end, after_prefix,
}
use vpp_lab.Prelude.Int.{ℤ, pos}
use vpp_lab.Prelude.Dict.{Dict}
use vpp_lab.Scheduler.{Scheduler, new, validate_policy}
use vpp_lab.Scheduler
use vpp_lab.DeviceAuth.{Auth}
use vpp_lab.Api.{
  set_policy, Request, Response, policy, AuditRecorder, Server, Io, allowed, request_token,
  bearer_token,
}
use vpp_lab.Api.Control.{require_control, change_policy}
use vpp_lab.Api.Handlers.{handle}
use vpp_lab.Api.Audit.{serve}
use vpp_lab.Api.Authorized.{handle-policy_valid}
use vpp_lab.Api.Audited.{control_policy, logged_by, serve_audited, LoggedOnly, serve-unauthorized}
use vpp_lab.Examples.Fixed.{fixed}
use vpp_lab.Examples.Site.{home, battery, discharge_command}
use vpp_lab.Examples.Site.{policy as default_policy, no_config}
use vpp_lab.Examples.Messages.{codec, clock, client}

abbrev io : Io ℤ (Dict Auth)
io = record {
  console_html = "<html>";
  read_device = λ b. inr battery;
  read_config = λ b. inr no_config;
  read_apply = λ b. inl "EOF";
  read_policy = λ b. inr default_policy;
  read_command = λ b. inr discharge_command;
  publish_error = λ e. "not connected";
  database_error = "connection refused";
  format_time = λ t. "20231114120000.000000000";
}

abbrev takes : String → Dict Auth → Bool
takes topic payload = true

abbrev auditor : AuditRecorder ℤ Unit
auditor = record { put_audit_log = λ now log db. some db; list_audit_logs = λ limit db. some [] }

abbrev scheduler : Scheduler ℤ
scheduler = record {
  site_id = home;
  policy = default_policy;
  last_sent = [];
  cooldown = pos 30000000000;
  reads = 0;
  calls = [];
}

abbrev server : Server ℤ (Dict Auth) Unit
server = record {
  site_id = home;
  publisher = client;
  scheduler = scheduler;
  saver = none;
  audit = some auditor;
  checks = [];
  token = "secret";
}

abbrev anonymous : Request (Dict Auth)
anonymous = record {
  route = set_policy;
  body = [];
  header = λ name. "";
  remote_addr = "10.0.0.1:4000";
  host = some "10.0.0.1";
  user_agent = "curl";
}

abbrev operator : Request (Dict Auth)
operator = record anonymous {
  header = λ name. if name == "Authorization" then "Bearer secret" else "";
}

not_allowed : allowed anonymous server ≡ false
unfolding allowed request_token bearer_token trim_space trim_start trim_end after_prefix
not_allowed = refl

serve-unauthorized_example :
    LoggedOnly ⦃F = fixed⦄
      (pos 0)
      codec
      takes
      io
      clock
      anonymous
      server
      (serve ⦃F = fixed⦄ (pos 0) codec takes io clock anonymous server)
serve-unauthorized_example =
    serve-unauthorized ⦃F = fixed⦄ (pos 0) codec takes io clock anonymous server not_allowed

default_valid : validate_policy ⦃F = fixed⦄ default_policy ≡ none
unfolding validate_policy
default_valid = refl

handle-policy_valid_example :
    validate_policy ⦃F = fixed⦄
      (handle ⦃F = fixed⦄
        (pos 0)
        codec
        takes
        io
        clock
        set_policy
        operator
        server).1.scheduler.policy
    ≡ none
handle-policy_valid_example =
    handle-policy_valid ⦃F = fixed⦄ (pos 0) codec takes io clock set_policy operator server
      default_valid

abbrev answer : Response ℤ
answer = record { status = 200; body = policy default_policy }

policy_answer :
    handle ⦃F = fixed⦄ (pos 0) codec takes io clock set_policy operator server
    ≡ (some answer, server)
unfolding handle allowed request_token bearer_token trim_space trim_start trim_end after_prefix
    require_control change_policy validate_policy Scheduler.set_policy
policy_answer = refl

serve_audited_example : serve ⦃F = fixed⦄ (pos 0) codec takes io clock operator server ≡ (
  some answer,
  logged_by ⦃F = fixed⦄ (pos 0) codec takes io clock auditor "policy.update" operator 200 server,
)
serve_audited_example =
    serve_audited ⦃F = fixed⦄ (pos 0) codec takes io clock operator server server auditor
      "policy.update" answer refl control_policy policy_answer
