-- ===== src/Simulator.antt =====
-- cmd/simulator/main.go: the simulated battery and loads, which carry out the commands of the server
-- and acknowledge them.

pub mod Commands
pub mod Battery
pub mod Warnings
use Prim.Native.String.{◌++◌ as append}
use vpp_lab.Prelude.{
  ℕ, suc, String, Bool, true, false, Option, none, some, List, [], ◌∷◌, ◌==◌, if◌then◌else◌, ◌||◌,
  ◌&&◌, not,
}
use vpp_lab.Prelude.Int.{ℤ}
use vpp_lab.Prelude.Float.{Float}
use vpp_lab.Prelude.Dict.{Dict, lookup, insert}
use vpp_lab.Prelude.Clock.{Time, unix_seconds, zero_time}
use vpp_lab.Model.{
  Command, CommandAck, DeviceEvent, Value, null, bool, num, text, raw, device_battery, device_load,
}
use vpp_lab.Topic.{Parsed, parse}

-- The fields of the struct that change, and its site. The client and the keys are parameters.
pub record Simulator (R : Type 0) : Type 0 where
  pub site_id : String
  pub relays : Dict Bool
  pub battery_mode : String
  pub soc : R
  pub low_soc_open : Bool

unfoldable pub bool_param : {R : Type 0} → Dict (Value R) → String → Option Bool
bool_param params key = elim (lookup key params) [
  | none ↦ none
  | some (bool b) ↦ some b
  | some _ ↦ none
]

unfoldable pub string_param : {R : Type 0} → Dict (Value R) → String → Option String
string_param params key = elim (lookup key params) [
  | none ↦ none
  | some (text s) ↦ some s
  | some _ ↦ none
]

-- s.relays[deviceID], false where the key is missing
unfoldable pub relay_on : {R : Type 0} → Simulator R → String → Bool
relay_on s device_id = elim (lookup device_id s.relays) [ none ↦ false | some on ↦ on ]

module _ {R : Type 0} ⦃F : Float R⦄ where
  unfoldable pub new_simulator : String → Simulator R
  new_simulator site_id = record {
    site_id = site_id;
    relays = ("load_01", true) ∷ ("load_02", true) ∷ [];
    battery_mode = "idle";
    soc = F.decimal 65 2;
    low_soc_open = false;
  }

  -- The `switch` of batteryTelemetry: the power, and the state of charge before its limits apply.
  unfoldable pub battery_step : String → R → R × R
  battery_step mode soc =
      if mode == "charging"
      then (F.neg (F.decimal 15 0), F.add soc (F.decimal 5 3))
      else if mode == "discharging"
      then (F.decimal 15 0, F.sub soc (F.decimal 5 3))
      else (F.decimal 0 0, soc)

  unfoldable pub limit_high : Simulator R → Simulator R
  limit_high s =
      if F.le (F.decimal 95 2) s.soc
      then record s { soc = F.decimal 95 2; battery_mode = "idle" }
      else s

  unfoldable pub limit_low : Simulator R → Simulator R
  limit_low s =
      if F.le s.soc (F.decimal 15 2)
      then record s { soc = F.decimal 15 2; battery_mode = "idle" }
      else s

  -- The power that is reported, and the simulator afterwards, whose state of charge and mode are the
  -- other two results.
  unfoldable pub battery_telemetry : Simulator R → R × Simulator R
  unfolding battery_step limit_high limit_low
  battery_telemetry s =
      let (power, soc) = battery_step s.battery_mode s.soc in
      (power, limit_low (limit_high (record s { soc = soc })))

  unfoldable pub should_warn : Simulator R → R → Bool
  should_warn s soc = F.le soc (F.decimal 20 2) && not s.low_soc_open

  unfoldable pub should_recover : Simulator R → R → Bool
  should_recover s soc = F.le (F.decimal 30 2) soc && s.low_soc_open

  unfoldable pub after_soc : Simulator R → R → Simulator R
  unfolding should_warn should_recover
  after_soc s soc =
      let warned = if should_warn s soc then true else s.low_soc_open in
      record s { low_soc_open = if should_recover s soc then false else warned }

  -- publishEvent: the event, before it is signed. `format_time` is Time.Format("20060102150405"). The
  -- site and the type of the device stand in the topic.
  unfoldable pub soc_event : (Time → String) → Time → String → String → String → R → DeviceEvent R
  soc_event format_time now severity code message soc = record {
    event_id = append "battery_01" (append "-" (append code (append "-" (format_time now))));
    site_id = "";
    device_id = "";
    device_type = "";
    severity = severity;
    code = code;
    message = message;
    details = ("soc", num soc) ∷ [];
    timestamp = unix_seconds now;
    created_at = zero_time;
  }

  -- The event that is published, if there is one, and the simulator afterwards; the client is set.
  unfoldable pub publish_battery_soc_event :
      (Time → String) → Time → R → Simulator R → Option (DeviceEvent R) × Simulator R
  unfolding should_warn should_recover after_soc soc_event
  publish_battery_soc_event format_time now soc s =
      if should_warn s soc
      then (
        some (soc_event format_time now "warning" "low_soc" "battery SOC is below 20%" soc),
        after_soc s soc,
      )
      else if should_recover s soc
      then (
        some (
            soc_event format_time now "info" "soc_recovered" "battery SOC recovered above 30%" soc),
        after_soc s soc,
      )
      else (none, after_soc s soc)

abbrev pub supported : String → Bool
supported mode = mode == "charging" || (mode == "discharging" || mode == "idle")

-- What a command makes the simulator do: an acknowledgement without its id and time, and the change.
unfoldable pub refuse : {R : Type 0} → String → Simulator R → (Bool × String) × Simulator R
refuse error s = ((false, error), s)

module _ {R : Type 0} where
  -- The case "set_relay".
  unfoldable pub set_relay : Parsed → Option Bool → Simulator R → (Bool × String) × Simulator R
  unfolding refuse
  set_relay parsed none s = refuse "set_relay requires load device and bool params.on" s
  set_relay parsed (some on) s =
      if parsed.device_type == device_load
      then ((true, ""), record s { relays = insert parsed.device_id on s.relays })
      else refuse "set_relay requires load device and bool params.on" s

  -- The case "set_mode".
  unfoldable pub set_mode : Parsed → Option String → Simulator R → (Bool × String) × Simulator R
  unfolding refuse
  set_mode parsed none s = refuse "set_mode requires battery device and string params.mode" s
  set_mode parsed (some mode) s =
      if not (parsed.device_type == device_battery)
      then refuse "set_mode requires battery device and string params.mode" s
      else if not (supported mode)
      then refuse "unsupported battery mode (use idle/charging/discharging)" s
      else ((true, ""), record s { battery_mode = mode })

  -- The `switch` over the action.
  unfoldable pub carry_out : Parsed → Command R → Simulator R → (Bool × String) × Simulator R
  unfolding set_relay set_mode refuse
  carry_out parsed cmd s =
      if cmd.action == "set_relay"
      then set_relay parsed (bool_param cmd.params "on") s
      else if cmd.action == "set_mode"
      then set_mode parsed (string_param cmd.params "mode") s
      else refuse "unsupported action" s

-- A message that is published, before it is signed: its topic and its payload.
pub record Reply : Type 0 where
  pub topic : String
  pub ack : CommandAck

unfoldable pub ack_topic : String → Parsed → String
ack_topic site_id parsed = append "vpp/" (
    append site_id (
      append "/" (append parsed.device_type (append "/" (append parsed.device_id "/command/ack")))))

module _ {R : Type 0} where
  -- From the decoded command on.
  unfoldable pub answer : Time → Parsed → Command R → Simulator R → Option Reply × Simulator R
  unfolding carry_out ack_topic
  answer now parsed cmd s =
      let ((ok, error), s') = carry_out parsed cmd s in
      (
        some (record {
          topic = ack_topic s.site_id parsed;
          ack = record {
            command_id = cmd.command_id;
            ok = ok;
            error = error;
            timestamp = unix_seconds now;
          };
        }),
        s',
      )

  unfoldable pub answer_if :
      Time → Parsed → Option (Command R) → Simulator R → Option Reply × Simulator R
  answer_if now parsed none s = (none, s)
  answer_if now parsed (some cmd) s = answer now parsed cmd s

  -- handleCommand on a message: its topic and its payload, which json.Unmarshal (`unmarshal`) decodes
  -- where it can. The reply is published.
  unfoldable pub handle_command :
      (String → Option (Command R))
      → Time
      → String
      → String
      → Simulator R
      → Option Reply × Simulator R
  unfolding answer_if answer
  handle_command unmarshal now topic payload s = elim (parse topic) [
    | none ↦ (none, s)
    | some parsed ↦
        if parsed.kind == "command" then answer_if now parsed (unmarshal payload) s else (none, s)
  ]
