-- ===== src/Mqtt.antt =====
-- internal/mqtt/client.go: the messages that devices send, routed into the store, the time series and
-- the recorder, and the commands that go out. The connection and TLS are the paho library's; one
-- message or command is handled at a time.
pub mod Gate
pub mod Own
pub mod Publish
pub mod Tls
use Prim.Native.String.{◌++◌ as append}
use vpp_lab.Prelude.{
  ℕ, String, Bool, true, false, Option, none, some, List, [], ◌∷◌, ◌==◌, ◌||◌, ◌+◌, ◌%◌, ◌^◌,
  if◌then◌else◌, format_int,
}
use vpp_lab.Prelude.Int.{ℤ, pos, eq_ℤ}
use vpp_lab.Prelude.Dict.{Dict, lookup, insert}
use vpp_lab.Prelude.Clock.{Time, Duration, is_zero, unix_seconds}
use vpp_lab.Model.{Device, DeviceType, Telemetry, Command, CommandAck, DeviceEvent}
use vpp_lab.Topic.{Parsed, command, parse}
use vpp_lab.State.{Store, put_telemetry, put_command_issued, put_command_ack, put_event}
use vpp_lab.Timeseries.{Writer, write_telemetry}
use vpp_lab.DeviceAuth.{AuthError, Keys, Library, verify_payload}

-- encoding/json on the messages: `none` where it fails.
pub record Codec (R Bytes : Type 0) : Type 0 where
  pub write_command : Command R → Option Bytes
  pub read_telemetry : Bytes → Option (Telemetry R)
  pub read_ack : Bytes → Option CommandAck
  pub read_event : Bytes → Option (DeviceEvent R)
  pub write_telemetry : Telemetry R → Option String

-- The interface CommandRecorder on a database: `none` is an error, which leaves the database as it
-- was. The first argument is the database's clock.
pub record CommandRecorder (R Db : Type 0) : Type 0 where
  pub put_command_issued : Time → String → Device R → Command R → Db → Option Db
  pub put_command_ack : Time → String → DeviceType → String → CommandAck → Db → Option Db
  pub put_event : Time → DeviceEvent R → Db → Option Db

-- The client with what it writes to: `sent` are the messages that the broker took, the last first.
pub record Client (R Bytes Db : Type 0) : Type 0 where
  pub state : Store R
  pub ts : Option (Writer R)
  pub recorder : Option (CommandRecorder R Db)
  pub database : Db
  pub keys : Keys
  pub max_skew : Duration
  pub rejects : Dict ℕ
  pub connected : Bool
  pub sent : List (String × Bytes)

-- Why PublishCommand fails: json.Marshal, or the broker.
pub data PublishError : Type 0 where
  marshal_failed : PublishError
  refused : PublishError

unfoldable pub requires_device_auth : String → Bool
requires_device_auth kind =
    kind == "telemetry" || (kind == "status" || (kind == "event" || kind == "command/ack"))

-- A count in a map, zero where the key is missing.
unfoldable pub count_of : Option ℕ → ℕ
count_of none = 0
count_of (some n) = n

-- What an error that is only logged leaves.
unfoldable pub or_same {ℓ} : {A : Type ℓ} → A → Option A → A
or_same a none = a
or_same a (some b) = b

unfoldable pub event_id : String → ℤ → String
event_id device timestamp = append device (append "-" (format_int timestamp))

module _ {R : Type 0} where
  unfoldable pub write_point : Time → Telemetry R → Option (Writer R) → Option (Writer R)
  unfolding or_same
  write_point now t none = none
  write_point now t (some w) = some (or_same w (write_telemetry now t w))

  -- The telemetry, and the event, with the identity of the topic and the defaults of the client.
  unfoldable pub identify : Time → Parsed → Telemetry R → Telemetry R
  identify now p t = record t {
    site_id = p.site_id;
    device_id = p.device_id;
    type = p.device_type;
    timestamp = if eq_ℤ t.timestamp (pos 0) then unix_seconds now else t.timestamp;
  }

  unfoldable pub identify_event : (ℕ → Time) → Parsed → DeviceEvent R → DeviceEvent R
  identify_event clock p e =
      let timestamp = if eq_ℤ e.timestamp (pos 0) then unix_seconds (clock 1) else e.timestamp in
      record e {
        site_id = p.site_id;
        device_id = p.device_id;
        device_type = p.device_type;
        timestamp = timestamp;
        created_at = if is_zero e.created_at then clock 2 else e.created_at;
        event_id = if e.event_id == "" then event_id p.device_id timestamp else e.event_id;
      }

module _ {R Bytes Db : Type 0} where
  unfoldable pub increment_rejected : String → Client R Bytes Db → Client R Bytes Db
  unfolding count_of
  increment_rejected reason c = record c {
    rejects = insert reason ((count_of (lookup reason c.rejects) + 1) % 2 ^ 64) c.rejects;
  }

  unfoldable pub rejected_messages : Client R Bytes Db → Dict ℕ
  rejected_messages c = c.rejects

  -- True is the nil error.
  unfoldable pub healthy : Client R Bytes Db → Bool
  healthy c = c.connected

  unfoldable pub record_with :
      (CommandRecorder R Db → Db → Option Db) → Client R Bytes Db → Client R Bytes Db
  unfolding or_same
  record_with f c = elim c.recorder [
    | none ↦ c
    | some r ↦ record c { database = or_same c.database (f r c.database) }
  ]

module _ {R Bytes Raw Db : Type 0} (codec : Codec R Bytes) (lib : Library Bytes Raw) where
  unfoldable pub on_telemetry :
      (ℕ → Time) → Parsed → Option (Telemetry R) → Client R Bytes Db → Client R Bytes Db
  unfolding write_point
  on_telemetry clock p none c = c
  on_telemetry clock p (some t) c =
      let t' = identify (clock 1) p t in
      record c {
        state = put_telemetry codec.write_telemetry t' c.state;
        ts = write_point (clock 2) t' c.ts;
      }

  unfoldable pub on_ack :
      (ℕ → Time) → Parsed → Option CommandAck → Client R Bytes Db → Client R Bytes Db
  unfolding record_with
  on_ack clock p none c = c
  on_ack clock p (some ack) c =
      record_with (λ r. r.put_command_ack (clock 2) p.site_id p.device_type p.device_id ack)
        (record c { state = put_command_ack (clock 1) p.device_id ack c.state })

  unfoldable pub on_event :
      (ℕ → Time) → Parsed → Option (DeviceEvent R) → Client R Bytes Db → Client R Bytes Db
  unfolding record_with
  on_event clock p none c = c
  on_event clock p (some e) c =
      let e' = identify_event clock p e in
      record_with (λ r. r.put_event (clock 3) e') (record c { state = put_event e' c.state })

  -- The switch on the kind; a command, a status and any other kind are at most logged.
  unfoldable pub route : (ℕ → Time) → Parsed → Bytes → Client R Bytes Db → Client R Bytes Db
  unfolding on_telemetry on_ack on_event
  route clock p payload c =
      if p.kind == "telemetry"
      then on_telemetry clock p (codec.read_telemetry payload) c
      else if p.kind == "command/ack"
      then on_ack clock p (codec.read_ack payload) c
      else if p.kind == "event"
      then on_event clock p (codec.read_event payload) c
      else c

  unfoldable pub admit :
      (ℕ → Time) → Parsed → Bytes → Option AuthError → Client R Bytes Db → Client R Bytes Db
  unfolding route
  admit clock p payload (some error) c = increment_rejected "auth" c
  admit clock p payload none c = route clock p payload c

  -- The readings of the clocks in the course of a message are `clock 0`, `clock 1` and so on.
  unfoldable pub handle_message :
      (ℕ → Time) → String → Bytes → Client R Bytes Db → Client R Bytes Db
  unfolding admit requires_device_auth
  handle_message clock topic payload c = elim (parse topic) [
    | none ↦ c
    | some p ↦
        if requires_device_auth p.kind
        then admit clock p payload
            (verify_payload lib topic p.device_id payload c.keys (clock 0) c.max_skew) c
        else route clock p payload c
  ]

module _ {R Bytes Db : Type 0} (codec : Codec R Bytes) (takes : String → Bytes → Bool) where
  -- From the publishing on; `takes` says whether the broker takes a message.
  unfoldable pub send :
      (ℕ → Time)
      → String
      → Device R
      → Command R
      → Option Bytes
      → Client R Bytes Db
      → Option PublishError × Client R Bytes Db
  unfolding record_with
  send clock site d cmd none c = (some marshal_failed, c)
  send clock site d cmd (some payload) c =
      let topic = command site d.type d.id in
      if takes topic payload
      then (
        none,
        record_with (λ r. r.put_command_issued (clock 1) site d cmd)
            (record c {
              sent = (topic, payload) ∷ c.sent;
              state = put_command_issued (clock 0) site d cmd c.state;
            }),
      )
      else (some refused, c)

  unfoldable pub publish_command :
      (ℕ → Time)
      → String
      → Device R
      → Command R
      → Client R Bytes Db
      → Option PublishError × Client R Bytes Db
  unfolding send
  publish_command clock site d cmd c = send clock site d cmd (codec.write_command cmd) c
