-- ===== src/Examples/Messages.antt =====
-- The theorems on the MQTT client, applied to a client of the site.
use vpp_lab.Prelude.{ℕ, String, true, none, some, [], ◌∷◌, ◌≡◌, ◌≢◌, refl, ◌⊎◌, ◌*◌, split}
use vpp_lab.Prelude.Int.{ℤ, pos}
use vpp_lab.Prelude.Dict.{Dict, lookup}
use vpp_lab.Prelude.Clock.{Time, second}
use vpp_lab.Topic.{Parsed, parse, from_parts}
use vpp_lab.State.{Store, state_key}
use vpp_lab.DeviceAuth.{Auth, verify_payload}
use vpp_lab.Mqtt.{Codec, Client, handle_message, publish_command, send, record_with}
use vpp_lab.Mqtt.Gate.{IsSame, IsFrom, handle_message-IsFrom}
use vpp_lab.Mqtt.Own.{handle_message-others_kept}
use vpp_lab.Mqtt.Publish.{Published, publish_command-Published, newest_status, acknowledged_status}
use vpp_lab.Examples.Site.{
  home, battery, battery_telemetry, noon, discharge_command, accepted, low_soc,
}
use vpp_lab.Examples.Signatures.{plain, keys, keys-enabled}

abbrev pub codec : Codec ℤ (Dict Auth)
codec = record {
  write_command = λ c. some [];
  read_telemetry = λ b. some battery_telemetry;
  read_ack = λ b. some accepted;
  read_event = λ b. some low_soc;
  write_telemetry = λ t. some "telemetry";
}

abbrev pub clock : ℕ → Time
clock n = noon

abbrev pub site_store : Store ℤ
site_store = record {
  devices = ("home-lab\0battery_01", battery) ∷ [];
  telemetry = [];
  commands = [];
  events = [];
  redis = none;
  site_id = home;
}

abbrev pub client : Client ℤ (Dict Auth) Unit
client = record {
  state = site_store;
  ts = none;
  recorder = none;
  database = tt;
  keys = [];
  max_skew = pos (300 * second);
  rejects = [];
  connected = true;
  sent = [];
}

abbrev guarded_client : Client ℤ (Dict Auth) Unit
guarded_client = record client { keys = keys }

abbrev telemetry_topic : String
telemetry_topic = "vpp/home-lab/battery/battery_01/telemetry"

abbrev telemetry_parsed : Parsed
telemetry_parsed = record {
  site_id = home;
  device_type = "battery";
  device_id = "battery_01";
  kind = "telemetry";
}

abbrev ack_parsed : Parsed
ack_parsed = record telemetry_parsed { kind = "command/ack" }

handle_message-IsFrom_example :
    IsSame guarded_client (handle_message codec plain clock telemetry_topic [] guarded_client)
    ⊎ IsFrom codec plain telemetry_topic noon [] guarded_client
handle_message-IsFrom_example =
    handle_message-IsFrom codec plain clock telemetry_topic [] guarded_client keys-enabled

telemetry_parses : parse telemetry_topic ≡ some telemetry_parsed
unfolding parse split from_parts
telemetry_parses = refl

other_key : state_key "home-lab" "battery_01" ≢ "home-lab\0load_02"
unfolding state_key
other_key e = absurd (cc e)

handle_message-others_kept_example :
    lookup "home-lab\0load_02"
      (handle_message codec plain clock telemetry_topic [] client).state.telemetry
    ≡ lookup "home-lab\0load_02" site_store.telemetry
handle_message-others_kept_example =
    handle_message-others_kept codec plain clock telemetry_topic [] client telemetry_parsed
      "home-lab\0load_02" telemetry_parses refl other_key

open_gate :
    (topic : String)
    → verify_payload plain topic "battery_01" [] [] noon (pos (300 * second)) ≡ none
unfolding verify_payload
open_gate topic = refl

publish_command-Published_example :
    Published codec
      (λ topic payload. true)
      clock
      home
      battery
      discharge_command
      client
      (publish_command codec (λ topic payload. true) clock home battery discharge_command client)
publish_command-Published_example =
    publish_command-Published codec (λ topic payload. true) clock home battery discharge_command
      client

abbrev commanding : Client ℤ (Dict Auth) Unit
unfolding publish_command send record_with
commanding =
    (publish_command codec (λ topic payload. true) clock home battery discharge_command client).1

no_error :
    publish_command codec (λ topic payload. true) clock home battery discharge_command client
    ≡ (none, commanding)
unfolding publish_command send
no_error = refl

ack_parses : parse "vpp/home-lab/battery/battery_01/command/ack" ≡ some ack_parsed
unfolding parse split from_parts
ack_parses = refl

still_open :
    verify_payload plain "vpp/home-lab/battery/battery_01/command/ack" "battery_01" []
      commanding.keys noon commanding.max_skew
    ≡ none
unfolding commanding publish_command send record_with verify_payload
still_open = refl

acknowledged_status_example :
    newest_status
      (handle_message codec plain clock "vpp/home-lab/battery/battery_01/command/ack" []
        commanding).state.commands
    ≡ "acked"
acknowledged_status_example =
    acknowledged_status codec plain (λ topic payload. true) clock clock home
      "vpp/home-lab/battery/battery_01/command/ack" battery discharge_command client commanding []
      ack_parsed accepted no_error ack_parses refl refl still_open refl refl
