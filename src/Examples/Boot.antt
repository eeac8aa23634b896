-- ===== src/Examples/Boot.antt =====
-- The theorems on the start of the server and on the gateway's own commands, applied to a small site.
use vpp_lab.Prelude.{
  ℕ, String, true, Option, none, some, [], ◌∷◌, ◌≡◌, refl, inr, ◌==◌, split, trim_space, trim_start,
  trim_end, cut_at, if◌then◌else◌,
}
use vpp_lab.Prelude.Int.{ℤ}
use vpp_lab.Prelude.Dict.{insert}
use vpp_lab.Prelude.Clock.{Time}
use vpp_lab.Model.{Telemetry, text}
use vpp_lab.Config.{Config, Parsers, load, getenv}
use vpp_lab.State.{Redis}
use vpp_lab.Timeseries.{Writer}
use vpp_lab.DeviceAuth.{Keys}
use vpp_lab.DeviceAuth.Parse.{parse_keys}
use vpp_lab.Mqtt.Tls.{Files, RootsLoad, roots, PairLoads, no_pair}
use vpp_lab.Startup.{start}
use vpp_lab.Startup.Started.{IsStarted, start-IsStarted}
use vpp_lab.Startup.Succeeds.{IsSome, start-IsSome}
use vpp_lab.Edge.Local.{LocalCommandRequest, Interface, Io}
use vpp_lab.Edge.Counted.{Counted}
use vpp_lab.Examples.Fixed.{fixed}
use vpp_lab.Examples.Site.{home, noon, battery_telemetry}
use vpp_lab.Examples.Storage.{columns, tables}

abbrev key_text : String
key_text = "battery_01=s3, load_02 = s4"

abbrev parsed_keys : Keys
parsed_keys = ("battery_01", "s3") ∷ ("load_02", "s4") ∷ []

keys_parse : parse_keys key_text ≡ inr parsed_keys
unfolding parse_keys split trim_space trim_start trim_end cut_at insert
keys_parse = refl

abbrev parsers : Parsers ℤ
parsers = record { duration = λ v. none; float = λ v. none; int = λ v. none; bool = λ v. none }

-- An environment that sets the keys and the file of authorities, and nothing else.
abbrev env : String → String
env key =
    if key == "DEVICE_KEYS" then key_text else if key == "MQTT_TLS_CA_FILE" then "ca.pem" else ""

-- The files: authorities in one, and nothing else.
abbrev tls : Files String String String
tls = record {
  read_file = λ name. if name == "ca.pem" then some "pem" else none;
  parse_pool = λ pem. some pem;
  load_pair = λ cert key. none;
}

abbrev settings : Config ℤ
unfolding load
settings = load ⦃F = fixed⦄ env parsers

settings_keys : parse_keys settings.device_keys ≡ inr parsed_keys
unfolding settings load getenv parse_keys split trim_space trim_start trim_end cut_at insert
settings_keys = refl

ca_loads : RootsLoad tls settings.mqtt_tls_ca_file
unfolding settings load getenv
ca_loads = roots "pem" "pem" refl refl

pair_loads : PairLoads tls settings.mqtt_tls_cert_file settings.mqtt_tls_key_file
unfolding settings load getenv
pair_loads = no_pair

abbrev unmarshal : String → Option (Telemetry ℤ)
unmarshal raw = some battery_telemetry

abbrev redis : Redis
redis = record { hash = []; reachable = true }

abbrev writer : Writer ℤ
writer = record { points = []; reachable = true }

running :
    IsSome
      (start {Bytes = String} ⦃F = fixed⦄ unmarshal columns tls noon settings redis writer tables)
running =
    start-IsSome ⦃F = fixed⦄ unmarshal columns tls noon settings redis writer tables parsed_keys
      refl refl settings_keys ca_loads pair_loads

start-IsStarted_example : IsStarted ⦃F = fixed⦄ unmarshal columns settings running.0
start-IsStarted_example =
    start-IsStarted ⦃F = fixed⦄ unmarshal columns tls noon settings redis writer tables running.0
      running.1

abbrev gateway : Interface String
gateway = record {
  cache = none;
  local = some true;
  upstream = none;
  site_id = home;
  control_token = "edge";
  local_commands = record { counts = []; order = [] };
  sent = [];
}

abbrev request : LocalCommandRequest ℤ
request = record {
  site_id = "";
  device_type = "battery";
  device_id = "battery_01";
  action = "set_mode";
  params = some (("mode", text "idle") ∷ []);
  reason = "";
}

abbrev io : Io ℤ String
io = record {
  read_request = λ body. inr request;
  write_command = λ cmd. inr "{}";
  publish = λ topic payload. none;
  format_time = λ t. "20231114120000.000000000";
  database_error = "database is locked";
}

abbrev clock : ℕ → Time
clock n = noon

abbrev header : String → String
header name = if name == "X-VPP-Edge-Token" then "edge" else ""
