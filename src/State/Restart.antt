-- ===== src/State/Restart.antt =====
-- The Redis copy: a store made from it has the latest telemetry of the store that wrote it.
use vpp_lab.Prelude.{String, true, false, Option, none, some, List, [], ◌∷◌, ◌≡◌, ◌==◌}
use vpp_lab.Prelude.Dict.{Dict, lookup, Distinct, Entries}
use vpp_lab.Model.{Telemetry}
use vpp_lab.State.{Redis, Store, new_store, state_key, put_telemetry}

module _ {R : Type 0} (marshal : Telemetry R → Option String)
    (unmarshal : String → Option (Telemetry R)) where
  -- A telemetry with a site and a device that json.Unmarshal gives back from what json.Marshal made.
  pub record Survives (t : Telemetry R) : Type 0 where
    pub has_device : (t.device_id == "") ≡ false
    pub has_site : (t.site_id == "") ≡ false
    pub payload : String
    pub written : marshal t ≡ some payload
    pub read : unmarshal payload ≡ some t

  -- An entry of the hash that the store wrote.
  pub record IsWritten (field raw : String) : Type 0 where
    pub telemetry : Telemetry R
    pub has_device : (telemetry.device_id == "") ≡ false
    pub has_site : (telemetry.site_id == "") ≡ false
    pub read : unmarshal raw ≡ some telemetry
    pub field_key : state_key telemetry.site_id telemetry.device_id ≡ field

  abbrev read_or : Option String → Option (Telemetry R) → Option (Telemetry R)
  read_or none other = other
  read_or (some raw) other = unmarshal raw

  -- The server answers, and its hash holds what the store's map holds.
  pub record IsMirror (s : Store R) : Type 0 where
    pub redis : Redis
    pub connected : s.redis ≡ some redis
    pub answers : redis.reachable ≡ true
    pub distinct : Distinct redis.hash
    pub entries : Entries IsWritten redis.hash
    pub same : (k : String) → read_or (lookup k redis.hash) none ≡ lookup k s.telemetry

  -- A store connected to a server whose hash is empty, as at the first start.
  abbrev pub first_start : String → Store R
  first_start site = record new_store {
    redis = some (record { hash = []; reachable = true });
    site_id = site;
  }

  abbrev pub put_all : List (Telemetry R) → Store R → Store R
  put_all [] s = s
  put_all (t ∷ ts) s = put_all ts (put_telemetry marshal t s)
