-- ===== src/Topic.antt =====
-- internal/topic/topic.go: the MQTT topics vpp/<site>/<type>/<device>/<kind>, printed and parsed.
pub mod RoundTrip
use Prim.Native.String.{◌++◌}
use vpp_lab.Prelude.{String, List, [], ◌∷◌, Option, none, some, ◌==◌, if◌then◌else◌, split}

pub record Parsed : Type 0 where
  pub site_id : String
  pub device_type : String
  pub device_id : String
  pub kind : String

unfoldable pub telemetry : String → String → String → String
telemetry site_id device_type device_id =
    "vpp/" ++ (site_id ++ ("/" ++ (device_type ++ ("/" ++ (device_id ++ "/telemetry")))))

unfoldable pub command : String → String → String → String
command site_id device_type device_id =
    "vpp/" ++ (site_id ++ ("/" ++ (device_type ++ ("/" ++ (device_id ++ "/command")))))

unfoldable pub wildcard : String → String
wildcard site_id = "vpp/" ++ (site_id ++ "/+/+/+")

unfoldable pub command_ack_wildcard : String → String
command_ack_wildcard site_id = "vpp/" ++ (site_id ++ "/+/+/command/ack")

-- The fields from the parts that strings.Split gives; `ok` false is `none`.
unfoldable pub from_parts : List String → Option Parsed
from_parts (root ∷ site ∷ type ∷ device ∷ k ∷ []) =
    if root == "vpp"
    then some (record { site_id = site; device_type = type; device_id = device; kind = k })
    else none
from_parts (root ∷ site ∷ type ∷ device ∷ k ∷ l ∷ []) =
    if root == "vpp"
    then some
        (record { site_id = site; device_type = type; device_id = device; kind = k ++ ("/" ++ l) })
    else none
from_parts (root ∷ site ∷ type ∷ device ∷ k ∷ l ∷ m ∷ rest) =
    if root == "vpp"
    then some (record { site_id = site; device_type = type; device_id = device; kind = k })
    else none
from_parts _ = none

unfoldable pub parse : String → Option Parsed
unfolding from_parts split
parse t = from_parts (split b'/' t)
