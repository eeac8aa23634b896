-- ===== src/Edge/Local.antt =====
-- cmd/edge-gateway/main.go: the HTTP interface of the gateway, with the commands that it sends to the
-- devices of its site itself.
use vpp_lab.Prelude.{
  ℕ, String, Bool, true, false, Option, none, some, List, [], ◌∷◌, ◌++◌, ◌==◌, ◌||◌, ◌+◌, ◌%◌, ◌^◌,
  ◌⊎◌, if◌then◌else◌, trim_space, after_prefix, split, is_some,
}
use vpp_lab.Prelude.Dict.{Dict, lookup, insert}
use vpp_lab.Prelude.Clock.{Time}
use vpp_lab.Model.{Command, Value}
use vpp_lab.Topic.{wildcard, command_ack_wildcard}
use vpp_lab.Edge.{Cache, CacheStats}

-- A set of texts: a map to true.
unfoldable pub add_kinds : List String → Dict Bool → Dict Bool
add_kinds [] out = out
add_kinds (part ∷ parts) out =
    let kind = trim_space part in add_kinds parts (if kind == "" then out else insert kind true out)

unfoldable pub parse_kind_set : String → Dict Bool
unfolding add_kinds
parse_kind_set raw = add_kinds (split b',' raw) []

unfoldable pub edge_subscribe_topics : String → List String
edge_subscribe_topics site = wildcard site ∷ command_ack_wildcard site ∷ []

unfoldable pub bearer_token : String → String
bearer_token header = elim (after_prefix "Bearer " header) [
  | none ↦ ""
  | some rest ↦ trim_space rest
]

unfoldable pub edge_token : (String → String) → String
unfolding bearer_token
edge_token header =
    let got = trim_space (header "X-VPP-Edge-Token") in
    if got == "" then bearer_token (header "Authorization") else got

unfoldable pub edge_authorized : (String → String) → String → Bool
unfolding edge_token
edge_authorized header token =
    let token' = trim_space token in if token' == "" then false else edge_token header == token'

pub record EdgeCounter : Type 0 where
  pub counts : Dict ℕ
  pub order : List String

unfoldable pub zeros : List String → Dict ℕ → Dict ℕ
zeros [] counts = counts
zeros (l ∷ ls) counts = zeros ls (insert l 0 counts)

unfoldable pub new_edge_counter : List String → EdgeCounter
unfolding zeros
new_edge_counter labels = record { counts = zeros labels []; order = labels }

-- counts[label], zero where the label is missing.
unfoldable pub count_or : Option ℕ → ℕ
count_or none = 0
count_or (some n) = n

unfoldable pub inc : String → EdgeCounter → EdgeCounter
unfolding count_or
inc label c = record {
  counts = insert label ((count_or (lookup label c.counts) + 1) % 2 ^ 64) c.counts;
  order = if is_some (lookup label c.counts) then c.order else c.order ++ label ∷ [];
}

-- The labels in their order, and then any other that is counted.
unfoldable pub in_order : List String → Dict ℕ → List (String × ℕ)
unfolding count_or
in_order [] counts = []
in_order (l ∷ ls) counts = (l, count_or (lookup l counts)) ∷ in_order ls counts

unfoldable pub is_in : String → List String → Bool
is_in s [] = false
is_in s (t ∷ ts) = t == s || is_in s ts

unfoldable pub not_seen : List String → Dict ℕ → List (String × ℕ)
unfolding is_in
not_seen seen [] = []
not_seen seen ((l, n) ∷ counts) =
    let rest = not_seen seen counts in if is_in l seen then rest else (l, n) ∷ rest

unfoldable pub snapshot : EdgeCounter → List (String × ℕ)
unfolding in_order not_seen
snapshot c = in_order c.order c.counts ++ not_seen c.order c.counts

-- `params` is none where the request has no object of parameters.
pub record LocalCommandRequest (R : Type 0) : Type 0 where
  pub site_id : String
  pub device_type : String
  pub device_id : String
  pub action : String
  pub params : Option (Dict (Value R))
  pub reason : String

-- What the HTTP interface works on: `local` and `upstream` are the clients, none where there is none, and
-- whether they are connected; `sent` is what the local broker took, the last first.
pub record Interface (Bytes : Type 0) : Type 0 where
  pub cache : Option Cache
  pub local : Option Bool
  pub upstream : Option Bool
  pub site_id : String
  pub control_token : String
  pub local_commands : EdgeCounter
  pub sent : List (String × Bytes)

pub data Body (R : Type 0) : Type 0 where
  error : String → Body R
  health : String → Bool → Bool → Bool → Body R
  cache_stats : CacheStats → Body R
  sent_command : String → Command R → Body R

-- The libraries: encoding/json, with the text of its errors, time.Format, and the local broker, which takes
-- a message or answers with an error.
pub record Io (R Bytes : Type 0) : Type 0 where
  pub read_request : Bytes → String ⊎ LocalCommandRequest R
  pub write_command : Command R → String ⊎ Bytes
  pub publish : String → Bytes → Option String
  pub format_time : Time → String
  pub database_error : String

-- A client that is there and connected.
unfoldable pub is_connected : Option Bool → Bool
is_connected none = false
is_connected (some connected) = connected

unfoldable pub trimmed : {R : Type 0} → LocalCommandRequest R → LocalCommandRequest R
trimmed req = record req {
  site_id = trim_space req.site_id;
  device_type = trim_space req.device_type;
  device_id = trim_space req.device_id;
  action = trim_space req.action;
  reason = trim_space req.reason;
}

-- The answer, a code and a body, and what it leaves.
abbrev pub Result : Type 0 → Type 0 → Type 0
Result R Bytes = (ℕ × Body R) × Interface Bytes
