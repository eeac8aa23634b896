-- ===== src/Edge/Commands.antt =====
-- The handlers of the gateway's HTTP interface.
use Prim.Native.String.{◌++◌ as append}
use vpp_lab.Prelude.{
  ℕ, String, Bool, true, false, Option, none, some, List, [], ◌∷◌, ◌++◌, ◌==◌, ◌||◌, ◌⊎◌, inl, inr,
  if◌then◌else◌, not, is_some, format_int, map,
}
use vpp_lab.Prelude.Int.{pos, ltb_ℤ}
use vpp_lab.Prelude.Float.{Float}
use vpp_lab.Prelude.Dict.{Dict}
use vpp_lab.Prelude.Clock.{Time, Duration, unix_seconds, sub_time, seconds}
use vpp_lab.Model.{Command, Value}
use vpp_lab.Topic.{command}
use vpp_lab.Edge.{Cache, stats}
use vpp_lab.Edge.Local.{
  edge_authorized, inc, snapshot, LocalCommandRequest, Interface, Body, error, health, cache_stats,
  sent_command, Io, is_connected, trimmed, Result,
}

module _ {R : Type 0} where
  -- What decodeLocalCommand does once the body is decoded; missing parameters are made empty.
  unfoldable pub checked : LocalCommandRequest R → String ⊎ LocalCommandRequest R
  unfolding trimmed
  checked req =
      let r = trimmed req in
      if r.device_type == "" || (r.device_id == "" || r.action == "")
      then inl "device_type, device_id and action are required"
      else inr (record r { params = some (elim r.params [ none ↦ [] | some m ↦ m ]) })

  unfoldable pub decode_local_command :
      String ⊎ LocalCommandRequest R → String ⊎ LocalCommandRequest R
  unfolding checked
  decode_local_command (inl message) = inl message
  decode_local_command (inr req) = checked req

  abbrev pub params_of : Option (Dict (Value R)) → Dict (Value R)
  params_of none = []
  params_of (some m) = m

module _ {R Bytes : Type 0} where
  unfoldable pub show_health : Interface Bytes → ℕ × Body R
  unfolding is_connected
  show_health g =
      if is_connected g.local
      then (200, health "ok" true (is_some g.upstream) (is_connected g.upstream))
      else (503, health "degraded" false (is_some g.upstream) (is_connected g.upstream))

  unfoldable pub show_stats : Io R Bytes → Interface Bytes → ℕ × Body R
  show_stats io g = elim g.cache [
    | none ↦ (500, error io.database_error)
    | some c ↦ (200, cache_stats (stats c))
  ]

  -- localCommands.Inc("failed"), and an error.
  unfoldable pub fail : ℕ → String → Interface Bytes → Result R Bytes
  fail status message g =
      ((status, error message), record g { local_commands = inc "failed" g.local_commands })

module _ {R Bytes : Type 0} (io : Io R Bytes) where
  unfoldable pub local_message : (ℕ → Time) → LocalCommandRequest R → Command R
  local_message clock req = record {
    command_id = append req.device_id (append "-" (io.format_time (clock 0)));
    action = req.action;
    params = params_of req.params;
    issued_at = unix_seconds (clock 1);
    reason = append "edge local: " req.reason;
  }

  -- Once the broker has answered.
  unfoldable pub answered :
      String → Command R → Bytes → Option String → Interface Bytes → Result R Bytes
  unfolding fail
  answered topic cmd payload (some err) g = fail 502 err g
  answered topic cmd payload none g = (
    (202, sent_command topic cmd),
    record g { local_commands = inc "accepted" g.local_commands; sent = (topic, payload) ∷ g.sent },
  )

  -- From the marshalling on.
  unfoldable pub send_local : String → Command R → String ⊎ Bytes → Interface Bytes → Result R Bytes
  unfolding fail answered
  send_local topic cmd (inl message) g = fail 500 message g
  send_local topic cmd (inr payload) g = answered topic cmd payload (io.publish topic payload) g

  unfoldable pub target_topic : LocalCommandRequest R → Interface Bytes → String
  target_topic req g =
      command (if req.site_id == "" then g.site_id else req.site_id) req.device_type req.device_id

  -- From the decoded request on.
  unfoldable pub carry_request :
      (ℕ → Time) → String ⊎ LocalCommandRequest R → Interface Bytes → Result R Bytes
  unfolding send_local target_topic fail local_message
  carry_request clock (inl message) g = fail 400 message g
  carry_request clock (inr req) g =
      let cmd = local_message clock req in
      send_local (target_topic req g) cmd (io.write_command cmd) g

  unfoldable pub local_command :
      (ℕ → Time) → (String → String) → Bytes → Interface Bytes → Result R Bytes
  unfolding carry_request decode_local_command edge_authorized is_connected fail
  local_command clock header body g =
      if not (edge_authorized header g.control_token)
      then fail 401 "edge control token required" g
      else if not (is_connected g.local)
      then fail 503 "local mqtt disconnected" g
      else carry_request clock (decode_local_command (io.read_request body)) g

module _ {R : Type 0} ⦃F : Float R⦄ where
  unfoldable pub bool_float : Bool → R
  bool_float b = if b then F.decimal 1 0 else F.decimal 0 0

  unfoldable pub oldest_pending_age_seconds : Time → Option Time → R
  oldest_pending_age_seconds now none = F.decimal 0 0
  oldest_pending_age_seconds now (some at) =
      let age = sub_time now at in if ltb_ℤ age (pos 0) then F.decimal 0 0 else seconds age

-- The lines of the page of metrics.
unfoldable pub gauge : String → String → String → List String
gauge name help type =
    append "# HELP " (append name (append " " (append help "\n")))
    ∷ append "# TYPE " (append name (append " " (append type "\n")))
    ∷ []

unfoldable pub count_line : String × ℕ → String
count_line (label, n) =
    append "vpp_edge_local_commands_total{status=\""
      (append label (append "\"} " (append (format_int (pos n)) "\n")))

unfoldable pub concat : List String → String
concat [] = ""
concat (s ∷ ss) = append s (concat ss)

unfoldable pub value_line : String → String → String
value_line name value = append name (append " " (append value "\n"))

module _ {R Bytes : Type 0} (F : Float R) where
  -- The page, of a cache that answers.
  unfoldable pub metrics_page : Time → Duration → Cache → Interface Bytes → String
  unfolding gauge count_line value_line concat bool_float oldest_pending_age_seconds is_connected
      snapshot
  metrics_page now retention cache g =
      let s = stats cache in
      concat (
        gauge "vpp_edge_cache_messages" "Edge MQTT cache messages by state." "gauge"
        ++ value_line "vpp_edge_cache_messages{state=\"pending\"}" (format_int (pos s.pending))
          ∷ value_line "vpp_edge_cache_messages{state=\"total\"}" (format_int (pos s.total))
          ∷ gauge "vpp_edge_cache_oldest_pending_age_seconds"
              "Age of the oldest pending edge cache message." "gauge"
        ++ value_line "vpp_edge_cache_oldest_pending_age_seconds"
            (F.format_0 (oldest_pending_age_seconds ⦃F = F⦄ now s.oldest_pending_at))
          ∷ gauge "vpp_edge_cache_retention_seconds" "Edge cache retention for sent messages."
              "gauge"
        ++ value_line "vpp_edge_cache_retention_seconds" (F.format_0 (seconds ⦃F = F⦄ retention))
          ∷ gauge "vpp_edge_mqtt_connected" "Edge MQTT connection state." "gauge"
        ++ value_line "vpp_edge_mqtt_connected{side=\"local\"}"
            (F.format_0 (bool_float ⦃F = F⦄ (is_connected g.local)))
          ∷ value_line "vpp_edge_mqtt_connected{side=\"upstream\"}"
              (F.format_0 (bool_float ⦃F = F⦄ (is_connected g.upstream)))
          ∷ gauge "vpp_edge_local_commands_total" "Edge local commands by status." "counter"
        ++ map count_line (snapshot g.local_commands))
