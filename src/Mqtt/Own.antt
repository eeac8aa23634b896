-- ===== src/Mqtt/Own.antt =====
-- Of the telemetry in the store, a message changes only the entry of the device that its topic names.
use vpp_lab.Prelude.{
  ℕ, String, true, false, Option, none, some, ◌≡◌, ◌≢◌, refl, ap, ◌∙◌, inl, inr, ◌==◌, eq_iff,
  arith, Bool-cases, Option-cases, if◌then◌else◌,
}
use vpp_lab.Prelude.Dict.{lookup, lookup-insert}
use vpp_lab.Prelude.Clock.{Time}
use vpp_lab.Model.{Telemetry, CommandAck, DeviceEvent}
use vpp_lab.Topic.{Parsed, parse}
use vpp_lab.State.{state_key, put_command_ack, put_event}
use vpp_lab.State.Stored.{put_telemetry-IsStored}
use vpp_lab.DeviceAuth.{Library, verify_payload}
use vpp_lab.Mqtt.{
  Codec, CommandRecorder, Client, requires_device_auth, increment_rejected, record_with, identify,
  on_telemetry, on_ack, on_event, route, admit, handle_message,
}

module _ {R Bytes Raw Db : Type 0} (codec : Codec R Bytes) (lib : Library Bytes Raw) where
  state-record_with :
      (f : CommandRecorder R Db → Db → Option Db) (c : Client R Bytes Db)
      → (record_with f c).state ≡ c.state
  unfolding record_with
  state-record_with f c = elim (Option-cases c.recorder) [
    | inl e ↦ rw (e, record_with) refl
    | inr (r, e) ↦ rw (e, record_with) refl
  ]

  own_lem :
      (clock : ℕ → Time) (p : Parsed) (t : Telemetry R) (c : Client R Bytes Db) (key : String)
      → (p.site_id == "") ≡ false
      → lookup key (on_telemetry codec lib clock p (some t) c).state.telemetry ≡ (
          if state_key p.site_id p.device_id == key
          then some (identify (clock 1) p t)
          else lookup key c.state.telemetry)
  unfolding on_telemetry identify
  own_lem clock p t c key h =
      ap (lookup key)
        (put_telemetry-IsStored codec.write_telemetry (identify (clock 1) p t) c.state h).telemetry
      ∙ lookup-insert (state_key p.site_id p.device_id) key (identify (clock 1) p t)
          c.state.telemetry

  telemetry_own :
      (clock : ℕ → Time) (p : Parsed) (o : Option (Telemetry R)) (c : Client R Bytes Db)
      (key : String)
      → (p.site_id == "") ≡ false
      → state_key p.site_id p.device_id ≢ key
      → lookup key (on_telemetry codec lib clock p o c).state.telemetry
        ≡ lookup key c.state.telemetry
  unfolding on_telemetry
  telemetry_own clock p none c key h k = refl
  telemetry_own clock p (some t) c key h k =
      own_lem clock p t c key h ∙ ground (arith, eq_iff (state_key p.site_id p.device_id) key)

  ack_own :
      (clock : ℕ → Time) (p : Parsed) (o : Option CommandAck) (c : Client R Bytes Db)
      → (on_ack codec lib clock p o c).state.telemetry ≡ c.state.telemetry
  unfolding on_ack put_command_ack
  ack_own clock p none c = refl
  ack_own clock p (some a) c = rw state-record_with refl

  event_own :
      (clock : ℕ → Time) (p : Parsed) (o : Option (DeviceEvent R)) (c : Client R Bytes Db)
      → (on_event codec lib clock p o c).state.telemetry ≡ c.state.telemetry
  unfolding on_event put_event
  event_own clock p none c = refl
  event_own clock p (some a) c = rw state-record_with refl

  route_own :
      (clock : ℕ → Time) (p : Parsed) (payload : Bytes) (c : Client R Bytes Db) (key : String)
      → (p.site_id == "") ≡ false
      → state_key p.site_id p.device_id ≢ key
      → lookup key (route codec lib clock p payload c).state.telemetry
        ≡ lookup key c.state.telemetry
  unfolding route
  route_own clock p payload c key h k = elim (Bool-cases (p.kind == "telemetry")) [
    | inl e ↦ rw (e) (telemetry_own clock p (codec.read_telemetry payload) c key h k)
    | inr e ↦ elim (Bool-cases (p.kind == "command/ack")) [
      | inl f ↦ rw (e, f) (ap (lookup key) (ack_own clock p (codec.read_ack payload) c))
      | inr f ↦ elim (Bool-cases (p.kind == "event")) [
        | inl g ↦ rw (e, f, g) (ap (lookup key) (event_own clock p (codec.read_event payload) c))
        | inr g ↦ rw (e, f, g) refl
      ]
    ]
  ]

  -- Whatever a message of a topic with a site says, and whether it is accepted or not, the telemetry at
  -- every key but that of the topic's site and device stays what it was.
  pub handle_message-others_kept :
      (clock : ℕ → Time) (topic : String) (payload : Bytes) (c : Client R Bytes Db) (p : Parsed)
      (key : String)
      → parse topic ≡ some p
      → (p.site_id == "") ≡ false
      → state_key p.site_id p.device_id ≢ key
      → lookup key (handle_message codec lib clock topic payload c).state.telemetry
        ≡ lookup key c.state.telemetry
  unfolding handle_message admit increment_rejected
  handle_message-others_kept clock topic payload c p key h site k =
      elim (Bool-cases (requires_device_auth p.kind)) [
        | inr e ↦ rw (h, handle_message) (rw (e) (route_own clock p payload c key site k))
        | inl e ↦
            elim (Option-cases
              (verify_payload lib topic p.device_id payload c.keys (clock 0) c.max_skew)) [
                | inr (error, g) ↦ rw (h, handle_message) (rw (e) (rw (g, admit) refl))
                | inl g ↦
                    rw (h, handle_message)
                      (rw (e) (rw (g, admit) (route_own clock p payload c key site k)))
              ]
      ]

  -- A telemetry message that passes the check and decodes is the latest telemetry at the key of its
  -- topic, under the topic's site, device and type and with a timestamp if it had none.
  handle_message-identify :
      (clock : ℕ → Time) (topic : String) (payload : Bytes) (c : Client R Bytes Db) (p : Parsed)
      (t : Telemetry R)
      → parse topic ≡ some p
      → p.kind ≡ "telemetry"
      → (p.site_id == "") ≡ false
      → verify_payload lib topic p.device_id payload c.keys (clock 0) c.max_skew ≡ none
      → codec.read_telemetry payload ≡ some t
      → lookup
          (state_key p.site_id p.device_id)
          (handle_message codec lib clock topic payload c).state.telemetry
        ≡ some (identify (clock 1) p t)
  unfolding handle_message admit route requires_device_auth
  handle_message-identify clock topic payload c p t h kind site ok read =
      rw (h, handle_message)
        (rw checked (
          rw (ok, admit)
            (rw (is_telemetry, route)
              (rw read (own_lem clock p t c key site ∙ ground (arith, eq_iff key key))))))
    where
      key : String
      key = state_key p.site_id p.device_id

      is_telemetry : (p.kind == "telemetry") ≡ true
      is_telemetry = (eq_iff p.kind "telemetry").1 kind

      checked : requires_device_auth p.kind ≡ true
      checked = rw is_telemetry refl
