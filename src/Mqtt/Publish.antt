-- ===== src/Mqtt/Publish.antt =====
-- PublishCommand and the acknowledgement that follows it.
use vpp_lab.Prelude.{
  ℕ, String, Bool, true, false, Option, none, some, List, [], ◌∷◌, ltb, length, ◌≡◌, refl, ap,
  subst, ◌∙◌, inl, inr, ◌==◌, eq_iff, arith, Bool-cases, Option-cases, if◌then◌else◌, take,
}
use vpp_lab.Prelude.Clock.{Time}
use vpp_lab.Model.{Device, Command, CommandAck, CommandRecord}
use vpp_lab.Topic.{Parsed, command, parse}
use vpp_lab.State.Recent.{cut-eq-take}
use vpp_lab.State.{
  Store, cut, kept, issued, put_command_issued, acked, is_for, ack_first, put_command_ack,
}
use vpp_lab.DeviceAuth.{Library, verify_payload}
use vpp_lab.Mqtt.{
  Codec, CommandRecorder, Client, PublishError, marshal_failed, refused, or_same, record_with,
  on_ack, route, admit, requires_device_auth, handle_message, send, publish_command,
}

module _ {R Bytes Db : Type 0} (f : CommandRecorder R Db → Db → Option Db) where
  pub state-record_with : (c : Client R Bytes Db) → (record_with f c).state ≡ c.state
  unfolding record_with
  state-record_with c = elim (Option-cases c.recorder) [
    | inl h ↦ rw (h, record_with) refl
    | inr (r, h) ↦ rw (h, record_with) refl
  ]

  sent-record_with : (c : Client R Bytes Db) → (record_with f c).sent ≡ c.sent
  unfolding record_with
  sent-record_with c = elim (Option-cases c.recorder) [
    | inl h ↦ rw (h, record_with) refl
    | inr (r, h) ↦ rw (h, record_with) refl
  ]

-- The record of a command that is sent and not yet acknowledged.
abbrev pub newest_record : {R : Type 0} → Time → String → Device R → Command R → CommandRecord R
newest_record now site d cmd = record {
  site_id = site;
  device_id = d.id;
  device_type = d.type;
  command = cmd;
  status = "issued";
  ack = none;
  updated_at = now;
}

module _ {R Bytes Db : Type 0} (codec : Codec R Bytes) (takes : String → Bytes → Bool)
    (clock : ℕ → Time) (site : String) (d : Device R) (cmd : Command R) where
  abbrev tell : CommandRecorder R Db → Db → Option Db
  tell r = r.put_command_issued (clock 1) site d cmd

  -- The client once the broker took the command.
  abbrev handed : Bytes → Client R Bytes Db → Client R Bytes Db
  handed payload c = record c {
    sent = (command site d.type d.id, payload) ∷ c.sent;
    state = put_command_issued (clock 0) site d cmd c.state;
  }

  -- The database once the recorder, if there is one, has been told.
  abbrev pub told : Option (CommandRecorder R Db) → Db → Db
  unfolding or_same
  told none db = db
  told (some r) db = or_same db (r.put_command_issued (clock 1) site d cmd db)

  newest_lem :
      (c : Client R Bytes Db) (state : Store R)
      → state ≡ put_command_issued (clock 0) site d cmd c.state
      → state.commands ≡ take kept (newest_record (clock 0) site d cmd ∷ c.state.commands)
  unfolding put_command_issued issued
  newest_lem c state e =
      ap (λ s. s.commands) e
      ∙ cut-eq-take kept (newest_record (clock 0) site d cmd ∷ c.state.commands)

  -- What PublishCommand returns and leaves: an error changes nothing; without one the broker took the
  -- command's JSON on the topic of the device, the command is the newest of the store, and the recorder,
  -- if there is one, was told.
  pub data Published (c : Client R Bytes Db)
      : Option PublishError × Client R Bytes Db → Type 0 where
    not_marshalled : codec.write_command cmd ≡ none → Published c (some marshal_failed, c)
    not_taken :
        (payload : Bytes)
        → codec.write_command cmd ≡ some payload
        → takes (command site d.type d.id) payload ≡ false
        → Published c (some refused, c)
    published :
        (payload : Bytes) (c' : Client R Bytes Db)
        → codec.write_command cmd ≡ some payload
        → takes (command site d.type d.id) payload ≡ true
        → c'.sent ≡ (command site d.type d.id, payload) ∷ c.sent
        → c'.state ≡ put_command_issued (clock 0) site d cmd c.state
        → c'.state.commands ≡ take kept (newest_record (clock 0) site d cmd ∷ c.state.commands)
        → c'.database ≡ told c.recorder c.database
        → Published c (none, c')

  told_lem : (c : Client R Bytes Db) → (record_with tell c).database ≡ told c.recorder c.database
  unfolding record_with or_same
  told_lem c = elim (Option-cases c.recorder) [
    | inl h ↦ rw (h, record_with) refl
    | inr (r, h) ↦ rw (h, record_with) refl
  ]

  record_with-Published :
      (payload : Bytes) (c : Client R Bytes Db)
      → codec.write_command cmd ≡ some payload
      → takes (command site d.type d.id) payload ≡ true
      → Published c (send codec takes clock site d cmd (some payload) c)
  unfolding send
  record_with-Published payload c e t = rw t (
      published payload _ e t (sent-record_with tell (handed payload c))
        (state-record_with tell (handed payload c))
        (newest_lem c _ (state-record_with tell (handed payload c))) (told_lem (handed payload c)))

  -- PublishCommand either fails to marshal the command, or is refused by the broker, and then changes
  -- nothing; or it returns no error, the broker took the command on the device's topic, the records of
  -- the store are the newest 200 with the command, as issued, on top, and the recorder was told.
  pub publish_command-Published :
      (c : Client R Bytes Db) → Published c (publish_command codec takes clock site d cmd c)
  unfolding publish_command
  publish_command-Published c = elim (Option-cases (codec.write_command cmd)) [
    | inl e ↦ rw (e, send) (not_marshalled e)
    | inr (payload, e) ↦ elim (Bool-cases (takes (command site d.type d.id) payload)) [
      | inl t ↦ rw e (record_with-Published payload c e t)
      | inr t ↦ rw (e, send) (rw t (not_taken payload e t))
    ]
  ]

module _ {R : Type 0} where
  -- The status of the newest command of a store.
  abbrev pub newest_status : List (CommandRecord R) → String
  newest_status [] = ""
  newest_status (r ∷ rs) = r.status

  -- The newest record stays the newest once the store is cut to its bound, and takes the acknowledgement
  -- with its device and id.
  newest_acked :
      (now : Time) (id : String) (ack : CommandAck) (r : CommandRecord R)
      (rs : List (CommandRecord R))
      → is_for id ack r ≡ true
      → newest_status (ack_first now id ack (cut kept (r ∷ rs)))
        ≡ (if ack.ok then "acked" else "failed")
  unfolding cut acked ack_first
  newest_acked now id ack r rs h = elim (Bool-cases (ltb kept (length (r ∷ rs)))) [
    | inl e ↦ rw e (rw (h, ack_first) refl)
    | inr e ↦ rw e (rw (h, ack_first) refl)
  ]

module _ {R Bytes Raw Db : Type 0} (codec : Codec R Bytes) (lib : Library Bytes Raw) where
  handle_message_ack :
      (clock : ℕ → Time) (topic : String) (payload : Bytes) (c : Client R Bytes Db) (p : Parsed)
      (ack : CommandAck)
      → parse topic ≡ some p
      → p.kind ≡ "command/ack"
      → verify_payload lib topic p.device_id payload c.keys (clock 0) c.max_skew ≡ none
      → codec.read_ack payload ≡ some ack
      → (handle_message codec lib clock topic payload c).state
        ≡ put_command_ack (clock 1) p.device_id ack c.state
  unfolding handle_message requires_device_auth admit route on_ack
  handle_message_ack clock topic payload c p ack h kind ok read =
      rw (h, handle_message)
        (rw checked (
          rw (ok, admit)
            (rw (not_telemetry, route)
              (rw (is_ack) (
                rw (read, on_ack)
                  (state-record_with tell
                    (record c { state = put_command_ack (clock 1) p.device_id ack c.state })))))))
    where
      not_telemetry : (p.kind == "telemetry") ≡ false
      not_telemetry = rw kind refl

      is_ack : (p.kind == "command/ack") ≡ true
      is_ack = rw kind refl

      checked : requires_device_auth p.kind ≡ true
      checked = rw kind refl

      tell : CommandRecorder R Db → Db → Option Db
      tell r = r.put_command_ack (clock 2) p.site_id p.device_type p.device_id ack

  issued_state :
      (takes : String → Bytes → Bool) (clock : ℕ → Time) (site : String) (d : Device R)
      (cmd : Command R) (c : Client R Bytes Db) (r : Option PublishError × Client R Bytes Db)
      → Published codec takes clock site d cmd c r
      → r.0 ≡ none
      → r.1.state ≡ put_command_issued (clock 0) site d cmd c.state
  issued_state takes clock site d cmd c _ (not_marshalled e) h = absurd (cc h)
  issued_state takes clock site d cmd c _ (not_taken payload e t) h = absurd (cc h)
  issued_state takes clock site d cmd c _ (published payload c' e t s state newest db) h = state

  -- A command that PublishCommand sent and then an acknowledgement of it, which arrives from the device on
  -- the topic that answers the command's and passes the check, make the newest record of the store
  -- "acked" where the acknowledgement is ok, and "failed" where it is not.
  pub acknowledged_status :
      (takes : String → Bytes → Bool) (clock later : ℕ → Time) (site topic : String) (d : Device R)
      (cmd : Command R) (c c' : Client R Bytes Db) (payload : Bytes) (p : Parsed) (ack : CommandAck)
      → publish_command codec takes clock site d cmd c ≡ (none, c')
      → parse topic ≡ some p
      → p.kind ≡ "command/ack"
      → p.device_id ≡ d.id
      → verify_payload lib topic p.device_id payload c'.keys (later 0) c'.max_skew ≡ none
      → codec.read_ack payload ≡ some ack
      → ack.command_id ≡ cmd.command_id
      → newest_status (handle_message codec lib later topic payload c').state.commands
        ≡ (if ack.ok then "acked" else "failed")
  unfolding put_command_ack put_command_issued is_for issued
  acknowledged_status takes clock later site topic d cmd c c' payload p ack sent h kind from ok read
        id =
      ap (λ s. newest_status s.commands)
        (handle_message_ack later topic payload c' p ack h kind ok read
          ∙ ap (put_command_ack (later 1) p.device_id ack) after)
      ∙ newest_acked (later 1) p.device_id ack (issued (clock 0) site d cmd) c.state.commands ours
    where
      after : c'.state ≡ put_command_issued (clock 0) site d cmd c.state
      after =
          issued_state takes clock site d cmd c (none, c')
            (subst (Published codec takes clock site d cmd c) sent
              (publish_command-Published codec takes clock site d cmd c))
            refl

      ours : is_for p.device_id ack (issued (clock 0) site d cmd) ≡ true
      ours = ground (arith, eq_iff d.id p.device_id, eq_iff cmd.command_id ack.command_id)
