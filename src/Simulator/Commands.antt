-- ===== src/Simulator/Commands.antt =====
-- handleCommand: what a command changes, and its acknowledgement.
use vpp_lab.Prelude.{
  String, Bool, true, false, Option, none, some, ◌==◌, ◌≡◌, refl, sym, ap, ◌∙◌, ◌≢◌, inl, inr,
  Bool-cases, eq_iff, eq_refl,
}
use vpp_lab.Prelude.Dict.{insert, lookup-insert}
use vpp_lab.Prelude.Clock.{Time, unix_seconds}
use vpp_lab.Model.{Command, device_battery, device_load}
use vpp_lab.Topic.{Parsed, command, from_parts, parse}
use vpp_lab.Topic.RoundTrip.{NoSlash, parse-command, printed-split}
use vpp_lab.Simulator.{
  Simulator, Reply, bool_param, string_param, relay_on, supported, refuse, set_relay, set_mode,
  carry_out, ack_topic, answer, answer_if, handle_command,
}

module _ {R : Type 0} where
  -- What becomes of a command to a device: `ok` is that of the acknowledgement, `t` the simulator
  -- afterwards. It is refused and changes nothing; or it switches the relay of a load, and no other; or
  -- it sets the mode of the battery to one that is supported.
  pub data Effect (p : Parsed) (cmd : Command R) (s : Simulator R) (ok : Bool) (t : Simulator R)
      : Type 0 where
    refused : ok ≡ false → t ≡ s → Effect p cmd s ok t
    relay_set :
        ok ≡ true
        → cmd.action ≡ "set_relay"
        → p.device_type ≡ device_load
        → bool_param cmd.params "on" ≡ some (relay_on t p.device_id)
        → ((d : String) → d ≢ p.device_id → relay_on t d ≡ relay_on s d)
        → t.battery_mode ≡ s.battery_mode
        → t.soc ≡ s.soc
        → Effect p cmd s ok t
    mode_set :
        ok ≡ true
        → cmd.action ≡ "set_mode"
        → p.device_type ≡ device_battery
        → string_param cmd.params "mode" ≡ some t.battery_mode
        → supported t.battery_mode ≡ true
        → t.relays ≡ s.relays
        → t.soc ≡ s.soc
        → Effect p cmd s ok t

  set_relay-Effect :
      (p : Parsed) (cmd : Command R) (s : Simulator R) (on : Option Bool)
      → cmd.action ≡ "set_relay"
      → bool_param cmd.params "on" ≡ on
      → Effect p cmd s (set_relay p on s).0.0 (set_relay p on s).1
  unfolding set_relay refuse relay_on
  set_relay-Effect p cmd s none a e = refused refl refl
  set_relay-Effect p cmd s (some on) a e = elim (Bool-cases (p.device_type == device_load)) [
    | inl h ↦
        rw h
          (relay_set refl a ((eq_iff _ _).0 h) (e ∙ ap some switched) (λ d n. others d n) refl refl)
    | inr h ↦ rw h (refused refl refl)
  ]
    where
      switched : on ≡ relay_on (record s { relays = insert p.device_id on s.relays }) p.device_id
      switched = simp (relay_on, lookup-insert, eq_refl)

      differ : (d : String) → d ≢ p.device_id → (p.device_id == d) ≡ false
      differ d n = elim (Bool-cases (p.device_id == d)) [
        | inl h ↦ absurd (n (sym ((eq_iff _ _).0 h)))
        | inr h ↦ h
      ]

      others :
          (d : String)
          → d ≢ p.device_id
          → relay_on (record s { relays = insert p.device_id on s.relays }) d ≡ relay_on s d
      others d n = simp (relay_on, lookup-insert, differ d n)

  set_mode-Effect :
      (p : Parsed) (cmd : Command R) (s : Simulator R) (mode : Option String)
      → cmd.action ≡ "set_mode"
      → string_param cmd.params "mode" ≡ mode
      → Effect p cmd s (set_mode p mode s).0.0 (set_mode p mode s).1
  unfolding set_mode refuse
  set_mode-Effect p cmd s none a e = refused refl refl
  set_mode-Effect p cmd s (some mode) a e = elim (Bool-cases (p.device_type == device_battery)) [
    | inl h ↦ rw h (elim (Bool-cases (supported mode)) [
      | inl k ↦ rw k (mode_set refl a ((eq_iff _ _).0 h) e k refl refl)
      | inr k ↦ rw k (refused refl refl)
    ])
    | inr h ↦ rw h (refused refl refl)
  ]

  pub carry_out-Effect :
      (p : Parsed) (cmd : Command R) (s : Simulator R)
      → Effect p cmd s (carry_out p cmd s).0.0 (carry_out p cmd s).1
  unfolding carry_out refuse
  carry_out-Effect p cmd s = elim (Bool-cases (cmd.action == "set_relay")) [
    | inl h ↦ rw h (set_relay-Effect p cmd s _ ((eq_iff _ _).0 h) refl)
    | inr h ↦ rw h (elim (Bool-cases (cmd.action == "set_mode")) [
      | inl k ↦ rw k (set_mode-Effect p cmd s _ ((eq_iff _ _).0 k) refl)
      | inr k ↦ rw k (refused refl refl)
    ])
  ]

parse-ack_topic :
    (site : String) (p : Parsed)
    → NoSlash site
    → NoSlash p.device_type
    → NoSlash p.device_id
    → parse (ack_topic site p)
      ≡ some (record {
        site_id = site;
        device_type = p.device_type;
        device_id = p.device_id;
        kind = "command/ack";
      })
unfolding parse ack_topic
parse-ack_topic site p s t d =
    ap from_parts (printed-split site p.device_type p.device_id "command/ack" s t d)

module _ {R : Type 0} where
  -- A command that is published for a device of any site, and that decodes, is answered: on the topic
  -- that parses as the acknowledgement of that device at the simulator's site, with the id of the command
  -- and an `ok` that is true exactly where the command took effect. No name has a slash in it.
  pub handle_command-Effect :
      (unmarshal : String → Option (Command R)) (now : Time) (site type device payload : String)
      (cmd : Command R) (s : Simulator R)
      → NoSlash site
      → NoSlash type
      → NoSlash device
      → NoSlash s.site_id
      → unmarshal payload ≡ some cmd
      → (reply : Reply) × (t : Simulator R) × (handle_command unmarshal now
            (command site type device)
            payload
            s
          ≡ (some reply, t))
        × (parse reply.topic
            ≡ some (record {
              site_id = s.site_id;
              device_type = type;
              device_id = device;
              kind = "command/ack";
            }))
        × (reply.ack.command_id ≡ cmd.command_id)
        × Effect
            (record { site_id = site; device_type = type; device_id = device; kind = "command" })
            cmd
            s
            reply.ack.ok
            t
  unfolding handle_command answer_if answer
  handle_command-Effect unmarshal now site type device payload cmd s n_site n_type n_device n_own
        e =
      (
        reply,
        (carry_out parsed cmd s).1,
        rw (parse-command site type device n_site n_type n_device, handle_command)
            (rw (e, answer_if) refl),
        parse-ack_topic s.site_id parsed n_own n_type n_device,
        refl,
        carry_out-Effect parsed cmd s,
      )
    where
      parsed : Parsed
      parsed = record { site_id = site; device_type = type; device_id = device; kind = "command" }

      reply : Reply
      reply = record {
        topic = ack_topic s.site_id parsed;
        ack = record {
          command_id = cmd.command_id;
          ok = (carry_out parsed cmd s).0.0;
          error = (carry_out parsed cmd s).0.1;
          timestamp = unix_seconds now;
        };
      }
