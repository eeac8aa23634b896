-- ===== src/Examples/Platform.antt =====
-- The theorems on topics, the store, the scheduler and the simulator, applied to the site.
use vpp_lab.Prelude.{
  ℕ, String, true, false, Option, none, some, List, [], ◌∷◌, ◌≡◌, refl, arith, ◌*◌, ◌≤◌, ◌==◌,
  if◌then◌else◌, take, keep, length, split, Avoids,
}
use vpp_lab.Prelude.Int.{ℤ, pos, ◌≤ℤ◌}
use vpp_lab.Prelude.Dict.{Dict, values}
use vpp_lab.Prelude.Clock.{Time, second}
use vpp_lab.Model.{Telemetry, Command, bool}
use vpp_lab.Topic.{Parsed, telemetry, command, parse}
use vpp_lab.Topic.RoundTrip.{NoSlash, parse-telemetry, parse-command, print, print-parse}
use vpp_lab.State.{
  Store, new_store, upsert_device, device, device_in_site, kept, put_command_issued,
  put_command_ack,
}
use vpp_lab.State.Lookup.{created, device_in_site-upsert_device, single, has_id, device-eq-single}
use vpp_lab.State.Recent.{
  issue, write, IsBounded, write-IsBounded, put_events, onto, events-put_events, Acknowledged,
  put_command_ack-Acknowledged,
}
use vpp_lab.Scheduler.{Env, new, Event, ticked, policy_set, apply_rules, run_loop}
use vpp_lab.Scheduler.Rules.{Outcome, apply_rules-Outcome}
use vpp_lab.Scheduler.Cooldown.{Spaced, run_loop-Spaced}
use vpp_lab.Simulator.{Simulator, Reply, new_simulator, handle_command}
use vpp_lab.Simulator.Commands.{Effect, handle_command-Effect}
use vpp_lab.Simulator.Battery.{measured, commanded, run, IsValid, run-IsValid}
use vpp_lab.Simulator.Warnings.{Alternates, soc_events, soc_events-Alternates}
use vpp_lab.Examples.Fixed.{fixed, fixed_laws}
use vpp_lab.Examples.Site.{
  home, battery, lamp, battery_telemetry, lamp_telemetry, noon, policy, discharge_command, accepted,
  low_soc, evening,
}

NoSlash-site : NoSlash "home-lab"
NoSlash-site = (refl, (refl, (refl, (refl, (refl, (refl, (refl, (refl, tt))))))))

NoSlash-load : NoSlash "load"
NoSlash-load = (refl, (refl, (refl, (refl, tt))))

NoSlash-lamp : NoSlash "load_02"
NoSlash-lamp = (refl, (refl, (refl, (refl, (refl, (refl, (refl, tt)))))))

no_nul : Avoids 0 home
no_nul = (refl, (refl, (refl, (refl, (refl, (refl, (refl, (refl, tt))))))))

abbrev lamp_acked : Parsed
lamp_acked = record {
  site_id = "home-lab";
  device_type = "load";
  device_id = "load_02";
  kind = "command/ack";
}

lamp_parsed : parse "vpp/home-lab/load/load_02/command/ack" ≡ some lamp_acked
unfolding parse
lamp_parsed = refl

six_segments : length (split b'/' "vpp/home-lab/load/load_02/command/ack") ≤ 6
unfolding split
six_segments = omega arith

parse-telemetry_example :
    parse (telemetry "home-lab" "load" "load_02")
    ≡ some (record {
      site_id = "home-lab";
      device_type = "load";
      device_id = "load_02";
      kind = "telemetry";
    })
parse-telemetry_example =
    parse-telemetry "home-lab" "load" "load_02" NoSlash-site NoSlash-load NoSlash-lamp

parse-command_example :
    parse (command "home-lab" "load" "load_02")
    ≡ some (record {
      site_id = "home-lab";
      device_type = "load";
      device_id = "load_02";
      kind = "command";
    })
parse-command_example =
    parse-command "home-lab" "load" "load_02" NoSlash-site NoSlash-load NoSlash-lamp

print-parse_example : print lamp_acked ≡ "vpp/home-lab/load/load_02/command/ack"
print-parse_example =
    print-parse "vpp/home-lab/load/load_02/command/ack" lamp_acked lamp_parsed six_segments

-- The store with the two devices.
abbrev site_store : Store ℤ
site_store = upsert_device noon lamp (upsert_device noon battery new_store)

device_in_site-upsert_device_example :
    device_in_site home "load_02" (upsert_device noon battery site_store) ≡ (
      if home == home
      then if "battery_01" == "load_02"
        then some (created noon battery)
        else device_in_site home "load_02" site_store
      else device_in_site home "load_02" site_store)
device_in_site-upsert_device_example =
    device_in_site-upsert_device noon battery site_store home "load_02" no_nul no_nul

device-eq-single_example :
    device "load_02" site_store ≡ single (keep (has_id "load_02") (values site_store.devices))
device-eq-single_example = device-eq-single "load_02" site_store

new_store-IsBounded : IsBounded {R = ℤ} new_store
unfolding new_store
new_store-IsBounded = record { commands_bounded = omega arith; events_bounded = omega arith }

write-IsBounded_example : IsBounded (write (issue noon home battery discharge_command) new_store)
write-IsBounded_example =
    write-IsBounded (issue noon home battery discharge_command) new_store new_store-IsBounded

no_events : (new_store {R = ℤ}).events ≡ take kept []
unfolding new_store
no_events = refl

events-put_events_example :
    (put_events (low_soc ∷ low_soc ∷ []) new_store).events
    ≡ take kept (onto (low_soc ∷ low_soc ∷ []) [])
events-put_events_example = events-put_events (low_soc ∷ low_soc ∷ []) new_store [] no_events

put_command_ack-Acknowledged_example :
    Acknowledged noon "battery_01" accepted
      (put_command_issued noon home battery discharge_command site_store).commands
      (put_command_ack noon "battery_01" accepted
        (put_command_issued noon home battery discharge_command site_store)).commands
put_command_ack-Acknowledged_example =
    put_command_ack-Acknowledged noon "battery_01" accepted
      (put_command_issued noon home battery discharge_command site_store)

-- A format for two telemetries, in the place of encoding/json.
abbrev to_json : Telemetry ℤ → Option String
to_json t =
    if t.device_id == "battery_01"
    then some "battery"
    else if t.device_id == "load_02"
    then some "lamp"
    else none

abbrev from_json : String → Option (Telemetry ℤ)
from_json s =
    if s == "battery"
    then some battery_telemetry
    else if s == "lamp"
    then some lamp_telemetry
    else none

-- A clock of one reading a second, and a commander that takes every command.
abbrev second_clock : Env ℤ
second_clock = record {
  clock = λ n. pos (n * second);
  commander = λ calls site d cmd. true;
  marshal = λ params. "params";
}

second_clock-monotone : (m n : ℕ) → m ≤ n → second_clock.clock m ≤ℤ second_clock.clock n
second_clock-monotone m n h = omega arith

abbrev site_events : List (Event ℤ)
site_events = ticked site_store ∷ policy_set policy ∷ ticked site_store ∷ []

run_loop-Spaced_example :
    Spaced second_clock
      (pos 30000000000)
      (run_loop ⦃F = fixed⦄ second_clock site_events (new home policy)).calls
run_loop-Spaced_example =
    run_loop-Spaced ⦃F = fixed⦄ second_clock second_clock-monotone home policy site_events

abbrev latest : Dict (Telemetry ℤ)
latest = ("battery_01", battery_telemetry) ∷ ("load_02", lamp_telemetry) ∷ []

apply_rules-Outcome_example :
    Outcome ⦃F = fixed⦄ home policy evening latest []
      (apply_rules ⦃F = fixed⦄ second_clock evening
        (battery ∷ lamp ∷ [])
        latest
        (new home policy)).calls
unfolding new
apply_rules-Outcome_example =
    apply_rules-Outcome ⦃F = fixed⦄ second_clock evening (battery ∷ lamp ∷ []) latest
      (new home policy)

abbrev switch_off : Command ℤ
switch_off = record {
  command_id = "load_02-1";
  action = "set_relay";
  params = ("on", bool false) ∷ [];
  issued_at = pos 1699963200;
  reason = "load shed: non-critical load off";
}

handle_command-Effect_example :
    (reply : Reply) × (t : Simulator ℤ) × (handle_command
        (λ p. some switch_off)
        noon
        (command home "load" "load_02")
        "{}"
        (new_simulator ⦃F = fixed⦄ home)
      ≡ (some reply, t))
    × (parse reply.topic
        ≡ some (record {
          site_id = (new_simulator ⦃F = fixed⦄ home).site_id;
          device_type = "load";
          device_id = "load_02";
          kind = "command/ack";
        }))
    × (reply.ack.command_id ≡ switch_off.command_id)
    × Effect
        (record { site_id = home; device_type = "load"; device_id = "load_02"; kind = "command" })
        switch_off
        (new_simulator ⦃F = fixed⦄ home)
        reply.ack.ok
        t
unfolding new_simulator
handle_command-Effect_example =
    handle_command-Effect (λ p. some switch_off) noon home "load" "load_02" "{}" switch_off
      (new_simulator ⦃F = fixed⦄ home) NoSlash-site NoSlash-load NoSlash-lamp NoSlash-site refl

new_simulator-IsValid : IsValid ⦃F = fixed⦄ (new_simulator ⦃F = fixed⦄ home)
unfolding new_simulator
new_simulator-IsValid = record { not_low = refl; not_high = refl; known = refl }

run-IsValid_example : IsValid ⦃F = fixed⦄ (
    run ⦃F = fixed⦄
      (λ p. some discharge_command)
      (commanded noon "vpp/home-lab/battery/battery_01/command" "{}" ∷ measured ∷ measured ∷ [])
      (new_simulator ⦃F = fixed⦄ home))
run-IsValid_example =
    run-IsValid ⦃F = fixed⦄ fixed_laws (λ p. some discharge_command)
      (commanded noon "vpp/home-lab/battery/battery_01/command" "{}" ∷ measured ∷ measured ∷ [])
      (new_simulator ⦃F = fixed⦄ home) refl new_simulator-IsValid

-- The state of charge falls, stays low and rises again.
abbrev readings : List (Time × ℤ)
readings = (noon, pos 190000) ∷ (noon, pos 180000) ∷ (noon, pos 310000) ∷ []

soc_events-Alternates_example :
    Alternates
      (new_simulator ⦃F = fixed⦄ home).low_soc_open
      (soc_events ⦃F = fixed⦄ (λ t. "20231114120000") readings (new_simulator ⦃F = fixed⦄ home))
soc_events-Alternates_example =
    soc_events-Alternates ⦃F = fixed⦄ (λ t. "20231114120000") readings
      (new_simulator ⦃F = fixed⦄ home)
