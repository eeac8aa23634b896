-- ===== src/Metrics/Counts.antt =====
-- The counts of the page are those of the records, and a device is online there as in its state.
use vpp_lab.Prelude.{
  ℕ, suc, String, Bool, false, some, List, [], ◌∷◌, ◌≡◌, ◌+◌, ◌==◌, eq_iff, arith, if◌then◌else◌,
  length, keep,
}
use vpp_lab.Prelude.Int.{ℤ, pos, ltb_ℤ, leb_ℤ}
use vpp_lab.Prelude.Float.{Float}
use vpp_lab.Prelude.Dict.{Dict, lookup, lookup-insert}
use vpp_lab.Prelude.Clock.{Time, is_zero, unix, sub_time}
use vpp_lab.Model.{Device, Telemetry, CommandRecord, DeviceEvent}
use vpp_lab.State.Runtime.{stale_for, runtime_state}
use vpp_lab.Metrics.{
  device_online_ttl, value_or, bump, count_commands, command_status_counts, severity_of,
  count_events, event_severity_counts, is_online,
}

-- The count at a key, zero where the map has none.
abbrev pub count_at : String → Dict ℕ → ℕ
count_at k counts = value_or 0 (lookup k counts)

count_at-bump :
    (k j : String) (counts : Dict ℕ)
    → count_at j (bump k counts) ≡ (if k == j then suc (count_at j counts) else count_at j counts)
unfolding bump
count_at-bump k j counts =
    ground (arith, lookup-insert k j (value_or 0 (lookup k counts) + 1) counts, eq_iff k j)

module _ {R : Type 0} where
  abbrev pub has_status : String → CommandRecord R → Bool
  has_status k c = c.status == k

  abbrev pub has_severity : String → DeviceEvent R → Bool
  has_severity k e = (if e.severity == "" then "info" else e.severity) == k

  count_commands_lem :
      (k : String) (cs : List (CommandRecord R)) (counts : Dict ℕ)
      → count_at k (count_commands cs counts) ≡ count_at k counts + length (keep (has_status k) cs)
  unfolding count_commands keep
  count_commands_lem k [] counts = omega arith
  count_commands_lem k (c ∷ cs) counts =
      ground
        (arith, count_commands_lem k cs (bump c.status counts), count_at-bump c.status k counts)

  count_events_lem :
      (k : String) (es : List (DeviceEvent R)) (counts : Dict ℕ)
      → count_at k (count_events es counts) ≡ count_at k counts + length (keep (has_severity k) es)
  unfolding count_events keep severity_of
  count_events_lem k [] counts = omega arith
  count_events_lem k (e ∷ es) counts = ground (
    arith,
    count_events_lem k es (bump (severity_of e) counts),
    count_at-bump (severity_of e) k counts,
  )

  -- The counts that the page is made of have for every status the number of commands with it, zero where
  -- they do not name it, and for every severity the number of events with it, an empty one being "info".
  pub counts-length :
      (k : String) (cs : List (CommandRecord R)) (es : List (DeviceEvent R))
      → (count_at k (command_status_counts cs) ≡ length (keep (has_status k) cs))
        × (count_at k (event_severity_counts es) ≡ length (keep (has_severity k) es))
  unfolding command_status_counts event_severity_counts lookup
  counts-length k cs es = (
    ground (arith, count_commands_lem k cs (("issued", 0) ∷ ("acked", 0) ∷ ("failed", 0) ∷ [])),
    ground (arith, count_events_lem k es (("info", 0) ∷ ("warning", 0) ∷ ("critical", 0) ∷ [])),
  )

clipped :
    (x : ℤ)
    → leb_ℤ x device_online_ttl ≡ leb_ℤ (if ltb_ℤ x (pos 0) then pos 0 else x) device_online_ttl
clipped x = ground arith

module _ {R : Type 0} ⦃F : Float R⦄ where
  -- The page shows a device as online exactly where its state, within the same time to live, does; a
  -- telemetry of the zero time, which only the state tells apart, aside.
  is_online-runtime_state :
      (now : Time) (d : Device R) (t : Telemetry R)
      → is_zero (unix t.timestamp) ≡ false
      → is_online now (some t) ≡ (runtime_state now device_online_ttl d (some t)).online
  unfolding is_online runtime_state stale_for
  is_online-runtime_state now d t h = rw h (clipped (sub_time now (unix t.timestamp)))
