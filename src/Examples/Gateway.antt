-- ===== src/Examples/Gateway.antt =====
-- The theorems on the edge gateway, applied to a cache with two messages and a broker that takes one.
use vpp_lab.Prelude.{true, false, none, some, [], ◌∷◌, ◌≡◌, refl, inl, arith, ◌*◌}
use vpp_lab.Prelude.Int.{pos}
use vpp_lab.Prelude.Clock.{hour}
use vpp_lab.Edge.{Row, Gateway, Env, arrived, flushed, cleaned, flush_pending, run, unsent}
use vpp_lab.Edge.Delivery.{Held, run-Held}
use vpp_lab.Edge.Forwarding.{Forwards, outgoing, waiting, flush_pending-Forwards}
use vpp_lab.Edge.Rows.{Ascending}
use vpp_lab.Examples.Site.{noon}

abbrev first : Row
first = record {
  id = 1;
  topic = "vpp/home-lab/battery/battery_01/telemetry";
  payload = "{}";
  created_at = noon;
  sent_at = none;
}

abbrev second_row : Row
second_row = record {
  id = 2;
  topic = "vpp/home-lab/load/load_02/telemetry";
  payload = "{}";
  created_at = noon;
  sent_at = none;
}

abbrev two_messages : Gateway
two_messages = record {
  cache = record { rows = first ∷ second_row ∷ []; next_id = 3 };
  forwarded = [];
}

-- The broker takes a message where none was forwarded before.
abbrev takes_one : Env
takes_one = record {
  publish = λ before topic payload. elim before [ [] ↦ true | m ∷ ms ↦ false ];
  marked = λ before id. some noon;
}

first-unsent : unsent first ≡ true
unfolding unsent
first-unsent = refl

run-Held_example : Held "edge" first (
    run takes_one
      (λ kind. true)
      "edge"
      (pos (24 * hour))
      (arrived noon "vpp/home-lab/load/load_02/telemetry" "{}" ∷ flushed true ∷ cleaned noon ∷ [])
      two_messages)
run-Held_example =
    run-Held takes_one (λ kind. true) "edge" (pos (24 * hour))
      (arrived noon "vpp/home-lab/load/load_02/telemetry" "{}" ∷ flushed true ∷ cleaned noon ∷ [])
      two_messages first (omega arith, (omega arith, omega arith)) first-unsent (inl (inl refl))

flush_pending-Forwards_example :
    Ascending 1 (waiting (first ∷ second_row ∷ [])) 3
    × Forwards takes_one
        (outgoing "/edge/")
        []
        (waiting (first ∷ second_row ∷ []))
        (flush_pending takes_one true "/edge/" two_messages).forwarded
flush_pending-Forwards_example =
    flush_pending-Forwards takes_one "/edge/" two_messages 1 3
      (omega arith, (omega arith, omega arith))
