-- ===== src/Simulator/Battery.antt =====
-- batteryTelemetry and publishBatterySOCEvent: the state of charge stays within its limits, and the
-- events on it alternate.
use vpp_lab.Prelude.{
  String, Bool, true, false, Option, none, some, List, [], ◌∷◌, ◌==◌, ◌≡◌, refl, sym, inl, inr,
  Bool-cases, Option-cases, subst,
}
use vpp_lab.Prelude.Float.{Float, FloatLaws}
use vpp_lab.Prelude.Clock.{Time}
use vpp_lab.Model.{Command}
use vpp_lab.Topic.{Parsed, parse}
use vpp_lab.Simulator.{
  Simulator, supported, limit_high, limit_low, battery_telemetry, answer, answer_if, handle_command,
}
use vpp_lab.Simulator.Commands.{Effect, carry_out-Effect, refused, relay_set, mode_set}

-- What happens to a running simulator: a turn of the loop measures the battery, or a command arrives.
pub data Event : Type 0 where
  measured : Event
  commanded : Time → String → String → Event

module _ {R : Type 0} ⦃F : Float R⦄ where
  unfoldable pub run : (String → Option (Command R)) → List Event → Simulator R → Simulator R
  unfolding battery_telemetry handle_command
  run unmarshal [] s = s
  run unmarshal (measured ∷ es) s = run unmarshal es (battery_telemetry s).1
  run unmarshal (commanded now topic payload ∷ es) s =
      run unmarshal es (handle_command unmarshal now topic payload s).1

  -- The state of charge is within [0.15, 0.95], and the mode is one that the simulator knows.
  pub record IsValid (s : Simulator R) : Type 0 where
    pub not_low : F.lt s.soc (F.decimal 15 2) ≡ false
    pub not_high : F.lt (F.decimal 95 2) s.soc ≡ false
    pub known : supported s.battery_mode ≡ true

  module _ (laws : FloatLaws F) where
    open laws use {lt_irrefl, lt_trans, le-of-lt}

    asym : (a b : R) → F.lt a b ≡ true → F.lt b a ≡ false
    asym a b h = elim (Bool-cases (F.lt b a)) [
      | inl k ↦ absurd (cc (lt_trans a b a h k, lt_irrefl a))
      | inr k ↦ k
    ]

    not-lt-of-not-le : (a b : R) → F.le a b ≡ false → F.lt a b ≡ false
    not-lt-of-not-le a b h = elim (Bool-cases (F.lt a b)) [
      | inl k ↦ absurd (cc (le-of-lt a b k, h))
      | inr k ↦ k
    ]

    limited-IsValid :
        (s : Simulator R)
        → F.lt (F.decimal 15 2) (F.decimal 95 2) ≡ true
        → supported s.battery_mode ≡ true
        → IsValid (limit_low (limit_high s))
    limited-IsValid s o k = low (limit_high s) (high.0) high.1
      where
        high :
            (F.lt (F.decimal 95 2) (limit_high s).soc ≡ false)
            × (supported (limit_high s).battery_mode ≡ true)
        high =
            unfold limit_high in
            elim (Bool-cases (F.le (F.decimal 95 2) s.soc)) [
              | inl e ↦ rw e (lt_irrefl _, refl)
              | inr e ↦ rw e (not-lt-of-not-le _ _ e, k)
            ]

        low :
            (t : Simulator R)
            → F.lt (F.decimal 95 2) t.soc ≡ false
            → supported t.battery_mode ≡ true
            → IsValid (limit_low t)
        low t h m =
            unfold limit_low in
            elim (Bool-cases (F.le t.soc (F.decimal 15 2))) [
              | inl e ↦ rw e (record { not_low = lt_irrefl _; not_high = asym _ _ o; known = refl })
              | inr e ↦ rw e (record { not_low = not-lt-of-not-le _ _ e; not_high = h; known = m })
            ]

    battery_telemetry-IsValid :
        (s : Simulator R)
        → F.lt (F.decimal 15 2) (F.decimal 95 2) ≡ true
        → IsValid s
        → IsValid (battery_telemetry s).1
    unfolding battery_telemetry
    battery_telemetry-IsValid s o v = limited-IsValid _ o v.known

  Effect-IsValid :
      (p : Parsed) (cmd : Command R) (s t : Simulator R) (ok : Bool)
      → Effect p cmd s ok t
      → IsValid s
      → IsValid t
  Effect-IsValid p cmd s t ok (refused _ e) v = subst IsValid (sym e) v
  Effect-IsValid p cmd s t ok (relay_set _ _ _ _ _ m e) v = record {
    not_low = rw e v.not_low;
    not_high = rw e v.not_high;
    known = rw m v.known;
  }
  Effect-IsValid p cmd s t ok (mode_set _ _ _ _ k _ e) v = record {
    not_low = rw e v.not_low;
    not_high = rw e v.not_high;
    known = k;
  }

  answer_if-IsValid :
      (now : Time) (p : Parsed) (cmd : Option (Command R)) (s : Simulator R)
      → IsValid s
      → IsValid (answer_if now p cmd s).1
  unfolding answer_if answer
  answer_if-IsValid now p none s v = v
  answer_if-IsValid now p (some cmd) s v = Effect-IsValid p cmd s _ _ (carry_out-Effect p cmd s) v

  handle_command-IsValid :
      (unmarshal : String → Option (Command R)) (now : Time) (topic payload : String)
      (s : Simulator R)
      → IsValid s
      → IsValid (handle_command unmarshal now topic payload s).1
  unfolding handle_command
  handle_command-IsValid unmarshal now topic payload s v = elim (Option-cases (parse topic)) [
    | inl e ↦ rw (e, handle_command) v
    | inr (p, e) ↦
        rw (e, handle_command)
          (elim (Bool-cases (p.kind == "command")) [
            | inl k ↦ rw k (answer_if-IsValid now p (unmarshal payload) s v)
            | inr k ↦ rw k v
          ])
  ]

  module _ (laws : FloatLaws F) where
    -- Whatever commands a simulator gets and however often it measures its battery, from a valid state
    -- on the state of charge is never below 0.15 or above 0.95 and the mode is one of the three that the
    -- simulator knows.
    pub run-IsValid :
        (unmarshal : String → Option (Command R)) (es : List Event) (s : Simulator R)
        → F.lt (F.decimal 15 2) (F.decimal 95 2) ≡ true
        → IsValid s
        → IsValid (run unmarshal es s)
    unfolding run
    run-IsValid unmarshal [] s o v = v
    run-IsValid unmarshal (measured ∷ es) s o v =
        run-IsValid unmarshal es _ o (battery_telemetry-IsValid laws s o v)
    run-IsValid unmarshal (commanded now topic payload ∷ es) s o v =
        run-IsValid unmarshal es _ o (handle_command-IsValid unmarshal now topic payload s v)
