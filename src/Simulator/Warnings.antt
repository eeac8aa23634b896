-- ===== src/Simulator/Warnings.antt =====
-- publishBatterySOCEvent: the events on the state of charge.
use vpp_lab.Prelude.{
  String, Bool, true, false, Option, none, some, List, [], ◌∷◌, ◌≡◌, refl, inl, inr, Bool-cases,
  subst,
}
use vpp_lab.Prelude.Float.{Float}
use vpp_lab.Prelude.Clock.{Time}
use vpp_lab.Model.{DeviceEvent}
use vpp_lab.Simulator.{
  Simulator, should_warn, should_recover, after_soc, soc_event, publish_battery_soc_event,
}

-- The events are warnings and recoveries in turn, the next a recovery where a warning is open.
abbrev pub Alternates : {R : Type 0} → Bool → List (DeviceEvent R) → Type 0
Alternates pending [] = Unit
Alternates true (e ∷ es) = (e.code ≡ "soc_recovered") × Alternates false es
Alternates false (e ∷ es) = (e.code ≡ "low_soc") × Alternates true es

module _ {R : Type 0} ⦃F : Float R⦄ (format_time : Time → String) where
  abbrev add_event : Option (DeviceEvent R) → List (DeviceEvent R) → List (DeviceEvent R)
  add_event none es = es
  add_event (some e) es = e ∷ es

  -- The events that a sequence of readings publishes, the first one first.
  abbrev pub soc_events : List (Time × R) → Simulator R → List (DeviceEvent R)
  soc_events [] s = []
  soc_events ((now, soc) ∷ rs) s =
      add_event (publish_battery_soc_event format_time now soc s).0
        (soc_events rs (publish_battery_soc_event format_time now soc s).1)

  -- What one reading does: nothing, a warning, or a recovery.
  data Step (before after : Bool) (event : Option (DeviceEvent R)) : Type 0 where
    quiet : event ≡ none → after ≡ before → Step before after event
    warned :
        (e : DeviceEvent R)
        → event ≡ some e
        → e.code ≡ "low_soc"
        → before ≡ false
        → after ≡ true
        → Step before after event
    recovered :
        (e : DeviceEvent R)
        → event ≡ some e
        → e.code ≡ "soc_recovered"
        → before ≡ true
        → after ≡ false
        → Step before after event

  publish_battery_soc_event-Step :
      (now : Time) (soc : R) (s : Simulator R)
      → Step s.low_soc_open
          (publish_battery_soc_event format_time now soc s).1.low_soc_open
          (publish_battery_soc_event format_time now soc s).0
  unfolding publish_battery_soc_event after_soc soc_event should_warn should_recover
  publish_battery_soc_event-Step now soc s = elim (Bool-cases s.low_soc_open) [
    | inl o ↦ elim (Bool-cases (F.le (F.decimal 30 2) soc)) [
      | inl r ↦ elim (Bool-cases (F.le soc (F.decimal 20 2))) [
        | inl w ↦ simp (o, r, w) (recovered _ refl refl refl refl)
        | inr w ↦ simp (o, r, w) (recovered _ refl refl refl refl)
      ]
      | inr r ↦ elim (Bool-cases (F.le soc (F.decimal 20 2))) [
        | inl w ↦ simp (o, r, w) (quiet refl refl)
        | inr w ↦ simp (o, r, w) (quiet refl refl)
      ]
    ]
    | inr o ↦ elim (Bool-cases (F.le soc (F.decimal 20 2))) [
      | inl w ↦ elim (Bool-cases (F.le (F.decimal 30 2) soc)) [
        | inl r ↦ simp (o, r, w) (warned _ refl refl refl refl)
        | inr r ↦ simp (o, r, w) (warned _ refl refl refl refl)
      ]
      | inr w ↦ elim (Bool-cases (F.le (F.decimal 30 2) soc)) [
        | inl r ↦ simp (o, r, w) (quiet refl refl)
        | inr r ↦ simp (o, r, w) (quiet refl refl)
      ]
    ]
  ]

  Alternates-Step :
      (before after : Bool) (event : Option (DeviceEvent R)) (es : List (DeviceEvent R))
      → Step before after event
      → Alternates after es
      → Alternates before (add_event event es)
  Alternates-Step before after event es (quiet e a) h = rw e (subst (λ b. Alternates b es) a h)
  Alternates-Step before after event es (warned e p c b a) h =
      rw (p, b) (c, subst (λ b. Alternates b es) a h)
  Alternates-Step before after event es (recovered e p c b a) h =
      rw (p, b) (c, subst (λ b. Alternates b es) a h)

  -- Whatever the readings of the state of charge, the events that they publish are warnings and
  -- recoveries in turn: none warns while a warning is open, none recovers while none is.
  pub soc_events-Alternates :
      (readings : List (Time × R)) (s : Simulator R)
      → Alternates s.low_soc_open (soc_events readings s)
  soc_events-Alternates [] s = tt
  soc_events-Alternates ((now, soc) ∷ rs) s =
      Alternates-Step _ _ _ _ (publish_battery_soc_event-Step now soc s)
        (soc_events-Alternates rs (publish_battery_soc_event format_time now soc s).1)
