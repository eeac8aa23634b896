-- ===== src/Optimizer/Soc.antt =====
-- The plan and the battery: the limits of charge and of power, and how the state of charge goes on.
use vpp_lab.Prelude.{
  ℕ, zero, suc, String, Bool, true, false, some, List, [], ◌∷◌, ◌≡◌, refl, sym, inl, inr, arith,
  Bool-cases, ◌&&◌, subst, if◌then◌else◌,
}
use vpp_lab.Prelude.Float.{Float, FloatLaws}
use vpp_lab.Prelude.Clock.{Time, Duration}
use vpp_lab.Model.{SiteSummary}
use vpp_lab.Optimizer.{Config}
use vpp_lab.Optimizer.Forecast.{clamp, next_soc, round2, round4}
use vpp_lab.Optimizer.Plan.{
  Slot, Plan, Outlook, Setting, net_load, in_surplus, at_low_price, at_high_price, over_limit,
  choose, make_slot, slot_start, outlook, action_at, soc_after, plan_slots, slot_count, first_soc,
  setting, plan_at, build_normalized, build_normalized-some,
}

and_right : (a b : Bool) → (a && b) ≡ true → b ≡ true
and_right a b h = ground arith

module _ {R : Type 0} ⦃F : Float R⦄ where
  -- A state of charge that is neither below the least nor above the most of the configuration.
  pub record InLimits (cfg : Config R) (soc : R) : Type 0 where
    pub not_below : F.lt soc cfg.min_soc ≡ false
    pub not_above : F.lt cfg.max_soc soc ≡ false

  -- A state of charge cut to the limits.
  abbrev pub within : Config R → R → R
  within cfg v =
      if F.lt v cfg.min_soc then cfg.min_soc else if F.lt cfg.max_soc v then cfg.max_soc else v

  -- The part of the capacity that a power moves in the minutes of a slot.
  abbrev pub moved : Config R → R → R
  moved cfg power =
      F.div (F.div (F.mul power (F.of_int cfg.slot_minutes)) (F.decimal 60 0))
        cfg.battery_capacity_wh

  -- What a slot may do at a state of charge, and the state after it: charge below the most, discharge above
  -- the least, at a power that is not over the limit, or nothing.
  pub data Allowed (cfg : Config R) (soc : R) (mode : String) (target soc' : R) : Type 0 where
    charging :
        mode ≡ "charge"
        → F.lt soc cfg.max_soc ≡ true
        → F.lt cfg.battery_power_limit_w target ≡ false
        → soc' ≡ within cfg (F.add soc (moved cfg target))
        → Allowed cfg soc mode target soc'
    discharging :
        mode ≡ "discharge"
        → F.lt cfg.min_soc soc ≡ true
        → F.lt cfg.battery_power_limit_w target ≡ false
        → soc' ≡ within cfg (F.sub soc (moved cfg target))
        → Allowed cfg soc mode target soc'
    idling :
        mode ≡ "idle"
        → target ≡ F.decimal 0 0
        → soc' ≡ within cfg soc
        → Allowed cfg soc mode target soc'

  -- A slot that is allowed at a state of charge, at a power that it shows rounded, and the state after it,
  -- which is within the limits and which it shows rounded.
  pub record Follows (cfg : Config R) (soc : R) (s : Slot R) (soc' : R) : Type 0 where
    pub target : R
    pub allowed : Allowed cfg soc s.battery_mode target soc'
    pub reported_target : s.target_power_w ≡ round2 target
    pub reported_soc : s.forecast_soc ≡ round4 soc'
    pub in_limits : InLimits cfg soc'

  -- Slots that follow one another from a state of charge on.
  pub data Feasible (cfg : Config R) : R → List (Slot R) → Type 0 where
    done : {soc : R} → Feasible cfg soc []
    slot :
        {soc : R} {s : Slot R} {ss : List (Slot R)} (soc' : R)
        → Follows cfg soc s soc'
        → Feasible cfg soc' ss
        → Feasible cfg soc (s ∷ ss)

  module _ (laws : FloatLaws F) where
    open laws use {lt_irrefl, not-lt-min}

    clamp-InLimits :
        (cfg : Config R) (v : R)
        → F.lt cfg.max_soc cfg.min_soc ≡ false
        → InLimits cfg (clamp v cfg.min_soc cfg.max_soc)
    unfolding clamp
    clamp-InLimits cfg v h = ground (arith, lt_irrefl cfg.min_soc, lt_irrefl cfg.max_soc)

    choose-Allowed :
        (cfg : Config R) (o : Outlook R) (soc : R)
        → Allowed cfg soc
            (choose cfg o soc).mode
            (choose cfg o soc).target
            (next_soc soc (choose cfg o soc).mode (choose cfg o soc).target cfg)
    unfolding choose next_soc clamp
    choose-Allowed cfg o soc = elim (Bool-cases (in_surplus cfg o soc)) [
      | inl e ↦ rw e (charging refl (and_right _ _ e) (not-lt-min _ _) refl)
      | inr e ↦ rw e (elim (Bool-cases (at_low_price cfg o soc)) [
        | inl f ↦ rw f (charging refl (and_right _ _ (and_right _ _ f)) (lt_irrefl _) refl)
        | inr f ↦ rw f (elim (Bool-cases (at_high_price cfg o soc)) [
          | inl g ↦ rw g (
              discharging refl
                (and_right (F.lt (F.decimal 0 0) (net_load o)) _
                  (and_right (F.le o.high o.price) _ (and_right (F.lt o.low o.high) _ g)))
                (not-lt-min _ _) refl)
          | inr g ↦ rw g (elim (Bool-cases (over_limit cfg o soc)) [
            | inl h ↦ rw h (discharging refl (and_right _ _ h) (not-lt-min _ _) refl)
            | inr h ↦ rw h (idling refl refl refl)
          ])
        ])
      ])
    ]

    plan_slots-Feasible :
        (g : Setting R) (rounds i : ℕ) (soc : R)
        → F.lt g.config.max_soc g.config.min_soc ≡ false
        → Feasible g.config soc (plan_slots g rounds i soc)
    unfolding plan_slots make_slot soc_after action_at next_soc
    plan_slots-Feasible g zero i soc h = done
    plan_slots-Feasible g (suc rounds) i soc h =
        slot (soc_after g i soc)
          (record {
            target = (action_at g i soc).target;
            allowed = choose-Allowed g.config (outlook g (slot_start g i)) soc;
            reported_target = refl;
            reported_soc = refl;
            in_limits = clamp-InLimits g.config _ h;
          })
          (plan_slots-Feasible g rounds (suc i) (soc_after g i soc) h)

    -- A plan starts at a state of charge within the limits, and its slots follow one another from there: none
    -- charges unless below the most, none discharges unless above the least, neither at a power over the
    -- limit, which the slot shows rounded; and the state of charge goes on to that of charging or
    -- discharging at this power for the slot's minutes, cut to the limits, which the slot shows rounded. The
    -- least must not be above the most.
    pub build_normalized-Feasible :
        (zone : Duration) (now : Time) (summary : SiteSummary R) (cfg : Config R) (plan : Plan R)
        → F.lt cfg.max_soc cfg.min_soc ≡ false
        → build_normalized zone now summary cfg ≡ some plan
        → InLimits cfg (first_soc cfg summary) × Feasible cfg (first_soc cfg summary) plan.slots
    unfolding first_soc plan_at setting
    build_normalized-Feasible zone now summary cfg plan h e =
        let (low, high, p) = build_normalized-some zone now summary cfg plan e in
        (
          clamp-InLimits cfg _ h,
          subst (λ p. Feasible cfg (first_soc cfg summary) p.slots) (sym p)
              (plan_slots-Feasible (setting zone now summary cfg low high) (slot_count cfg) 0 _ h),
        )
