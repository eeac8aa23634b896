-- ===== src/Optimizer/Slots.antt =====
-- The slots of a plan cover its horizon without a gap, and one of them is current.
use vpp_lab.Optimizer.Minutes.{
  max_hours, max_minutes, pos-*ℤ, minutes-pos, +ℤ_pos, +ℤ_zero, pos-pos_part, pos_part-le,
  divides_60-cofactor, slot_count-cofactor, truncate_bounds,
}
use vpp_lab.Prelude.{
  ℕ, zero, suc, true, false, none, some, List, [], ◌∷◌, ◌≡◌, ◌≢◌, refl, sym, ap, subst, ◌∙◌, arith,
  inl, inr, Bool-cases, length, ◌+◌, ◌*◌, ◌<◌, ◌≤◌,
}
use vpp_lab.Prelude.Int.{
  pos, ◌<ℤ◌, ◌≤ℤ◌, ◌+ℤ◌, ◌*ℤ◌, +ℤ_parts, int_laws, pos_part, int64, int64-pos,
}
use vpp_lab.Prelude.Float.{Float}
use vpp_lab.Prelude.Clock.{Time, Duration, minute, truncate}
use vpp_lab.Model.{SiteSummary}
use vpp_lab.Optimizer.{Config, TariffBand, normalize_config, divides_60, validate_config}
use vpp_lab.Optimizer.Forecast.{low_price, high_price, low_from, high_from}
use vpp_lab.Optimizer.Validated.{IsUsable, normalize_config-IsUsable}
use vpp_lab.Optimizer.Plan.{
  Slot, Plan, Setting, minutes, make_slot, slot_start, plan_slots, slot_count, setting, plan_at,
  priced_plan, build_normalized, build_day_ahead_plan, contains, slot_at, current_slot,
}

module _ {R : Type 0} where
  -- Slots of a length, the first from a time and each from the end of the one before.
  pub data Tiles (len : ℕ) : Time → List (Slot R) → Type 0 where
    done : {t : Time} → Tiles len t []
    tile :
        {t : Time} {s : Slot R} {ss : List (Slot R)}
        → s.start_at ≡ t
        → s.end_at ≡ t +ℤ pos len
        → Tiles len (t +ℤ pos len) ss
        → Tiles len t (s ∷ ss)

  -- A time from the start of the first slot and before the end of the last is in one of them.
  slot_at-Tiles :
      (len : ℕ) (t at : Time) (ss : List (Slot R))
      → Tiles len t ss
      → t ≤ℤ at
      → at <ℤ t +ℤ pos (length ss * len)
      → (s : Slot R) × (slot_at at ss ≡ some s) × (contains at s ≡ true)
  unfolding slot_at
  slot_at-Tiles len t at [] d h k = absurd (omega (arith, +ℤ_parts t (pos (0 * len))))
  slot_at-Tiles len t at (s ∷ ss) (tile e f r) h k = elim (Bool-cases (contains at s)) [
    | inl c ↦ (s, rw c, c)
    | inr c ↦
        let (s', p, q) = slot_at-Tiles len (t +ℤ pos len) at ss r (later c) within in
        (s', rw c p, q)
  ]
    where
      later : contains at s ≡ false → t +ℤ pos len ≤ℤ at
      later c = ground (arith, +ℤ_parts t (pos len))

      within : at <ℤ t +ℤ pos len +ℤ pos (length ss * len)
      within = omega (
        int_laws,
        +ℤ_parts t (pos (suc (length ss) * len)),
        +ℤ_parts t (pos len),
        +ℤ_parts (t +ℤ pos len) (pos (length ss * len)),
      )

module _ {R : Type 0} ⦃F : Float R⦄ where
  plan_slots-Tiles :
      (g : Setting R) (m rounds i : ℕ) (soc : R)
      → g.config.slot_minutes ≡ pos m
      → (i + rounds) * m ≤ max_minutes
      → Tiles (m * minute) (g.start +ℤ pos (i * m * minute)) (plan_slots g rounds i soc)
  unfolding plan_slots make_slot slot_start
  plan_slots-Tiles g m zero i soc e h = done
  plan_slots-Tiles g m (suc rounds) i soc e h =
      tile starts (ends starts) (rw next (plan_slots-Tiles g m rounds (suc i) _ e (grind arith)))
    where
      starts : slot_start g i ≡ g.start +ℤ pos (i * m * minute)
      starts =
          ap (λ d. g.start +ℤ minutes (int64 (pos i *ℤ d))) e
          ∙ ap (λ d. g.start +ℤ d)
              (rw pos-*ℤ (rw (int64-pos (i * m) (grind arith)) (minutes-pos (i * m) (grind arith))))

      ends :
          slot_start g i ≡ g.start +ℤ pos (i * m * minute)
          → slot_start g i +ℤ minutes g.config.slot_minutes
            ≡ g.start +ℤ pos (i * m * minute) +ℤ pos (m * minute)
      ends p =
          rw (p, e) (ap (λ d. g.start +ℤ pos (i * m * minute) +ℤ d) (minutes-pos m (grind arith)))

      next :
          g.start +ℤ pos (i * m * minute) +ℤ pos (m * minute) ≡ g.start +ℤ pos (suc i * m * minute)
      next = +ℤ_pos g.start (i * m * minute) (m * minute) ∙ ap (λ n. g.start +ℤ pos n) (grind arith)

  length-plan_slots :
      (g : Setting R) (rounds i : ℕ) (soc : R) → length (plan_slots g rounds i soc) ≡ rounds
  unfolding plan_slots
  length-plan_slots g zero i soc = refl
  length-plan_slots g (suc rounds) i soc = ap suc (length-plan_slots g rounds _ _)

  -- What a plan is for a usable configuration of at most the whole hours of a time.Duration: its slots
  -- begin at the last quarter of an hour, are as long as the configuration says, and cover the horizon.
  pub record Covers (now : Time) (cfg : Config R) (plan : Plan R) : Type 0 where
    pub slot_length : ℕ
    pub slot_length_eq : pos slot_length ≡ cfg.slot_minutes
    pub horizon : ℕ
    pub horizon_eq : pos horizon ≡ cfg.horizon_hours
    pub whole : length plan.slots * slot_length ≡ horizon * 60
    pub tiles : Tiles (slot_length * minute) (truncate now (15 * minute)) plan.slots

  prices-some :
      (bs : List (TariffBand R))
      → bs ≢ []
      → (l : R) × (h : R) × (low_price bs ≡ some l) × (high_price bs ≡ some h)
  unfolding low_price high_price
  prices-some [] e = absurd (e refl)
  prices-some (b ∷ bs) e = (low_from b.price (b ∷ bs), high_from b.price (b ∷ bs), refl, refl)

  build_normalized-plan_at :
      (zone : Duration) (now : Time) (summary : SiteSummary R) (cfg : Config R)
      → IsUsable cfg
      → (l : R) × (h : R) × (build_normalized zone now summary cfg
          ≡ some (plan_at zone now summary cfg l h))
  build_normalized-plan_at zone now summary cfg u =
      let (l, h, el, eh) = prices-some cfg.tariffs u.has_tariff in
      (l, h, priced_plan zone now summary cfg l h (u.slot_pos) el eh)

  plan_at-Covers :
      (zone : Duration) (now : Time) (summary : SiteSummary R) (cfg : Config R) (l h : R)
      → IsUsable cfg
      → cfg.horizon_hours ≤ℤ pos max_hours
      → Covers now cfg (plan_at zone now summary cfg l h)
  unfolding plan_at setting
  plan_at-Covers zone now summary cfg l h u bound =
      covers (divides_60-cofactor m m_pos (subst (λ t. divides_60 t ≡ true) em u.slot_divides))
    where
      m : ℕ
      m = pos_part cfg.slot_minutes

      n : ℕ
      n = pos_part cfg.horizon_hours

      em : cfg.slot_minutes ≡ pos m
      em = pos-pos_part cfg.slot_minutes u.slot_pos

      en : cfg.horizon_hours ≡ pos n
      en = pos-pos_part cfg.horizon_hours u.horizon_pos

      m_pos : 0 < m
      m_pos = omega (arith, u.slot_pos)

      n_pos : 0 < n
      n_pos = omega (arith, u.horizon_pos)

      small : n ≤ max_hours
      small = pos_part-le cfg.horizon_hours max_hours bound

      covers : (k : ℕ) × (m * k ≡ 60) × (0 < k) → Covers now cfg (plan_at zone now summary cfg l h)
      covers (k, e, k_pos) = record {
        slot_length = m;
        slot_length_eq = sym em;
        horizon = n;
        horizon_eq = sym en;
        whole = rw length-plan_slots (rw count exact);
        tiles =
            subst (λ t. Tiles (m * minute) t (plan_at zone now summary cfg l h).slots)
              (+ℤ_zero (truncate now (15 * minute)) (0 * m * minute) (omega arith))
              (plan_slots-Tiles (setting zone now summary cfg l h) m (slot_count cfg) 0 _ em
                (rw count (omega (arith, exact, small))));
      }
        where
          count : slot_count cfg ≡ n * k
          count = slot_count-cofactor cfg n m k en em e n_pos m_pos k_pos small

          regroup : n * k * m ≡ n * (m * k)
          regroup = omega arith

          exact : n * k * m ≡ n * 60
          exact = regroup ∙ ap (λ t. n * t) e

  now_in_slot :
      (now : Time) (cfg : Config R) (plan : Plan R)
      → IsUsable cfg
      → Covers now cfg plan
      → (s : Slot R) × (slot_at now plan.slots ≡ some s) × (contains now s ≡ true)
  now_in_slot now cfg plan u c =
      let (from, to) = truncate_bounds now (15 * minute) (omega arith) in
      slot_at-Tiles (c.slot_length * minute) (truncate now (15 * minute)) now plan.slots c.tiles
        from
        (omega (
          int_laws,
          c.whole,
          +ℤ_parts (truncate now (15 * minute)) (pos (15 * minute)),
          +ℤ_parts (truncate now (15 * minute))
              (pos (length plan.slots * (c.slot_length * minute))),
          some_hour,
        ))
    where
      some_hour : 0 < c.horizon
      some_hour = ground (arith, c.horizon_eq, u.horizon_pos)

  -- For a configuration that ValidateConfig accepts, whose horizon is at most the whole hours of a
  -- time.Duration, the plan is built without a panic. Its slots are of the length that the configuration
  -- says, each from the end of the one before, the first from the last quarter of an hour; together they
  -- are as long as the horizon; and CurrentSlot finds the one that the time of the plan is in.
  pub build_day_ahead_plan-Covers :
      (zone : Duration) (now : Time) (summary : SiteSummary R) (cfg : Config R)
      → validate_config cfg ≡ none
      → (normalize_config cfg).horizon_hours ≤ℤ pos max_hours
      → (plan : Plan R) × (s : Slot R) × (build_day_ahead_plan zone now summary cfg ≡ some plan)
        × Covers now (normalize_config cfg) plan
        × (current_slot plan now ≡ some s)
        × (contains now s ≡ true)
  unfolding build_day_ahead_plan current_slot
  build_day_ahead_plan-Covers zone now summary cfg valid bound =
      let u = normalize_config-IsUsable cfg valid in
      let (l, h, e) = build_normalized-plan_at zone now summary (normalize_config cfg) u in
      let c = plan_at-Covers zone now summary (normalize_config cfg) l h u bound in
      let (s, at, within) = now_in_slot now (normalize_config cfg) _ u c in
      (plan_at zone now summary (normalize_config cfg) l h, s, e, c, at, within)
