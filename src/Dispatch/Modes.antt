-- ===== src/Dispatch/Modes.antt =====
-- The first device of a type, and the modes of the slots of a plan and of the commands for them.
use vpp_lab.Prelude.{
  ℕ, zero, suc, String, Bool, true, false, none, some, List, [], ◌∷◌, ◌==◌, ◌&&◌, ◌≡◌, refl, subst,
  inl, inr, arith, Bool-cases, eq_iff, All,
}
use mathlib.Core.List.{Mem, mem-cons_self, mem-cons_of_mem}
use vpp_lab.Prelude.Float.{Float}
use vpp_lab.Prelude.Clock.{Time}
use vpp_lab.Model.{Device}
use vpp_lab.Optimizer.{Config}
use vpp_lab.Optimizer.Plan.{
  Slot, Outlook, Setting, choose, make_slot, action_at, plan_slots, slot_at, contains, in_surplus,
  at_low_price, at_high_price, over_limit,
}
use vpp_lab.Dispatch.{first_device, battery_command_mode}

left : (a b : Bool) → (a && b) ≡ true → a ≡ true
left a b h = ground arith

right : (a b : Bool) → (a && b) ≡ true → b ≡ true
right a b h = ground arith

-- The first device of a site and type is one of the devices, of the site and the type.
pub first_device-found :
    {R : Type 0} (ds : List (Device R)) (site type : String) (d : Device R)
    → first_device ds site type ≡ some d
    → Mem d ds × (d.site_id ≡ site) × (d.type ≡ type)
unfolding first_device
first_device-found [] site type d e = absurd (cc)
first_device-found (x ∷ xs) site type d e =
    elim (Bool-cases (x.site_id == site && x.type == type)) [
      | inl h ↦ (
        subst (λ y. Mem y (x ∷ xs)) (same h e) mem-cons_self,
        subst (λ y. y.site_id ≡ site) (same h e) (and_left h),
        subst (λ y. y.type ≡ type) (same h e) (and_right h),
      )
      | inr h ↦
          let (at, of_site, of_kind) = first_device-found xs site type d (later h e) in
          (mem-cons_of_mem x at, of_site, of_kind)
    ]
  where
    and_left : (x.site_id == site && x.type == type) ≡ true → x.site_id ≡ site
    and_left h = (eq_iff _ _).0 (left _ (x.type == type) h)

    and_right : (x.site_id == site && x.type == type) ≡ true → x.type ≡ type
    and_right h = (eq_iff _ _).0 (right (x.site_id == site) _ h)

    same :
        (x.site_id == site && x.type == type) ≡ true
        → first_device (x ∷ xs) site type ≡ some d
        → x ≡ d
    same h e = ground arith

    later :
        (x.site_id == site && x.type == type) ≡ false
        → first_device (x ∷ xs) site type ≡ some d
        → first_device xs site type ≡ some d
    later h e = ground arith

-- Where there is none, no device is of the site and the type.
pub first_device-none :
    {R : Type 0} (ds : List (Device R)) (site type : String)
    → first_device ds site type ≡ none
    → All (λ d. ¬ ((d.site_id ≡ site) × (d.type ≡ type))) ds
unfolding first_device
first_device-none [] site type e = tt
first_device-none (x ∷ xs) site type e = elim (Bool-cases (x.site_id == site && x.type == type)) [
  | inl h ↦ absurd (cc (rw (h, first_device) at e))
  | inr h ↦ (
    λ p. absurd (ground (arith, p.0, p.1, eq_iff x.site_id site, eq_iff x.type type)),
    first_device-none xs site type (rw (h, first_device) at e),
  )
]

-- The modes that a plan knows.
pub data Mode (mode : String) : Type 0 where
  charge : mode ≡ "charge" → Mode mode
  discharge : mode ≡ "discharge" → Mode mode
  idle : mode ≡ "idle" → Mode mode

-- The mode of a command for the mode of a slot.
pub data Follows : String → String → Type 0 where
  charges : Follows "charge" "charging"
  discharges : Follows "discharge" "discharging"

pub Follows-Mode :
    (mode : String)
    → Mode mode
    → (mode == "idle") ≡ false
    → ((battery_command_mode mode == "") ≡ false) × Follows mode (battery_command_mode mode)
unfolding battery_command_mode
Follows-Mode mode (charge e) h = rw e (refl, charges)
Follows-Mode mode (discharge e) h = rw e (refl, discharges)
Follows-Mode mode (idle e) h = absurd (cc (e, h))

pub slot_at-All :
    {R : Type 0} (P : Slot R → Type 0) (at : Time) (ss : List (Slot R)) (s : Slot R)
    → All P ss
    → slot_at at ss ≡ some s
    → P s
unfolding slot_at
slot_at-All P at [] s h e = absurd (cc)
slot_at-All P at (x ∷ xs) s h e = elim (Bool-cases (contains at x)) [
  | inl c ↦ subst P (first c e) h.0
  | inr c ↦ slot_at-All P at xs s h.1 (rest c e)
]
  where
    first : contains at x ≡ true → slot_at at (x ∷ xs) ≡ some s → x ≡ s
    first c e = ground arith

    rest : contains at x ≡ false → slot_at at (x ∷ xs) ≡ some s → slot_at at xs ≡ some s
    rest c e = ground arith

module _ {R : Type 0} ⦃F : Float R⦄ where
  choose-Mode : (cfg : Config R) (o : Outlook R) (soc : R) → Mode ((choose cfg o soc).mode)
  unfolding choose
  choose-Mode cfg o soc = elim (Bool-cases (in_surplus cfg o soc)) [
    | inl e ↦ rw e (charge refl)
    | inr e ↦ rw e (elim (Bool-cases (at_low_price cfg o soc)) [
      | inl f ↦ rw f (charge refl)
      | inr f ↦ rw f (elim (Bool-cases (at_high_price cfg o soc)) [
        | inl g ↦ rw g (discharge refl)
        | inr g ↦ rw g (elim (Bool-cases (over_limit cfg o soc)) [
          | inl h ↦ rw h (discharge refl)
          | inr h ↦ rw h (idle refl)
        ])
      ])
    ])
  ]

  pub plan_slots-Mode :
      (g : Setting R) (rounds i : ℕ) (soc : R)
      → All (λ s. Mode s.battery_mode) (plan_slots g rounds i soc)
  unfolding plan_slots make_slot action_at
  plan_slots-Mode g zero i soc = tt
  plan_slots-Mode g (suc rounds) i soc = (choose-Mode _ _ _, plan_slots-Mode g rounds _ _)
