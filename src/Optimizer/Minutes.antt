-- ===== src/Optimizer/Minutes.antt =====
-- The minutes of a plan: the lengths of its slots and of its horizon, as int64 and time.Duration.
use native.Mathlib.Nat.{mul-div_cancel, div-add-mod, mod-lt}
use vpp_lab.Prelude.{
  ℕ, zero, suc, true, ◌≡◌, sym, ap, ◌∙◌, beq_iff, arith, ◌+◌, ◌*◌, ◌/◌, ◌%◌, ◌<◌, ◌≤◌,
}
use vpp_lab.Prelude.Int.{
  ℤ, pos, negsuc, ◌<ℤ◌, ◌≤ℤ◌, ◌+ℤ◌, ◌-ℤ◌, ◌*ℤ◌, +ℤ_parts, -ℤ_parts, int_laws, pos_part, mod_ℤ, quot,
  int64-pos,
}
use vpp_lab.Prelude.Float.{Float}
use vpp_lab.Prelude.Clock.{Time, minute, truncate}
use vpp_lab.Optimizer.{Config, divides_60}
use vpp_lab.Optimizer.Plan.{minutes, slot_count}

-- The whole hours, and the whole minutes, of the longest time.Duration.
abbrev pub max_hours : ℕ
max_hours = 2562047

abbrev pub max_minutes : ℕ
max_minutes = 153722867

pub pos-*ℤ : (a b : ℕ) → pos a *ℤ pos b ≡ pos (a * b)
unfolding ◌*ℤ◌
pos-*ℤ a b = ground arith

pub minutes-pos : (k : ℕ) → k ≤ max_minutes → minutes (pos k) ≡ pos (k * minute)
unfolding minutes
minutes-pos k h = rw pos-*ℤ (int64-pos (k * minute) (omega arith))

pub +ℤ_pos : (t : ℤ) (a b : ℕ) → t +ℤ pos a +ℤ pos b ≡ t +ℤ pos (a + b)
+ℤ_pos t a b = omega int_laws

pub +ℤ_zero : (t : ℤ) (n : ℕ) → n ≡ 0 → t +ℤ pos n ≡ t
+ℤ_zero t n h = omega (int_laws, +ℤ_parts t (pos n))

pub pos-pos_part : (t : ℤ) → pos 0 <ℤ t → t ≡ pos (pos_part t)
pos-pos_part t h = ground arith

pub pos_part-le : (t : ℤ) (n : ℕ) → t ≤ℤ pos n → pos_part t ≤ n
pos_part-le t n h = ground arith

-- A slot is sixty minutes divided by a whole number.
pub divides_60-cofactor :
    (m : ℕ) → 0 < m → divides_60 (pos m) ≡ true → (k : ℕ) × (m * k ≡ 60) × (0 < k)
unfolding divides_60
divides_60-cofactor m h e =
    let exact : m * (60 / m) ≡ 60 = omega (arith, (beq_iff (60 % m) 0).0 e, div-add-mod 60 m) in
    (60 / m, exact, positive (60 / m) exact)
  where
    positive : (k : ℕ) → m * k ≡ 60 → 0 < k
    positive zero p = absurd (grind arith)
    positive (suc k) p = omega arith

pub slot_count-cofactor :
    {R : Type 0} ⦃F : Float R⦄ (cfg : Config R) (h m k : ℕ)
    → cfg.horizon_hours ≡ pos h
    → cfg.slot_minutes ≡ pos m
    → m * k ≡ 60
    → 0 < h
    → 0 < m
    → 0 < k
    → h ≤ max_hours
    → slot_count cfg ≡ h * k
unfolding slot_count quot
slot_count-cofactor cfg h m k eh em e ph pm pk bound =
    rw (eh, em)
      (rw pos-*ℤ (rw (int64-pos (h * 60) (omega arith)) (rw quotient (ground (arith, count_pos)))))
  where
    regrouped : h * 60 ≡ h * k * m
    regrouped = ap (λ n. h * n) (sym e) ∙ omega arith

    quotient : h * 60 / m ≡ h * k
    quotient = ap (λ n. n / m) regrouped ∙ mul-div_cancel (h * k) pm

    count_pos : 0 < h * k
    count_pos = grind arith

pub mod_ℤ-lt : (t : ℤ) (d : ℕ) → 0 < d → mod_ℤ t d < d
unfolding mod_ℤ
mod_ℤ-lt (pos n) d h = mod-lt n h
mod_ℤ-lt (negsuc n) d h = omega arith

pub truncate_bounds :
    (t : Time) (d : ℕ) → 0 < d → (truncate t d ≤ℤ t) × (t <ℤ truncate t d +ℤ pos d)
unfolding truncate
truncate_bounds t d h =
    let r = mod_ℤ-lt t d h in
    omega (int_laws, -ℤ_parts t (pos (mod_ℤ t d)), +ℤ_parts (t -ℤ pos (mod_ℤ t d)) (pos d))
