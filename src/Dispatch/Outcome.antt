-- ===== src/Dispatch/Outcome.antt =====
-- BuildPreview: what a preview holds.
use Prim.Native.String.{◌++◌ as append}
use vpp_lab.Prelude.{format_int, ◌⊎◌, String, true, false, none, some, List, [], ◌∷◌, ◌≡◌, All}
use mathlib.Core.List.{Mem}
use vpp_lab.Prelude.Float.{Float}
use vpp_lab.Prelude.Clock.{Time, unix_nano, unix_seconds}
use vpp_lab.Model.{text, num, Device, Command, SiteSummary}
use vpp_lab.Optimizer.Plan.{Slot, Plan}
use vpp_lab.Dispatch.{Preview}
use vpp_lab.Dispatch.Modes.{Follows}

module _ {R : Type 0} ⦃F : Float R⦄ where
  -- The command that sets a battery to a mode, at the power of a slot.
  abbrev pub set_mode : Time → Slot R → Device R → String → Command R
  set_mode now slot b mode = record {
    command_id = append b.id (append "-preview-" (format_int (unix_nano now)));
    action = "set_mode";
    params = ("mode", text mode) ∷ ("target_power_w", num slot.target_power_w) ∷ [];
    issued_at = unix_seconds now;
    reason = append "day-ahead plan tracking preview: " slot.reason;
  }

  -- What a preview proposes for the active slot: nothing, since the slot asks nothing or the site has no
  -- battery, or a command to a battery of the site, in the mode that the slot asks for.
  pub data Outcome (now : Time) (summary : SiteSummary R) (devices : List (Device R))
      (p : Preview R) : Type 0 where
    no_need :
        (p.slot.battery_mode ≡ "idle") ⊎ (F.eq p.slot.target_power_w (F.decimal 0 0) ≡ true)
        → p.candidate_command ≡ none
        → Outcome now summary devices p
    no_battery :
        All (λ d. ¬ ((d.site_id ≡ summary.site_id) × (d.type ≡ "battery"))) devices
        → p.candidate_command ≡ none
        → Outcome now summary devices p
    ready :
        (b : Device R) (mode : String)
        → Mem b devices
        → b.site_id ≡ summary.site_id
        → b.type ≡ "battery"
        → F.eq p.slot.target_power_w (F.decimal 0 0) ≡ false
        → Follows p.slot.battery_mode mode
        → p.candidate_device_id ≡ b.id
        → p.candidate_command ≡ some (set_mode now p.slot b mode)
        → Outcome now summary devices p
