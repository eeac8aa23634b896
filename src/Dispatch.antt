-- ===== src/Dispatch.antt =====
-- internal/dispatch/preview.go: the command that follows the active slot of the plan, and the decision
-- whether it may be sent.

pub mod Modes
pub mod Outcome
use Prim.Native.String.{◌++◌ as append}
use vpp_lab.Prelude.{
  String, Bool, true, false, Option, none, some, List, [], ◌∷◌, ◌==◌, if◌then◌else◌, ◌||◌, ◌&&◌,
  not, format_int, ◌≡◌, refl,
}
use vpp_lab.Prelude.Int.{ℤ}
use vpp_lab.Prelude.Float.{Float}
use vpp_lab.Prelude.Clock.{Time, Duration, zero_time, unix_seconds, unix_nano}
use vpp_lab.Model.{Device, Command, SiteSummary, Value, text, num, device_battery}
use vpp_lab.Optimizer.{Config}
use vpp_lab.Optimizer.Plan.{Slot, Plan, build_day_ahead_plan, current_slot}

pub record Preview (R : Type 0) : Type 0 where
  pub generated_at : Time
  pub site_id : String
  pub summary : SiteSummary R
  pub slot : Slot R
  pub tracking_error_w : R
  pub candidate_device_id : String
  pub candidate_command : Option (Command R)
  pub safe_to_apply : Bool
  pub reason : String
  pub plan : Plan R

pub record ApplyRequest (R : Type 0) : Type 0 where
  pub confirm : Bool
  pub max_abs_tracking_error_w : R
  pub config : Config R

pub record ApplyDecision (R : Type 0) : Type 0 where
  pub can_apply : Bool
  pub reason : String
  pub preview : Preview R

unfoldable pub first_device : {R : Type 0} → List (Device R) → String → String → Option (Device R)
first_device [] site_id type = none
first_device (d ∷ ds) site_id type =
    if d.site_id == site_id && d.type == type then some d else first_device ds site_id type

unfoldable pub battery_command_mode : String → String
battery_command_mode plan_mode =
    if plan_mode == "charge"
    then "charging"
    else if plan_mode == "discharge"
    then "discharging"
    else if plan_mode == "idle"
    then "idle"
    else ""

unfoldable pub no_candidate : {R : Type 0} → Option (Command R) → String → Bool
no_candidate none device_id = true
no_candidate (some c) device_id = device_id == ""

module _ {R : Type 0} ⦃F : Float R⦄ where
  -- float64(int(v*100+0.5)) / 100
  round_half_up : R → R
  round_half_up v =
      F.div (F.of_int (F.to_int (F.add (F.mul v (F.decimal 100 0)) (F.decimal 5 1))))
        (F.decimal 100 0)

  -- For v below zero the source calls itself on -v, which is not below zero.
  unfoldable pub round2 : R → R
  unfolding round_half_up
  round2 v = if F.lt v (F.decimal 0 0) then F.neg (round_half_up (F.neg v)) else round_half_up v

  -- Slot{}
  unfoldable pub zero_slot : Slot R
  zero_slot = record {
    start_at = zero_time;
    end_at = zero_time;
    battery_mode = "";
    target_power_w = F.decimal 0 0;
    expected_price = F.decimal 0 0;
    forecast_pv_w = F.decimal 0 0;
    forecast_load_w = F.decimal 0 0;
    forecast_soc = F.decimal 0 0;
    net_load_w = F.decimal 0 0;
    reason = "";
  }

  unfoldable pub candidate : Time → Slot R → Device R → String → Command R
  candidate now slot battery mode = record {
    command_id = append battery.id (append "-preview-" (format_int (unix_nano now)));
    action = "set_mode";
    params = ("mode", text mode) ∷ ("target_power_w", num slot.target_power_w) ∷ [];
    issued_at = unix_seconds now;
    reason = append "day-ahead plan tracking preview: " slot.reason;
  }

  -- From the search for a battery on.
  unfoldable pub with_battery : Time → Preview R → Option (Device R) → Preview R
  with_battery now p none = record p { reason = "no battery device registered" }
  with_battery now p (some battery) =
      let mode = battery_command_mode p.slot.battery_mode in
      if mode == ""
      then record p {
        candidate_device_id = battery.id;
        reason = "active slot has unsupported battery mode";
      }
      else record p {
        candidate_device_id = battery.id;
        candidate_command = some (candidate now p.slot battery mode);
        reason = "candidate command generated from active plan slot";
      }

  -- The test that the slot asks nothing of the battery.
  unfoldable pub no_action : Slot R → Bool
  no_action slot = slot.battery_mode == "idle" || F.eq slot.target_power_w (F.decimal 0 0)

  unfoldable pub empty_preview : Time → SiteSummary R → Plan R → Slot R → Preview R
  empty_preview now summary plan slot = record {
    generated_at = now;
    site_id = summary.site_id;
    summary = summary;
    slot = slot;
    tracking_error_w = F.decimal 0 0;
    candidate_device_id = "";
    candidate_command = none;
    safe_to_apply = false;
    reason = "";
    plan = plan;
  }

  abbrev pub drafted : Time → SiteSummary R → Plan R → Slot R → Preview R
  unfolding empty_preview
  drafted now summary plan slot = record (empty_preview now summary plan slot) {
    tracking_error_w = round2 (F.sub summary.net_power_w slot.net_load_w);
  }

  unfoldable pub with_slot :
      Time → SiteSummary R → List (Device R) → Plan R → Option (Slot R) → Preview R
  unfolding with_battery empty_preview
  with_slot now summary devices plan none = record (empty_preview now summary plan zero_slot) {
    reason = "no active plan slot";
  }
  with_slot now summary devices plan (some slot) =
      let p = drafted now summary plan slot in
      if no_action slot
      then record p { reason = "active slot does not require battery action" }
      else with_battery now p (first_device devices summary.site_id device_battery)

  preview_of : (Plan R → Preview R) → Option (Plan R) → Option (Preview R)
  preview_of f none = none
  preview_of f (some plan) = some (f plan)

  -- `none` is the panic of BuildDayAheadPlan.
  unfoldable pub build_preview :
      Duration → Time → SiteSummary R → List (Device R) → Config R → Option (Preview R)
  unfolding preview_of with_slot
  build_preview zone now summary devices cfg =
      preview_of (λ plan. with_slot now summary devices plan (current_slot plan now))
        (build_day_ahead_plan zone now summary cfg)

  -- The limit of a request, 100 W where it names none.
  unfoldable pub max_err : ApplyRequest R → R
  max_err req =
      if F.eq req.max_abs_tracking_error_w (F.decimal 0 0)
      then F.decimal 100 0
      else req.max_abs_tracking_error_w

  refused : Preview R → String → ApplyDecision R
  refused p reason = record { can_apply = false; reason = reason; preview = p }

  unfoldable pub decide_apply : Preview R → ApplyRequest R → ApplyDecision R
  unfolding no_candidate refused max_err
  decide_apply p req =
      if not req.confirm
      then refused p "confirm must be true"
      else if no_candidate p.candidate_command p.candidate_device_id
      then refused p "no candidate command"
      else if F.lt (max_err req) (F.abs p.tracking_error_w)
      then refused p (
          append "tracking error " (
            append (F.format p.tracking_error_w)
              (append "W exceeds limit " (append (F.format (max_err req)) "W"))))
      else record {
        can_apply = true;
        reason = "confirmed and within tracking error limit";
        preview = p;
      }
