-- ===== src/Scheduler/Keeps.antt =====
-- What every publish and every change of the policy keeps, the scheduler keeps through any events.
use vpp_lab.Prelude.{String, Bool, true, false, List, [], ◌∷◌, if◌then◌else◌}
use vpp_lab.Prelude.Float.{Float}
use vpp_lab.Prelude.Dict.{Dict}
use vpp_lab.Model.{Device, Telemetry, Policy, SiteSummary, Value, device_battery, device_load}
use vpp_lab.State.{list_devices, telemetry_for_site}
use vpp_lab.State.Summary.{summary}
use vpp_lab.Scheduler.{
  Scheduler, Env, Event, ticked, policy_set, set_policy, publish, can_charge, can_discharge,
  charge_all, discharge_one, discharge_all, shed_first, shed, discharge_or_shed, of_type,
  apply_rules, tick, run_loop,
}

module _ {R : Type 0} ⦃F : Float R⦄ (env : Env R) (P : Scheduler R → Type 0)
    (keep : (d : Device R) (action reason : String) (params : Dict (Value R)) (s : Scheduler R)
      → P s
      → P (publish env d action reason params s).1) where
  P-if : (b : Bool) (s t : Scheduler R) → P s → P t → P (if b then s else t)
  P-if true s t h k = h
  P-if false s t h k = k

  P-if_pair : (b : Bool) (s t : Bool × Scheduler R) → P s.1 → P t.1 → P (if b then s else t).1
  P-if_pair true s t h k = h
  P-if_pair false s t h k = k

  charge_all-keeps :
      (p : Policy R) (telemetry : Dict (Telemetry R)) (bs : List (Device R)) (s : Scheduler R)
      → P s
      → P (charge_all env p telemetry bs s)
  unfolding charge_all
  charge_all-keeps p telemetry [] s h = h
  charge_all-keeps p telemetry (b ∷ bs) s h =
      charge_all-keeps p telemetry bs _
        (P-if (can_charge p telemetry b) _ s (keep b "set_mode" _ _ s h) h)

  discharge_all-keeps :
      (p : Policy R) (telemetry : Dict (Telemetry R)) (bs : List (Device R))
      (r : Bool × Scheduler R)
      → P r.1
      → P (discharge_all env p telemetry bs r).1
  unfolding discharge_all discharge_one
  discharge_all-keeps p telemetry [] r h = h
  discharge_all-keeps p telemetry (b ∷ bs) (dispatched, s) h =
      discharge_all-keeps p telemetry bs _
        (P-if_pair (can_discharge p telemetry b) _ (dispatched, s) (keep b "set_mode" _ _ s h) h)

  shed_first-keeps : (ds : List (Device R)) (s : Scheduler R) → P s → P (shed_first env ds s)
  unfolding shed_first
  shed_first-keeps [] s h = h
  shed_first-keeps (d ∷ ds) s h =
      P-if d.critical_load _ _ (shed_first-keeps ds s h) (keep d "set_relay" _ _ s h)

  shed-keeps :
      (p : Policy R) (now : SiteSummary R) (ds : List (Device R)) (s : Scheduler R)
      → P s
      → P (shed env p now ds s)
  unfolding shed
  shed-keeps p now ds s h = P-if (F.lt _ _) _ s (shed_first-keeps ds s h) h

  discharge_or_shed-keeps :
      (p : Policy R) (now : SiteSummary R) (ds : List (Device R)) (r : Bool × Scheduler R)
      → P r.1
      → P (discharge_or_shed env p now ds r)
  unfolding discharge_or_shed
  discharge_or_shed-keeps p now ds (true, s) h = h
  discharge_or_shed-keeps p now ds (false, s) h = shed-keeps p now ds s h

  pub apply_rules-keeps :
      (now : SiteSummary R) (devices : List (Device R)) (telemetry : Dict (Telemetry R))
      (s : Scheduler R)
      → P s
      → P (apply_rules env now devices telemetry s)
  unfolding apply_rules
  apply_rules-keeps now devices telemetry s h =
      P-if (F.lt _ _) _ _
        (charge_all-keeps s.policy telemetry (of_type s.site_id device_battery devices) s h)
        (P-if (F.lt _ _) _ _
          (discharge_or_shed-keeps s.policy now (of_type s.site_id device_load devices) _ (
            discharge_all-keeps s.policy telemetry (of_type s.site_id device_battery devices)
              (false, s) h))
          (shed-keeps s.policy now (of_type s.site_id device_load devices) s h))

  pub run_loop-keeps :
      ((p : Policy R) (s : Scheduler R) → P s → P (set_policy p s))
      → (es : List (Event R)) (s : Scheduler R) → P s
      → P (run_loop env es s)
  unfolding run_loop tick
  run_loop-keeps change [] s h = h
  run_loop-keeps change (ticked store ∷ es) s h = run_loop-keeps change es _ (
      apply_rules-keeps (summary s.site_id store) (list_devices store)
        (telemetry_for_site s.site_id store) s h)
  run_loop-keeps change (policy_set p ∷ es) s h = run_loop-keeps change es _ (change p s h)
