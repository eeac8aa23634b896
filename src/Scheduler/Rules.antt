-- ===== src/Scheduler/Rules.antt =====
-- Which commands a tick sends, and on what grounds.
use mathlib.Core.List.{append_assoc}
use vpp_lab.Prelude.{
  String, Bool, true, false, List, [], ◌∷◌, ◌++◌, ◌≡◌, refl, ap, sym, subst, ◌∙◌, inl, inr, All,
  All-append, All-keep, Bool-cases, ◌&&◌, ◌==◌, ◌||◌,
}
use vpp_lab.Prelude.Float.{Float}
use vpp_lab.Prelude.Dict.{Dict}
use vpp_lab.Model.{Device, Telemetry, Policy, SiteSummary, device_battery, device_load}
use vpp_lab.Scheduler.{
  Call, Scheduler, Env, mode, relay, can_charge, can_discharge, of_type, charge_all, discharge_one,
  discharge_all, shed_first, shed, discharge_or_shed, apply_rules,
}
use vpp_lab.Scheduler.Published.{
  Published, quiet, called, publish-Published, or-false_left, or-false_right, Adds, Adds-refl,
  Adds-trans, publish-Adds,
}

module _ {R : Type 0} ⦃F : Float R⦄ (site : String) (p : Policy R) (now : SiteSummary R)
    (telemetry : Dict (Telemetry R)) where
  abbrev IsOf : String → Device R → Type 0
  IsOf type d = (d.site_id == site && d.type == type) ≡ true

  -- Grounds for a command to charge: a battery of the site, not full, and more than 10 W of surplus.
  pub record Charging (c : Call R) : Type 0 where
    pub battery : IsOf device_battery c.device
    pub surplus : F.lt now.net_power_w (F.neg (F.decimal 10 0)) ≡ true
    pub not_full : can_charge p telemetry c.device ≡ true
    pub action : c.command.action ≡ "set_mode"
    pub params : c.command.params ≡ mode "charging"

  -- Grounds for a command to discharge: a battery of the site, not empty, and a deficit of over 10 W.
  pub record Discharging (c : Call R) : Type 0 where
    pub battery : IsOf device_battery c.device
    pub deficit : F.lt (F.decimal 10 0) now.net_power_w ≡ true
    pub not_empty : can_discharge p telemetry c.device ≡ true
    pub action : c.command.action ≡ "set_mode"
    pub params : c.command.params ≡ mode "discharging"

  -- Grounds for a command to shed: a load of the site that is not critical, and a deficit over the limit.
  pub record Shedding (c : Call R) : Type 0 where
    pub load : IsOf device_load c.device
    pub over : F.lt p.load_shed_threshold now.net_power_w ≡ true
    pub not_critical : c.device.critical_load ≡ false
    pub action : c.command.action ≡ "set_relay"
    pub params : c.command.params ≡ relay false

  -- The calls of one tick on top of the calls before it: all charge, or some discharge and at most one
  -- sheds, and only if no call to discharge was accepted.
  pub data Outcome (old new : List (Call R)) : Type 0 where
    charges : (added : List (Call R)) → All Charging added → new ≡ added ++ old → Outcome old new
    discharges :
        (added : List (Call R)) → All Discharging added → new ≡ added ++ old → Outcome old new
    sheds :
        (c : Call R) (added : List (Call R))
        → Shedding c
        → All Discharging added
        → All (λ d. d.accepted ≡ false) added
        → new ≡ c ∷ added ++ old
        → Outcome old new

  abbrev Rejected : Call R → Type 0
  Rejected c = c.accepted ≡ false

  module _ (env : Env R) where
    charge_all-Adds :
        (bs : List (Device R)) (s : Scheduler R)
        → All (IsOf device_battery) bs
        → F.lt now.net_power_w (F.neg (F.decimal 10 0)) ≡ true
        → Adds Charging s.calls (charge_all env p telemetry bs s).calls
    unfolding charge_all
    charge_all-Adds [] s h surplus = Adds-refl Charging s.calls
    charge_all-Adds (b ∷ bs) s h surplus = elim (Bool-cases (can_charge p telemetry b)) [
      | inl e ↦
          rw (e, charge_all)
            (Adds-trans Charging
              (publish-Adds Charging (grounds e) (publish-Published env b "set_mode" _ _ s))
              (charge_all-Adds bs _ h.1 surplus))
      | inr e ↦ rw (e, charge_all) (charge_all-Adds bs s h.1 surplus)
    ]
      where
        grounds :
            can_charge p telemetry b ≡ true
            → (c : Call R) → c.device ≡ b
            → c.command.action ≡ "set_mode"
            → c.command.params ≡ mode "charging"
            → Charging c
        grounds e c d a ps = record {
          battery = subst (IsOf device_battery) (sym d) h.0;
          surplus = surplus;
          not_full = rw d e;
          action = a;
          params = ps;
        }

    -- What the loop that discharges adds, and that it reports an accepted call.
    record Tried (r r' : Bool × Scheduler R) : Type 0 where
      added : List (Call R)
      all : All Discharging added
      new_eq : r'.1.calls ≡ added ++ r.1.calls
      reported : r'.0 ≡ false → (r.0 ≡ false) × All Rejected added

    Tried-refl : (r : Bool × Scheduler R) → Tried r r
    Tried-refl r = record { added = []; all = tt; new_eq = refl; reported = λ e. (e, tt) }

    Tried-trans : {a b c : Bool × Scheduler R} → Tried a b → Tried b c → Tried a c
    Tried-trans f g = record {
      added = g.added ++ f.added;
      all = All-append Discharging g.added f.added g.all f.all;
      new_eq = g.new_eq ∙ ap (λ l. g.added ++ l) f.new_eq ∙ sym (append_assoc g.added f.added _);
      reported = λ e.
          let (e', rs) = g.reported e in
          let (e'', qs) = f.reported e' in (e'', All-append Rejected g.added f.added rs qs);
    }

    discharge_one-Tried :
        (b : Device R) (r : Bool × Scheduler R)
        → IsOf device_battery b
        → F.lt (F.decimal 10 0) now.net_power_w ≡ true
        → Tried r (discharge_one env p telemetry b r)
    unfolding discharge_one
    discharge_one-Tried b (dispatched, s) h deficit =
        elim (Bool-cases (can_discharge p telemetry b)) [
          | inl e ↦
              rw (e, discharge_one)
                (tried e _ (publish-Published env b "set_mode" _ (mode "discharging") s))
          | inr e ↦ rw (e, discharge_one) (Tried-refl (dispatched, s))
        ]
      where
        tried :
            can_discharge p telemetry b ≡ true
            → (r : Bool × Scheduler R) → Published b "set_mode" (mode "discharging") s.calls r
            → Tried (dispatched, s) (dispatched || r.0, r.1)
        tried e r (quiet f q) = record {
          added = [];
          all = tt;
          new_eq = q;
          reported = λ o. (or-false_left dispatched r.0 o, tt);
        }
        tried e r (called c d a ps f q) = record {
          added = c ∷ [];
          all = (
            record {
              battery = subst (IsOf device_battery) (sym d) h;
              deficit = deficit;
              not_empty = rw d e;
              action = a;
              params = ps;
            },
            tt,
          );
          new_eq = q;
          reported =
              λ o. (or-false_left dispatched r.0 o, (sym f ∙ or-false_right dispatched r.0 o, tt));
        }

    discharge_all-Tried :
        (bs : List (Device R)) (r : Bool × Scheduler R)
        → All (IsOf device_battery) bs
        → F.lt (F.decimal 10 0) now.net_power_w ≡ true
        → Tried r (discharge_all env p telemetry bs r)
    unfolding discharge_all
    discharge_all-Tried [] r h deficit = Tried-refl r
    discharge_all-Tried (b ∷ bs) r h deficit =
        Tried-trans (discharge_one-Tried b r h.0 deficit) (discharge_all-Tried bs _ h.1 deficit)

    -- What the loop that sheds adds: no call, or one.
    data Shed (old new : List (Call R)) : Type 0 where
      keeps : new ≡ old → Shed old new
      sheds_one : (c : Call R) → Shedding c → new ≡ c ∷ old → Shed old new

    shed_first-Shed :
        (ds : List (Device R)) (s : Scheduler R)
        → All (IsOf device_load) ds
        → F.lt p.load_shed_threshold now.net_power_w ≡ true
        → Shed s.calls (shed_first env ds s).calls
    unfolding shed_first
    shed_first-Shed [] s h over = keeps refl
    shed_first-Shed (d ∷ ds) s h over = elim (Bool-cases d.critical_load) [
      | inl e ↦ rw (e, shed_first) (shed_first-Shed ds s h.1 over)
      | inr e ↦
          simp (e, shed_first) (one e _ (publish-Published env d "set_relay" _ (relay false) s))
    ]
      where
        one :
            d.critical_load ≡ false
            → (r : Bool × Scheduler R) → Published d "set_relay" (relay false) s.calls r
            → Shed s.calls r.1.calls
        one e r (quiet f q) = keeps q
        one e r (called c d' a ps f q) =
            sheds_one c
              (record {
                load = subst (IsOf device_load) (sym d') h.0;
                over = over;
                not_critical = rw d' e;
                action = a;
                params = ps;
              })
              q

    shed-Shed :
        (ds : List (Device R)) (s : Scheduler R)
        → All (IsOf device_load) ds
        → Shed s.calls (shed env p now ds s).calls
    unfolding shed
    shed-Shed ds s h = elim (Bool-cases (F.lt p.load_shed_threshold now.net_power_w)) [
      | inl e ↦ rw (e, shed) (shed_first-Shed ds s h e)
      | inr e ↦ rw (e, shed) (keeps refl)
    ]

    Shed-Outcome :
        (added : List (Call R)) {old mid new : List (Call R)}
        → All Discharging added
        → All Rejected added
        → mid ≡ added ++ old
        → Shed mid new
        → Outcome old new
    Shed-Outcome added a r e (keeps q) = discharges added a (q ∙ e)
    Shed-Outcome added a r e (sheds_one c g q) = sheds c added g a r (q ∙ ap (λ l. c ∷ l) e)

    discharge_or_shed-Outcome :
        (ds : List (Device R)) (s : Scheduler R) (r : Bool × Scheduler R)
        → All (IsOf device_load) ds
        → Tried (false, s) r
        → Outcome s.calls (discharge_or_shed env p now ds r).calls
    unfolding discharge_or_shed
    discharge_or_shed-Outcome ds s (true, s') h t = discharges t.added t.all t.new_eq
    discharge_or_shed-Outcome ds s (false, s') h t =
        Shed-Outcome t.added t.all (t.reported refl).1 t.new_eq (shed-Shed ds s' h)

module _ {R : Type 0} ⦃F : Float R⦄ (env : Env R) where
  -- Every command of a tick is to a device of the site, on the grounds of its kind, whatever the store
  -- held at each of the three reads: to charge a battery that is not full, in surplus; or else to
  -- discharge one that is not empty, in deficit, and at most one to switch off a load that is not
  -- critical, over the limit, and only if no command to discharge was accepted.
  pub apply_rules-Outcome :
      (now : SiteSummary R) (devices : List (Device R)) (telemetry : Dict (Telemetry R))
      (s : Scheduler R)
      → Outcome s.site_id s.policy now telemetry s.calls
          (apply_rules env now devices telemetry s).calls
  unfolding apply_rules of_type
  apply_rules-Outcome now devices telemetry s =
      elim (Bool-cases (F.lt now.net_power_w (F.neg (F.decimal 10 0)))) [
        | inl e ↦
            rw (e, apply_rules)
              (all_charge (charge_all-Adds s.site_id s.policy now telemetry env _ s batteries e))
        | inr e ↦
            rw (e, apply_rules)
              (elim (Bool-cases (F.lt (F.decimal 10 0) now.net_power_w)) [
                | inl d ↦ rw d (
                    discharge_or_shed-Outcome s.site_id s.policy now telemetry env _ s _ loads (
                      discharge_all-Tried s.site_id s.policy now telemetry env _ (false, s)
                        batteries d))
                | inr d ↦ rw d (
                    Shed-Outcome s.site_id s.policy now telemetry env [] tt tt refl
                      (shed-Shed s.site_id s.policy now telemetry env _ s loads))
              ])
      ]
    where
      batteries :
          All
            (IsOf s.site_id s.policy now telemetry device_battery)
            (of_type s.site_id device_battery devices)
      batteries = All-keep _ devices

      loads :
          All
            (IsOf s.site_id s.policy now telemetry device_load)
            (of_type s.site_id device_load devices)
      loads = All-keep _ devices

      all_charge :
          {new : List (Call R)}
          → Adds (Charging s.site_id s.policy now telemetry) s.calls new
          → Outcome s.site_id s.policy now telemetry s.calls new
      all_charge a = charges a.added a.all a.new_eq
