-- ===== src/Scheduler/Published.antt =====
-- The calls that a publish adds, and that a sequence of them adds.
use mathlib.Core.List.{append_assoc}
use vpp_lab.Prelude.{
  ℕ, String, Bool, true, false, suc, List, [], ◌∷◌, ◌++◌, ◌≡◌, refl, ap, sym, ◌∙◌, inl, inr, arith,
  if◌then◌else◌, All, All-append, Bool-cases, Option-cases, ◌||◌,
}
use vpp_lab.Prelude.Int.{ltb_ℤ}
use vpp_lab.Prelude.Dict.{Dict, lookup}
use vpp_lab.Prelude.Clock.{sub_time}
use vpp_lab.Model.{Device, Command, Value}
use vpp_lab.Scheduler.{Call, Scheduler, Env, make_command, command_key, send, publish}

module _ {R : Type 0} where
  -- A publish either leaves the calls as they were, or makes one call for the device and the action.
  pub data Published (d : Device R) (action : String) (params : Dict (Value R))
      (old : List (Call R)) (r : Bool × Scheduler R) : Type 0 where
    quiet : r.0 ≡ false → r.1.calls ≡ old → Published d action params old r
    called :
        (c : Call R)
        → c.device ≡ d
        → c.command.action ≡ action
        → c.command.params ≡ params
        → r.0 ≡ c.accepted
        → r.1.calls ≡ c ∷ old
        → Published d action params old r

module _ {R : Type 0} (env : Env R) where
  send-called :
      (n : ℕ) (key : String) (d : Device R) (cmd : Command R) (s : Scheduler R)
      → Published d cmd.action cmd.params s.calls (send env n key d cmd s)
  unfolding send
  send-called n key d cmd s = elim (Bool-cases (env.commander s.calls s.site_id d cmd)) [
    | inl e ↦ rw e (called (call true) refl refl refl refl refl)
    | inr e ↦ rw e (called (call false) refl refl refl refl refl)
  ]
    where
      call : Bool → Call R
      call b = record { device = d; command = cmd; read = n; accepted = b }

  pub publish-Published :
      (d : Device R) (action reason : String) (params : Dict (Value R)) (s : Scheduler R)
      → Published d action params s.calls (publish env d action reason params s)
  unfolding publish make_command
  publish-Published d action reason params s =
      elim (Option-cases (lookup (command_key env d.id action params) s.last_sent)) [
        | inl e ↦ rw (e, publish) (send-called _ _ d (make_command _ d action reason params) _)
        | inr (last, e) ↦
            rw (e, publish) (check (ltb_ℤ (sub_time (env.clock (suc s.reads)) last) s.cooldown))
      ]
    where
      check :
          (b : Bool)
          → Published d action params s.calls (
              if b
              then (false, record s { reads = suc (suc s.reads) })
              else send env s.reads
                  (command_key env d.id action params)
                  d
                  (make_command (env.clock s.reads) d action reason params)
                  (record s { reads = suc (suc s.reads) }))
      check true = quiet refl refl
      check false = send-called _ _ d (make_command _ d action reason params) _

pub or-false_left : (a b : Bool) → (a || b) ≡ false → a ≡ false
or-false_left a b h = ground arith

pub or-false_right : (a b : Bool) → (a || b) ≡ false → b ≡ false
or-false_right a b h = ground arith

-- The calls that are added all satisfy `P`.
pub record Adds {R : Type 0} (P : Call R → Type 0) (old new : List (Call R)) : Type 0 where
  pub added : List (Call R)
  pub all : All P added
  pub new_eq : new ≡ added ++ old

module _ {R : Type 0} (P : Call R → Type 0) where
  pub Adds-refl : (old : List (Call R)) → Adds P old old
  Adds-refl old = record { added = []; all = tt; new_eq = refl }

  pub Adds-trans : {a b c : List (Call R)} → Adds P a b → Adds P b c → Adds P a c
  Adds-trans f g = record {
    added = g.added ++ f.added;
    all = All-append P g.added f.added g.all f.all;
    new_eq = g.new_eq ∙ ap (λ l. g.added ++ l) f.new_eq ∙ sym (append_assoc g.added f.added _);
  }

  pub publish-Adds :
      {d : Device R} {action : String} {params : Dict (Value R)} {old : List (Call R)}
      {r : Bool × Scheduler R}
      → ((c : Call R) → c.device ≡ d → c.command.action ≡ action → c.command.params ≡ params → P c)
      → Published d action params old r
      → Adds P old r.1.calls
  publish-Adds grounds (quiet e q) = record { added = []; all = tt; new_eq = q }
  publish-Adds grounds (called c d a ps e q) = record {
    added = c ∷ [];
    all = (grounds c d a ps, tt);
    new_eq = q;
  }
