-- ===== src/Repository/Tables.antt =====
-- The statements on the tables, and the keys of devices and of audit logs.
use vpp_lab.Prelude.{
  String, Bool, true, false, Option, none, some, ◌≡◌, sym, subst, eq_iff, eq_refl, arith,
  if◌then◌else◌,
}
use vpp_lab.Prelude.Clock.{Time}
use vpp_lab.Model.{Device, DeviceType, Command, CommandAck, DeviceEvent, AuditLog}
use vpp_lab.Repository.{
  Columns, Database, same_audit, same_device, merge_device, exec, put_command_issued,
  put_command_ack, put_event, put_audit_log, upsert,
}
use vpp_lab.Repository.Keys.{IsKey, key_by}

pub same_audit-IsKey : IsKey same_audit
unfolding same_audit
same_audit-IsKey = key_by (λ r. r.id)

module _ {R : Type 0} where
  device_congruent : (a b c : Device R) → same_device a b ≡ true → same_device a c ≡ same_device b c
  unfolding same_device
  device_congruent a b c h = ground (
    arith,
    eq_iff a.site_id b.site_id,
    eq_iff a.id b.id,
    eq_iff a.site_id c.site_id,
    eq_iff b.site_id c.site_id,
    eq_iff a.id c.id,
    eq_iff b.id c.id,
  )

  pub same_device-IsKey : IsKey (same_device {R = R})
  unfolding same_device
  same_device-IsKey = record {
    reflexive = λ a. ground (arith, eq_refl a.site_id, eq_refl a.id);
    congruent = device_congruent;
    symmetric = λ a b. ground (
      arith,
      eq_iff a.site_id b.site_id,
      eq_iff a.id b.id,
      eq_iff b.site_id a.site_id,
      eq_iff b.id a.id,
    );
  }

  pub merge_device_keeps :
      (old new : Device R)
      → same_device old new ≡ true
      → (c : Device R) → same_device (merge_device old new) c ≡ same_device old c
  unfolding merge_device same_device
  merge_device_keeps old new h c = sym (device_congruent old new c h)

-- The statements that write.
pub data Statement (R : Type 0) : Type 0 where
  device : Time → Device R → Statement R
  issue : Time → String → Device R → Command R → Statement R
  acknowledge : Time → String → DeviceType → String → CommandAck → Statement R
  event : Time → DeviceEvent R → Statement R
  audit : Time → AuditLog R → Statement R

some_injective {ℓ} : {A : Type ℓ} {a b : A} → some a ≡ some b → a ≡ b
some_injective e = cc e

module _ {R : Type 0} (db : Columns R) where
  abbrev pub execute : Statement R → Database R → Option (Database R)
  execute (device now d) s = upsert db now d s
  execute (issue now site d cmd) s = put_command_issued db now site d cmd s
  execute (acknowledge now site type id ack) s = put_command_ack db now site type id ack s
  execute (event now e) s = put_event db now e s
  execute (audit now log) s = put_audit_log db now log s

  -- A predicate that holds of every row that a statement may leave.
  pub exec_lem {ℓ κ} :
      {A : Type ℓ} (P : A → Type κ) (reachable : Bool) (column : Option String) (f : String → A)
      (b : A)
      → ((text : String) → P (f text))
      → exec reachable column f ≡ some b
      → P b
  unfolding exec
  exec_lem P reachable none f b h e = absurd (cc e)
  exec_lem P false (some text) f b h e = absurd (cc e)
  exec_lem P true (some text) f b h e = subst P (some_injective e) (h text)

  pub guard_lem {ℓ κ} :
      {A : Type ℓ} (P : A → Type κ) (reachable : Bool) (a b : A)
      → P a
      → (if reachable then some a else none) ≡ some b
      → P b
  guard_lem P false a b h e = absurd (cc e)
  guard_lem P true a b h e = subst P (some_injective e) h
