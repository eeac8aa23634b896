-- ===== src/Repository/Lists.antt =====
-- What the queries return, and what the statements keep.
use mathlib.Core.List.{Perm}
use vpp_lab.Prelude.{
  Option, none, some, String, sym, ap, ◌==◌, ◌&&◌, List, [], ◌∷◌, ◌≡◌, refl, ◌∙◌, inl, inr, ◌≤◌,
  arith, Bool-cases, if◌then◌else◌, map, take, length, length-take,
}
use vpp_lab.Prelude.Int.{ℤ, pos, ltb_ℤ, leb_ℤ, pos_part}
use vpp_lab.Prelude.Clock.{Time, is_zero}
use vpp_lab.Prelude.Sort.{sort, IsSorted, IsWeakOrder, sort-Perm, sort-IsSorted}
use vpp_lab.Model.{Device, CommandRecord, DeviceEvent}
use vpp_lab.Repository.{
  Columns, CommandRow, AuditRow, Database, same_audit, same_device, merge_device, keep_row,
  audit_row, json_column, upsert_row, dated_device, upsert, put_audit_log, put_command_issued,
  put_command_ack, put_event,
}
use vpp_lab.Repository.Queries.{
  limit_of, newest_command, scan_command, list_commands, newest_event, scan_event, list_events,
}
use vpp_lab.Repository.Keys.{find_row, find_row-congruent, find_row-upsert_row, merged}
use vpp_lab.Repository.Tables.{
  same_audit-IsKey, same_device-IsKey, merge_device_keeps, Statement, device, issue, acknowledge,
  event, audit, execute, exec_lem, guard_lem,
}

limit_lem :
    (limit : ℤ)
    → limit_of limit
      ≡ (if ltb_ℤ (pos 0) limit && leb_ℤ limit (pos 200) then pos_part limit else 200)
unfolding limit_of
limit_lem limit = ground arith

limit_le : (limit : ℤ) → limit_of limit ≤ 200
unfolding limit_of
limit_le limit = ground arith

newest_command-IsWeakOrder : IsWeakOrder newest_command
unfolding newest_command
newest_command-IsWeakOrder = record {
  asym = λ a b h. ground arith;
  neg_trans = λ a b c h k. ground arith;
}

module _ {R : Type 0} where
  -- The device at a site and id of the table.
  abbrev pub device_at : String → String → List (Device R) → Option (Device R)
  device_at site id [] = none
  device_at site id (d ∷ ds) =
      let rest = device_at site id ds in if d.site_id == site && d.id == id then some d else rest

  device_at_lem :
      (probe : Device R) (ds : List (Device R))
      → find_row same_device probe ds ≡ device_at probe.site_id probe.id ds
  unfolding find_row same_device
  device_at_lem probe [] = refl
  device_at_lem probe (d ∷ ds) = rw (device_at_lem probe ds) refl

  -- The first time of creation: of the row that was there, or else of the new one.
  abbrev pub first_created : Time → Option (Device R) → Time
  first_created t none = t
  first_created t (some old) = old.created_at

module _ {R : Type 0} (db : Columns R) where
  -- Rows that a query by the time of the update reads: of all rows of the table, in an order in which no
  -- row is before one that was updated later, the first ones, as many as the limit says, where it is one
  -- from 1 to 200, and else 200.
  pub record IsNewest (limit : ℤ) (table : List CommandRow) (out : List (CommandRecord R))
      : Type 0 where
    pub ordered : List CommandRow
    pub all : Perm ordered table
    pub sorted : IsSorted (λ r q. ltb_ℤ q.updated_at r.updated_at) ordered
    pub read :
        out
        ≡ map (scan_command db) (
            take
              (if ltb_ℤ (pos 0) limit && leb_ℤ limit (pos 200) then pos_part limit else 200)
              ordered)
    pub bounded : length out ≤ 200

  length-map {ℓ κ} :
      {A : Type ℓ} {B : Type κ} (f : A → B) (xs : List A) → length (map f xs) ≡ length xs
  length-map f [] = refl
  length-map f (x ∷ xs) = omega (arith, length-map f xs)

  -- ListCommands fails where the server does not answer, and else reads the newest rows by their update,
  -- the newest first, at most 200 whatever the limit asked for.
  pub list_commands-IsNewest :
      (limit : ℤ) (s : Database R) (out : List (CommandRecord R))
      → list_commands db limit s ≡ some out
      → IsNewest limit s.commands out
  unfolding list_commands newest_command
  list_commands-IsNewest limit s out e =
      guard_lem db (IsNewest limit s.commands) s.reachable _ out
        (record {
          ordered = sort newest_command s.commands;
          all = sort-Perm newest_command s.commands;
          sorted = sort-IsSorted newest_command newest_command-IsWeakOrder s.commands;
          read =
              ap (λ n. map (scan_command db) (take n (sort newest_command s.commands)))
                (limit_lem limit);
          bounded = omega (
            arith,
            length-map (scan_command db) (take (limit_of limit) (sort newest_command s.commands)),
            length-take (limit_of limit) (sort newest_command s.commands),
            limit_le limit,
          );
        })
        e

  -- ListEvents returns at most 200 events.
  pub length-list_events :
      (limit : ℤ) (s : Database R) (out : List (DeviceEvent R))
      → list_events db limit s ≡ some out
      → length out ≤ 200
  unfolding list_events
  length-list_events limit s out e =
      guard_lem db (λ out. length out ≤ 200) s.reachable _ out
        (omega (
          arith,
          length-map (scan_event db) (take (limit_of limit) (sort newest_event s.events)),
          length-take (limit_of limit) (sort newest_event s.events),
          limit_le limit,
        ))
        e

  -- No statement changes or removes an audit log that is in the table.
  pub execute-audit_kept :
      (statement : Statement R) (s s' : Database R) (probe r : AuditRow)
      → find_row same_audit probe s.audit_logs ≡ some r
      → execute db statement s ≡ some s'
      → find_row same_audit probe s'.audit_logs ≡ some r
  unfolding put_command_issued put_command_ack put_event put_audit_log upsert
  execute-audit_kept (device now d) s s' probe r h e =
      guard_lem db (λ s'. find_row same_audit probe s'.audit_logs ≡ some r) s.reachable _ s' h e
  execute-audit_kept (issue now site d cmd) s s' probe r h e =
      exec_lem db (λ s'. find_row same_audit probe s'.audit_logs ≡ some r) s.reachable
        (json_column db cmd.params) _ s' (λ t. h) e
  execute-audit_kept (acknowledge now site type id ack) s s' probe r h e =
      exec_lem db (λ s'. find_row same_audit probe s'.audit_logs ≡ some r) s.reachable
        (db.jsonb "{}") _ s' (λ t. h) e
  execute-audit_kept (event now e1) s s' probe r h e =
      exec_lem db (λ s'. find_row same_audit probe s'.audit_logs ≡ some r) s.reachable
        (json_column db e1.details) _ s' (λ t. h) e
  execute-audit_kept (audit now log) s s' probe r h e =
      exec_lem db (λ s'. find_row same_audit probe s'.audit_logs ≡ some r) s.reachable
        (json_column db log.details) _ s'
        (λ t.
          find_row-upsert_row same_audit keep_row same_audit-IsKey (λ old new k c. refl)
            (audit_row db now log t) probe s.audit_logs
          ∙ kept (audit_row db now log t))
        e
    where
      kept :
          (new : AuditRow)
          → (if same_audit new probe
              then some (merged keep_row new (find_row same_audit new s.audit_logs))
              else find_row same_audit probe s.audit_logs)
            ≡ some r
      kept new = elim (Bool-cases (same_audit new probe)) [
        | inr k ↦ rw k h
        | inl k ↦ rw k (
            rw (find_row-congruent same_audit same_audit-IsKey new probe s.audit_logs k)
              (rw (h, merged) refl))
      ]

  merged-first_created :
      (now : Time) (d : Device R) (old : Option (Device R))
      → merged merge_device (dated_device db now d) old ≡ record d {
        created_at =
            first_created (db.timestamptz (if is_zero d.created_at then now else d.created_at)) old;
      }
  unfolding merge_device dated_device
  merged-first_created now d none = refl
  merged-first_created now d (some old) = refl

  -- After Upsert the table has at the device's site and id that device, with the time of creation that
  -- stood there before, or else its own, or the clock's where it has none, as the column keeps it; at every
  -- other site and id it has what it had.
  pub device_at-upsert :
      (now : Time) (d : Device R) (site id : String) (s s' : Database R)
      → upsert db now d s ≡ some s'
      → device_at site id s'.devices ≡ (
          if d.site_id == site && d.id == id
          then some (record d {
            created_at =
                first_created
                  (db.timestamptz (if is_zero d.created_at then now else d.created_at))
                  (device_at d.site_id d.id s.devices);
          })
          else device_at site id s.devices)
  unfolding upsert same_device dated_device
  device_at-upsert now d site id s s' e =
      guard_lem db
        (λ s'. device_at site id s'.devices ≡ (
          if d.site_id == site && d.id == id
          then some (record d {
            created_at =
                first_created (db.timestamptz (if is_zero d.created_at then now else d.created_at))
                  (device_at d.site_id d.id s.devices);
          })
          else device_at site id s.devices))
        s.reachable _ s' (upserted (record d { site_id = site; id = id })) e
    where
      upserted :
          (probe : Device R)
          → device_at probe.site_id probe.id
              (upsert_row same_device merge_device (dated_device db now d) s.devices)
            ≡ (if d.site_id == probe.site_id && d.id == probe.id
                then some (record d {
                  created_at =
                      first_created
                        (db.timestamptz (if is_zero d.created_at then now else d.created_at))
                        (device_at d.site_id d.id s.devices);
                })
                else device_at probe.site_id probe.id s.devices)
      upserted probe =
          sym (device_at_lem probe _)
          ∙ find_row-upsert_row same_device merge_device same_device-IsKey merge_device_keeps
              (dated_device db now d) probe s.devices
          ∙ rw (device_at_lem probe s.devices) (
              rw (device_at_lem (dated_device db now d) s.devices)
                (rw (merged-first_created now d) refl))
