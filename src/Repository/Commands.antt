-- ===== src/Repository/Commands.antt =====
-- The record of a command in the database: its acknowledgement may come before it is recorded.
use vpp_lab.Prelude.{
  String, Bool, true, false, Option, none, some, List, [], ◌∷◌, ◌≡◌, refl, sym, ap, ◌∙◌, inl, inr,
  ◌==◌, not, eq_refl, All, Bool-cases, if◌then◌else◌, map,
}
use vpp_lab.Prelude.Clock.{Time, zero_time}
use vpp_lab.Model.{Device, Command, CommandAck}
use vpp_lab.Repository.{
  Columns, CommandRow, Database, upsert_row, same_command, merge_issued, merge_ack, issued_row,
  ack_row, json_column, exec, put_command_issued, put_command_ack,
}

-- A row without the time of its last update.
abbrev pub undated : CommandRow → CommandRow
undated r = record r { updated_at = zero_time }

-- A row that is for another device under the id of the command.
abbrev pub is_foreign : String → String → CommandRow → Bool
is_foreign command device r = if r.command_id == command then not (r.device_id == device) else false

abbrev pub and_then {ℓ} : {A : Type ℓ} → Option A → (A → Option A) → Option A
and_then none f = none
and_then (some a) f = f a

module _ {R : Type 0} where
  abbrev pub undated_commands : Option (Database R) → Option (List CommandRow)
  undated_commands none = none
  undated_commands (some s) = some (map undated s.commands)

module _ {R : Type 0} (db : Columns R) where
  module _ (now later : Time) (site : String) (d : Device R) (cmd : Command R) (ack : CommandAck)
      (params braces : String) where
    issue_row : CommandRow
    unfolding issued_row
    issue_row = issued_row db now site d cmd params

    answer_row : CommandRow
    unfolding ack_row
    answer_row = ack_row db later site d.type d.id ack braces

    rows_commute :
        (rows : List CommandRow)
        → ack.command_id ≡ cmd.command_id
        → All (λ r. is_foreign cmd.command_id d.id r ≡ false) rows
        → map undated (
            upsert_row same_command merge_ack answer_row
              (upsert_row same_command merge_issued issue_row rows))
          ≡ map undated (
              upsert_row same_command merge_issued issue_row
                (upsert_row same_command merge_ack answer_row rows))
    unfolding upsert_row issue_row answer_row same_command merge_issued merge_ack issued_row ack_row
    rows_commute [] id h = rw id (rw eq_refl (rw eq_refl refl))
    rows_commute (r ∷ rows) id h = elim (Bool-cases (r.command_id == cmd.command_id)) [
      | inl e ↦ elim (Bool-cases (r.device_id == d.id)) [
        | inl f ↦ rw id (rw (e, upsert_row) (rw (e, upsert_row) (rw eq_refl (rw f (rw e refl)))))
        | inr f ↦ absurd (cc (rw (e, f) at h.0))
      ]
      | inr e ↦
          let e' : (r.command_id == ack.command_id) ≡ false = rw id e in
          rw (e, upsert_row)
            (rw (e', upsert_row)
              (rw (e, upsert_row) (ap (λ l. undated r ∷ l) (rows_commute rows id h.1))))
    ]

  -- Two statements on the command table, whose JSON columns may be refused, commute where they commute on
  -- the rows.
  exec_commute :
      (f g : String → List CommandRow → List CommandRow) (one two : Option String) (s : Database R)
      (reachable : Bool)
      → ((t u : String) → map undated (g u (f t s.commands)) ≡ map undated (f t (g u s.commands)))
      → undated_commands (
          and_then
            (exec reachable one (λ t. record s { commands = f t s.commands }))
            (λ s'. exec reachable two (λ u. record s' { commands = g u s'.commands })))
        ≡ undated_commands (
            and_then
              (exec reachable two (λ u. record s { commands = g u s.commands }))
              (λ s'. exec reachable one (λ t. record s' { commands = f t s'.commands })))
  unfolding exec
  exec_commute f g none none s b h = refl
  exec_commute f g none (some u) s false h = refl
  exec_commute f g none (some u) s true h = refl
  exec_commute f g (some t) none s false h = refl
  exec_commute f g (some t) none s true h = refl
  exec_commute f g (some t) (some u) s false h = refl
  exec_commute f g (some t) (some u) s true h = ap some (h t u)

  guarded {ℓ} :
      {A : Type ℓ} (b : Bool) (a : A) (f g : A → Option A)
      → f a ≡ g a
      → and_then (if b then some a else none) f ≡ and_then (if b then some a else none) g
  guarded false a f g h = refl
  guarded true a f g h = h

  -- A statement leaves the server as it was.
  reachable-exec :
      (f : String → List CommandRow → List CommandRow) (one two : Option String) (s : Database R)
      (g : String → List CommandRow → List CommandRow)
      → undated_commands (
          and_then
            (exec s.reachable one (λ t. record s { commands = f t s.commands }))
            (λ s'. exec s'.reachable two (λ u. record s' { commands = g u s'.commands })))
        ≡ undated_commands (
            and_then
              (exec s.reachable one (λ t. record s { commands = f t s.commands }))
              (λ s'. exec s.reachable two (λ u. record s' { commands = g u s'.commands })))
  unfolding exec
  reachable-exec f none two s g = refl
  reachable-exec f (some t) two s g = ap undated_commands (guarded s.reachable _ _ _ refl)

  -- PutCommandIssued and PutCommandAck of the same command of one device, in whichever order they run,
  -- leave the same command table but for the time of the last update, if the table has no record of that
  -- id for another device: no acknowledgement is lost that comes before the record.
  pub issued_acked_commute :
      (now later : Time) (site : String) (d : Device R) (cmd : Command R) (ack : CommandAck)
      (s : Database R)
      → ack.command_id ≡ cmd.command_id
      → All (λ r. is_foreign cmd.command_id d.id r ≡ false) s.commands
      → undated_commands (
          and_then
            (put_command_issued db now site d cmd s)
            (put_command_ack db later site d.type d.id ack))
        ≡ undated_commands (
            and_then
              (put_command_ack db later site d.type d.id ack s)
              (put_command_issued db now site d cmd))
  unfolding put_command_issued put_command_ack ack_row answer_row issued_row issue_row
  issued_acked_commute now later site d cmd ack s id h =
      reachable-exec issues one two s answers
      ∙ exec_commute issues answers one two s s.reachable
          (λ params braces. rows_commute now later site d cmd ack params braces s.commands id h)
      ∙ sym (reachable-exec answers two one s issues)
    where
      one : Option String
      one = json_column db cmd.params

      two : Option String
      two = db.jsonb "{}"

      issues : String → List CommandRow → List CommandRow
      issues params = upsert_row same_command merge_issued (issued_row db now site d cmd params)

      answers : String → List CommandRow → List CommandRow
      answers braces =
          upsert_row same_command merge_ack (ack_row db later site d.type d.id ack braces)
