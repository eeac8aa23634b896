-- ===== src/State/Recent.antt =====
-- The recent commands and events: at most 200, the newest first, and what an acknowledgement changes.
use vpp_lab.Prelude.{
  ℕ, zero, suc, String, true, false, List, [], ◌∷◌, ◌++◌, ◌≡◌, refl, ap, ◌≤◌, inl, inr, ◌∙◌, arith,
  length, take, length-take, All, Bool-cases, some, if◌then◌else◌, eq_iff,
}
use vpp_lab.Prelude.Clock.{Time}
use vpp_lab.Model.{Device, Command, CommandAck, CommandRecord, DeviceEvent}
use vpp_lab.State.{
  Store, cut, kept, put_command_issued, set_commands, put_command_ack, put_event, set_events, acked,
  is_for, ack_first,
}

module _ {ℓ} {A : Type ℓ} where
  take_all : (n : ℕ) (xs : List A) → length xs ≤ n → take n xs ≡ xs
  take_all zero [] h = refl
  take_all zero (x ∷ xs) h = absurd (omega arith)
  take_all (suc n) [] h = refl
  take_all (suc n) (x ∷ xs) h = ap (λ ys. x ∷ ys) (take_all n xs (omega arith))

  take-take_tail : (n : ℕ) (x : A) (xs : List A) → take n (x ∷ take n xs) ≡ take n (x ∷ xs)
  take-take_tail zero x xs = refl
  take-take_tail (suc n) x [] = refl
  take-take_tail (suc n) x (y ∷ ys) = ap (λ zs. x ∷ zs) (take-take_suc n (y ∷ ys))
    where
      take-take_suc : (n : ℕ) (ys : List A) → take n (take (suc n) ys) ≡ take n ys
      take-take_suc zero ys = refl
      take-take_suc (suc n) [] = refl
      take-take_suc (suc n) (y ∷ ys) = ap (λ zs. y ∷ zs) (take-take_suc n ys)

  pub cut-eq-take : (n : ℕ) (xs : List A) → cut n xs ≡ take n xs
  unfolding cut
  cut-eq-take n xs = ground (arith, take_all n xs)

  length-cut-le : (n : ℕ) (xs : List A) → length (cut n xs) ≤ n
  length-cut-le n xs = rw cut-eq-take (omega (arith, length-take n xs))

-- The operations that write to the two lists.
pub data Write (R : Type 0) : Type 0 where
  issue : Time → String → Device R → Command R → Write R
  acknowledge : Time → String → CommandAck → Write R
  event : DeviceEvent R → Write R
  load_commands : List (CommandRecord R) → Write R
  load_events : List (DeviceEvent R) → Write R

module _ {R : Type 0} where
  pub record IsBounded (s : Store R) : Type 0 where
    pub commands_bounded : length s.commands ≤ kept
    pub events_bounded : length s.events ≤ kept

  abbrev pub write : Write R → Store R → Store R
  write (issue now site d cmd) s = put_command_issued now site d cmd s
  write (acknowledge now id ack) s = put_command_ack now id ack s
  write (event e) s = put_event e s
  write (load_commands cs) s = set_commands cs s
  write (load_events es) s = set_events es s

  length-ack_first :
      (now : Time) (id : String) (ack : CommandAck) (cs : List (CommandRecord R))
      → length (ack_first now id ack cs) ≡ length cs
  unfolding ack_first
  length-ack_first now id ack [] = refl
  length-ack_first now id ack (c ∷ cs) = elim (Bool-cases (is_for id ack c)) [
    | inl e ↦ rw (e, ack_first)
    | inr e ↦ rw (e, ack_first) (ap suc (length-ack_first now id ack cs))
  ]

  -- Every operation leaves at most 200 commands and at most 200 events, if there were no more before.
  pub write-IsBounded : (w : Write R) (s : Store R) → IsBounded s → IsBounded (write w s)
  unfolding put_command_issued put_command_ack put_event set_commands set_events
  write-IsBounded (issue now site d cmd) s h = record {
    commands_bounded = length-cut-le kept _;
    events_bounded = h.events_bounded;
  }
  write-IsBounded (acknowledge now id ack) s h = record {
    commands_bounded = rw length-ack_first h.commands_bounded;
    events_bounded = h.events_bounded;
  }
  write-IsBounded (event e) s h = record {
    commands_bounded = h.commands_bounded;
    events_bounded = length-cut-le kept _;
  }
  write-IsBounded (load_commands cs) s h = record {
    commands_bounded = length-cut-le kept cs;
    events_bounded = h.events_bounded;
  }
  write-IsBounded (load_events es) s h = record {
    commands_bounded = h.commands_bounded;
    events_bounded = length-cut-le kept es;
  }

  -- A history of events, each put into the store in turn.
  abbrev pub put_events : List (DeviceEvent R) → Store R → Store R
  put_events [] s = s
  put_events (e ∷ es) s = put_events es (put_event e s)

  -- The whole history on top of what was there, the last event first.
  abbrev pub onto : List (DeviceEvent R) → List (DeviceEvent R) → List (DeviceEvent R)
  onto [] old = old
  onto (e ∷ es) old = onto es (e ∷ old)

  -- Where the store held the newest 200 of a list of events, then after any history it holds the newest
  -- 200 of that list with the whole history on top.
  pub events-put_events :
      (es : List (DeviceEvent R)) (s : Store R) (old : List (DeviceEvent R))
      → s.events ≡ take kept old
      → (put_events es s).events ≡ take kept (onto es old)
  events-put_events [] s old h = h
  events-put_events (e ∷ es) s old h = events-put_events es (put_event e s) (e ∷ old) (
      unfold put_event in
      (cut-eq-take kept _ ∙ ap (λ l. take kept (e ∷ l)) h ∙ take-take_tail kept e old))

  -- A record is for an acknowledgement of a device if it has that device and the command acknowledged.
  abbrev pub Concerns : String → CommandAck → CommandRecord R → Type 0
  Concerns id ack c = (c.device_id ≡ id) × (c.command.command_id ≡ ack.command_id)

  is_for-Concerns :
      (id : String) (ack : CommandAck) (c : CommandRecord R)
      → is_for id ack c ≡ true
      → Concerns id ack c
  unfolding is_for
  is_for-Concerns id ack c h = (
    ground (arith, eq_iff c.device_id id),
    ground (arith, eq_iff c.device_id id, eq_iff c.command.command_id ack.command_id),
  )

  not-Concerns :
      (id : String) (ack : CommandAck) (c : CommandRecord R)
      → is_for id ack c ≡ false
      → ¬ Concerns id ack c
  unfolding is_for
  not-Concerns id ack c h (d, e) =
      absurd (ground (arith, eq_iff c.device_id id, eq_iff c.command.command_id ack.command_id))

  -- The record with its acknowledgement: "acked" where that is ok, else "failed".
  abbrev pub marked : Time → CommandAck → CommandRecord R → CommandRecord R
  marked now ack c = record c {
    ack = some ack;
    status = if ack.ok then "acked" else "failed";
    updated_at = now;
  }

  -- What an acknowledgement does to the records: nothing where none is for it; else the first that is
  -- gets it, and the ones before and after are left as they were.
  pub data Acknowledged (now : Time) (id : String) (ack : CommandAck)
      (cs cs' : List (CommandRecord R)) : Type 0 where
    unknown : All (λ c. ¬ Concerns id ack c) cs → cs' ≡ cs → Acknowledged now id ack cs cs'
    found :
        (before : List (CommandRecord R)) (c : CommandRecord R) (rest : List (CommandRecord R))
        → All (λ c. ¬ Concerns id ack c) before
        → Concerns id ack c
        → cs ≡ before ++ c ∷ rest
        → cs' ≡ before ++ marked now ack c ∷ rest
        → Acknowledged now id ack cs cs'

  Acknowledged-cons :
      (now : Time) (id : String) (ack : CommandAck) (d : CommandRecord R)
      {cs cs' : List (CommandRecord R)}
      → ¬ Concerns id ack d
      → Acknowledged now id ack cs cs'
      → Acknowledged now id ack (d ∷ cs) (d ∷ cs')
  Acknowledged-cons now id ack d e (unknown a p) = unknown (e, a) (ap (λ l. d ∷ l) p)
  Acknowledged-cons now id ack d e (found before c rest a y p q) =
      found (d ∷ before) c rest (e, a) y (ap (λ l. d ∷ l) p) (ap (λ l. d ∷ l) q)

  ack_first-Acknowledged :
      (now : Time) (id : String) (ack : CommandAck) (cs : List (CommandRecord R))
      → Acknowledged now id ack cs (ack_first now id ack cs)
  unfolding ack_first acked
  ack_first-Acknowledged now id ack [] = unknown tt refl
  ack_first-Acknowledged now id ack (c ∷ cs) = elim (Bool-cases (is_for id ack c)) [
    | inl e ↦ rw (e, ack_first) (found [] c cs tt (is_for-Concerns id ack c e) refl refl)
    | inr e ↦
        rw (e, ack_first)
          (Acknowledged-cons now id ack c (not-Concerns id ack c e)
            (ack_first-Acknowledged now id ack cs))
  ]

  -- An acknowledgement of a device's command marks the first record that has this device and command as
  -- acked where it is ok, and failed where not, and changes no other record.
  pub put_command_ack-Acknowledged :
      (now : Time) (id : String) (ack : CommandAck) (s : Store R)
      → Acknowledged now id ack s.commands (put_command_ack now id ack s).commands
  unfolding put_command_ack
  put_command_ack-Acknowledged now id ack s = ack_first-Acknowledged now id ack s.commands
