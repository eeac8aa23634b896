-- ===== src/Scheduler/Cooldown.antt =====
-- The cooldown: how far apart the calls for one device, action and parameters are.
use mathlib.Core.Path.{subst}
use vpp_lab.Prelude.{
  ℕ, suc, String, Bool, true, false, none, some, List, [], ◌∷◌, ◌≡◌, refl, ap, sym, ◌∙◌, ◌≤◌, ◌<◌,
  ◌⊎◌, inl, inr, arith, if◌then◌else◌, All, All-imp, All-both, Bool-cases, Option-cases, ◌==◌,
  eq_iff,
}
use vpp_lab.Prelude.Int.{pos, ltb_ℤ, ◌≤ℤ◌, -ℤ_parts, eq_ℤ_iff, eq_ℤ}
use vpp_lab.Prelude.Float.{Float}
use vpp_lab.Prelude.Dict.{Dict, lookup, insert, erase, lookup-insert, lookup-erase}
use vpp_lab.Prelude.Clock.{Time, Duration, sub_time}
use vpp_lab.Model.{Device, Policy, Value, Command}
use vpp_lab.Scheduler.Keeps.{run_loop-keeps}
use vpp_lab.Scheduler.{
  Call, Scheduler, Env, Event, new, set_policy, make_command, command_key, send, time_at, publish,
  run_loop,
}

-- A longer time is no shorter than the wait either.
sub_time_mono :
    (t u t' u' : Time) (wait : Duration)
    → t ≤ℤ t'
    → u' ≤ℤ u
    → ltb_ℤ (sub_time t u) wait ≡ false
    → ltb_ℤ (sub_time t' u') wait ≡ false
unfolding sub_time
sub_time_mono t u t' u' wait h k e = ground (arith, -ℤ_parts t u, -ℤ_parts t' u')

module _ {R : Type 0} (env : Env R) (wait : Duration) where
  open env use {clock}

  abbrev pub key_of : Call R → String
  key_of c = command_key env c.device.id c.command.action c.command.params

  -- From the m-th reading of the clock to the n-th it is no less than the wait.
  abbrev pub Waited : ℕ → ℕ → Type 0
  Waited m n = ltb_ℤ (sub_time (clock n) (clock m)) wait ≡ false

  -- A call comes the wait after an earlier call that was accepted and has the same key. Its own time is
  -- that of the reading after `read`, at which the cooldown is checked.
  abbrev pub After : Call R → Call R → Type 0
  After c b = b.accepted ≡ true → key_of b ≡ key_of c → Waited b.read (suc c.read)

  -- Every call comes after the earlier ones so; the last call stands first.
  abbrev pub Spaced : List (Call R) → Type 0
  Spaced [] = Unit
  Spaced (c ∷ cs) = All (After c) cs × Spaced cs

  -- What the scheduler remembers of an accepted call: a time no earlier, or nothing that is needed.
  Remembered : Scheduler R → Call R → Type 0
  Remembered s c =
      c.accepted ≡ true
      → ((l : ℕ) × (lookup (key_of c) s.last_sent ≡ some (clock l)) × (c.read ≤ l) × (l < s.reads))
        ⊎ Waited c.read s.reads

  record Inv (s : Scheduler R) : Type 0 where
    same_wait : s.cooldown ≡ wait
    spaced : Spaced s.calls
    earlier : All (λ c. c.read < s.reads) s.calls
    remembered : All (Remembered s) s.calls

  module _ (monotone : (m n : ℕ) → m ≤ n → clock m ≤ℤ clock n) where
    Waited-mono : (m n m' n' : ℕ) → m' ≤ m → n ≤ n' → Waited m n → Waited m' n'
    Waited-mono m n m' n' h k w =
        sub_time_mono (clock n) (clock m) (clock n') (clock m') wait (monotone n n' k)
          (monotone m' m h) w

    -- A call for the key at the n-th reading would come the wait after this one.
    Ready : ℕ → String → Call R → Type 0
    Ready n key b = b.accepted ≡ true → key_of b ≡ key → Waited b.read (suc n)

    -- The call is added to what is remembered, accepted or not.
    send_remembers :
        (n : ℕ) (key : String) (s s' : Scheduler R) (b : Call R)
        → n < s'.reads
        → s.reads ≤ s'.reads
        → ((k : String) → (key == k) ≡ false → lookup k s'.last_sent ≡ lookup k s.last_sent)
        → (key_of b ≡ key → Waited b.read s'.reads ⊎ (lookup key s'.last_sent ≡ some (clock n)))
        → b.read ≤ n
        → Remembered s b
        → Remembered s' b
    unfolding Remembered
    send_remembers n key s s' b nr grow other this le rem acc =
        elim (Bool-cases (key == key_of b)) [
          | inl e ↦
              let same : key ≡ key_of b = (eq_iff key (key_of b)).0 e in
              (elim (this (sym same)) [
                | inl w ↦ inr w
                | inr f ↦ inl (n, ap (λ k. lookup k s'.last_sent) (sym same) ∙ f, le, nr)
              ])
          | inr e ↦ (elim (rem acc) [
            | inl (l, f, h, lt) ↦ inl (l, other (key_of b) e ∙ f, h, omega arith)
            | inr w ↦ inr (Waited-mono b.read s.reads b.read s'.reads (omega arith) grow w)
          ])
        ]

    abbrev made : ℕ → Device R → Command R → Bool → Call R
    made n d cmd b = record { device = d; command = cmd; read = n; accepted = b }

    added-Inv :
        (n : ℕ) (d : Device R) (cmd : Command R) (b : Bool) (s : Scheduler R) (m : Dict Time)
        → let key = command_key env d.id cmd.action cmd.params in
          n < s.reads
          → s.cooldown ≡ wait
          → Spaced s.calls
          → All (λ b. b.read < n) s.calls
          → All (Remembered s) s.calls
          → All (Ready n key) s.calls
          → ((k : String) → (key == k) ≡ false → lookup k m ≡ lookup k s.last_sent)
          → ((b ≡ false) ⊎ (lookup key m ≡ some (clock n)))
          → Inv (record s { last_sent = m; calls = made n d cmd b ∷ s.calls })
    unfolding Remembered Ready
    added-Inv n d cmd b s m nr w sp bs rem ready other this = record {
      same_wait = w;
      spaced = (ready, sp);
      earlier = (nr, All-imp _ _ s.calls (λ c h. omega arith) bs);
      remembered = (
        λ acc. elim this [ inl e ↦ absurd (cc (acc, e)) | inr f ↦ inl (n, f, omega arith, nr) ],
        All-imp _ _ s.calls
            (λ c h acc.
              send_remembers n _ s (record s { last_sent = m; calls = made n d cmd b ∷ s.calls }) c
                nr (omega arith) other
                (λ e.
                  inl (Waited-mono c.read (suc n) c.read s.reads (omega arith) nr (h.1.1 acc e)))
                (omega (arith, h.0)) h.1.0 acc)
            (All-both _ _ s.calls bs (All-both _ _ s.calls rem ready)),
      );
    }

    send-Inv :
        (n : ℕ) (d : Device R) (cmd : Command R) (s : Scheduler R)
        → n < s.reads
        → s.cooldown ≡ wait
        → Spaced s.calls
        → All (λ b. b.read < n) s.calls
        → All (Remembered s) s.calls
        → All (Ready n (command_key env d.id cmd.action cmd.params)) s.calls
        → Inv (send env n (command_key env d.id cmd.action cmd.params) d cmd s).1
    unfolding send
    send-Inv n d cmd s nr w sp bs rem ready =
        elim (Bool-cases (env.commander s.calls s.site_id d cmd)) [
          | inl e ↦
              rw (e, send)
                (added-Inv n d cmd true s _ nr w sp bs rem ready insert_other (inr insert_this))
          | inr e ↦
              rw (e, send)
                (rw forgotten
                  (added-Inv n d cmd false s _ nr w sp bs rem ready erase_other (inl refl)))
        ]
      where
        key : String
        key = command_key env d.id cmd.action cmd.params

        insert_this : lookup key (insert key (clock n) s.last_sent) ≡ some (clock n)
        insert_this = ground (arith, lookup-insert key key (clock n) s.last_sent, eq_iff key key)

        insert_other :
            (k : String)
            → (key == k) ≡ false
            → lookup k (insert key (clock n) s.last_sent) ≡ lookup k s.last_sent
        insert_other k e = lookup-insert key k (clock n) s.last_sent ∙ rw e

        erase_other :
            (k : String)
            → (key == k) ≡ false
            → lookup k (erase key (insert key (clock n) s.last_sent)) ≡ lookup k s.last_sent
        erase_other k e = lookup-erase key k _ ∙ rw e (insert_other k e)

        forgotten : eq_ℤ (time_at key (insert key (clock n) s.last_sent)) (clock n) ≡ true
        forgotten =
            (eq_ℤ_iff (time_at key (insert key (clock n) s.last_sent)) (clock n)).1
              (rw (insert_this, time_at))

    -- Reading the clock changes nothing that the invariant speaks of.
    waiting-Inv : (n : ℕ) (s : Scheduler R) → s.reads ≤ n → Inv s → Inv (record s { reads = n })
    unfolding Remembered
    waiting-Inv n s le h = record {
      same_wait = h.same_wait;
      spaced = h.spaced;
      earlier = All-imp _ _ s.calls (λ c k. omega arith) h.earlier;
      remembered =
          All-imp _ _ s.calls
            (λ c rem acc. elim (rem acc) [
              | inl (l, f, k, lt) ↦ inl (l, f, k, omega arith)
              | inr w ↦ inr (Waited-mono c.read s.reads c.read n (omega arith) le w)
            ])
            h.remembered;
    }

    -- A key that the map lacks, or whose time is over the wait ago, is ready.
    Ready-none :
        (key : String) (s : Scheduler R) (c : Call R)
        → lookup key s.last_sent ≡ none
        → Remembered s c
        → Ready s.reads key c
    unfolding Remembered Ready
    Ready-none key s c e rem acc same = elim (rem acc) [
      | inl (l, f, k, lt) ↦ absurd (cc (ap (λ k. lookup k s.last_sent) same, f, e))
      | inr w ↦ Waited-mono c.read s.reads c.read (suc s.reads) (omega arith) (omega arith) w
    ]

    Ready-some :
        (key : String) (s : Scheduler R) (c : Call R) (last : Time)
        → lookup key s.last_sent ≡ some last
        → ltb_ℤ (sub_time (clock (suc s.reads)) last) wait ≡ false
        → Remembered s c
        → Ready s.reads key c
    unfolding Remembered Ready
    Ready-some key s c last e checked rem acc same = elim (rem acc) [
      | inl (l, f, k, lt) ↦
          let q : last ≡ clock l = cc (ap (λ k. lookup k s.last_sent) same, f, e) in
          Waited-mono l (suc s.reads) c.read (suc s.reads) k (omega arith)
            (subst (λ t. ltb_ℤ (sub_time (clock (suc s.reads)) t) wait ≡ false) q checked)
      | inr w ↦ Waited-mono c.read s.reads c.read (suc s.reads) (omega arith) (omega arith) w
    ]

    -- A publish keeps the invariant, whichever of its branches it takes.
    publish-Inv :
        (d : Device R) (action reason : String) (params : Dict (Value R)) (s : Scheduler R)
        → Inv s
        → Inv (publish env d action reason params s).1
    unfolding publish make_command
    publish-Inv d action reason params s h = elim (Option-cases (lookup key s.last_sent)) [
      | inl e ↦
          rw (e, publish)
            (send_at (suc s.reads) (omega arith)
              (All-imp _ _ s.calls (λ c rem. Ready-none key s c e rem) h.remembered))
      | inr (last, e) ↦
          rw (e, publish)
            (check last e (ltb_ℤ (sub_time (clock (suc s.reads)) last) s.cooldown) refl)
    ]
      where
        key : String
        key = command_key env d.id action params

        cmd : Command R
        cmd = make_command (clock s.reads) d action reason params

        send_at :
            (n : ℕ)
            → s.reads < n
            → All (Ready s.reads key) s.calls
            → Inv (send env s.reads key d cmd (record s { reads = n })).1
        send_at n lt ready =
            send-Inv s.reads d cmd (record s { reads = n }) lt h.same_wait h.spaced h.earlier
              (waiting-Inv n s (omega arith) h).remembered ready

        check :
            (last : Time)
            → lookup key s.last_sent ≡ some last
            → (b : Bool) → ltb_ℤ (sub_time (clock (suc s.reads)) last) s.cooldown ≡ b
            → Inv
                (if b
                  then (false, record s { reads = suc (suc s.reads) })
                  else send env s.reads key d cmd (record s { reads = suc (suc s.reads) })).1
        check last e true f = waiting-Inv (suc (suc s.reads)) s (omega arith) h
        check last e false f = send_at (suc (suc s.reads)) (omega arith) (
            All-imp _ _ s.calls
              (λ c rem.
                Ready-some key s c last e
                  (subst (λ w. ltb_ℤ (sub_time (clock (suc s.reads)) last) w ≡ false) h.same_wait f)
                  rem)
              h.remembered)

module _ {R : Type 0} ⦃F : Float R⦄ (env : Env R)
    (monotone : (m n : ℕ) → m ≤ n → env.clock m ≤ℤ env.clock n) where
  -- Through any ticks and changes of the policy, on a clock that does not go back, every call that the
  -- scheduler makes comes at least 30 seconds after each earlier call that was accepted and has the same
  -- key, which is made of the device, the action and the parameters. The 30 seconds are from the earlier
  -- call's reading of the clock to the one after the later call's, at which the cooldown is checked.
  pub run_loop-Spaced :
      (site : String) (p : Policy R) (es : List (Event R))
      → Spaced env (pos 30000000000) (run_loop env es (new site p)).calls
  unfolding new set_policy Remembered
  run_loop-Spaced site p es =
      (run_loop-keeps env (Inv env (pos 30000000000)) (publish-Inv env (pos 30000000000) monotone)
        (λ p s h. record {
          same_wait = h.same_wait;
          spaced = h.spaced;
          earlier = h.earlier;
          remembered = h.remembered;
        })
        es (new site p)
        (record { same_wait = refl; spaced = tt; earlier = tt; remembered = tt })).spaced
