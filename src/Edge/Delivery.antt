-- ===== src/Edge/Delivery.antt =====
-- No captured message is lost: it stays in the cache until the upstream broker has it.
use vpp_lab.Prelude.{
  String, Bool, true, false, List, [], ◌∷◌, ◌≡◌, refl, sym, ap, ◌⊎◌, inl, inr, Bool-cases,
  Option-cases, not, beq, beq_iff,
}
use vpp_lab.Prelude.Int.{pos}
use vpp_lab.Prelude.Clock.{Time, Duration}
use vpp_lab.Topic.{parse}
use vpp_lab.Edge.{
  Row, Cache, Forwarded, Gateway, Env, unsent, put, mark_sent, sent_before, delete_sent_before,
  pending, limit_of, message, mark_forwarded, forward, forward_all, flush_pending, capture,
  clean_sent, Event, arrived, flushed, cleaned, run,
}
use vpp_lab.Edge.Rows.{
  In, In-same, In-append, In-keep, In-of_keep, In-of_take, In-mark, Ascending, Ascending-append,
  Ascending-keep, Ascending-mark,
}

-- A row is in the cache as it was, or its message has been forwarded.
abbrev pub Held : String → Row → Gateway → Type 0
Held prefix r g = In r g.cache.rows ⊎ In (message prefix r) g.forwarded

-- The ids of the rows ascend and are below the next one.
abbrev pub IsOrdered : Gateway → Type 0
IsOrdered g = Ascending 0 g.cache.rows g.cache.next_id

module _ (env : Env) (prefix : String) where
  mark_forwarded-Held :
      (p r : Row) (g : Gateway)
      → (p.id ≡ r.id → p ≡ r)
      → Held prefix r g
      → Held prefix r
          (mark_forwarded env p.id (record g { forwarded = message prefix p ∷ g.forwarded })).1
  unfolding mark_forwarded mark_sent
  mark_forwarded-Held p r g same h =
      elim (Option-cases (env.marked (message prefix p ∷ g.forwarded) p.id)) [
        | inl e ↦ rw (e, mark_forwarded) (elim h [ inl i ↦ inl i | inr i ↦ inr (inr i) ])
        | inr (now, e) ↦
            rw (e, mark_forwarded)
              (elim h [
                | inr i ↦ inr (inr i)
                | inl i ↦ elim (Bool-cases (beq p.id r.id)) [
                  | inl b ↦ inr (inl (ap (message prefix) (sym (same ((beq_iff p.id r.id).0 b)))))
                  | inr b ↦ inl (In-mark now p.id r g.cache.rows i (λ q. differ b q))
                ]
              ])
      ]
    where
      differ : beq p.id r.id ≡ false → r.id ≡ p.id → ⊥
      differ b q = absurd (cc (b, (beq_iff p.id r.id).1 (sym q)))

  forward-Held :
      (p r : Row) (g : Gateway)
      → (p.id ≡ r.id → p ≡ r)
      → Held prefix r g
      → Held prefix r (forward env prefix p g).1
  unfolding forward
  forward-Held p r g same h =
      elim (Bool-cases
        (env.publish g.forwarded (message prefix p).topic (message prefix p).payload)) [
          | inl e ↦ rw (e, forward) (mark_forwarded-Held p r g same h)
          | inr e ↦ rw (e, forward) h
        ]

  forward_all-Held :
      (ps : List Row) (r : Row) (g : Gateway)
      → ((p : Row) → In p ps → p.id ≡ r.id → p ≡ r)
      → Held prefix r g
      → Held prefix r (forward_all env prefix ps g)
  unfolding forward_all
  forward_all-Held [] r g same h = h
  forward_all-Held (p ∷ ps) r g same h = elim (Bool-cases (forward env prefix p g).0) [
    | inl e ↦
        rw (e, forward_all)
          (forward_all-Held ps r _ (λ q i. same q (inr i))
            (forward-Held p r g (same p (inl refl)) h))
    | inr e ↦ rw (e, forward_all) (forward-Held p r g (same p (inl refl)) h)
  ]

  -- What has been forwarded stays so.
  forward-grows :
      (m : Forwarded) (p : Row) (g : Gateway)
      → In m g.forwarded
      → In m (forward env prefix p g).1.forwarded
  unfolding forward mark_forwarded
  forward-grows m p g i =
      elim (Bool-cases
        (env.publish g.forwarded (message prefix p).topic (message prefix p).payload)) [
          | inr e ↦ rw (e, forward) i
          | inl e ↦
              rw (e, forward)
                (elim (Option-cases (env.marked (message prefix p ∷ g.forwarded) p.id)) [
                  | inl n ↦ rw (n, mark_forwarded) (inr i)
                  | inr (now, n) ↦ rw (n, mark_forwarded) (inr i)
                ])
        ]

  forward_all-grows :
      (m : Forwarded) (ps : List Row) (g : Gateway)
      → In m g.forwarded
      → In m (forward_all env prefix ps g).forwarded
  unfolding forward_all
  forward_all-grows m [] g i = i
  forward_all-grows m (p ∷ ps) g i = elim (Bool-cases (forward env prefix p g).0) [
    | inl e ↦ rw (e, forward_all) (forward_all-grows m ps _ (forward-grows m p g i))
    | inr e ↦ rw (e, forward_all) (forward-grows m p g i)
  ]

  forward-IsOrdered : (p : Row) (g : Gateway) → IsOrdered g → IsOrdered (forward env prefix p g).1
  unfolding forward mark_forwarded mark_sent
  forward-IsOrdered p g o =
      elim (Bool-cases
        (env.publish g.forwarded (message prefix p).topic (message prefix p).payload)) [
          | inr e ↦ rw (e, forward) o
          | inl e ↦
              rw (e, forward)
                (elim (Option-cases (env.marked (message prefix p ∷ g.forwarded) p.id)) [
                  | inl n ↦ rw (n, mark_forwarded) o
                  | inr (now, n) ↦
                      rw (n, mark_forwarded)
                        (Ascending-mark now p.id 0 g.cache.next_id g.cache.rows o)
                ])
        ]

  forward_all-IsOrdered :
      (ps : List Row) (g : Gateway) → IsOrdered g → IsOrdered (forward_all env prefix ps g)
  unfolding forward_all
  forward_all-IsOrdered [] g o = o
  forward_all-IsOrdered (p ∷ ps) g o = elim (Bool-cases (forward env prefix p g).0) [
    | inl e ↦ rw (e, forward_all) (forward_all-IsOrdered ps _ (forward-IsOrdered p g o))
    | inr e ↦ rw (e, forward_all) (forward-IsOrdered p g o)
  ]

  flush_pending-Held :
      (connected : Bool) (r : Row) (g : Gateway)
      → IsOrdered g
      → Held prefix r g
      → Held prefix r (flush_pending env connected prefix g)
  unfolding flush_pending pending
  flush_pending-Held false r g o h = h
  flush_pending-Held true r g o (inr i) = inr (forward_all-grows _ (pending (pos 100) g.cache) g i)
  flush_pending-Held true r g o (inl i) =
      forward_all-Held (pending (pos 100) g.cache) r g
        (λ p j.
          In-same 0 g.cache.next_id g.cache.rows p r o
            (In-of_keep unsent p g.cache.rows (In-of_take (limit_of (pos 100)) p _ j)) i)
        (inl i)

  flush_pending-IsOrdered :
      (connected : Bool) (g : Gateway)
      → IsOrdered g
      → IsOrdered (flush_pending env connected prefix g)
  unfolding flush_pending
  flush_pending-IsOrdered false g o = o
  flush_pending-IsOrdered true g o = forward_all-IsOrdered (pending (pos 100) g.cache) g o

module _ (captures : String → Bool) where
  capture-cases :
      (now : Time) (topic payload : String) (c : Cache)
      → (capture captures now topic payload c ≡ c)
        ⊎ (capture captures now topic payload c ≡ put now topic payload c)
  unfolding capture
  capture-cases now topic payload c = elim (Option-cases (parse topic)) [
    | inl e ↦ inl (rw (e, capture) refl)
    | inr (p, e) ↦ elim (Bool-cases (captures p.kind)) [
      | inl k ↦ inr (rw (e, capture) (rw k refl))
      | inr k ↦ inl (rw (e, capture) (rw k refl))
    ]
  ]

  capture-In :
      (now : Time) (topic payload : String) (c : Cache) (r : Row)
      → In r c.rows
      → In r (capture captures now topic payload c).rows
  unfolding put
  capture-In now topic payload c r i = elim (capture-cases now topic payload c) [
    | inl e ↦ rw e i
    | inr e ↦ rw e (In-append r c.rows _ i)
  ]

  capture-Ascending :
      (now : Time) (topic payload : String) (c : Cache)
      → Ascending 0 c.rows c.next_id
      → Ascending 0
          (capture captures now topic payload c).rows
          (capture captures now topic payload c).next_id
  unfolding put
  capture-Ascending now topic payload c o = elim (capture-cases now topic payload c) [
    | inl e ↦ rw e o
    | inr e ↦ rw e (Ascending-append 0 c.next_id c.rows _ refl o)
  ]

unsent-kept : (cutoff : Time) (r : Row) → unsent r ≡ true → not (sent_before cutoff r) ≡ true
unfolding unsent sent_before
unsent-kept cutoff r h = elim (Option-cases r.sent_at) [
  | inl e ↦ rw (e, sent_before) refl
  | inr (t, e) ↦ absurd (cc (rw (e, unsent) at h))
]

clean_sent-In :
    (now : Time) (retention : Duration) (c : Cache) (r : Row)
    → unsent r ≡ true
    → In r c.rows
    → In r (clean_sent now retention c).rows
unfolding clean_sent delete_sent_before
clean_sent-In now retention c r u i = In-keep _ r c.rows i (unsent-kept _ r u)

clean_sent-Ascending :
    (now : Time) (retention : Duration) (c : Cache)
    → Ascending 0 c.rows c.next_id
    → Ascending 0 (clean_sent now retention c).rows (clean_sent now retention c).next_id
unfolding clean_sent delete_sent_before
clean_sent-Ascending now retention c o = Ascending-keep _ 0 c.next_id c.rows o

-- Whatever messages arrive, flushes run (accepted or not, marked or not) and cleanings happen, an unsent
-- row of a cache whose ids ascend is afterwards still in the cache, unsent, or its message has been
-- forwarded upstream.
pub run-Held :
    (env : Env) (captures : String → Bool) (prefix : String) (retention : Duration)
    (es : List Event) (g : Gateway) (r : Row)
    → IsOrdered g
    → unsent r ≡ true
    → Held prefix r g
    → Held prefix r (run env captures prefix retention es g)
unfolding run
run-Held env captures prefix retention [] g r o u h = h
run-Held env captures prefix retention (arrived now topic payload ∷ es) g r o u h =
    run-Held env captures prefix retention es _ r
      (capture-Ascending captures now topic payload g.cache o) u
      (elim h [ inl i ↦ inl (capture-In captures now topic payload g.cache r i) | inr i ↦ inr i ])
run-Held env captures prefix retention (flushed connected ∷ es) g r o u h =
    run-Held env captures prefix retention es _ r (flush_pending-IsOrdered env prefix connected g o)
      u (flush_pending-Held env prefix connected r g o h)
run-Held env captures prefix retention (cleaned now ∷ es) g r o u h =
    run-Held env captures prefix retention es _ r (clean_sent-Ascending now retention g.cache o) u
      (elim h [ inl i ↦ inl (clean_sent-In now retention g.cache r u i) | inr i ↦ inr i ])
