-- ===== src/Edge/Forwarding.antt =====
-- flushPending: what is forwarded, in what order, and where it stops.
use Prim.Native.String.{◌++◌ as append}
use vpp_lab.Prelude.{
  ℕ, zero, suc, ◌≤◌, arith, Bool, Option, some, ◌==◌, if◌then◌else◌, subst, keep, take, String,
  true, false, none, List, [], ◌∷◌, ◌++◌, ◌≡◌, refl, ap, inl, inr, Bool-cases, Option-cases,
}
use vpp_lab.Prelude.Int.{pos}
use vpp_lab.Edge.{
  Row, Forwarded, Gateway, Env, pending, message, mark_forwarded, forward, forward_all,
  flush_pending, Cache, unsent, limit_of, trim_left, trim_right, upstream_topic,
}
use vpp_lab.Edge.Rows.{Ascending, Ascending-keep}

-- The messages of some rows on top of what was forwarded before, the last first.
abbrev pub onto : (Row → Forwarded) → List Row → List Forwarded → List Forwarded
onto msg [] old = old
onto msg (r ∷ rs) old = onto msg rs (msg r ∷ old)

-- How the loop over some rows ends: all are forwarded; or the broker refuses one, at which it stops; or
-- one is forwarded and not marked as sent, at which it stops as well.
pub data Forwards (env : Env) (msg : Row → Forwarded) (old : List Forwarded) (rs : List Row)
    (new : List Forwarded) : Type 0 where
  all : new ≡ onto msg rs old → Forwards env msg old rs new
  refused :
      (sent : List Row) (r : Row) (rest : List Row)
      → rs ≡ sent ++ r ∷ rest
      → env.publish (onto msg sent old) (msg r).topic r.payload ≡ false
      → new ≡ onto msg sent old
      → Forwards env msg old rs new
  unmarked :
      (sent : List Row) (r : Row) (rest : List Row)
      → rs ≡ sent ++ r ∷ rest
      → env.publish (onto msg sent old) (msg r).topic r.payload ≡ true
      → env.marked (msg r ∷ onto msg sent old) r.id ≡ none
      → new ≡ msg r ∷ onto msg sent old
      → Forwards env msg old rs new

Forwards-cons :
    (env : Env) (msg : Row → Forwarded) (old : List Forwarded) (r : Row) (rs : List Row)
    (new : List Forwarded)
    → Forwards env msg (msg r ∷ old) rs new
    → Forwards env msg old (r ∷ rs) new
Forwards-cons env msg old r rs new (all e) = all e
Forwards-cons env msg old r rs new (refused sent s rest e p n) =
    refused (r ∷ sent) s rest (ap (λ t. r ∷ t) e) p n
Forwards-cons env msg old r rs new (unmarked sent s rest e p m n) =
    unmarked (r ∷ sent) s rest (ap (λ t. r ∷ t) e) p m n

forward_all-Forwards :
    (env : Env) (prefix : String) (rs : List Row) (g : Gateway)
    → Forwards env (message prefix) g.forwarded rs (forward_all env prefix rs g).forwarded
unfolding forward_all forward mark_forwarded message
forward_all-Forwards env prefix [] g = all refl
forward_all-Forwards env prefix (r ∷ rs) g =
    elim (Bool-cases (env.publish g.forwarded (message prefix r).topic r.payload)) [
      | inr e ↦ rw (e, forward_all, forward) (refused [] r rs refl e refl)
      | inl e ↦
          rw (e, forward_all, forward)
            (elim (Option-cases (env.marked (message prefix r ∷ g.forwarded) r.id)) [
              | inl m ↦ rw (m, mark_forwarded) (unmarked [] r rs refl e m refl)
              | inr (now, m) ↦
                  rw (m, mark_forwarded)
                    (Forwards-cons env (message prefix) g.forwarded r rs _
                      (forward_all-Forwards env prefix rs _))
            ])
    ]

-- What is sent for a row: its payload, under its topic, or under that topic behind the prefix, where the
-- prefix has more than slashes.
abbrev pub outgoing : String → Row → Forwarded
unfolding trim_left trim_right
outgoing prefix r = record {
  id = r.id;
  topic =
      if trim_right (trim_left prefix) == ""
      then r.topic
      else append (trim_right (trim_left prefix)) (append "/" (trim_left r.topic));
  payload = r.payload;
}

abbrev pub is_none {ℓ} : {A : Type ℓ} → Option A → Bool
is_none none = true
is_none (some a) = false

-- The first hundred rows that were not sent.
abbrev pub waiting : List Row → List Row
waiting rs = take 100 (keep (λ r. is_none r.sent_at) rs)

unsent_lem : (r : Row) → unsent r ≡ is_none r.sent_at
unfolding unsent
unsent_lem r = elim (Option-cases r.sent_at) [ inl e ↦ rw e refl | inr (t, e) ↦ rw e refl ]

Ascending-le : (from next : ℕ) (rs : List Row) → Ascending from rs next → from ≤ next
Ascending-le from next [] h = h
Ascending-le from next (r ∷ rs) (h, k) = omega (arith, h, Ascending-le (suc r.id) next rs k)

waiting-eq-pending : (c : Cache) → pending (pos 100) c ≡ waiting c.rows
unfolding pending limit_of
waiting-eq-pending c = ap (take 100) (same c.rows)
  where
    same : (rs : List Row) → keep unsent rs ≡ keep (λ r. is_none r.sent_at) rs
    same rs = ap (λ p. keep p rs) (λ i r. unsent_lem r i)

Ascending-take :
    (n from next : ℕ) (rs : List Row) → Ascending from rs next → Ascending from (take n rs) next
Ascending-take zero from next rs h = Ascending-le from next rs h
Ascending-take (suc n) from next [] h = h
Ascending-take (suc n) from next (r ∷ rs) (h, k) = (h, Ascending-take n (suc r.id) next rs k)

-- A flush on a client that is connected, of a cache whose ids ascend, forwards messages that were not sent,
-- those of the least ids first, each with its payload and under its topic behind the prefix: all of the
-- first hundred, or those before one that the broker refuses, or those up to one that the database does not
-- mark as sent.
pub flush_pending-Forwards :
    (env : Env) (prefix : String) (g : Gateway) (from next : ℕ)
    → Ascending from g.cache.rows next
    → Ascending from (waiting g.cache.rows) next
      × Forwards env
          (outgoing prefix)
          g.forwarded
          (waiting g.cache.rows)
          (flush_pending env true prefix g).forwarded
unfolding flush_pending message upstream_topic
flush_pending-Forwards env prefix g from next h = (
  Ascending-take 100 from next _ (Ascending-keep (λ r. is_none r.sent_at) from next g.cache.rows h),
  subst
      (λ rs. Forwards env (outgoing prefix) g.forwarded rs (forward_all env prefix rs g).forwarded)
      (waiting-eq-pending g.cache) (forward_all-Forwards env prefix (pending (pos 100) g.cache) g),
)
