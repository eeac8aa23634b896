-- ===== src/Edge/Rows.antt =====
-- The rows of the cache: their ids ascend, so an id names one row.
use vpp_lab.Prelude.{
  ℕ, zero, suc, Bool, true, List, [], ◌∷◌, ◌++◌, ◌≡◌, ◌≢◌, sym, ap, ◌∙◌, ◌⊎◌, inl, inr, arith,
  Bool-cases, keep, take, beq, beq_iff, ◌≤◌,
}
use vpp_lab.Prelude.Clock.{Time}
use vpp_lab.Edge.{Row, mark}

-- An element of a list.
abbrev pub In : {A : Type 0} → A → List A → Type 0
In x [] = ⊥
In x (y ∷ ys) = (x ≡ y) ⊎ In x ys

-- The ids ascend from `from` on, and stay below `next`.
abbrev pub Ascending : ℕ → List Row → ℕ → Type 0
Ascending from [] next = from ≤ next
Ascending from (r ∷ rs) next = (from ≤ r.id) × Ascending (suc r.id) rs next

pub In-id :
    (from next : ℕ) (rs : List Row) (r : Row) → Ascending from rs next → In r rs → from ≤ r.id
In-id from next [] r h i = absurd i
In-id from next (x ∷ xs) r (h, k) (inl e) = rw e h
In-id from next (x ∷ xs) r (h, k) (inr i) = omega (arith, h, In-id (suc x.id) next xs r k i)

-- Two rows with the same id are the same row.
pub In-same :
    (from next : ℕ) (rs : List Row) (p r : Row)
    → Ascending from rs next
    → In p rs
    → In r rs
    → p.id ≡ r.id
    → p ≡ r
In-same from next [] p r h i j e = absurd i
In-same from next (x ∷ xs) p r (h, k) (inl a) (inl b) e = a ∙ sym b
In-same from next (x ∷ xs) p r (h, k) (inl a) (inr b) e =
    absurd (omega (arith, e, ap (λ y. y.id) a, In-id (suc x.id) next xs r k b))
In-same from next (x ∷ xs) p r (h, k) (inr a) (inl b) e =
    absurd (omega (arith, e, ap (λ y. y.id) b, In-id (suc x.id) next xs p k a))
In-same from next (x ∷ xs) p r (h, k) (inr a) (inr b) e = In-same (suc x.id) next xs p r k a b e

pub Ascending-below :
    (from to next : ℕ) (rs : List Row) → to ≤ from → Ascending from rs next → Ascending to rs next
Ascending-below from to next [] l h = omega arith
Ascending-below from to next (x ∷ xs) l (h, k) = (omega arith, k)

pub Ascending-append :
    (from next : ℕ) (rs : List Row) (r : Row)
    → r.id ≡ next
    → Ascending from rs next
    → Ascending from (rs ++ r ∷ []) (suc next)
Ascending-append from next [] r e h = (omega arith, omega arith)
Ascending-append from next (x ∷ xs) r e (h, k) = (h, Ascending-append (suc x.id) next xs r e k)

pub Ascending-keep :
    (p : Row → Bool) (from next : ℕ) (rs : List Row)
    → Ascending from rs next
    → Ascending from (keep p rs) next
unfolding keep
Ascending-keep p from next [] h = h
Ascending-keep p from next (x ∷ xs) (h, k) = elim (Bool-cases (p x)) [
  | inl e ↦ rw e (h, Ascending-keep p (suc x.id) next xs k)
  | inr e ↦
      rw e (Ascending-keep p from next xs (Ascending-below (suc x.id) from next xs (omega arith) k))
]

pub Ascending-mark :
    (now : Time) (id from next : ℕ) (rs : List Row)
    → Ascending from rs next
    → Ascending from (mark now id rs) next
unfolding mark
Ascending-mark now id from next [] h = h
Ascending-mark now id from next (x ∷ xs) (h, k) = elim (Bool-cases (beq x.id id)) [
  | inl e ↦ rw e (h, Ascending-mark now id (suc x.id) next xs k)
  | inr e ↦ rw e (h, Ascending-mark now id (suc x.id) next xs k)
]

module _ {A : Type 0} where
  pub In-append : (x : A) (xs ys : List A) → In x xs → In x (xs ++ ys)
  In-append x [] ys i = absurd i
  In-append x (y ∷ xs) ys (inl e) = inl e
  In-append x (y ∷ xs) ys (inr i) = inr (In-append x xs ys i)

  pub In-keep : (p : A → Bool) (x : A) (xs : List A) → In x xs → p x ≡ true → In x (keep p xs)
  unfolding keep
  In-keep p x [] i h = absurd i
  In-keep p x (y ∷ xs) (inl e) h = rw (ap p (sym e) ∙ h) (inl e)
  In-keep p x (y ∷ xs) (inr i) h = elim (Bool-cases (p y)) [
    | inl e ↦ rw e (inr (In-keep p x xs i h))
    | inr e ↦ rw e (In-keep p x xs i h)
  ]

  pub In-of_keep : (p : A → Bool) (x : A) (xs : List A) → In x (keep p xs) → In x xs
  unfolding keep
  In-of_keep p x [] i = absurd i
  In-of_keep p x (y ∷ xs) i = elim (Bool-cases (p y)) [
    | inl e ↦ elim (rw (e, keep) at i) [ inl a ↦ inl a | inr j ↦ inr (In-of_keep p x xs j) ]
    | inr e ↦ inr (In-of_keep p x xs (rw (e, keep) at i))
  ]

  pub In-of_take : (n : ℕ) (x : A) (xs : List A) → In x (take n xs) → In x xs
  In-of_take zero x xs i = absurd i
  In-of_take (suc n) x [] i = absurd i
  In-of_take (suc n) x (y ∷ xs) (inl e) = inl e
  In-of_take (suc n) x (y ∷ xs) (inr i) = inr (In-of_take n x xs i)

-- A row with another id stays as it is.
pub In-mark :
    (now : Time) (id : ℕ) (r : Row) (rs : List Row) → In r rs → r.id ≢ id → In r (mark now id rs)
unfolding mark
In-mark now id r [] i h = absurd i
In-mark now id r (x ∷ xs) (inl e) h = elim (Bool-cases (beq x.id id)) [
  | inl b ↦ absurd (h (ap (λ y. y.id) e ∙ (beq_iff x.id id).0 b))
  | inr b ↦ inl (rw b e)
]
In-mark now id r (x ∷ xs) (inr i) h = inr (In-mark now id r xs i h)
