-- ===== src/Prelude/Sort.antt =====
-- Sorting with a test `less`, as sort.Slice and ORDER BY sort, by insertion. They do not promise in
-- which order they leave elements that compare equal; here it is the order that they stood in.
use mathlib.Core.Path.{◌≡◌}
use mathlib.Core.Bool.{Bool, true, false}
use mathlib.Core.Logic.{inl, inr}
use mathlib.Core.List.{List, [], ◌∷◌, Perm}
use mathlib.Core.List.Perm
use Prim.Native.Nat.{ℕ, zero, suc}
use vpp_lab.Prelude.Tests.{if◌then◌else◌, Bool-cases}
use vpp_lab.Prelude.Lists.{All, All-imp, take}

module _ {ℓ} {A : Type ℓ} (less : A → A → Bool) where
  unfoldable pub insert_sorted : A → List A → List A
  insert_sorted x [] = x ∷ []
  insert_sorted x (y ∷ ys) =
      let rest = insert_sorted x ys in if less y x then y ∷ rest else x ∷ y ∷ ys

  unfoldable pub sort : List A → List A
  unfolding insert_sorted
  sort [] = []
  sort (x ∷ xs) = insert_sorted x (sort xs)

  -- No element comes before one that is less.
  abbrev pub IsSorted : List A → Type ℓ
  IsSorted [] = Unit
  IsSorted (x ∷ xs) = All (λ y. less y x ≡ false) xs × IsSorted xs

  -- A strict order in which no two incomparable elements are told apart by a third.
  pub record IsWeakOrder : Type ℓ where
    pub asym : (a b : A) → less a b ≡ true → less b a ≡ false
    pub neg_trans : (a b c : A) → less a b ≡ false → less b c ≡ false → less a c ≡ false

  insert_sorted-Perm : (x : A) (ys : List A) → Perm (insert_sorted x ys) (x ∷ ys)
  unfolding insert_sorted
  insert_sorted-Perm x [] = Perm.rfl
  insert_sorted-Perm x (y ∷ ys) = elim (Bool-cases (less y x)) [
    | inl e ↦ rw e (Perm.trans (Perm.cons y (insert_sorted-Perm x ys)) (Perm.swap x y ys))
    | inr e ↦ rw e Perm.rfl
  ]

  pub sort-Perm : (xs : List A) → Perm (sort xs) xs
  unfolding sort
  sort-Perm [] = Perm.rfl
  sort-Perm (x ∷ xs) = Perm.trans (insert_sorted-Perm x (sort xs)) (Perm.cons x (sort-Perm xs))

  insert_sorted-All {κ} :
      (P : A → Type κ) (x : A) (ys : List A) → P x → All P ys → All P (insert_sorted x ys)
  unfolding insert_sorted
  insert_sorted-All P x [] p h = (p, tt)
  insert_sorted-All P x (y ∷ ys) p h = elim (Bool-cases (less y x)) [
    | inl e ↦ rw e (h.0, insert_sorted-All P x ys p h.1)
    | inr e ↦ rw e (p, h)
  ]

  insert_sorted-IsSorted :
      (o : IsWeakOrder) (x : A) (ys : List A) → IsSorted ys → IsSorted (insert_sorted x ys)
  unfolding insert_sorted
  insert_sorted-IsSorted o x [] h = (tt, tt)
  insert_sorted-IsSorted o x (y ∷ ys) h = elim (Bool-cases (less y x)) [
    | inl e ↦ rw e (
      insert_sorted-All (λ z. less z y ≡ false) x ys (o.asym y x e) h.0,
      insert_sorted-IsSorted o x ys h.1,
    )
    | inr e ↦ rw e (
      (
        e,
        All-imp (λ z. less z y ≡ false) (λ z. less z x ≡ false) ys (λ z k. o.neg_trans z y x k e)
            h.0,
      ),
      h,
    )
  ]

  pub sort-IsSorted : (o : IsWeakOrder) (xs : List A) → IsSorted (sort xs)
  unfolding sort
  sort-IsSorted o [] = tt
  sort-IsSorted o (x ∷ xs) = insert_sorted-IsSorted o x (sort xs) (sort-IsSorted o xs)

  pub IsSorted-take : (n : ℕ) (xs : List A) → IsSorted xs → IsSorted (take n xs)
  IsSorted-take zero xs h = tt
  IsSorted-take (suc n) [] h = tt
  IsSorted-take (suc n) (x ∷ xs) h = (take_all n xs h.0, IsSorted-take n xs h.1)
    where
      take_all :
          (n : ℕ) (ys : List A)
          → All (λ y. less y x ≡ false) ys
          → All (λ y. less y x ≡ false) (take n ys)
      take_all zero ys h = tt
      take_all (suc n) [] h = tt
      take_all (suc n) (y ∷ ys) h = (h.0, take_all n ys h.1)
