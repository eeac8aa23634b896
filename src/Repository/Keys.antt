-- ===== src/Repository/Keys.antt =====
-- Rows under a primary key: what an upsert leaves at each key.
use vpp_lab.Prelude.{
  String, Bool, true, Option, none, some, List, [], ◌∷◌, ◌≡◌, refl, ap, inl, inr, ◌==◌, eq_iff,
  eq_refl, arith, Bool-cases, if◌then◌else◌,
}
use vpp_lab.Repository.{upsert_row}

module _ {A : Type 0} (same : A → A → Bool) where
  -- The row with the key of `probe`.
  unfoldable pub find_row : A → List A → Option A
  find_row probe [] = none
  find_row probe (r ∷ rows) = if same r probe then some r else find_row probe rows

  -- `same` compares keys.
  pub record IsKey : Type 0 where
    pub reflexive : (a : A) → same a a ≡ true
    pub congruent : (a b c : A) → same a b ≡ true → same a c ≡ same b c
    pub symmetric : (a b : A) → same a b ≡ same b a

module _ {A : Type 0} (same : A → A → Bool) (key : IsKey same) where
  pub find_row-congruent :
      (a b : A) (rows : List A) → same a b ≡ true → find_row same a rows ≡ find_row same b rows
  unfolding find_row
  find_row-congruent a b [] h = refl
  find_row-congruent a b (r ∷ rows) h = ground (
    arith,
    key.congruent a b r h,
    key.symmetric r a,
    key.symmetric b r,
    find_row-congruent a b rows h,
  )

module _ {A : Type 0} (merge : A → A → A) where
  -- The new row in the place of the one that was there, if there was one.
  abbrev pub merged : A → Option A → A
  merged new none = new
  merged new (some old) = merge old new

module _ {A : Type 0} (same : A → A → Bool) (merge : A → A → A) (key : IsKey same)
    (keeps : (old new : A)
      → same old new ≡ true
      → (c : A) → same (merge old new) c ≡ same old c) where
  -- After an upsert the row at the new row's key is the new row, merged with the one that was there; the
  -- row at any other key is the one that was there.
  pub find_row-upsert_row :
      (new probe : A) (rows : List A)
      → find_row same probe (upsert_row same merge new rows) ≡ (
          if same new probe
          then some (merged merge new (find_row same new rows))
          else find_row same probe rows)
  unfolding find_row upsert_row
  find_row-upsert_row new probe [] = refl
  find_row-upsert_row new probe (r ∷ rows) = elim (Bool-cases (same r new)) [
    | inl e ↦ rw (e, find_row) (ground (arith, keeps r new e probe, key.congruent r new probe e))
    | inr e ↦
        rw (e, find_row)
          (ground (
            arith,
            find_row-upsert_row new probe rows,
            key.symmetric r probe,
            key.congruent probe r new,
            key.symmetric new probe,
            key.congruent new probe r,
            key.symmetric new r,
            key.symmetric probe new,
            key.symmetric probe r,
            e,
          ))
  ]

pub key_by : {A : Type 0} (key : A → String) → IsKey (λ a b. key a == key b)
key_by key = record {
  reflexive = λ a. eq_refl (key a);
  congruent = λ a b c h. ap (λ i. i == key c) ((eq_iff (key a) (key b)).0 h);
  symmetric = λ a b. eq_sym (key a) (key b);
}
  where
    eq_sym : (s t : String) → (s == t) ≡ (t == s)
    eq_sym s t = ground (arith, eq_iff s t, eq_iff t s)
