-- ===== src/Optimizer/Prices.antt =====
-- The lowest and the highest price of the tariff bands.
use vpp_lab.Prelude.{
  true, false, some, List, [], ◌∷◌, ◌≡◌, refl, subst, ◌⊎◌, inl, inr, arith, All, Bool-cases,
}
use vpp_lab.Prelude.Float.{Float, FloatLaws}
use vpp_lab.Optimizer.{TariffBand}
use vpp_lab.Optimizer.Forecast.{low_from, low_price, high_from, high_price}

module _ {R : Type 0} where
  -- The price is that of one of the bands.
  abbrev pub IsPriceOf : R → List (TariffBand R) → Type 0
  IsPriceOf p [] = ⊥
  IsPriceOf p (b ∷ bs) = (p ≡ b.price) ⊎ IsPriceOf p bs

module _ {R : Type 0} ⦃F : Float R⦄ (laws : FloatLaws F) where
  open laws use {lt_irrefl, lt_trans}

  abbrev pub AtLeast : R → List (TariffBand R) → Type 0
  AtLeast p bs = All (λ b. F.lt b.price p ≡ false) bs

  abbrev pub AtMost : R → List (TariffBand R) → Type 0
  AtMost p bs = All (λ b. F.lt p b.price ≡ false) bs

  low_from-lt :
      (m : R) (bs : List (TariffBand R)) → (low_from m bs ≡ m) ⊎ (F.lt (low_from m bs) m ≡ true)
  unfolding low_from
  low_from-lt m [] = inl refl
  low_from-lt m (b ∷ bs) = elim (Bool-cases (F.lt b.price m)) [
    | inl e ↦ rw e (elim (low_from-lt b.price bs) [
      | inl p ↦ inr (rw p e)
      | inr l ↦ inr (lt_trans _ b.price m l e)
    ])
    | inr e ↦ rw e (low_from-lt m bs)
  ]

  -- Nothing that is not below `m` is below what the loop ends with.
  not-lt-low_from :
      (p m : R) (bs : List (TariffBand R)) → F.lt p m ≡ false → F.lt p (low_from m bs) ≡ false
  not-lt-low_from p m bs h = elim (low_from-lt m bs) [
    | inl e ↦ rw e h
    | inr l ↦ ground (arith, lt_trans p (low_from m bs) m, l)
  ]

  low_from-moves :
      (m : R) (b : TariffBand R) (bs : List (TariffBand R))
      → F.lt b.price m ≡ true
      → low_from b.price bs ≡ low_from m (b ∷ bs)
  unfolding low_from
  low_from-moves m b bs e = rw e

  low_from-stays :
      (m : R) (b : TariffBand R) (bs : List (TariffBand R))
      → F.lt b.price m ≡ false
      → low_from m bs ≡ low_from m (b ∷ bs)
  unfolding low_from
  low_from-stays m b bs e = rw e

  low_from-AtLeast : (m : R) (bs : List (TariffBand R)) → AtLeast (low_from m bs) bs
  low_from-AtLeast m [] = tt
  low_from-AtLeast m (b ∷ bs) = elim (Bool-cases (F.lt b.price m)) [
    | inl e ↦
        subst (λ r. AtLeast r (b ∷ bs)) (low_from-moves m b bs e)
          (not-lt-low_from b.price b.price bs (lt_irrefl b.price), low_from-AtLeast b.price bs)
    | inr e ↦
        subst (λ r. AtLeast r (b ∷ bs)) (low_from-stays m b bs e)
          (not-lt-low_from b.price m bs e, low_from-AtLeast m bs)
  ]

  low_from-IsPriceOf :
      (m : R) (bs : List (TariffBand R)) → (low_from m bs ≡ m) ⊎ IsPriceOf (low_from m bs) bs
  unfolding low_from
  low_from-IsPriceOf m [] = inl refl
  low_from-IsPriceOf m (b ∷ bs) = elim (Bool-cases (F.lt b.price m)) [
    | inl e ↦ inr (
        subst (λ r. IsPriceOf r (b ∷ bs)) (low_from-moves m b bs e) (low_from-IsPriceOf b.price bs))
    | inr e ↦
        subst (λ r. (r ≡ m) ⊎ IsPriceOf r (b ∷ bs)) (low_from-stays m b bs e)
          (elim (low_from-IsPriceOf m bs) [ inl p ↦ inl p | inr q ↦ inr (inr q) ])
  ]

  high_from-lt :
      (m : R) (bs : List (TariffBand R)) → (high_from m bs ≡ m) ⊎ (F.lt m (high_from m bs) ≡ true)
  unfolding high_from
  high_from-lt m [] = inl refl
  high_from-lt m (b ∷ bs) = elim (Bool-cases (F.lt m b.price)) [
    | inl e ↦ rw e (elim (high_from-lt b.price bs) [
      | inl p ↦ inr (rw p e)
      | inr l ↦ inr (lt_trans m b.price _ e l)
    ])
    | inr e ↦ rw e (high_from-lt m bs)
  ]

  not-lt-high_from :
      (p m : R) (bs : List (TariffBand R)) → F.lt m p ≡ false → F.lt (high_from m bs) p ≡ false
  not-lt-high_from p m bs h = elim (high_from-lt m bs) [
    | inl e ↦ rw e h
    | inr l ↦ ground (arith, lt_trans m (high_from m bs) p, l)
  ]

  high_from-moves :
      (m : R) (b : TariffBand R) (bs : List (TariffBand R))
      → F.lt m b.price ≡ true
      → high_from b.price bs ≡ high_from m (b ∷ bs)
  unfolding high_from
  high_from-moves m b bs e = rw e

  high_from-stays :
      (m : R) (b : TariffBand R) (bs : List (TariffBand R))
      → F.lt m b.price ≡ false
      → high_from m bs ≡ high_from m (b ∷ bs)
  unfolding high_from
  high_from-stays m b bs e = rw e

  high_from-AtMost : (m : R) (bs : List (TariffBand R)) → AtMost (high_from m bs) bs
  high_from-AtMost m [] = tt
  high_from-AtMost m (b ∷ bs) = elim (Bool-cases (F.lt m b.price)) [
    | inl e ↦
        subst (λ r. AtMost r (b ∷ bs)) (high_from-moves m b bs e)
          (not-lt-high_from b.price b.price bs (lt_irrefl b.price), high_from-AtMost b.price bs)
    | inr e ↦
        subst (λ r. AtMost r (b ∷ bs)) (high_from-stays m b bs e)
          (not-lt-high_from b.price m bs e, high_from-AtMost m bs)
  ]

  high_from-IsPriceOf :
      (m : R) (bs : List (TariffBand R)) → (high_from m bs ≡ m) ⊎ IsPriceOf (high_from m bs) bs
  unfolding high_from
  high_from-IsPriceOf m [] = inl refl
  high_from-IsPriceOf m (b ∷ bs) = elim (Bool-cases (F.lt m b.price)) [
    | inl e ↦ inr (
        subst (λ r. IsPriceOf r (b ∷ bs)) (high_from-moves m b bs e)
          (high_from-IsPriceOf b.price bs))
    | inr e ↦
        subst (λ r. (r ≡ m) ⊎ IsPriceOf r (b ∷ bs)) (high_from-stays m b bs e)
          (elim (high_from-IsPriceOf m bs) [ inl p ↦ inl p | inr q ↦ inr (inr q) ])
  ]

  -- Where there is a band, lowPrice and highPrice return each the price of a band, than which no band's
  -- price is lower, or higher.
  pub low_high_price :
      (b : TariffBand R) (bs : List (TariffBand R))
      → (low : R) × (high : R) × (low_price (b ∷ bs) ≡ some low)
        × (high_price (b ∷ bs) ≡ some high)
        × IsPriceOf low (b ∷ bs)
        × IsPriceOf high (b ∷ bs)
        × AtLeast low (b ∷ bs)
        × AtMost high (b ∷ bs)
  unfolding low_price high_price
  low_high_price b bs = (
    low_from b.price (b ∷ bs),
    high_from b.price (b ∷ bs),
    refl,
    refl,
    elim (low_from-IsPriceOf b.price (b ∷ bs)) [ inl e ↦ inl e | inr q ↦ q ],
    elim (high_from-IsPriceOf b.price (b ∷ bs)) [ inl e ↦ inl e | inr q ↦ q ],
    low_from-AtLeast b.price (b ∷ bs),
    high_from-AtMost b.price (b ∷ bs),
  )
