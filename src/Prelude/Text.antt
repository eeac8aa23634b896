-- ===== src/Prelude/Text.antt =====
-- Go strings as native texts: their order, strings.Split and strings.Join.
use Prim.Native.Nat.{ℕ, zero, suc, ◌/◌, ◌%◌, Ordering}
use Prim.Native.Char.{Char, code}
use Prim.Native.String.{String, compare, ◌++◌}
use mathlib.Core.Path.{◌≡◌, refl, sym, ap, ap₂, ◌∙◌}
use mathlib.Core.Bool.{Bool, true, false}
use mathlib.Core.Logic.{inl, inr}
use mathlib.Core.List.{List, [], ◌∷◌}
use text.Mathlib.TextEquality.{Char-path}
use text.Mathlib.TextLemmas.{nil-append, cons-append}
use vpp_lab.Prelude.Int.{ℤ, pos, negsuc}
use vpp_lab.Prelude.Tests.{ltb, beq, beq_iff, if◌then◌else◌, Bool-cases}

-- s < t on strings.
abbrev pub str_lt : String → String → Bool
str_lt s t = elim (compare s t) [ Ordering.lt ↦ true | _ ↦ false ]

-- A character put before the first of the parts.
unfoldable pub extend : Char → List String → List String
extend c [] = []
extend c (p ∷ ps) = String.◌∷◌ c p ∷ ps

-- strings.Split(s, sep) for the separator of one character with the code `sep`.
unfoldable pub split : ℕ → String → List String
unfolding extend
split sep String.[] = "" ∷ []
split sep (String.◌∷◌ c s) =
    let rest = split sep s in if beq (code c) sep then "" ∷ rest else extend c rest

-- strings.Join(parts, sep)
unfoldable pub join : String → List String → String
join sep [] = ""
join sep (p ∷ []) = p
join sep (p ∷ q ∷ ps) = p ++ (sep ++ join sep (q ∷ ps))

-- No character of the text has the code `sep`.
abbrev pub Avoids : ℕ → String → Type 0
Avoids sep String.[] = Unit
Avoids sep (String.◌∷◌ c s) = (beq (code c) sep ≡ false) × Avoids sep s

-- A text with no separator, followed by one, is the first part.
pub split-append :
    (sep : ℕ) (c : Char) (s t : String)
    → beq (code c) sep ≡ true
    → Avoids sep s
    → split sep (s ++ String.◌∷◌ c t) ≡ s ∷ split sep t
unfolding split
split-append sep c String.[] t h a = rw nil-append (rw h)
split-append sep c (String.◌∷◌ d s) t h a =
    rw (cons-append, split) (rw a.0 (ap (extend d) (split-append sep c s t h a.1)))

-- A text with no separator is the only part.
pub split_alone : (sep : ℕ) (s : String) → Avoids sep s → split sep s ≡ s ∷ []
unfolding split
split_alone sep String.[] a = refl
split_alone sep (String.◌∷◌ d s) a = rw a.0 (ap (extend d) (split_alone sep s a.1))

-- There is always a first part.
split_first : (sep : ℕ) (s : String) → (p : String) × (ps : List String) × (split sep s ≡ p ∷ ps)
unfolding split
split_first sep String.[] = ("", [], refl)
split_first sep (String.◌∷◌ d s) = elim (Bool-cases (beq (code d) sep)) [
  | inl e ↦ ("", split sep s, rw e)
  | inr e ↦
      let (p, ps, h) = split_first sep s in (String.◌∷◌ d p, ps, rw (e, split) (ap (extend d) h))
]

join-extend :
    (sep : String) (c : Char) (p : String) (ps : List String)
    → join sep (extend c (p ∷ ps)) ≡ String.◌∷◌ c (join sep (p ∷ ps))
unfolding join extend
join-extend sep c p [] = refl
join-extend sep c p (q ∷ ps) = cons-append c p _

join-split_here :
    (c d : Char) (s : String)
    → (p : String) × (ps : List String) × (split (code c) s ≡ p ∷ ps)
    → join (String.◌∷◌ c String.[]) (split (code c) s) ≡ s
    → beq (code d) (code c) ≡ true
    → join (String.◌∷◌ c String.[]) ("" ∷ split (code c) s) ≡ String.◌∷◌ d s
unfolding join
join-split_here c d s (p, ps, h) ih e = rw h (
    rw (nil-append, cons-append, nil-append)
      (ap₂ String.◌∷◌ (sym (Char-path d c ((beq_iff _ _).0 e))) (ap (join _) (sym h) ∙ ih)))

join-split_on :
    (c d : Char) (s : String)
    → (p : String) × (ps : List String) × (split (code c) s ≡ p ∷ ps)
    → join (String.◌∷◌ c String.[]) (split (code c) s) ≡ s
    → join (String.◌∷◌ c String.[]) (extend d (split (code c) s)) ≡ String.◌∷◌ d s
join-split_on c d s (p, ps, h) ih =
    ap (λ l. join (String.◌∷◌ c String.[]) (extend d l)) h
    ∙ join-extend _ d p ps
    ∙ ap (String.◌∷◌ d) (ap (join _) (sym h) ∙ ih)

-- The parts joined by the separator are the text.
pub join-split : (c : Char) (s : String) → join (String.◌∷◌ c String.[]) (split (code c) s) ≡ s
unfolding split
join-split c String.[] = unfold join in refl
join-split c (String.◌∷◌ d s) = elim (Bool-cases (beq (code d) (code c))) [
  | inl e ↦ rw (e, split) (join-split_here c d s (split_first (code c) s) (join-split c s) e)
  | inr e ↦ rw (e, split) (join-split_on c d s (split_first (code c) s) (join-split c s))
]

-- A decimal digit.
digit : ℕ → String
digit zero = "0"
digit (suc zero) = "1"
digit (suc (suc zero)) = "2"
digit (suc (suc (suc zero))) = "3"
digit (suc (suc (suc (suc zero)))) = "4"
digit (suc (suc (suc (suc (suc zero))))) = "5"
digit (suc (suc (suc (suc (suc (suc zero)))))) = "6"
digit (suc (suc (suc (suc (suc (suc (suc zero))))))) = "7"
digit (suc (suc (suc (suc (suc (suc (suc (suc zero)))))))) = "8"
digit _ = "9"

-- The digits of a number of at most `suc fuel` of them, in front of `rest`.
digits : ℕ → ℕ → String → String
unfolding digit
digits zero n rest = digit n ++ rest
digits (suc fuel) n rest =
    let more = digits fuel (n / 10) (digit (n % 10) ++ rest) in
    if ltb n 10 then digit n ++ rest else more

-- "%d" of an int64, which has at most 19 digits.
unfoldable pub format_int : ℤ → String
unfolding digits
format_int (pos n) = digits 18 n ""
format_int (negsuc n) = "-" ++ digits 18 (suc n) ""
