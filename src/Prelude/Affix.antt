-- ===== src/Prelude/Affix.antt =====
-- strings.TrimSpace, HasPrefix, TrimPrefix, HasSuffix, Contains and Cut, on native texts.
use Prim.Native.Nat.{ℕ, suc, ◌+◌, ◌≤◌}
use Prim.Native.Char.{code}
use Prim.Native.String.{String, ◌++◌}
use mathlib.Core.Path.{◌≡◌, refl, sym, ap, ◌∙◌}
use mathlib.Core.Bool.{Bool, true, false, ◌&&◌, ◌||◌}
use mathlib.Core.Logic.{inl, inr}
use mathlib.Core.Option.{Option, none, some}
use native.Mathlib.Omega.{arith}
use text.Mathlib.Text.{◌==◌}
use text.Mathlib.TextEquality.{eq_iff}
use text.Mathlib.TextPositions.{eq_refl}
use text.Mathlib.TextLemmas.{nil-append, cons-append}
use vpp_lab.Prelude.Tests.{leb, beq, beq_iff, if◌then◌else◌, Bool-cases}

-- unicode.IsSpace
unfoldable pub is_space : ℕ → Bool
is_space c =
    leb 9 c && leb c 13
    || (beq c 32
        || (beq c 133
            || (beq c 160
                || (beq c 5760
                    || (leb 8192 c && leb c 8202
                        || (beq c 8232
                            || (beq c 8233 || (beq c 8239 || (beq c 8287 || beq c 12288)))))))))

unfoldable pub trim_start : String → String
unfolding is_space
trim_start String.[] = ""
trim_start (String.◌∷◌ c s) =
    let rest = trim_start s in if is_space (code c) then rest else String.◌∷◌ c s

unfoldable pub trim_end : String → String
unfolding is_space
trim_end String.[] = ""
trim_end (String.◌∷◌ c s) =
    let rest = trim_end s in if rest == "" && is_space (code c) then "" else String.◌∷◌ c rest

unfoldable pub trim_space : String → String
unfolding trim_start trim_end
trim_space s = trim_end (trim_start s)

-- What follows a prefix, if the text has it.
unfoldable pub after_prefix : String → String → Option String
after_prefix String.[] s = some s
after_prefix (String.◌∷◌ c p) String.[] = none
after_prefix (String.◌∷◌ c p) (String.◌∷◌ d s) =
    let rest = after_prefix p s in if beq (code c) (code d) then rest else none

abbrev pub is_some {ℓ} : {A : Type ℓ} → Option A → Bool
is_some none = false
is_some (some a) = true

unfoldable pub has_prefix : String → String → Bool
unfolding after_prefix
has_prefix p s = is_some (after_prefix p s)

unfoldable pub has_suffix : String → String → Bool
has_suffix p String.[] = p == ""
has_suffix p (String.◌∷◌ c s) = p == String.◌∷◌ c s || has_suffix p s

unfoldable pub has_part : String → String → Bool
unfolding has_prefix
has_part p String.[] = has_prefix p ""
has_part p (String.◌∷◌ c s) = has_prefix p (String.◌∷◌ c s) || has_part p s

-- strings.Cut at the first character with the code `sep`: `none` where there is none.
unfoldable pub cut_at : ℕ → String → Option (String × String)
cut_at sep String.[] = none
cut_at sep (String.◌∷◌ c s) =
    let rest = cut_at sep s in
    if beq (code c) sep
    then some ("", s)
    else (elim rest [ none ↦ none | some (before, after) ↦ some (String.◌∷◌ c before, after) ])

pub after_prefix-append : (p s : String) → after_prefix p (p ++ s) ≡ some s
unfolding after_prefix
after_prefix-append String.[] s = rw nil-append refl
after_prefix-append (String.◌∷◌ c p) s =
    rw cons-append (rw ((beq_iff (code c) (code c)).1 refl, after_prefix) (after_prefix-append p s))

pub has_prefix-append : (p s : String) → has_prefix p (p ++ s) ≡ true
unfolding has_prefix
has_prefix-append p s = rw after_prefix-append refl

pub has_suffix_self : (s : String) → has_suffix s s ≡ true
unfolding has_suffix
has_suffix_self String.[] = refl
has_suffix_self (String.◌∷◌ c s) = rw eq_refl refl

or_right : (a : Bool) → (a || true) ≡ true
or_right a = ground arith

pub has_suffix-append : (p s : String) → has_suffix s (p ++ s) ≡ true
unfolding has_suffix
has_suffix-append String.[] s = rw nil-append (has_suffix_self s)
has_suffix-append (String.◌∷◌ c p) s = rw cons-append (rw (has_suffix-append p s) (or_right _))

pub has_part-append : (p q s : String) → has_part q (p ++ (q ++ s)) ≡ true
unfolding has_part
has_part-append String.[] q s = rw nil-append (has_part_here (q ++ s) (has_prefix-append q s))
  where
    has_part_here : (t : String) → has_prefix q t ≡ true → has_part q t ≡ true
    has_part_here String.[] h = h
    has_part_here (String.◌∷◌ c t) h = rw h refl
has_part-append (String.◌∷◌ c p) q s = rw cons-append (rw (has_part-append p q s) (or_right _))

-- The number of characters.
unfoldable pub size : String → ℕ
size String.[] = 0
size (String.◌∷◌ c s) = suc (size s)

size-append : (s t : String) → size (s ++ t) ≡ size s + size t
unfolding size
size-append String.[] t = rw nil-append (omega arith)
size-append (String.◌∷◌ c s) t = rw cons-append (omega (arith, size-append s t))

-- A suffix is one of what stands last, where that is not shorter.
pub has_suffix_last : (p s t : String) → size p ≤ size t → has_suffix p (s ++ t) ≡ has_suffix p t
unfolding has_suffix size
has_suffix_last p String.[] t h = rw nil-append refl
has_suffix_last p (String.◌∷◌ c s) t h =
    rw cons-append (elim (Bool-cases (p == String.◌∷◌ c (s ++ t))) [
      | inr e ↦ rw e (has_suffix_last p s t h)
      | inl e ↦
          let same : size p ≡ suc (size (s ++ t)) =
            ap size ((eq_iff p (String.◌∷◌ c (s ++ t))).0 e) in
          absurd (omega (arith, same, size-append s t, h))
    ])

-- The first characters of two texts, as far as both go, are not the same.
unfoldable pub clash : String → String → Bool
clash String.[] s = false
clash (String.◌∷◌ c p) String.[] = false
clash (String.◌∷◌ c p) (String.◌∷◌ d s) =
    let rest = clash p s in if beq (code c) (code d) then rest else true

pub has_prefix-clash : (p s t : String) → clash p s ≡ true → has_prefix p (s ++ t) ≡ false
unfolding clash has_prefix after_prefix
has_prefix-clash String.[] s t h = absurd (cc h)
has_prefix-clash (String.◌∷◌ c p) String.[] t h = absurd (cc h)
has_prefix-clash (String.◌∷◌ c p) (String.◌∷◌ d s) t h = elim (Bool-cases (beq (code c) (code d))) [
  | inl e ↦ rw cons-append (rw (e, after_prefix) (has_prefix-clash p s t (rw (e, clash) at h)))
  | inr e ↦ rw cons-append (rw (e, after_prefix) refl)
]

has_prefix_self : (p : String) → has_prefix p p ≡ true
unfolding has_prefix after_prefix
has_prefix_self String.[] = refl
has_prefix_self (String.◌∷◌ c p) =
    rw ((beq_iff (code c) (code c)).1 refl, after_prefix) (has_prefix_self p)

pub eq_append_clash : (p s t : String) → clash p s ≡ true → ((s ++ t) == p) ≡ false
eq_append_clash p s t h = elim (Bool-cases ((s ++ t) == p)) [
  | inr e ↦ e
  | inl e ↦ absurd (
      cc (
        sym (has_prefix-clash p s t h)
        ∙ ap (has_prefix p) ((eq_iff (s ++ t) p).0 e)
        ∙ has_prefix_self p))
]

pub eq_append_longer : (p s t : String) → suc (size p) ≤ size s → ((s ++ t) == p) ≡ false
eq_append_longer p s t h = elim (Bool-cases ((s ++ t) == p)) [
  | inr e ↦ e
  | inl e ↦
      let same : size (s ++ t) ≡ size p = ap size ((eq_iff (s ++ t) p).0 e) in
      absurd (omega (arith, same, size-append s t, h))
]
