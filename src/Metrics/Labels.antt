-- ===== src/Metrics/Labels.antt =====
-- The escape of a label, and its inverse as a reader of the text format has it.
use Prim.Native.Char.{Char, code}
use Prim.Native.String.{◌++◌}
use text.Mathlib.TextLemmas.{nil-append, cons-append, append_assoc}
use text.Mathlib.TextEquality.{Char-path}
use vpp_lab.Prelude.{
  ℕ, String, Bool, true, false, Option, none, some, ◌≡◌, refl, sym, ap, ◌∙◌, inl, inr, beq, beq_iff,
  Bool-cases, if◌then◌else◌,
}
use vpp_lab.Metrics.{replace_all, escape_label}

-- A reader of a label's value, from after its opening quote: the value, and what follows its closing quote.
-- `true` is after a backslash, where only a backslash, a quote and an n may stand, the last for a line feed.
-- A line feed, or an end, before the closing quote is an error.
unfoldable pub push_char : Char → Option (String × String) → Option (String × String)
push_char c none = none
push_char c (some (value, rest)) = some (String.◌∷◌ c value, rest)

unfoldable pub read_label : Bool → String → Option (String × String)
unfolding push_char
read_label after String.[] = none
read_label true (String.◌∷◌ c s) =
    let rest = read_label false s in
    if beq (code c) 92
    then push_char "\\" rest
    else if beq (code c) 34
    then push_char "\"" rest
    else if beq (code c) 110
    then push_char "\n" rest
    else none
read_label false (String.◌∷◌ c s) =
    let escaped = read_label true s in
    let rest = read_label false s in
    if beq (code c) 92
    then escaped
    else if beq (code c) 34
    then some ("", s)
    else if beq (code c) 10
    then none
    else push_char c rest

-- What the three passes make of one character.
abbrev escaped : Char → String
escaped c =
    if beq (code c) 92
    then "\\\\"
    else if beq (code c) 34
    then "\\\""
    else if beq (code c) 10
    then "\\n"
    else String.◌∷◌ c ""

replace_all-append :
    (old : ℕ) (new s t : String)
    → replace_all old new (s ++ t) ≡ replace_all old new s ++ replace_all old new t
unfolding replace_all
replace_all-append old new String.[] t = rw nil-append (sym (nil-append (replace_all old new t)))
replace_all-append old new (String.◌∷◌ c s) t = elim (Bool-cases (beq (code c) old)) [
  | inl e ↦ rw cons-append (
      rw (e, replace_all)
        (ap (λ u. new ++ u) (replace_all-append old new s t)
          ∙ sym (append_assoc new (replace_all old new s) (replace_all old new t))))
  | inr e ↦ rw cons-append (
      rw (e, replace_all)
        (ap (String.◌∷◌ c) (replace_all-append old new s t)
          ∙ sym (cons-append c (replace_all old new s) (replace_all old new t))))
]

escape_label-cons :
    (c : Char) (s : String) → escape_label (String.◌∷◌ c s) ≡ escaped c ++ escape_label s
unfolding escape_label replace_all
escape_label-cons c s = elim (Bool-cases (beq (code c) 92)) [
  | inl e ↦ rw e (
      ap (replace_all 10 "\\n") (replace_all-append 34 "\\\"" "\\\\" (replace_all 92 "\\\\" s))
      ∙ replace_all-append 10 "\\n" "\\\\" (replace_all 34 "\\\"" (replace_all 92 "\\\\" s)))
  | inr e ↦ elim (Bool-cases (beq (code c) 34)) [
    | inl f ↦ rw e (
        rw f (replace_all-append 10 "\\n" "\\\"" (replace_all 34 "\\\"" (replace_all 92 "\\\\" s))))
    | inr f ↦ elim (Bool-cases (beq (code c) 10)) [
      | inl g ↦ rw e (rw f (rw g refl))
      | inr g ↦
          rw e (rw f (rw g (sym (cons-append c String.[] _ ∙ ap (String.◌∷◌ c) (nil-append _)))))
    ]
  ]
]

two :
    (a b : Char) (t : String) → String.◌∷◌ a (String.◌∷◌ b "") ++ t ≡ String.◌∷◌ a (String.◌∷◌ b t)
two a b t =
    cons-append a (String.◌∷◌ b "") t
    ∙ ap (String.◌∷◌ a) (cons-append b "" t ∙ ap (String.◌∷◌ b) (nil-append t))

read_label-escaped :
    (c : Char) (t : String) → read_label false (escaped c ++ t) ≡ push_char c (read_label false t)
unfolding read_label
read_label-escaped c t = elim (Bool-cases (beq (code c) 92)) [
  | inl e ↦ rw e (
      rw two (
        ap (λ d. push_char d (read_label false t))
          (sym (Char-path c "\\" ((beq_iff (code c) 92).0 e)))))
  | inr e ↦ elim (Bool-cases (beq (code c) 34)) [
    | inl f ↦ rw e (
        rw f (
          rw two (
            ap (λ d. push_char d (read_label false t))
              (sym (Char-path c "\"" ((beq_iff (code c) 34).0 f))))))
    | inr f ↦ elim (Bool-cases (beq (code c) 10)) [
      | inl g ↦ rw e (
          rw f (
            rw g (
              rw two (
                ap (λ d. push_char d (read_label false t))
                  (sym (Char-path c "\n" ((beq_iff (code c) 10).0 g)))))))
      | inr g ↦
          rw e
            (rw f (rw g (rw cons-append (rw (e, read_label) (rw f (rw g (rw nil-append refl)))))))
    ]
  ]
]

-- A reader of the text format, which takes a label's value to end at the first quote that is not escaped
-- and refuses a line feed in it, gets back every label as it was before it was escaped, and what stands
-- after its closing quote.
pub read_label-escape_label :
    (v rest : String) → read_label false (escape_label v ++ String.◌∷◌ "\"" rest) ≡ some (v, rest)
unfolding escape_label replace_all read_label
read_label-escape_label String.[] rest = rw nil-append refl
read_label-escape_label (String.◌∷◌ c s) rest =
    ap (λ t. read_label false (t ++ String.◌∷◌ "\"" rest)) (escape_label-cons c s)
    ∙ ap (read_label false) (append_assoc (escaped c) (escape_label s) (String.◌∷◌ "\"" rest))
    ∙ read_label-escaped c (escape_label s ++ String.◌∷◌ "\"" rest)
    ∙ ap (push_char c) (read_label-escape_label s rest)
