-- ===== src/DeviceAuth/Parse.antt =====
-- ParseKeys: the keys of the devices from their text "id=secret,id=secret".
use vpp_lab.Prelude.{
  String, false, Option, none, some, List, [], ◌∷◌, ◌≡◌, subst, ◌==◌, ◌||◌, ◌⊎◌, inl, inr,
  if◌then◌else◌, Bool-cases, split, trim_space, cut_at,
}
use vpp_lab.Prelude.Dict.{insert, Distinct, Distinct-insert, Entries, Entries-insert}
use vpp_lab.DeviceAuth.{Keys}

-- The errors of ParseKeys, each with the part that it quotes.
pub data KeyError : Type 0 where
  no_secret : String → KeyError
  empty_part : String → KeyError

-- The keys, or an error.
unfoldable pub add_key : String → Option (String × String) → Keys → KeyError ⊎ Keys
add_key part none keys = inl (no_secret part)
add_key part (some (id, secret)) keys =
    if trim_space id == "" || trim_space secret == ""
    then inl (empty_part part)
    else inr (insert (trim_space id) (trim_space secret) keys)

-- The body of the loop, on a part without white space around it.
unfoldable pub parse_part : String → Keys → KeyError ⊎ Keys
unfolding add_key
parse_part part keys = if part == "" then inr keys else add_key part (cut_at b'=' part) keys

abbrev pub then_parse : KeyError ⊎ Keys → (Keys → KeyError ⊎ Keys) → KeyError ⊎ Keys
then_parse (inl err) f = inl err
then_parse (inr keys) f = f keys

unfoldable pub parse_parts : List String → Keys → KeyError ⊎ Keys
unfolding parse_part
parse_parts [] keys = inr keys
parse_parts (part ∷ parts) keys = then_parse (parse_part (trim_space part) keys) (parse_parts parts)

unfoldable pub parse_keys : String → KeyError ⊎ Keys
unfolding parse_parts
parse_keys raw = parse_parts (split b',' raw) []

-- A device with a name, and a secret that is not empty.
abbrev pub IsUsable : String → String → Type 0
IsUsable id secret = ((id == "") ≡ false) × ((secret == "") ≡ false)

-- Keys of which no device has two, and each is usable.
abbrev pub IsKeys : Keys → Type 0
IsKeys keys = Distinct keys × Entries IsUsable keys

-- Keys, where there is no error.
abbrev pub IsKeysOr : KeyError ⊎ Keys → Type 0
IsKeysOr (inl err) = Unit
IsKeysOr (inr keys) = IsKeys keys

add_key-IsKeysOr :
    (part : String) (o : Option (String × String)) (keys : Keys)
    → IsKeys keys
    → IsKeysOr (add_key part o keys)
unfolding add_key
add_key-IsKeysOr part none keys h = tt
add_key-IsKeysOr part (some (id, secret)) keys h = elim (Bool-cases (trim_space id == "")) [
  | inl e ↦ rw e tt
  | inr e ↦ elim (Bool-cases (trim_space secret == "")) [
    | inl f ↦ rw e (rw f tt)
    | inr f ↦ rw e (
        rw f (
          Distinct-insert (trim_space id) (trim_space secret) keys h.0,
          Entries-insert IsUsable (trim_space id) (trim_space secret) keys (e, f) h.1,
        ))
  ]
]

parse_part-IsKeysOr : (part : String) (keys : Keys) → IsKeys keys → IsKeysOr (parse_part part keys)
unfolding parse_part
parse_part-IsKeysOr part keys h = elim (Bool-cases (part == "")) [
  | inl e ↦ rw e h
  | inr e ↦ rw e (add_key-IsKeysOr part (cut_at b'=' part) keys h)
]

then_parse-IsKeysOr :
    (o : KeyError ⊎ Keys) (f : Keys → KeyError ⊎ Keys)
    → IsKeysOr o
    → ((keys : Keys) → IsKeys keys → IsKeysOr (f keys))
    → IsKeysOr (then_parse o f)
then_parse-IsKeysOr (inl err) f h k = tt
then_parse-IsKeysOr (inr keys) f h k = k keys h

parse_parts-IsKeysOr :
    (parts : List String) (keys : Keys) → IsKeys keys → IsKeysOr (parse_parts parts keys)
unfolding parse_parts
parse_parts-IsKeysOr [] keys h = h
parse_parts-IsKeysOr (part ∷ parts) keys h =
    then_parse-IsKeysOr (parse_part (trim_space part) keys) (parse_parts parts)
      (parse_part-IsKeysOr (trim_space part) keys h)
      (λ keys' h'. parse_parts-IsKeysOr parts keys' h')

-- The keys that ParseKeys returns give no device two secrets, and no device or secret in them is empty.
pub parse_keys-IsKeys : (raw : String) (keys : Keys) → parse_keys raw ≡ inr keys → IsKeys keys
unfolding parse_keys
parse_keys-IsKeys raw keys e = subst IsKeysOr e (parse_parts-IsKeysOr (split b',' raw) [] (tt, tt))
