-- ===== src/DeviceAuth.antt =====
-- internal/deviceauth/auth.go: the signature in the field "auth" of a device's payload.
pub mod Signing
pub mod Parse
use vpp_lab.Prelude.{
  ℕ, String, Bool, true, false, Option, none, some, List, [], ◌∷◌, ◌==◌, if◌then◌else◌, ◌||◌, ◌&&◌,
  not,
}
use vpp_lab.Prelude.Int.{ℤ, pos, ltb_ℤ, eq_ℤ}
use vpp_lab.Prelude.Dict.{Dict, lookup, insert}
use vpp_lab.Prelude.Clock.{Time, Duration, unix, unix_seconds, sub_time}

pub record Auth : Type 0 where
  pub timestamp : ℤ
  pub signature : String

abbrev pub Keys : Type 0
Keys = Dict String

abbrev pub field : String
field = "auth"

-- The libraries: `Bytes` are payloads and `Raw` is json.RawMessage; json.Unmarshal and json.Marshal on an
-- object and on an Auth, `none` where they fail (for an object also where it is null); and the
-- hexadecimal HMAC-SHA256, under a secret, of a topic, a line feed and a payload.
pub record Library (Bytes Raw : Type 0) : Type 0 where
  pub read_map : Bytes → Option (Dict Raw)
  pub write_map : Dict Raw → Option Bytes
  pub read_auth : Raw → Option Auth
  pub write_auth : Auth → Raw
  pub hmac : String → String → Bytes → String

-- Why a payload is refused.
pub data AuthError : Type 0 where
  missing_key : AuthError
  bad_payload : AuthError
  missing_auth : AuthError
  bad_auth : AuthError
  incomplete : AuthError
  outside_skew : AuthError
  bad_canonical : AuthError
  bad_signature : AuthError

unfoldable pub enabled : Keys → Bool
enabled [] = false
enabled (k ∷ ks) = true

module _ {Bytes Raw : Type 0} (lib : Library Bytes Raw) where
  -- An Auth with no signature, as both sides sign it.
  unfoldable pub unsigned : ℤ → Raw
  unsigned timestamp = lib.write_auth (record { timestamp = timestamp; signature = "" })

  -- From the canonical payload on.
  unfoldable pub sign_canonical : String → String → ℤ → Dict Raw → Option Bytes → Option Bytes
  sign_canonical topic secret timestamp msg none = none
  sign_canonical topic secret timestamp msg (some canonical) = lib.write_map (
      insert field
        (lib.write_auth
          (record { timestamp = timestamp; signature = lib.hmac secret topic canonical }))
        msg)

  sign_message : String → String → Time → Option (Dict Raw) → Option Bytes
  unfolding sign_canonical unsigned
  sign_message topic secret now none = none
  sign_message topic secret now (some m) =
      let timestamp = unix_seconds now in
      let msg = insert field (unsigned timestamp) m in
      sign_canonical topic secret timestamp msg (lib.write_map msg)

  -- `none` is an error.
  unfoldable pub sign_payload : String → Bytes → String → Time → Option Bytes
  unfolding sign_message
  sign_payload topic payload secret now = sign_message topic secret now (lib.read_map payload)

  unfoldable pub check_canonical : String → String → Auth → Option Bytes → Option AuthError
  check_canonical topic secret auth none = some bad_canonical
  check_canonical topic secret auth (some canonical) =
      if lib.hmac secret topic canonical == auth.signature then none else some bad_signature

  unfoldable pub outside : Time → Duration → ℤ → Bool
  outside now max_skew timestamp =
      ltb_ℤ (pos 0) max_skew
      && (ltb_ℤ max_skew (sub_time now (unix timestamp))
          || ltb_ℤ max_skew (sub_time (unix timestamp) now))

  unfoldable pub check_auth :
      String → String → Time → Duration → Dict Raw → Option Auth → Option AuthError
  unfolding check_canonical outside unsigned
  check_auth topic secret now max_skew msg none = some bad_auth
  check_auth topic secret now max_skew msg (some auth) =
      if eq_ℤ auth.timestamp (pos 0) || auth.signature == ""
      then some incomplete
      else if outside now max_skew auth.timestamp
      then some outside_skew
      else check_canonical topic secret auth
          (lib.write_map (insert field (unsigned auth.timestamp) msg))

  unfoldable pub check_message :
      String → String → Time → Duration → Option (Dict Raw) → Option AuthError
  unfolding check_auth
  check_message topic secret now max_skew none = some bad_payload
  check_message topic secret now max_skew (some msg) = elim (lookup field msg) [
    | none ↦ some missing_auth
    | some raw ↦ check_auth topic secret now max_skew msg (lib.read_auth raw)
  ]

  -- The error, if there is one.
  unfoldable pub verify_payload :
      String → String → Bytes → Keys → Time → Duration → Option AuthError
  unfolding check_message enabled
  verify_payload topic device_id payload keys now max_skew =
      if not (enabled keys) then none else elim (lookup device_id keys) [
        | none ↦ some missing_key
        | some secret ↦ check_message topic secret now max_skew (lib.read_map payload)
      ]
