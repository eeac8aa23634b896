-- ===== src/Examples/Signatures.antt =====
-- The theorems on signed payloads, applied to a payload that is its own encoding.
use vpp_lab.Prelude.{String, true, false, none, some, [], ◌∷◌, ◌≡◌, refl, sym, ap, ◌*◌}
use vpp_lab.Prelude.Int.{pos, eq_ℤ}
use vpp_lab.Prelude.Dict.{Dict, lookup, insert, lookup-insert}
use vpp_lab.Prelude.Clock.{second, unix, sub_time, unix_seconds}
use vpp_lab.DeviceAuth.{Auth, Keys, field, Library, enabled, outside, sign_payload, verify_payload}
use vpp_lab.DeviceAuth.Signing.{
  IsSigned, verify_payload-IsSigned, Rewritten, insert-insert, sign_payload-verifies,
}
use vpp_lab.Examples.Site.{noon}

abbrev pub plain : Library (Dict Auth) Auth
plain = record {
  read_map = λ payload. some payload;
  write_map = λ msg. some msg;
  read_auth = λ raw. some raw;
  write_auth = λ auth. auth;
  hmac = λ secret topic payload. "5f";
}

abbrev pub keys : Keys
keys = ("battery_01", "secret") ∷ []

abbrev signed_at_noon : Dict Auth
signed_at_noon = ("auth", record { timestamp = pos 1699963200; signature = "5f" }) ∷ []

at_noon : sign_payload plain "t" [] "secret" noon ≡ some signed_at_noon
unfolding sign_payload unix_seconds insert
at_noon = refl

noon_later : eq_ℤ (unix_seconds noon) (pos 0) ≡ false
unfolding unix_seconds
noon_later = refl

no_skew : outside plain noon (pos (300 * second)) (unix_seconds noon) ≡ false
unfolding outside unix_seconds sub_time unix
no_skew = refl

battery_key : lookup "battery_01" keys ≡ some "secret"
unfolding lookup
battery_key = refl

plain-Rewritten :
    (payload b m : Dict Auth) (a : Auth)
    → plain.read_map payload ≡ some m
    → plain.write_map (insert field (plain.write_auth a) m) ≡ some b
    → Rewritten plain m a b
plain-Rewritten payload b m a p e = record {
  msg = insert field a m;
  raw = a;
  read = sym e;
  found = rw lookup-insert refl;
  decoded = refl;
  same = λ r. ap some (insert-insert field a r m);
}

sign_payload-verifies_example :
    verify_payload plain "t" "battery_01" signed_at_noon keys noon (pos (300 * second)) ≡ none
sign_payload-verifies_example =
    sign_payload-verifies plain plain-Rewritten (λ secret topic b. refl) "t" "battery_01" "secret"
      keys [] signed_at_noon noon noon (pos (300 * second)) battery_key noon_later no_skew at_noon

pub keys-enabled : enabled keys ≡ true
unfolding enabled
keys-enabled = refl

noon_verified :
    verify_payload plain "t" "battery_01" signed_at_noon keys noon (pos (300 * second)) ≡ none
unfolding verify_payload lookup insert unix_seconds sub_time unix
noon_verified = refl

verify_payload-IsSigned_example :
    (secret : String) × (lookup "battery_01" keys ≡ some secret)
    × IsSigned plain "t" secret noon (pos (300 * second)) signed_at_noon
verify_payload-IsSigned_example =
    verify_payload-IsSigned plain "t" "battery_01" signed_at_noon keys noon (pos (300 * second))
      keys-enabled noon_verified
