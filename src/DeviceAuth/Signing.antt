-- ===== src/DeviceAuth/Signing.antt =====
-- What VerifyPayload accepts: payloads that are signed, and what SignPayload makes is.
use vpp_lab.Prelude.{
  String, true, false, Option, none, some, [], ◌∷◌, ◌==◌, ◌≡◌, refl, ap, inl, inr, Bool-cases,
  Option-cases, eq_iff, eq_refl, arith,
}
use vpp_lab.Prelude.Int.{ℤ, pos, eq_ℤ}
use vpp_lab.Prelude.Dict.{Dict, lookup, insert}
use vpp_lab.Prelude.Clock.{Time, Duration, unix_seconds}
use vpp_lab.DeviceAuth.{
  Auth, Keys, field, Library, enabled, unsigned, sign_canonical, sign_message, sign_payload,
  check_canonical, outside, check_auth, check_message, verify_payload,
}

pub insert-insert :
    {V : Type 0} (k : String) (v w : V) (m : Dict V) → insert k w (insert k v m) ≡ insert k w m
unfolding insert
insert-insert k v w [] = rw (eq_refl, insert) refl
insert-insert k v w ((j, u) ∷ m) = elim (Bool-cases (j == k)) [
  | inl e ↦ rw (e, insert) (rw (eq_refl, insert) refl)
  | inr e ↦ rw (e, insert) (rw (e, insert) (ap (λ t. (j, u) ∷ t) (insert-insert k v w m)))
]

module _ {Bytes Raw : Type 0} (lib : Library Bytes Raw) where
  -- A payload that is signed under a secret, for a topic, at a time that is not too far away.
  pub record IsSigned (topic secret : String) (now : Time) (max_skew : Duration) (payload : Bytes)
      : Type 0 where
    pub msg : Dict Raw
    pub raw : Raw
    pub auth : Auth
    pub canonical : Bytes
    pub decoded : lib.read_map payload ≡ some msg
    pub has_auth : lookup field msg ≡ some raw
    pub read : lib.read_auth raw ≡ some auth
    pub stripped : lib.write_map (insert field (unsigned lib auth.timestamp) msg) ≡ some canonical
    pub signed : lib.hmac secret topic canonical ≡ auth.signature
    pub in_time : outside lib now max_skew auth.timestamp ≡ false

  check_canonical-none :
      (topic secret : String) (auth : Auth) (canonical : Option Bytes)
      → check_canonical lib topic secret auth canonical ≡ none
      → (c : Bytes) × (canonical ≡ some c) × (lib.hmac secret topic c ≡ auth.signature)
  unfolding check_canonical
  check_canonical-none topic secret auth none e = absurd (cc)
  check_canonical-none topic secret auth (some c) e =
      elim (Bool-cases (lib.hmac secret topic c == auth.signature)) [
        | inl h ↦ (c, refl, (eq_iff _ _).0 h)
        | inr h ↦ absurd (cc (rw (h, check_canonical) at e))
      ]

  check_auth-none :
      (topic secret : String) (now : Time) (max_skew : Duration) (msg : Dict Raw)
      (auth : Option Auth)
      → check_auth lib topic secret now max_skew msg auth ≡ none
      → (a : Auth) × (auth ≡ some a)
        × (outside lib now max_skew a.timestamp ≡ false)
        × (check_canonical lib topic secret a
              (lib.write_map (insert field (unsigned lib a.timestamp) msg))
            ≡ none)
  unfolding check_auth
  check_auth-none topic secret now max_skew msg none e = absurd (cc)
  check_auth-none topic secret now max_skew msg (some a) e = (a, refl, in_time e, checked e)
    where
      in_time :
          check_auth lib topic secret now max_skew msg (some a) ≡ none
          → outside lib now max_skew a.timestamp ≡ false
      in_time e = ground arith

      checked :
          check_auth lib topic secret now max_skew msg (some a) ≡ none
          → check_canonical lib topic secret a
              (lib.write_map (insert field (unsigned lib a.timestamp) msg))
            ≡ none
      checked e = ground arith

  check_message-none :
      (topic secret : String) (now : Time) (max_skew : Duration) (msg : Option (Dict Raw))
      → check_message lib topic secret now max_skew msg ≡ none
      → (m : Dict Raw) × (raw : Raw) × (msg ≡ some m)
        × (lookup field m ≡ some raw)
        × (check_auth lib topic secret now max_skew m (lib.read_auth raw) ≡ none)
  unfolding check_message
  check_message-none topic secret now max_skew none e = absurd (cc)
  check_message-none topic secret now max_skew (some m) e = elim (Option-cases (lookup field m)) [
    | inl h ↦ absurd (cc (rw (h, check_message) at e))
    | inr (raw, h) ↦ (m, raw, refl, h, rw (h, check_message) at e)
  ]

  check_message-IsSigned :
      (topic secret : String) (now : Time) (max_skew : Duration) (payload : Bytes)
      → check_message lib topic secret now max_skew (lib.read_map payload) ≡ none
      → IsSigned topic secret now max_skew payload
  check_message-IsSigned topic secret now max_skew payload e =
      let (m, raw, decoded, has_auth, e1) = check_message-none topic secret now max_skew _ e in
      let (a, read, in_time, e2) = check_auth-none topic secret now max_skew m _ e1 in
      let (c, stripped, signed) = check_canonical-none topic secret a _ e2 in
      record {
        msg = m;
        raw = raw;
        auth = a;
        canonical = c;
        decoded = decoded;
        has_auth = has_auth;
        read = read;
        stripped = stripped;
        signed = signed;
        in_time = in_time;
      }

  -- Where there are keys, VerifyPayload accepts only a payload of a device that has one: it decodes, has
  -- an auth whose signature is that of the topic and of the payload without the signature under the
  -- device's key, and a timestamp that is not farther away than the skew allowed, where one is set.
  pub verify_payload-IsSigned :
      (topic device_id : String) (payload : Bytes) (keys : Keys) (now : Time) (max_skew : Duration)
      → enabled keys ≡ true
      → verify_payload lib topic device_id payload keys now max_skew ≡ none
      → (secret : String) × (lookup device_id keys ≡ some secret)
        × IsSigned topic secret now max_skew payload
  unfolding verify_payload
  verify_payload-IsSigned topic device_id payload keys now max_skew on e =
      elim (Option-cases (lookup device_id keys)) [
        | inl h ↦ absurd (cc (rw (h, verify_payload) at (rw (on, verify_payload) at e)))
        | inr (secret, h) ↦ (
          secret,
          h,
          check_message-IsSigned topic secret now max_skew payload
              (rw (h, verify_payload) at (rw (on, verify_payload) at e)),
        )
      ]

-- What json reads of a message that it wrote with an auth: a message, whose entries may stand in another
-- order and whose values may be compacted, that has the auth, and that, with any other value in the place of
-- the auth, is written as the message that was written is, since keys are sorted and values compacted.
pub record Rewritten {Bytes Raw : Type 0} (lib : Library Bytes Raw) (m : Dict Raw) (a : Auth)
    (b : Bytes) : Type 0 where
  pub msg : Dict Raw
  pub raw : Raw
  pub read : lib.read_map b ≡ some msg
  pub found : lookup field msg ≡ some raw
  pub decoded : lib.read_auth raw ≡ some a
  pub same : (r : Raw) → lib.write_map (insert field r msg) ≡ lib.write_map (insert field r m)

module _ {Bytes Raw : Type 0} (lib : Library Bytes Raw)
    (rewritten : (payload b : Bytes) (m : Dict Raw) (a : Auth)
      → lib.read_map payload ≡ some m
      → lib.write_map (insert field (lib.write_auth a) m) ≡ some b
      → Rewritten lib m a b)
    (hmac_nonempty : (secret topic : String) (b : Bytes)
      → (lib.hmac secret topic b == "") ≡ false) where
  auth_of : String → String → ℤ → Bytes → Auth
  auth_of topic secret timestamp canonical = record {
    timestamp = timestamp;
    signature = lib.hmac secret topic canonical;
  }

  sign_message-some :
      (topic secret : String) (now : Time) (msg : Option (Dict Raw)) (signed : Bytes)
      → sign_message lib topic secret now msg ≡ some signed
      → (m : Dict Raw) × (c : Bytes) × (msg ≡ some m)
        × (lib.write_map (insert field (unsigned lib (unix_seconds now)) m) ≡ some c)
        × (lib.write_map (
              insert field
                (lib.write_auth (auth_of topic secret (unix_seconds now) c))
                (insert field (unsigned lib (unix_seconds now)) m))
            ≡ some signed)
  unfolding sign_message sign_canonical auth_of
  sign_message-some topic secret now none signed e = absurd (cc)
  sign_message-some topic secret now (some m) signed e =
      elim (Option-cases (lib.write_map (insert field (unsigned lib (unix_seconds now)) m))) [
        | inl h ↦ absurd (cc (rw (h, sign_canonical) at e))
        | inr (c, h) ↦ (m, c, refl, h, rw (h, sign_canonical) at e)
      ]

  check_message-signed :
      (topic secret : String) (timestamp : ℤ) (later : Time) (max_skew : Duration) (m : Dict Raw)
      (payload c signed : Bytes)
      → lib.read_map payload ≡ some m
      → eq_ℤ timestamp (pos 0) ≡ false
      → outside lib later max_skew timestamp ≡ false
      → lib.write_map (insert field (unsigned lib timestamp) m) ≡ some c
      → lib.write_map (
          insert field
            (lib.write_auth (auth_of topic secret timestamp c))
            (insert field (unsigned lib timestamp) m))
        ≡ some signed
      → check_message lib topic secret later max_skew (lib.read_map signed) ≡ none
  unfolding check_message check_auth check_canonical auth_of
  check_message-signed topic secret timestamp later max_skew m payload c signed p nz in_time h k =
      let w =
        rewritten payload signed m (auth_of topic secret timestamp c) p (rw insert-insert at k) in
      rw (w.read, check_message)
        (rw (w.found, w.decoded, check_auth)
          (rw (nz, hmac_nonempty, in_time)
            (rw (w.same (unsigned lib timestamp), h, check_canonical) (rw eq_refl refl))))

  -- What SignPayload makes of a payload at one time, VerifyPayload accepts at another, not farther away
  -- than the skew allowed, where the keys give the device that secret. The signing time is not the first
  -- second of 1970, an HMAC in hex is not empty, and json reads what it wrote as `Rewritten` says.
  pub sign_payload-verifies :
      (topic device_id secret : String) (keys : Keys) (payload signed : Bytes) (now later : Time)
      (max_skew : Duration)
      → lookup device_id keys ≡ some secret
      → eq_ℤ (unix_seconds now) (pos 0) ≡ false
      → outside lib later max_skew (unix_seconds now) ≡ false
      → sign_payload lib topic payload secret now ≡ some signed
      → verify_payload lib topic device_id signed keys later max_skew ≡ none
  unfolding verify_payload sign_payload
  sign_payload-verifies topic device_id secret keys payload signed now later max_skew key nz in_time
        e =
      let (m, c, p, h, k) = sign_message-some topic secret now _ signed e in
      elim (Bool-cases (enabled keys)) [
        | inl on ↦
            rw (on, verify_payload)
              (rw (key, verify_payload)
                (check_message-signed topic secret (unix_seconds now) later max_skew m payload c
                  signed p nz in_time h k))
        | inr off ↦ rw (off, verify_payload) refl
      ]
