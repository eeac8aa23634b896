-- ===== src/Mqtt/Gate.antt =====
-- What a message from a device can change: nothing without a signature where there are keys, and of
-- the telemetry only the entry of the device that the topic names.
use vpp_lab.Prelude.{
  ℕ, String, true, false, some, ◌≡◌, refl, ◌⊎◌, inl, inr, ◌==◌, arith, Bool-cases, Option-cases,
}
use vpp_lab.Prelude.Dict.{lookup}
use vpp_lab.Prelude.Clock.{Time}
use vpp_lab.Topic.{Parsed, parse}
use vpp_lab.DeviceAuth.{Library, enabled, verify_payload}
use vpp_lab.DeviceAuth.Signing.{IsSigned, verify_payload-IsSigned}
use vpp_lab.Mqtt.{
  Codec, Client, requires_device_auth, increment_rejected, route, admit, handle_message,
}

-- The store, the time series and the database are what they were.
pub record IsSame {R Bytes Db : Type 0} (c c' : Client R Bytes Db) : Type 0 where
  pub state : c'.state ≡ c.state
  pub ts : c'.ts ≡ c.ts
  pub database : c'.database ≡ c.database

module _ {R Bytes Raw Db : Type 0} (codec : Codec R Bytes) (lib : Library Bytes Raw) where
  -- A payload that the device of the topic signed with its key.
  pub record IsFrom (topic : String) (now : Time) (payload : Bytes) (c : Client R Bytes Db)
      : Type 0 where
    pub parsed : Parsed
    pub secret : String
    pub parses : parse topic ≡ some parsed
    pub has_key : lookup parsed.device_id c.keys ≡ some secret
    pub signed : IsSigned lib topic secret now c.max_skew payload

  route-IsSame :
      (clock : ℕ → Time) (p : Parsed) (payload : Bytes) (c : Client R Bytes Db)
      → requires_device_auth p.kind ≡ false
      → IsSame c (route codec lib clock p payload c)
  unfolding route requires_device_auth
  route-IsSame clock p payload c h = elim (Bool-cases (p.kind == "telemetry")) [
    | inl e ↦ absurd (ground arith)
    | inr e ↦ elim (Bool-cases (p.kind == "command/ack")) [
      | inl f ↦ absurd (ground arith)
      | inr f ↦ elim (Bool-cases (p.kind == "event")) [
        | inl g ↦ absurd (ground arith)
        | inr g ↦ rw (e, f, g) (record { state = refl; ts = refl; database = refl })
      ]
    ]
  ]

  -- Where the client has keys, a message changes the store, the time series or the database only if the
  -- device that its topic names has a key and signed the payload with it for that topic.
  pub handle_message-IsFrom :
      (clock : ℕ → Time) (topic : String) (payload : Bytes) (c : Client R Bytes Db)
      → enabled c.keys ≡ true
      → IsSame c (handle_message codec lib clock topic payload c) ⊎ IsFrom topic (clock 0) payload c
  unfolding handle_message admit increment_rejected
  handle_message-IsFrom clock topic payload c on = elim (Option-cases (parse topic)) [
    | inl h ↦ inl (rw (h, handle_message) (record { state = refl; ts = refl; database = refl }))
    | inr (p, h) ↦ elim (Bool-cases (requires_device_auth p.kind)) [
      | inr e ↦ inl (rw (h, handle_message) (rw (e) (route-IsSame clock p payload c e)))
      | inl e ↦
          elim (Option-cases
            (verify_payload lib topic p.device_id payload c.keys (clock 0) c.max_skew)) [
              | inr (error, g) ↦ inl (
                  rw (h, handle_message)
                    (rw (e) (rw (g, admit) (record { state = refl; ts = refl; database = refl }))))
              | inl g ↦
                  let (secret, has_key, signed) =
                    verify_payload-IsSigned lib topic p.device_id payload c.keys (clock 0)
                      c.max_skew on g in
                  inr (record {
                    parsed = p;
                    secret = secret;
                    parses = h;
                    has_key = has_key;
                    signed = signed;
                  })
            ]
    ]
  ]
