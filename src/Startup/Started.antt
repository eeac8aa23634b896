-- ===== src/Startup/Started.antt =====
-- What the server starts with, and when it does.
use vpp_lab.Prelude.{
  ℕ, String, Option, none, some, List, ◌≡◌, refl, sym, ap, subst, ◌∙◌, ◌⊎◌, inl, inr, ◌≤◌, arith,
  length, trim_space,
}
use vpp_lab.Prelude.Int.{pos}
use vpp_lab.Prelude.Float.{Float}
use vpp_lab.Prelude.Clock.{Time}
use vpp_lab.Model.{Telemetry, CommandRecord, DeviceEvent}
use vpp_lab.Config.{Config}
use vpp_lab.State.{Redis, Store, cut, kept, set_commands, set_events}
use vpp_lab.Repository.{Columns, Database}
use vpp_lab.Repository.Queries.{list_commands, list_events}
use vpp_lab.Repository.Lists.{list_commands-IsNewest, length-list_events}
use vpp_lab.Timeseries.{Writer}
use vpp_lab.DeviceAuth.{Keys}
use vpp_lab.DeviceAuth.Parse.{KeyError, parse_keys, IsKeys, parse_keys-IsKeys}
use vpp_lab.Mqtt.Tls.{Files, TlsConfig}
use vpp_lab.Api.{Server, with_control_token}
use vpp_lab.Startup.{
  load_recent_commands, load_recent_events, then_some, new_client, new_server, right_of, start,
}

then_some_inv {ℓ κ} :
    {A : Type ℓ} {B : Type κ} (o : Option A) (f : A → Option B) (b : B)
    → then_some o f ≡ some b
    → (a : A) × (o ≡ some a) × (f a ≡ some b)
unfolding then_some
then_some_inv none f b e = absurd (cc e)
then_some_inv (some a) f b e = (a, refl, e)

cut_short {ℓ} : {A : Type ℓ} (n : ℕ) (xs : List A) → length xs ≤ n → cut n xs ≡ xs
unfolding cut
cut_short n xs h = ground arith

some_inj {ℓ} : {A : Type ℓ} {a b : A} → some a ≡ some b → a ≡ b
some_inj e = cc e

module _ {R : Type 0} where
  commands_lem :
      (o : Option (List (CommandRecord R))) (store store' : Store R)
      → ((out : List (CommandRecord R)) → o ≡ some out → length out ≤ kept)
      → (elim o [ none ↦ none | some commands ↦ some (set_commands commands store) ]) ≡ some store'
      → o ≡ some store'.commands
  unfolding set_commands
  commands_lem none store store' h e = absurd (cc e)
  commands_lem (some out) store store' h e =
      ap some (sym (cut_short kept out (h out refl)) ∙ ap (λ s. s.commands) (some_inj e))

  events_lem :
      (o : Option (List (DeviceEvent R))) (store store' : Store R)
      → ((out : List (DeviceEvent R)) → o ≡ some out → length out ≤ kept)
      → (elim o [ none ↦ none | some events ↦ some (set_events events store) ]) ≡ some store'
      → (o ≡ some store'.events) × (store'.commands ≡ store.commands)
  unfolding set_events
  events_lem none store store' h e = absurd (cc e)
  events_lem (some out) store store' h e = (
    ap some (sym (cut_short kept out (h out refl)) ∙ ap (λ s. s.events) (some_inj e)),
    ap (λ s. s.commands) (sym (some_inj e)),
  )

module _ {R : Type 0} (db : Columns R) where
  loaded_commands :
      (s : Database R) (store store' : Store R)
      → load_recent_commands db s store ≡ some store'
      → list_commands db (pos 200) s ≡ some store'.commands
  unfolding load_recent_commands
  loaded_commands s store store' e =
      commands_lem (list_commands db (pos 200) s) store store'
        (λ out f. (list_commands-IsNewest db (pos 200) s out f).bounded) e

  loaded_events :
      (s : Database R) (store store' : Store R)
      → load_recent_events db s store ≡ some store'
      → (list_events db (pos 200) s ≡ some store'.events) × (store'.commands ≡ store.commands)
  unfolding load_recent_events
  loaded_events s store store' e =
      events_lem (list_events db (pos 200) s) store store'
        (λ out f. length-list_events db (pos 200) s out f) e

keys_lem : (raw : String) (keys : Keys) → right_of (parse_keys raw) ≡ some keys → IsKeys keys
keys_lem raw keys e = elim_keys (parse_keys raw) refl e
  where
    elim_keys : (o : KeyError ⊎ Keys) → parse_keys raw ≡ o → right_of o ≡ some keys → IsKeys keys
    elim_keys (inl err) h e = absurd (cc e)
    elim_keys (inr found) h e = subst IsKeys (some_inj e) (parse_keys-IsKeys raw found h)

module _ {R Bytes : Type 0} ⦃F : Float R⦄ (unmarshal : String → Option (Telemetry R))
    (db : Columns R) where
  -- The recent commands and events are those that the database lists, the keys are usable, and the token is
  -- that of the settings.
  pub record IsStarted (cfg : Config R) (server : Server R Bytes (Database R)) : Type 0 where
    pub commands :
        list_commands db (pos 200) server.publisher.database ≡ some server.publisher.state.commands
    pub events :
        list_events db (pos 200) server.publisher.database ≡ some server.publisher.state.events
    pub keys : IsKeys server.publisher.keys
    pub token : server.token ≡ trim_space cfg.control_token

  new_server-IsStarted :
      (cfg : Config R) (keys : Keys) (ts : Writer R) (s : Database R) (store : Store R)
      → list_commands db (pos 200) s ≡ some store.commands
      → list_events db (pos 200) s ≡ some store.events
      → IsKeys keys
      → IsStarted cfg (new_server db cfg (new_client db cfg keys ts s store))
  unfolding new_server new_client with_control_token
  new_server-IsStarted cfg keys ts s store c e k = record {
    commands = c;
    events = e;
    keys = k;
    token = refl;
  }

  -- A server that starts has as its recent commands and events those that the database lists, in that order,
  -- gives no device two keys, and takes as its control token that of the settings without white space.
  pub start-IsStarted :
      {Pem Pool Certificate : Type 0} (files : Files Pem Pool Certificate) (now : Time)
      (cfg : Config R) (redis : Redis) (ts : Writer R) (s : Database R)
      (server : Server R Bytes (Database R))
      → start unmarshal db files now cfg redis ts s ≡ some server
      → IsStarted cfg server
  unfolding start
  start-IsStarted {Pem} {Pool} {Certificate} files now cfg redis ts s server e =
      let (store, e0, f0) = then_some_inv {A = Store R} _ _ server e in
      let (loaded, e1, f1) = then_some_inv {A = Database R × Store R} _ _ server f0 in
      let (with_commands, e2, f2) = then_some_inv {A = Store R} _ _ server f1 in
      let (with_events, e3, f3) = then_some_inv {A = Store R} _ _ server f2 in
      let (keys, e4, f4) = then_some_inv {A = Keys} _ _ server f3 in
      let (tls, e5, f5) = then_some_inv {A = Option (TlsConfig Pool Certificate)} _ _ server f4 in
      let (listed, same) = loaded_events db loaded.0 with_commands with_events e3 in
      subst (IsStarted cfg) (some_inj f5) (
        new_server-IsStarted cfg keys ts loaded.0 with_events
          (loaded_commands db loaded.0 loaded.1 with_commands e2 ∙ ap some (sym same)) listed
          (keys_lem cfg.device_keys keys e4))
