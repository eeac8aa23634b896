-- ===== src/Startup/Succeeds.antt =====
-- The server starts where its database and Redis answer, its keys parse and its files of TLS load.
use vpp_lab.Prelude.{
  String, true, Option, none, some, List, [], ◌∷◌, ◌≡◌, refl, ap, subst, ◌==◌, inr, Bool-cases, inl,
}
use vpp_lab.Prelude.Float.{Float}
use vpp_lab.Prelude.Clock.{Time}
use vpp_lab.Model.{Device, Telemetry}
use vpp_lab.Config.{Config}
use vpp_lab.State.{Redis, Store, new_redis_store}
use vpp_lab.Repository.{Columns, Database, upsert}
use vpp_lab.Repository.Queries.{list, list_commands, list_events}
use vpp_lab.Timeseries.{Writer}
use vpp_lab.DeviceAuth.{Keys}
use vpp_lab.DeviceAuth.Parse.{parse_keys}
use vpp_lab.Mqtt.Tls.{Files, RootsLoad, PairLoads, new_tls_config-inr}
use vpp_lab.Startup.{
  new_state_store, seeds, save_all, or_seed, load_or_seed_devices, load_recent_commands,
  load_recent_events, then_some, right_of, tls_files, start,
}

-- There is a value.
abbrev pub IsSome {ℓ} : {A : Type ℓ} → Option A → Type ℓ
IsSome {A = A} o = (a : A) × (o ≡ some a)

one_value {ℓ} : {A : Type ℓ} {o : Option A} {a b : A} → o ≡ some a → o ≡ some b → a ≡ b
one_value h k = cc (h, k)

then_some-IsSome {ℓ κ} :
    {A : Type ℓ} {B : Type κ} (o : Option A) (f : A → Option B)
    → IsSome o
    → ((a : A) → o ≡ some a → IsSome (f a))
    → IsSome (then_some o f)
unfolding then_some
then_some-IsSome none f (a, e) h = absurd (cc e)
then_some-IsSome (some a) f e h = h a refl

module _ {R : Type 0} (db : Columns R) where
  save_all-IsSome :
      (now : Time) (ds : List (Device R)) (s : Database R)
      → s.reachable ≡ true
      → (s' : Database R) × (save_all db now ds s ≡ some s') × (s'.reachable ≡ true)
  unfolding save_all upsert
  save_all-IsSome now [] s h = (s, refl, h)
  save_all-IsSome now (d ∷ ds) s h = rw (h, save_all) (save_all-IsSome now ds _ refl)

  -- The queries of a database that answers.
  commands-IsSome :
      (s : Database R) (store : Store R)
      → s.reachable ≡ true
      → IsSome (load_recent_commands db s store)
  unfolding load_recent_commands list_commands
  commands-IsSome s store h = rw (h, load_recent_commands) (_, refl)

  events-IsSome :
      (s : Database R) (store : Store R)
      → s.reachable ≡ true
      → IsSome (load_recent_events db s store)
  unfolding load_recent_events list_events
  events-IsSome s store h = rw (h, load_recent_events) (_, refl)

-- Devices are loaded or seeded, and the database still answers.
abbrev IsLoaded : {R : Type 0} → Option (Database R × Store R) → Type 0
IsLoaded {R = R} o =
    (loaded : Database R × Store R) × (o ≡ some loaded) × (loaded.0.reachable ≡ true)

module _ {R : Type 0} ⦃F : Float R⦄ (db : Columns R) where
  or_seed-IsLoaded :
      (now : Time) (site : String) (ds : List (Device R)) (s : Database R) (store : Store R)
      → s.reachable ≡ true
      → IsLoaded (or_seed db now site ds s store)
  unfolding or_seed
  or_seed-IsLoaded now site (d ∷ ds) s store h = (_, refl, h)
  or_seed-IsLoaded now site [] s store h =
      let (s', e, r) = save_all-IsSome db now (seeds site) s h in rw (e, or_seed) (_, refl, r)

  load-IsLoaded :
      (now : Time) (site : String) (s : Database R) (store : Store R)
      → s.reachable ≡ true
      → IsLoaded (load_or_seed_devices db now site s store)
  unfolding load_or_seed_devices list
  load-IsLoaded now site s store h =
      rw (h, load_or_seed_devices) (or_seed-IsLoaded now site _ s store h)

module _ {R : Type 0} (unmarshal : String → Option (Telemetry R)) where
  store-IsSome :
      (cfg : Config R) (redis : Redis)
      → redis.reachable ≡ true
      → IsSome (new_state_store unmarshal cfg redis)
  unfolding new_state_store new_redis_store
  store-IsSome cfg redis h = elim (Bool-cases (cfg.redis_addr == "")) [
    | inl e ↦ rw e (_, refl)
    | inr e ↦ rw e (rw (h, new_redis_store) (_, refl))
  ]

module _ {R Bytes Pem Pool Certificate : Type 0} ⦃F : Float R⦄
    (unmarshal : String → Option (Telemetry R)) (db : Columns R)
    (files : Files Pem Pool Certificate) where
  pub start-IsSome :
      (now : Time) (cfg : Config R) (redis : Redis) (ts : Writer R) (s : Database R) (keys : Keys)
      → redis.reachable ≡ true
      → s.reachable ≡ true
      → parse_keys cfg.device_keys ≡ inr keys
      → RootsLoad files cfg.mqtt_tls_ca_file
      → PairLoads files cfg.mqtt_tls_cert_file cfg.mqtt_tls_key_file
      → IsSome (start {Bytes = Bytes} unmarshal db files now cfg redis ts s)
  unfolding start
  start-IsSome now cfg redis ts s keys r d k ca certificate =
      then_some-IsSome _ _ (store-IsSome unmarshal cfg redis r) (λ store e0.
        let (loaded, e1, up) = load-IsLoaded db now cfg.site_id s store d in
        then_some-IsSome _ _ (loaded, e1)
          (λ loaded' e1'.
            let up' : loaded'.0.reachable ≡ true =
              subst (λ l. l.0.reachable ≡ true) (one_value e1 e1') up in
            then_some-IsSome _ _ (commands-IsSome db loaded'.0 loaded'.1 up') (λ with_commands e2.
              then_some-IsSome _ _ (events-IsSome db loaded'.0 with_commands up') (λ with_events e3.
                then_some-IsSome _ _ (keys, ap right_of k)
                  (λ keys' e4.
                    let (tls, e5) = new_tls_config-inr files (tls_files cfg) ca certificate in
                    then_some-IsSome _ _ (tls, ap right_of e5) (λ tls' e6. (_, refl)))))))
