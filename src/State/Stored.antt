-- ===== src/State/Stored.antt =====
-- What PutTelemetry does to the store, for a telemetry that names its site.
use vpp_lab.Prelude.{String, false, Option, ◌≡◌, refl, ◌==◌, Option-cases, inl, inr}
use vpp_lab.Prelude.Dict.{insert}
use vpp_lab.Model.{Telemetry}
use vpp_lab.State.{
  Store, state_key, resolve_site, persist_telemetry, store_telemetry, put_telemetry,
}

module _ {R : Type 0} (marshal : Telemetry R → Option String) where
  -- The store with another map of telemetry and another copy in the server.
  pub record IsStored (t : Telemetry R) (s s' : Store R) : Type 0 where
    pub telemetry : s'.telemetry ≡ insert (state_key t.site_id t.device_id) t s.telemetry
    pub devices : s'.devices ≡ s.devices
    pub commands : s'.commands ≡ s.commands
    pub events : s'.events ≡ s.events

  persist_telemetry-IsStored :
      (t : Telemetry R) (s s' : Store R)
      → IsStored t s s'
      → IsStored t s (persist_telemetry marshal t s')
  unfolding persist_telemetry
  persist_telemetry-IsStored t s s' h = elim (Option-cases s'.redis) [
    | inl e ↦ rw (e, persist_telemetry) h
    | inr (r, e) ↦
        rw (e, persist_telemetry)
          (record {
            telemetry = h.telemetry;
            devices = h.devices;
            commands = h.commands;
            events = h.events;
          })
  ]

  pub put_telemetry-IsStored :
      (t : Telemetry R) (s : Store R)
      → (t.site_id == "") ≡ false
      → IsStored t s (put_telemetry marshal t s)
  unfolding put_telemetry store_telemetry resolve_site
  put_telemetry-IsStored t s h = rw (h) (
      persist_telemetry-IsStored t s (store_telemetry t s)
        (record { telemetry = refl; devices = refl; commands = refl; events = refl }))
