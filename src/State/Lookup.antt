-- ===== src/State/Lookup.antt =====
-- Which device the store finds: by site and id, and by an id alone.
use Prim.Native.String.{◌++◌}
use text.Mathlib.TextLemmas.{append_cancel_left, cons-append, nil-append}
use mathlib.Core.List.{head-eq_of_cons-eq}
use vpp_lab.Prelude.{
  ℕ, suc, String, Bool, Option, none, some, List, [], ◌∷◌, ◌≡◌, refl, sym, ap, ◌∙◌, ◌==◌, eq_iff,
  arith, if◌then◌else◌, keep, Avoids, split, split-append, Bool-cases, inl, inr,
}
use vpp_lab.Prelude.Dict.{lookup-insert, values}
use vpp_lab.Prelude.Clock.{Time, is_zero}
use vpp_lab.Model.{Device}
use vpp_lab.State.{
  Store, state_key, stamp, upsert_device, device_in_site, device_scan, only_one,
  device_by_id_locked, device,
}

split-state_key :
    (site id : String) → Avoids 0 site → split 0 (state_key site id) ≡ site ∷ split 0 id
unfolding state_key
split-state_key site id h =
    ap (λ t. split 0 (site ++ t))
      (cons-append "\0" String.[] id ∙ ap (String.◌∷◌ "\0") (nil-append id))
    ∙ split-append 0 "\0" site id refl h

-- Two pairs of a site without NUL and an id have the same key only if they are the same pair.
pub state_key-injective :
    (site id other_site other_id : String)
    → Avoids 0 site
    → Avoids 0 other_site
    → state_key site id ≡ state_key other_site other_id
    → (site ≡ other_site) × (id ≡ other_id)
unfolding state_key
state_key-injective site id other_site other_id h k e =
    (same, append_cancel_left "\0" id other_id (append_cancel_left site _ _ (rw (← same) at e)))
  where
    same : site ≡ other_site
    same =
        head-eq_of_cons-eq
          (sym (split-state_key site id h) ∙ ap (split 0) e ∙ split-state_key other_site other_id k)

module _ {R : Type 0} where
  -- The device with the clock's time as its time of creation, where it has none.
  abbrev pub created : Time → Device R → Device R
  created now d = record d { created_at = if is_zero d.created_at then now else d.created_at }

  stamp_lem : (now : Time) (d : Device R) → stamp now d ≡ created now d
  unfolding stamp
  stamp_lem now d = elim (Bool-cases (is_zero d.created_at)) [
    | inl e ↦ rw e refl
    | inr e ↦ rw e refl
  ]

  -- After an upsert the store finds that device, its time of creation the clock's where it had none, at
  -- its site and id, and at any other site and id what it found before, if no site has a NUL in it.
  pub device_in_site-upsert_device :
      (now : Time) (d : Device R) (s : Store R) (site id : String)
      → Avoids 0 d.site_id
      → Avoids 0 site
      → device_in_site site id (upsert_device now d s) ≡ (
          if d.site_id == site
          then if d.id == id then some (created now d) else device_in_site site id s
          else device_in_site site id s)
  unfolding device_in_site upsert_device
  device_in_site-upsert_device now d s site id h k = ground (
    arith,
    lookup-insert (state_key d.site_id d.id) (state_key site id) (stamp now d) s.devices,
    stamp_lem now d,
    eq_iff d.site_id site,
    eq_iff d.id id,
    eq_iff (state_key d.site_id d.id) (state_key site id),
    state_key-injective d.site_id d.id site id h k,
  )

  -- The only element of a list of one.
  abbrev pub single : List (Device R) → Option (Device R)
  single [] = none
  single (d ∷ []) = some d
  single (d ∷ e ∷ ds) = none

  abbrev pub has_id : String → Device R → Bool
  has_id id d = d.id == id

  scan_many :
      (id : String) (ds : List (Device R)) (f : Option (Device R)) (m : ℕ)
      → only_one (device_scan id ds f (suc (suc m))) ≡ none
  unfolding only_one device_scan
  scan_many id [] f m = ground arith
  scan_many id (d ∷ ds) f m = elim (Bool-cases (d.id == id)) [
    | inl e ↦ rw (e, device_scan) (scan_many id ds (some d) (suc m))
    | inr e ↦ rw (e, device_scan) (scan_many id ds f m)
  ]

  scan_once :
      (id : String) (ds : List (Device R)) (d : Device R)
      → only_one (device_scan id ds (some d) 1) ≡ single (d ∷ keep (has_id id) ds)
  unfolding only_one device_scan keep
  scan_once id [] d = refl
  scan_once id (e ∷ ds) d = elim (Bool-cases (e.id == id)) [
    | inl p ↦ rw (p, device_scan) (scan_many id ds (some e) 0)
    | inr p ↦ rw (p, device_scan) (scan_once id ds d)
  ]

  scan_none :
      (id : String) (ds : List (Device R))
      → only_one (device_scan id ds none 0) ≡ single (keep (has_id id) ds)
  unfolding only_one device_scan keep
  scan_none id [] = refl
  scan_none id (e ∷ ds) = elim (Bool-cases (e.id == id)) [
    | inl p ↦ rw (p, device_scan) (scan_once id ds e)
    | inr p ↦ rw (p, device_scan) (scan_none id ds)
  ]

  -- Device finds a device by its id alone exactly when one device of the store has that id, whatever
  -- the order in which the map is visited.
  pub device-eq-single :
      (id : String) (s : Store R) → device id s ≡ single (keep (has_id id) (values s.devices))
  unfolding device device_by_id_locked
  device-eq-single id s = scan_none id (values s.devices)
