-- ===== src/Topic/RoundTrip.antt =====
-- What topic.Parse gives for the topics that the package prints, and the other way round.
use Prim.Native.Char.{Char}
use Prim.Native.String.{◌++◌}
use text.Mathlib.TextLemmas.{cons-append, nil-append, append_assoc}
use vpp_lab.Prelude.{
  String, List, [], ◌∷◌, some, ◌≡◌, refl, ap, arith, eq_iff, length, ◌≤◌, join-split, split, join,
  Avoids, split-append, ◌∙◌,
}
use vpp_lab.Topic.{Parsed, telemetry, command, from_parts, parse}

abbrev pub NoSlash : String → Type 0
NoSlash = Avoids b'/'

-- A segment with no slash, followed by one, is the first part.
segment : (s t : String) → NoSlash s → split b'/' (s ++ ("/" ++ t)) ≡ s ∷ split b'/' t
segment s t a =
    ap (λ u. split b'/' (s ++ u))
      (cons-append slash String.[] t ∙ ap (String.◌∷◌ slash) (nil-append t))
    ∙ split-append b'/' slash s t refl a
  where
    slash : Char
    slash = "/"

-- The five parts of a printed topic, whatever stands last.
pub printed-split :
    (site type device kind : String)
    → NoSlash site
    → NoSlash type
    → NoSlash device
    → split b'/' ("vpp/" ++ (site ++ ("/" ++ (type ++ ("/" ++ (device ++ ("/" ++ kind)))))))
      ≡ "vpp" ∷ site ∷ type ∷ device ∷ split b'/' kind
printed-split site type device kind s t d =
    ap (split b'/') (append_assoc "vpp" "/" _)
    ∙ rw (segment "vpp" _ (refl, (refl, (refl, tt))))
        (rw (segment site _ s) (rw (segment type _ t) (rw (segment device _ d))))

-- A topic printed by Telemetry parses to its three names, none of which has a slash in it.
pub parse-telemetry :
    (site type device : String)
    → NoSlash site
    → NoSlash type
    → NoSlash device
    → parse (telemetry site type device)
      ≡ some (record { site_id = site; device_type = type; device_id = device; kind = "telemetry" })
unfolding parse telemetry
parse-telemetry site type device s t d =
    ap from_parts (printed-split site type device "telemetry" s t d)

-- A topic printed by Command parses to its three names, none of which has a slash in it.
pub parse-command :
    (site type device : String)
    → NoSlash site
    → NoSlash type
    → NoSlash device
    → parse (command site type device)
      ≡ some (record { site_id = site; device_type = type; device_id = device; kind = "command" })
unfolding parse command
parse-command site type device s t d =
    ap from_parts (printed-split site type device "command" s t d)

-- The topic that the fields of `p` make.
abbrev pub print : Parsed → String
print p = join "/" ("vpp" ∷ p.site_id ∷ p.device_type ∷ p.device_id ∷ p.kind ∷ [])

print-from_parts :
    (parts : List String) (p : Parsed)
    → length parts ≤ 6
    → from_parts parts ≡ some p
    → print p ≡ join "/" parts
unfolding from_parts join
print-from_parts (a ∷ b ∷ c ∷ d ∷ e ∷ []) p n h = ground (arith, eq_iff a "vpp")
print-from_parts (a ∷ b ∷ c ∷ d ∷ e ∷ f ∷ []) p n h = ground (arith, eq_iff a "vpp")
print-from_parts [] p n h = ground arith
print-from_parts (a ∷ []) p n h = ground arith
print-from_parts (a ∷ b ∷ []) p n h = ground arith
print-from_parts (a ∷ b ∷ c ∷ []) p n h = ground arith
print-from_parts (a ∷ b ∷ c ∷ d ∷ []) p n h = ground arith
print-from_parts (a ∷ b ∷ c ∷ d ∷ e ∷ f ∷ g ∷ r) p n h = absurd (omega arith)

-- A topic of at most six segments that parses is the text that its fields make.
pub print-parse :
    (t : String) (p : Parsed) → parse t ≡ some p → length (split b'/' t) ≤ 6 → print p ≡ t
unfolding parse
print-parse t p h n = print-from_parts (split b'/' t) p n h ∙ join-split "/" t
