-- ===== src/Api/Authorized.antt =====
-- The handlers: without the control token they change nothing; the policy stays valid; a command goes
-- out only with an answer that says so.
use vpp_lab.Prelude.{
  ℕ, String, Bool, true, false, Option, none, some, ◌∷◌, ◌≡◌, refl, sym, subst, ◌∙◌,
}
use vpp_lab.Prelude.Float.{Float}
use vpp_lab.Prelude.Clock.{Time, Duration}
use vpp_lab.Model.{Device}
use vpp_lab.Scheduler
use vpp_lab.State
use vpp_lab.Topic.{command}
use vpp_lab.Mqtt.{Codec, Client, PublishError}
use vpp_lab.Mqtt.Publish.{published}
use vpp_lab.Api.{Route, Request, Body, Server, Io, Result, allowed}
use vpp_lab.Api.Control
use vpp_lab.Api.Handlers.{handle}
use vpp_lab.Api.Effects.{Effect, kept, policy_set, device_put, commanded, handle-Effect}

module _ {R Bytes Db : Type 0} ⦃F : Float R⦄ (zone : Duration) (codec : Codec R Bytes)
    (takes : String → Bytes → Bool) (io : Io R Bytes) (clock : ℕ → Time) where
  unauthorized :
      (r : Request Bytes) (s : Server R Bytes Db) (result : Result R Bytes Db)
      → Effect zone codec takes io clock r s result
      → allowed r s ≡ false
      → result.1 ≡ s
  unauthorized r s _ (kept response) denied = refl
  unauthorized r s _ (policy_set p ok valid) denied = absurd (cc (sym ok ∙ denied))
  unauthorized r s _ (device_put d s' ok i t stored state sent sch) denied =
      absurd (cc (sym ok ∙ denied))
  unauthorized r s _ (commanded site id d cmd body ok found) denied = absurd (cc (sym ok ∙ denied))

  -- The handler of a request without the control token, where the server has one, changes nothing,
  -- whatever its route.
  pub handle-unauthorized :
      (route : Route) (r : Request Bytes) (s : Server R Bytes Db)
      → allowed r s ≡ false
      → (handle zone codec takes io clock route r s).1 ≡ s
  handle-unauthorized route r s =
      unauthorized r s (handle zone codec takes io clock route r s)
        (handle-Effect zone codec takes io clock route r s)

  scheduler-published :
      (body : Body R) (s : Server R Bytes Db) (p : Option PublishError × Client R Bytes Db)
      → (Control.published io body s p).1.scheduler ≡ s.scheduler
  unfolding Control.published
  scheduler-published body s (none, c) = refl
  scheduler-published body s (some err, c) = refl

  policy_valid :
      (r : Request Bytes) (s : Server R Bytes Db) (result : Result R Bytes Db)
      → Effect zone codec takes io clock r s result
      → Scheduler.validate_policy s.scheduler.policy ≡ none
      → Scheduler.validate_policy result.1.scheduler.policy ≡ none
  unfolding Control.put_device Control.with_store Scheduler.set_policy
  policy_valid r s _ (kept response) h = h
  policy_valid r s _ (policy_set p ok valid) h = valid
  policy_valid r s _ (device_put d s' ok i t stored state sent sch) h =
      subst (λ x. Scheduler.validate_policy x.policy ≡ none) (sym sch) h
  policy_valid r s _ (commanded site id d cmd body ok found) h =
      subst (λ x. Scheduler.validate_policy x.policy ≡ none)
        (sym (scheduler-published body s (Control.publish zone codec takes io clock site d cmd s)))
        h

  -- No request makes the policy of the scheduler one that ValidatePolicy refuses, if it was not before.
  pub handle-policy_valid :
      (route : Route) (r : Request Bytes) (s : Server R Bytes Db)
      → Scheduler.validate_policy s.scheduler.policy ≡ none
      → Scheduler.validate_policy (handle zone codec takes io clock route r s).1.scheduler.policy
        ≡ none
  handle-policy_valid route r s =
      policy_valid r s (handle zone codec takes io clock route r s)
        (handle-Effect zone codec takes io clock route r s)

  -- What the broker took in the course of a request.
  pub data Sent (r : Request Bytes) (s : Server R Bytes Db) (result : Result R Bytes Db)
      : Type 0 where
    nothing : result.1.publisher.sent ≡ s.publisher.sent → Sent r s result
    one :
        (site id : String) (d : Device R) (payload : Bytes) (body : Body R)
        → allowed r s ≡ true
        → State.device_in_site site id s.publisher.state ≡ some d
        → result.1.publisher.sent ≡ (command site d.type d.id, payload) ∷ s.publisher.sent
        → result.0 ≡ some (record { status = 202; body = body })
        → Sent r s result
