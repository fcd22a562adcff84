-- ===== src/Readiness.antt =====
-- internal/transport/http/probe/readiness.go: whether the process is ready.
use kenshu_elaris_project_gu.Prelude.{Bool, false, if◌then◌else◌, not, refl, true, ◌↔◌, ◌≡◌}

-- What a service answers to `/healthz`: nothing, a status that is an error, or any other.
pub data Health : Type 0 where
  silent unhealthy healthy : Health

pub data Status : Type 0 where
  status_ok service_unavailable : Status

-- `pingHealthz`, whether it returns nil
unfoldable pub ping_healthz : Health → Bool
ping_healthz silent = false
ping_healthz unhealthy = false
ping_healthz healthy = true

-- The handler of `ReadinessHandler`, given whether the connection is open and Redis answers a ping.
unfoldable pub readiness_handler : Bool → Bool → Health → Health → Status
readiness_handler connection ping cottage guest =
    if not connection
    then service_unavailable
    else if not ping
    then service_unavailable
    else if not (ping_healthz cottage)
    then service_unavailable
    else if not (ping_healthz guest)
    then service_unavailable
    else status_ok

-- The process is ready exactly if all four answer.
readiness_handler_lem :
    (connection ping : Bool) (cottage guest : Health)
    → (readiness_handler connection ping cottage guest ≡ status_ok)
      ↔ ((connection ≡ true) × (ping ≡ true) × (cottage ≡ healthy) × (guest ≡ healthy))
unfolding readiness_handler ping_healthz
readiness_handler_lem false ping cottage guest = ((λ h. cc), (λ (h, _, _, _). cc))
readiness_handler_lem true false cottage guest = ((λ h. cc), (λ (_, h, _, _). cc))
readiness_handler_lem true true silent guest = ((λ h. cc), (λ (_, _, h, _). cc))
readiness_handler_lem true true unhealthy guest = ((λ h. cc), (λ (_, _, h, _). cc))
readiness_handler_lem true true healthy silent = ((λ h. cc), (λ (_, _, _, h). cc))
readiness_handler_lem true true healthy unhealthy = ((λ h. cc), (λ (_, _, _, h). cc))
readiness_handler_lem true true healthy healthy = ((λ _. (refl, refl, refl, refl)), (λ _. refl))
