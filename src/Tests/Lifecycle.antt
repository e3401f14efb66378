-- ===== src/Tests/Lifecycle.antt =====
-- Lives of a mission.
use koven.Prelude.{◌≡◌, refl, ◌≤◌, List, [], ◌∷◌, true, false, length}
use koven.Domain.Mission.{
  MissionState, created, discovering_services, payment_preparation, payment_authorized,
  service_paid, running, completed, closed, is_allowed, includes,
}
use koven.Domain.Mission.Lifecycle.{is_life, end, life_bounded, completed_paid, can_close}

abbrev delivered : List MissionState
delivered =
    discovering_services ∷ payment_preparation ∷ payment_authorized ∷ service_paid ∷ running
    ∷ completed ∷ []

life_bounded_example : length delivered ≤ 12
unfolding is_allowed
life_bounded_example = life_bounded created delivered refl

completed_paid_example :
    (includes delivered payment_authorized ≡ true) × (includes delivered service_paid ≡ true)
unfolding is_allowed
completed_paid_example = completed_paid delivered refl refl

can_close_example :
    (ts : List MissionState) × (is_life running ts ≡ true) × (end running ts ≡ closed)
can_close_example = can_close running (λ e. cc)

no_shortcut : is_life created (discovering_services ∷ service_paid ∷ []) ≡ false
unfolding is_allowed
no_shortcut = refl
