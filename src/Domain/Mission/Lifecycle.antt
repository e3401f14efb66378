-- ===== src/Domain/Mission/Lifecycle.antt =====
-- What the transition table of packages/domain/src/mission.ts allows over whole lives of a mission. A life is the
-- list of the states that a mission goes to, one `assertTransition` after another.
use koven.Prelude.{
  ℕ, ◌+◌, ◌≤◌, ◌<◌, ◌≡◌, refl, ◌⊎◌, inl, inr, ◌↔◌, Bool, true, false, ◌&&◌, List, [], ◌∷◌, arith,
  length, ◌≢◌, Bool-cases,
}
use koven.Domain.Mission.{
  MissionState, created, discovering_services, credit_requested, funded, payment_preparation,
  payment_authorized, service_paid, running, completed, repayment_pending, repaid, policy_rejected,
  recovery, failed, defaulted, closed, includes, same_state, is_allowed,
}

abbrev pub is_life : MissionState → List MissionState → Bool
is_life s [] = true
is_life s (t ∷ ts) = is_allowed s t && is_life t ts

-- The state that a life ends in.
abbrev pub end : MissionState → List MissionState → MissionState
end s [] = s
end s (t ∷ ts) = end t ts

-- How far along a state is.
abbrev rank : MissionState → ℕ
rank created = 0
rank discovering_services = 1
rank credit_requested = 2
rank funded = 3
rank payment_preparation = 4
rank payment_authorized = 5
rank service_paid = 6
rank running = 7
rank completed = 8
rank policy_rejected = 8
rank failed = 8
rank recovery = 9
rank repayment_pending = 10
rank repaid = 11
rank defaulted = 12
rank closed = 12

rank_grows : (s t : MissionState) → is_allowed s t ≡ true → rank s < rank t
unfolding is_allowed
rank_grows created t h = ground arith
rank_grows _ t h = ground arith

rank_bounded : (s : MissionState) → rank s ≤ 12
rank_bounded created = omega arith
rank_bounded _ = omega arith

length-le-rank :
    (s : MissionState) (ts : List MissionState)
    → is_life s ts ≡ true
    → length ts + rank s ≤ rank (end s ts)
length-le-rank s [] h = omega arith
length-le-rank s (t ∷ ts) h = ground (arith, rank_grows s t, length-le-rank t ts)

-- A mission changes state at most twelve times, whatever happens to it: the table has no cycle.
pub life_bounded :
    (s : MissionState) (ts : List MissionState) → is_life s ts ≡ true → length ts ≤ 12
life_bounded s ts h = omega (arith, length-le-rank s ts h, rank_bounded (end s ts))

-- A set of states that is entered only through `gate`.
abbrev IsGuarded : (MissionState → Bool) → MissionState → Type 0
IsGuarded inside gate =
    (s t : MissionState)
    → is_allowed s t ≡ true
    → inside t ≡ true
    → (inside s ≡ true) ⊎ (same_state t gate ≡ true)

gate_passed :
    (inside : MissionState → Bool) (gate : MissionState)
    → IsGuarded inside gate
    → (s : MissionState) (ts : List MissionState) → is_life s ts ≡ true
    → inside s ≡ false
    → inside (end s ts) ≡ true
    → includes ts gate ≡ true
gate_passed inside gate g s [] h o e = cc
gate_passed inside gate g s (t ∷ ts) h o e = elim (Bool-cases (inside t)) [
  | inl i ↦ ground (arith, g s t)
  | inr i ↦ ground (arith, gate_passed inside gate g t ts)
]

-- The states in which the service has been paid for and no failure has happened.
abbrev is_paid : MissionState → Bool
is_paid service_paid = true
is_paid running = true
is_paid completed = true
is_paid _ = false

abbrev is_authorized : MissionState → Bool
is_authorized payment_authorized = true
is_authorized service_paid = true
is_authorized running = true
is_authorized completed = true
is_authorized _ = false

is_paid-IsGuarded : IsGuarded is_paid service_paid
unfolding is_allowed
is_paid-IsGuarded created t h i = ground arith
is_paid-IsGuarded _ t h i = ground arith

is_authorized-IsGuarded : IsGuarded is_authorized payment_authorized
unfolding is_allowed
is_authorized-IsGuarded created t h i = ground arith
is_authorized-IsGuarded _ t h i = ground arith

-- A mission that ends its life completed has had its payment authorized and has paid the service.
pub completed_paid :
    (ts : List MissionState)
    → is_life created ts ≡ true
    → end created ts ≡ completed
    → (includes ts payment_authorized ≡ true) × (includes ts service_paid ≡ true)
completed_paid ts h e = (
  gate_passed is_authorized payment_authorized is_authorized-IsGuarded created ts h refl (rw e),
  gate_passed is_paid service_paid is_paid-IsGuarded created ts h refl (rw e),
)

-- The states from which no transition is allowed are `defaulted` and `closed`.
pub terminal_iff :
    (s : MissionState)
    → ((t : MissionState) → is_allowed s t ≡ false) ↔ ((s ≡ defaulted) ⊎ (s ≡ closed))
unfolding is_allowed
terminal_iff created = (λ h. ground (arith, h failed), λ e t. ground arith)
terminal_iff policy_rejected = (λ h. ground (arith, h recovery), λ e t. ground arith)
terminal_iff completed = (λ h. ground (arith, h closed), λ e t. ground arith)
terminal_iff repayment_pending = (λ h. ground (arith, h repaid), λ e t. ground arith)
terminal_iff repaid = (λ h. ground (arith, h closed), λ e t. ground arith)
terminal_iff recovery = (λ h. ground (arith, h closed), λ e t. ground arith)
terminal_iff defaulted = (λ h. inl refl, λ e t. refl)
terminal_iff closed = (λ h. inr refl, λ e t. refl)
terminal_iff _ = (λ h. ground (arith, h failed, h closed), λ e t. ground arith)

-- A way to `closed`.
abbrev way_home : MissionState → List MissionState
way_home closed = []
way_home repaid = closed ∷ []
way_home repayment_pending = repaid ∷ closed ∷ []
way_home policy_rejected = recovery ∷ closed ∷ []
way_home completed = closed ∷ []
way_home recovery = closed ∷ []
way_home failed = closed ∷ []
way_home _ = failed ∷ closed ∷ []

-- A mission can be closed from every state but `defaulted`.
pub can_close :
    (s : MissionState)
    → s ≢ defaulted
    → (ts : List MissionState) × (is_life s ts ≡ true) × (end s ts ≡ closed)
unfolding is_allowed
can_close defaulted h = absurd (h refl)
can_close created h = (way_home created, refl, refl)
can_close s h = (way_home s, refl, refl)
