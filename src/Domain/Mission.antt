-- ===== src/Domain/Mission.antt =====
-- packages/domain/src/mission.ts: the states of a mission and the table of its transitions. The
-- lookup of a `from` outside the table (`undefined`) cannot arise for a value of the type.
pub mod Lifecycle
use koven.Prelude.{
  ℤ, String, ℕ, zero, suc, ◌≡◌, refl, ap, ◌∙◌, sym, Bool, true, false, ◌||◌, ◌↔◌, List, [], ◌∷◌,
  arith, eqb,
}

pub data MissionState : Type 0 where
  created discovering_services credit_requested funded payment_preparation : MissionState
  payment_authorized service_paid running completed repayment_pending : MissionState
  repaid policy_rejected recovery failed defaulted closed : MissionState

-- `MISSION_STATES`.
abbrev pub mission_states : List MissionState
mission_states =
    created ∷ discovering_services ∷ credit_requested ∷ funded ∷ payment_preparation
    ∷ payment_authorized ∷ service_paid ∷ running ∷ completed ∷ repayment_pending ∷ repaid
    ∷ policy_rejected ∷ recovery ∷ failed ∷ defaulted ∷ closed ∷ []

-- The position of a state in `mission_states`, by which two states are compared.
abbrev position : MissionState → ℕ
position created = 0
position discovering_services = 1
position credit_requested = 2
position funded = 3
position payment_preparation = 4
position payment_authorized = 5
position service_paid = 6
position running = 7
position completed = 8
position repayment_pending = 9
position repaid = 10
position policy_rejected = 11
position recovery = 12
position failed = 13
position defaulted = 14
position closed = 15

abbrev at : List MissionState → ℕ → MissionState
at [] n = created
at (s ∷ ss) zero = s
at (s ∷ ss) (suc n) = at ss n

at-position : (s : MissionState) → at mission_states (position s) ≡ s
at-position created = refl
at-position _ = refl

-- `===` on states.
unfoldable pub same_state : MissionState → MissionState → Bool
unfolding position
same_state s t = eqb (position s) (position t)

pub same_state_iff : (s t : MissionState) → (same_state s t ≡ true) ↔ (s ≡ t)
unfolding same_state
same_state_iff s t = (
  λ e.
      let p : position s ≡ position t = ground arith in
      sym (at-position s) ∙ ap (at mission_states) p ∙ at-position t,
  λ e. ground arith,
)

-- `Array.prototype.includes`.
abbrev pub includes : List MissionState → MissionState → Bool
includes [] t = false
includes (s ∷ ss) t = same_state s t || includes ss t

abbrev pub allowed_transitions : MissionState → List MissionState
allowed_transitions created = discovering_services ∷ failed ∷ []
allowed_transitions discovering_services = payment_preparation ∷ credit_requested ∷ failed ∷ []
allowed_transitions credit_requested = funded ∷ failed ∷ []
allowed_transitions funded = payment_preparation ∷ failed ∷ []
allowed_transitions payment_preparation = payment_authorized ∷ policy_rejected ∷ failed ∷ []
allowed_transitions payment_authorized = service_paid ∷ failed ∷ []
allowed_transitions service_paid = running ∷ failed ∷ []
allowed_transitions running = completed ∷ failed ∷ []
allowed_transitions completed = repayment_pending ∷ closed ∷ []
allowed_transitions repayment_pending = repaid ∷ defaulted ∷ []
allowed_transitions repaid = closed ∷ []
allowed_transitions policy_rejected = recovery ∷ []
allowed_transitions recovery = repayment_pending ∷ defaulted ∷ closed ∷ []
allowed_transitions failed = recovery ∷ repayment_pending ∷ defaulted ∷ closed ∷ []
allowed_transitions defaulted = []
allowed_transitions closed = []

-- The test of `assertTransition`.
unfoldable pub is_allowed : MissionState → MissionState → Bool
unfolding same_state
is_allowed from to = includes (allowed_transitions from) to

pub record Mission : Type 0 where
  pub id : String
  pub state : MissionState
  pub spending_cap_tinybar : ℤ
  pub spent_tinybar : ℤ
  pub approved_recipients_root : String
  pub target_ref : String
  pub target_sha256 : String
  pub created_at : String
  pub updated_at : String
