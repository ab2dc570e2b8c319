-- ===== src/App/States.antt =====
-- The state machines of internal/githubapp/state.go. A transition gives the new state, or the old one
-- with an error.
pub mod Paths
use glassroot.Common.{
  ℕ, Bool, true, false, Option, none, some, List, [], ◌∷◌, any, if◌then◌else◌, ◌==◌,
}

pub data Code : Type 0 where
  invalid_state_transition : Code

pub data DeliveryState : Type 0 where
  received verified persisted enqueued ignored rejected : DeliveryState

-- Two states are equal if their numbers are.
abbrev pub delivery_number : DeliveryState → ℕ
delivery_number received = 0
delivery_number verified = 1
delivery_number persisted = 2
delivery_number enqueued = 3
delivery_number ignored = 4
delivery_number rejected = 5

abbrev pub same_delivery : DeliveryState → DeliveryState → Bool
same_delivery a b = delivery_number a == delivery_number b

abbrev pub delivery_terminal : DeliveryState → Bool
delivery_terminal enqueued = true
delivery_terminal ignored = true
delivery_terminal rejected = true
delivery_terminal _ = false

delivery_allowed : DeliveryState → List DeliveryState
delivery_allowed received = verified ∷ rejected ∷ []
delivery_allowed verified = persisted ∷ ignored ∷ rejected ∷ []
delivery_allowed persisted = enqueued ∷ ignored ∷ rejected ∷ []
delivery_allowed _ = []

unfoldable pub transition_delivery : DeliveryState → DeliveryState → DeliveryState × Option Code
unfolding delivery_allowed
transition_delivery s t =
    if same_delivery s t
    then (s, none)
    else if delivery_terminal s
    then (s, some invalid_state_transition)
    else if any (λ x. same_delivery x t) (delivery_allowed s)
    then (t, none)
    else (s, some invalid_state_transition)

pub data JobState : Type 0 where
  queued importing_source planning awaiting_runner running validating_report ready_to_publish :
      JobState
  completed failed superseded cancelled : JobState

abbrev pub job_number : JobState → ℕ
job_number queued = 0
job_number importing_source = 1
job_number planning = 2
job_number awaiting_runner = 3
job_number running = 4
job_number validating_report = 5
job_number ready_to_publish = 6
job_number completed = 7
job_number failed = 8
job_number superseded = 9
job_number cancelled = 10

abbrev pub same_job : JobState → JobState → Bool
same_job a b = job_number a == job_number b

abbrev pub job_terminal : JobState → Bool
job_terminal completed = true
job_terminal failed = true
job_terminal superseded = true
job_terminal cancelled = true
job_terminal _ = false

job_allowed : JobState → List JobState
job_allowed queued = importing_source ∷ superseded ∷ cancelled ∷ failed ∷ []
job_allowed importing_source = planning ∷ superseded ∷ cancelled ∷ failed ∷ []
job_allowed planning = awaiting_runner ∷ superseded ∷ cancelled ∷ failed ∷ []
job_allowed awaiting_runner = running ∷ superseded ∷ cancelled ∷ failed ∷ []
job_allowed running = validating_report ∷ superseded ∷ cancelled ∷ failed ∷ []
job_allowed validating_report = ready_to_publish ∷ superseded ∷ cancelled ∷ failed ∷ []
job_allowed ready_to_publish = completed ∷ superseded ∷ cancelled ∷ failed ∷ []
job_allowed _ = []

unfoldable pub transition_job : JobState → JobState → JobState × Option Code
unfolding job_allowed
transition_job s t =
    if same_job s t
    then (s, none)
    else if job_terminal s
    then (s, some invalid_state_transition)
    else if any (λ x. same_job x t) (job_allowed s)
    then (t, none)
    else (s, some invalid_state_transition)

pub data AttemptState : Type 0 where
  queued leased running completed failed cancelled lease_expired : AttemptState

abbrev pub attempt_number : AttemptState → ℕ
attempt_number queued = 0
attempt_number leased = 1
attempt_number running = 2
attempt_number completed = 3
attempt_number failed = 4
attempt_number cancelled = 5
attempt_number lease_expired = 6

abbrev pub same_attempt : AttemptState → AttemptState → Bool
same_attempt a b = attempt_number a == attempt_number b

abbrev pub attempt_terminal : AttemptState → Bool
attempt_terminal completed = true
attempt_terminal failed = true
attempt_terminal cancelled = true
attempt_terminal _ = false

attempt_allowed : AttemptState → List AttemptState
attempt_allowed queued = leased ∷ cancelled ∷ []
attempt_allowed leased = running ∷ lease_expired ∷ cancelled ∷ failed ∷ []
attempt_allowed running = completed ∷ failed ∷ cancelled ∷ lease_expired ∷ []
attempt_allowed lease_expired = queued ∷ cancelled ∷ failed ∷ []
attempt_allowed _ = []

unfoldable pub transition_attempt : AttemptState → AttemptState → AttemptState × Option Code
unfolding attempt_allowed
transition_attempt s t =
    if same_attempt s t
    then (s, none)
    else if attempt_terminal s
    then (s, some invalid_state_transition)
    else if any (λ x. same_attempt x t) (attempt_allowed s)
    then (t, none)
    else (s, some invalid_state_transition)

pub data CheckPublicationState : Type 0 where
  absent create_pending queued in_progress completion_pending : CheckPublicationState
  completed cancelled ambiguous failed : CheckPublicationState

abbrev pub publication_number : CheckPublicationState → ℕ
publication_number absent = 0
publication_number create_pending = 1
publication_number queued = 2
publication_number in_progress = 3
publication_number completion_pending = 4
publication_number completed = 5
publication_number cancelled = 6
publication_number ambiguous = 7
publication_number failed = 8

abbrev pub same_publication : CheckPublicationState → CheckPublicationState → Bool
same_publication a b = publication_number a == publication_number b

abbrev pub publication_terminal : CheckPublicationState → Bool
publication_terminal completed = true
publication_terminal cancelled = true
publication_terminal failed = true
publication_terminal _ = false

publication_allowed : CheckPublicationState → List CheckPublicationState
publication_allowed absent = create_pending ∷ cancelled ∷ failed ∷ []
publication_allowed create_pending = queued ∷ ambiguous ∷ failed ∷ cancelled ∷ []
publication_allowed queued = in_progress ∷ completion_pending ∷ cancelled ∷ failed ∷ []
publication_allowed in_progress = completion_pending ∷ cancelled ∷ failed ∷ []
publication_allowed completion_pending = completed ∷ ambiguous ∷ failed ∷ cancelled ∷ []
publication_allowed ambiguous = queued ∷ failed ∷ []
publication_allowed _ = []

unfoldable pub transition_publication :
    CheckPublicationState → CheckPublicationState → CheckPublicationState × Option Code
unfolding publication_allowed
transition_publication s t =
    if same_publication s t
    then (s, none)
    else if publication_terminal s
    then (s, some invalid_state_transition)
    else if any (λ x. same_publication x t) (publication_allowed s)
    then (t, none)
    else (s, some invalid_state_transition)
