-- ===== src/Lifecycle/Examples.antt =====
-- Witnesses and tests for apps/api-server/internal/services/subscriber_lifecycle.go.
use telecom_platform.Base.{ℕ, ◌≡◌, refl, ap, Bool, some, none, [], ◌∷◌, String}
use telecom_platform.Lifecycle.{
  Subscriber, Session, Database, active, terminated, profile_active, session_active, get_subscriber,
  suspend_subscriber, terminate_subscriber, terminate_subscriber_sessions,
  get_active_sessions_by_imsi,
}
use telecom_platform.Lifecycle.Sessions.{
  no_faults, terminate_subscriber_sessions_lem, suspension_keeps_sessions,
}
use telecom_platform.Lifecycle.Profile.{terminated_profile_stays_active}

abbrev subscriber : Subscriber
subscriber = record {
  id = 7;
  imsi = "639020000000001";
  status = active;
  euicc_id = "89049032";
  profile_id = "p1";
  profile_status = profile_active;
}

abbrev session : ℕ → Session
session id = record { id = id; subscriber_id = 7; status = session_active; end_time = none }

abbrev db : Database
db = record {
  subscribers = subscriber ∷ [];
  sessions = session 1 ∷ session 2 ∷ [];
  amf_notices = [];
  deactivations = [];
}

-- How the IMSI reads as a number.
abbrev number : String → ℕ
number imsi = 639020000000001

abbrev own_number : String → ℕ
own_number imsi = 7

terminate_subscriber_sessions_lem_example :
    get_active_sessions_by_imsi own_number "639020000000001"
      (terminate_subscriber_sessions own_number 5 no_faults "639020000000001" db).0.sessions
    ≡ []
terminate_subscriber_sessions_lem_example =
    terminate_subscriber_sessions_lem own_number "639020000000001" 5 db ((refl, tt), (tt, tt))

suspension_keeps_sessions_example :
    (suspend_subscriber number 5 no_faults 7 db).0.sessions ≡ db.sessions
unfolding get_subscriber
suspension_keeps_sessions_example =
    ap (λ (r : Database × Bool). r.0.sessions)
      (suspension_keeps_sessions number 5 7 subscriber db refl (refl, (refl, tt)))

terminated_profile_stays_active_example :
    get_subscriber 7 (terminate_subscriber number 5 no_faults no_faults 7 db).0.subscribers
    ≡ some (record subscriber { status = terminated })
unfolding get_subscriber
terminated_profile_stays_active_example =
    (terminated_profile_stays_active number 5 7 subscriber db refl refl refl refl).1
