-- ===== src/Lifecycle.antt =====
-- apps/api-server/internal/services/subscriber_lifecycle.go, with deactivateESIMProfile of
-- subscriber_esim.go and the queries of apps/api-server/internal/database/crud.go that they use. The
-- database is its tables of subscribers and sessions; `number` reads a text as a number, as the
-- database does where a number is compared with it. A call that may fail has a fault. What the AMF and
-- the ES2+ service are told is a list, the latest first. Columns that nothing here reads or writes, the plan
-- and logging are left out, and so is DeleteSubscriber, one transaction of deletions.
pub mod Sessions
pub mod Profile
mod Examples
use text.Mathlib.Text.{◌==◌ as str_eq}
use telecom_platform.Base.{
  ℕ, Bool, true, false, not, ◌&&◌, ◌||◌, Option, none, some, List, [], ◌∷◌, String, ◌==◌, keep,
  if◌then◌else◌,
}

pub data SubscriberStatus : Type 0 where
  active inactive suspended terminated provisioning : SubscriberStatus

pub data ProfileStatus : Type 0 where
  profile_inactive profile_active profile_downloading profile_error : ProfileStatus

abbrev pub is_profile_active : ProfileStatus → Bool
is_profile_active profile_active = true
is_profile_active _ = false

pub data SessionStatus : Type 0 where
  session_active session_inactive session_terminating : SessionStatus

abbrev pub is_session_active : SessionStatus → Bool
is_session_active session_active = true
is_session_active _ = false

pub record Subscriber : Type 0 where
  pub id : ℕ
  pub imsi : String
  pub status : SubscriberStatus
  pub euicc_id : String
  pub profile_id : String
  pub profile_status : ProfileStatus

pub record Session : Type 0 where
  pub id : ℕ
  pub subscriber_id : ℕ
  pub status : SessionStatus
  pub end_time : Option ℕ

pub record Database : Type 0 where
  pub subscribers : List Subscriber
  pub sessions : List Session
  pub amf_notices : List String
  pub deactivations : List (String × String)

unfoldable pub get_subscriber : ℕ → List Subscriber → Option Subscriber
get_subscriber id [] = none
get_subscriber id (s ∷ subscribers) = if s.id == id then some s else get_subscriber id subscribers

-- `Save` of a row that is there.
unfoldable pub update_subscriber : Subscriber → List Subscriber → List Subscriber
update_subscriber s [] = []
update_subscriber s (r ∷ subscribers) =
    (if r.id == s.id then s else r) ∷ update_subscriber s subscribers

unfoldable pub update_session : Session → List Session → List Session
update_session s [] = []
update_session s (r ∷ sessions) = (if r.id == s.id then s else r) ∷ update_session s sessions

-- `Where("subscriber_id = ? AND status = ?", imsi, "active")`.
unfoldable pub get_active_sessions_by_imsi : (String → ℕ) → String → List Session → List Session
get_active_sessions_by_imsi number imsi sessions =
    keep (λ s. s.subscriber_id == number imsi && is_session_active s.status) sessions

-- The calls that fail; a session's update by the session.
pub record Faults : Type 0 where
  pub get : Bool
  pub query : Bool
  pub save_session : ℕ → Bool
  pub deactivate : Bool
  pub update : Bool

unfoldable pub end_sessions : ℕ → Faults → String → List Session → Database → Database × Bool
end_sessions now faults imsi [] db = (db, true)
end_sessions now faults imsi (s ∷ sessions) db =
    let ended = record s { status = session_inactive; end_time = some now } in
    let rest = end_sessions now faults imsi sessions (record db {
      sessions = update_session ended db.sessions;
      amf_notices = imsi ∷ db.amf_notices;
    }) in
    if faults.save_session s.id then (db, false) else rest

unfoldable pub terminate_subscriber_sessions :
    (String → ℕ) → ℕ → Faults → String → Database → Database × Bool
unfolding end_sessions get_active_sessions_by_imsi
terminate_subscriber_sessions number now faults imsi db =
    if faults.query
    then (db, false)
    else end_sessions now faults imsi (get_active_sessions_by_imsi number imsi db.sessions) db

abbrev save : Faults → Subscriber → Database → Database × Bool
save faults s db =
    if faults.update
    then (db, false)
    else (record db { subscribers = update_subscriber s db.subscribers }, true)

suspend_found : (String → ℕ) → ℕ → Faults → Option Subscriber → Database → Database × Bool
suspend_found number now faults none db = (db, false)
suspend_found number now faults (some s) db =
    let (db', ok) = terminate_subscriber_sessions number now faults s.imsi db in
    if ok then save faults (record s { status = suspended }) db' else (db', false)

abbrev found : Faults → ℕ → Database → Option Subscriber
found faults id db = if faults.get then none else get_subscriber id db.subscribers

unfoldable pub suspend_subscriber : (String → ℕ) → ℕ → Faults → ℕ → Database → Database × Bool
unfolding suspend_found
suspend_subscriber number now faults id db = suspend_found number now faults (found faults id db) db

-- After the profile is deactivated: the row, then the sessions, whose failure is only logged.
after_deactivation : (String → ℕ) → ℕ → Faults → Subscriber → Database → Database × Bool
after_deactivation number now faults s db =
    let (db', ok) =
      save faults (record s { profile_status = profile_inactive; status = inactive })
        (record db { deactivations = (s.euicc_id, s.profile_id) ∷ db.deactivations }) in
    if ok
    then ((terminate_subscriber_sessions number now faults s.imsi db').0, true)
    else (db', false)

deactivate_found : (String → ℕ) → ℕ → Faults → Option Subscriber → Database → Database × Bool
unfolding after_deactivation
deactivate_found number now faults none db = (db, false)
deactivate_found number now faults (some s) db =
    if str_eq s.profile_id "" || not (is_profile_active s.profile_status) || faults.deactivate
    then (db, false)
    else after_deactivation number now faults s db

unfoldable pub deactivate_esim_profile : (String → ℕ) → ℕ → Faults → ℕ → Database → Database × Bool
unfolding deactivate_found
deactivate_esim_profile number now faults id db =
    deactivate_found number now faults (found faults id db) db

-- The second argument of faults is for the calls inside `deactivateESIMProfile`.
terminate_found :
    (String → ℕ) → ℕ → Faults → Faults → Option Subscriber → Database → Database × Bool
terminate_found number now faults inner none db = (db, false)
terminate_found number now faults inner (some s) db =
    let (db', ok) = terminate_subscriber_sessions number now faults s.imsi db in
    let (db'', deactivated) = deactivate_esim_profile number now inner s.id db' in
    if not ok
    then (db', false)
    else if not (str_eq s.euicc_id "") && is_profile_active s.profile_status
    then (if deactivated
        then save faults (record s { status = terminated }) db''
        else (db'', false))
    else save faults (record s { status = terminated }) db'

unfoldable pub terminate_subscriber :
    (String → ℕ) → ℕ → Faults → Faults → ℕ → Database → Database × Bool
unfolding terminate_found
terminate_subscriber number now faults inner id db =
    terminate_found number now faults inner (found faults id db) db

unfoldable pub set_status : ℕ → SubscriberStatus → List Subscriber → List Subscriber
set_status id status [] = []
set_status id status (s ∷ subscribers) =
    (if s.id == id then record s { status = status } else s) ∷ set_status id status subscribers

-- The row that `First` reads back is the answer.
unfoldable pub activate_subscriber : Faults → ℕ → Database → Database × Option Subscriber
activate_subscriber faults id db = if faults.update then (db, none) else (
  record db { subscribers = set_status id active db.subscribers },
  found faults id (record db { subscribers = set_status id active db.subscribers }),
)
