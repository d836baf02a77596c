-- ===== src/Lifecycle/Profile.antt =====
-- apps/api-server/internal/services/subscriber_lifecycle.go: the profile of a terminated subscriber.
use text.Mathlib.Text.{◌==◌ as str_eq}
use telecom_platform.Base.{
  ℕ, ◌≡◌, ap, ◌∙◌, inl, inr, true, false, some, List, [], ◌∷◌, String, arith, ◌==◌, Bool-cases,
}
use telecom_platform.Lifecycle.{
  Database, Subscriber, terminated, inactive, profile_active, profile_inactive, get_subscriber,
  update_subscriber, terminate_subscriber, deactivate_esim_profile, get_active_sessions_by_imsi,
  terminate_subscriber_sessions,
}
use telecom_platform.Lifecycle.Sessions.{no_faults, end_sessions-others, end_sessions-succeeds}

get_subscriber-id :
    (id : ℕ) (s : Subscriber) (subscribers : List Subscriber)
    → get_subscriber id subscribers ≡ some s
    → s.id ≡ id
unfolding get_subscriber
get_subscriber-id id s [] f = ground arith
get_subscriber-id id s (r ∷ subscribers) f = elim (Bool-cases (r.id == id)) [
  | inl e ↦ ground arith
  | inr e ↦ ground (arith, get_subscriber-id id s subscribers)
]

get_subscriber-update :
    (s r : Subscriber) (subscribers : List Subscriber)
    → get_subscriber s.id subscribers ≡ some r
    → get_subscriber s.id (update_subscriber s subscribers) ≡ some s
unfolding get_subscriber update_subscriber
get_subscriber-update s r [] f = ground arith
get_subscriber-update s r (x ∷ subscribers) f = elim (Bool-cases (x.id == s.id)) [
  | inl e ↦ ground arith
  | inr e ↦ ground (arith, get_subscriber-update s r subscribers)
]

sessions-others :
    (number : String → ℕ) (now : ℕ) (imsi : String) (db : Database)
    → let (after, ok) = terminate_subscriber_sessions number now no_faults imsi db in
      (after.subscribers ≡ db.subscribers) × (after.deactivations ≡ db.deactivations) × (ok ≡ true)
unfolding terminate_subscriber_sessions
sessions-others number now imsi db =
    let ended = get_active_sessions_by_imsi number imsi db.sessions in
    let others = end_sessions-others now no_faults imsi ended db in
    (others.0, others.1, end_sessions-succeeds now imsi ended db)

-- The row as `deactivateESIMProfile` saves it.
abbrev deactivated : Subscriber → Subscriber
deactivated s = record s { profile_status = profile_inactive; status = inactive }

deactivate_esim_profile_lem :
    (number : String → ℕ) (now : ℕ) (s : Subscriber) (db : Database)
    → get_subscriber s.id db.subscribers ≡ some s
    → s.profile_status ≡ profile_active
    → str_eq s.profile_id "" ≡ false
    → let (after, ok) = deactivate_esim_profile number now no_faults s.id db in
      (after.subscribers ≡ update_subscriber (deactivated s) db.subscribers)
      × (after.deactivations ≡ (s.euicc_id, s.profile_id) ∷ db.deactivations)
      × (ok ≡ true)
unfolding deactivate_esim_profile
deactivate_esim_profile_lem number now s db f p v =
    let saved = record db {
      subscribers = update_subscriber (deactivated s) db.subscribers;
      deactivations = (s.euicc_id, s.profile_id) ∷ db.deactivations;
    } in
    let (subs, told, ok) = sessions-others number now s.imsi saved in
    ground (arith, f, p, v, subs, told)

-- Terminating a subscriber whose profile is active, and has an identifier and a chip, when
-- nothing fails, deactivates the profile at the ES2+ service, and then saves the row that was
-- read before: it is terminated, and its profile still stands there as active.
pub terminated_profile_stays_active :
    (number : String → ℕ) (now id : ℕ) (s : Subscriber) (db : Database)
    → get_subscriber id db.subscribers ≡ some s
    → s.profile_status ≡ profile_active
    → str_eq s.euicc_id "" ≡ false
    → str_eq s.profile_id "" ≡ false
    → let (after, ok) = terminate_subscriber number now no_faults no_faults id db in
      (ok ≡ true)
      × (get_subscriber id after.subscribers ≡ some (record s { status = terminated }))
      × (after.deactivations ≡ (s.euicc_id, s.profile_id) ∷ db.deactivations)
unfolding terminate_subscriber deactivate_esim_profile
terminated_profile_stays_active number now id s db f p u v =
    let (subs, told, ok) = sessions-others number now s.imsi db in
    let first = (terminate_subscriber_sessions number now no_faults s.imsi db).0 in
    let same : s.id ≡ id = get_subscriber-id id s db.subscribers f in
    let own : get_subscriber s.id db.subscribers ≡ some s =
      ap (λ i. get_subscriber i db.subscribers) same ∙ f in
    let there : get_subscriber s.id first.subscribers ≡ some s =
      ap (get_subscriber s.id) subs ∙ own in
    let (subs', told', ok') = deactivate_esim_profile_lem number now s first there p v in
    let stale = record s { status = terminated } in
    let kept : get_subscriber s.id (update_subscriber (deactivated s) first.subscribers)
        ≡ some (deactivated s) =
      get_subscriber-update (deactivated s) s first.subscribers there in
    let last : get_subscriber s.id
          (update_subscriber stale (update_subscriber (deactivated s) first.subscribers))
        ≡ some stale =
      get_subscriber-update stale (deactivated s)
        (update_subscriber (deactivated s) first.subscribers) kept in
    ground (
      arith,
      f,
      p,
      u,
      ok,
      ok',
      subs',
      told',
      told,
      last,
      ap
          (λ i.
            get_subscriber i
              (update_subscriber stale (update_subscriber (deactivated s) first.subscribers)))
          same,
    )
