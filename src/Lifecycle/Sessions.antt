-- ===== src/Lifecycle/Sessions.antt =====
-- apps/api-server/internal/services/subscriber_lifecycle.go: which sessions are ended.
use telecom_platform.Base.{
  ℕ, ◌≡◌, refl, subst, inl, inr, Bool, true, false, ◌&&◌, some, List, [], ◌∷◌, String, arith, ◌==◌,
  keep, Bool-cases, All,
}
use telecom_platform.Lifecycle.{
  Session, Database, Faults, Subscriber, suspended, get_subscriber, update_subscriber,
  suspend_subscriber, session_inactive, is_session_active, update_session,
  get_active_sessions_by_imsi, end_sessions, terminate_subscriber_sessions,
}

abbrev pub no_faults : Faults
no_faults = record {
  get = false;
  query = false;
  save_session = λ id. false;
  deactivate = false;
  update = false;
}

-- Sessions change, and the notices; nothing else does.
pub end_sessions-others :
    (now : ℕ) (faults : Faults) (imsi : String) (sessions : List Session) (db : Database)
    → ((end_sessions now faults imsi sessions db).0.subscribers ≡ db.subscribers)
      × ((end_sessions now faults imsi sessions db).0.deactivations ≡ db.deactivations)
unfolding end_sessions
end_sessions-others now faults imsi [] db = (refl, refl)
end_sessions-others now faults imsi (s ∷ sessions) db = ground (
  arith,
  end_sessions-others now faults imsi sessions (record db {
    sessions =
        update_session (record s { status = session_inactive; end_time = some now }) db.sessions;
    amf_notices = imsi ∷ db.amf_notices;
  }),
)

pub end_sessions-succeeds :
    (now : ℕ) (imsi : String) (sessions : List Session) (db : Database)
    → (end_sessions now no_faults imsi sessions db).1 ≡ true
unfolding end_sessions
end_sessions-succeeds now imsi [] db = refl
end_sessions-succeeds now imsi (s ∷ sessions) db =
    end_sessions-succeeds now imsi sessions (record db {
      sessions =
          update_session (record s { status = session_inactive; end_time = some now }) db.sessions;
      amf_notices = imsi ∷ db.amf_notices;
    })

module _ (number : String → ℕ) (imsi : String) where
  -- No session has the number that the IMSI reads as for its subscriber.
  abbrev pub NoneMatch : List Session → Type 0
  NoneMatch sessions = All (λ (s : Session). (s.subscriber_id == number imsi) ≡ false) sessions

  none_found :
      (sessions : List Session)
      → NoneMatch sessions
      → get_active_sessions_by_imsi number imsi sessions ≡ []
  unfolding get_active_sessions_by_imsi
  none_found [] h = refl
  none_found (s ∷ sessions) h = rw (h.0) (none_found sessions h.1)

  -- The sessions' identifiers are a key.
  abbrev pub Absent : ℕ → List Session → Type 0
  Absent id [] = Unit {0}
  Absent id (s ∷ sessions) = ((s.id == id) ≡ false) × Absent id sessions

  abbrev pub Keyed : List Session → Type 0
  Keyed [] = Unit {0}
  Keyed (s ∷ sessions) = Absent s.id sessions × Keyed sessions

  abbrev wanted : Session → Bool
  wanted s = s.subscriber_id == number imsi && is_session_active s.status

  update_session-Absent :
      (s : Session) (sessions : List Session)
      → Absent s.id sessions
      → update_session s sessions ≡ sessions
  unfolding update_session
  update_session-Absent s [] h = refl
  update_session-Absent s (r ∷ sessions) h = ground (arith, update_session-Absent s sessions h.1)

  Absent-update_session :
      (j : ℕ) (s : Session) (sessions : List Session)
      → Absent j sessions
      → Absent j (update_session s sessions)
  unfolding update_session
  Absent-update_session j s [] h = tt
  Absent-update_session j s (r ∷ sessions) h =
      (ground (arith, h.0), Absent-update_session j s sessions h.1)

  Keyed-update_session :
      (s : Session) (sessions : List Session) → Keyed sessions → Keyed (update_session s sessions)
  unfolding update_session
  Keyed-update_session s [] h = tt
  Keyed-update_session s (r ∷ sessions) h = elim (Bool-cases (r.id == s.id)) [
    | inl e ↦
        let same : r.id ≡ s.id = ground arith in
        simp e (
          subst (λ i. Absent i (update_session s sessions)) same
              (Absent-update_session r.id s sessions h.0),
          Keyed-update_session s sessions h.1,
        )
    | inr e ↦
        simp e (Absent-update_session r.id s sessions h.0, Keyed-update_session s sessions h.1)
  ]

  Absent-found :
      (j : ℕ) (s : Session) (rest sessions : List Session)
      → keep wanted sessions ≡ s ∷ rest
      → Absent j sessions
      → (s.id == j) ≡ false
  Absent-found j s rest [] q h = ground arith
  Absent-found j s rest (r ∷ sessions) q h = elim (Bool-cases (wanted r)) [
    | inl e ↦ ground (arith, h.0)
    | inr e ↦ Absent-found j s rest sessions (rw e at q) h.1
  ]

  -- Ending the first of the sessions that are wanted leaves the others.
  end_first :
      (now : ℕ) (s : Session) (rest sessions : List Session)
      → Keyed sessions
      → keep wanted sessions ≡ s ∷ rest
      → keep wanted
          (update_session (record s { status = session_inactive; end_time = some now }) sessions)
        ≡ rest
  unfolding update_session
  end_first now s rest [] k q = ground arith
  end_first now s rest (r ∷ sessions) k q = elim (Bool-cases (wanted r)) [
    | inl e ↦
        let same : r.id ≡ s.id = ground arith in
        ground (
          arith,
          update_session-Absent (record s { status = session_inactive; end_time = some now })
              sessions (subst (λ i. Absent i sessions) same k.0),
        )
    | inr e ↦ ground (
      arith,
      Absent-found r.id s rest sessions (rw e at q) k.0,
      end_first now s rest sessions k.1 (rw e at q),
    )
  ]

  end_all :
      (now : ℕ) (sessions : List Session) (db : Database)
      → Keyed db.sessions
      → keep wanted db.sessions ≡ sessions
      → keep wanted (end_sessions now no_faults imsi sessions db).0.sessions ≡ []
  unfolding end_sessions
  end_all now [] db k q = q
  end_all now (s ∷ sessions) db k q =
      let ended = record s { status = session_inactive; end_time = some now } in
      end_all now sessions
        (record db {
          sessions = update_session ended db.sessions;
          amf_notices = imsi ∷ db.amf_notices;
        })
        (Keyed-update_session ended db.sessions k) (end_first now s sessions db.sessions k q)

  -- When nothing fails and the sessions' identifiers are a key, no active session with the number of
  -- the IMSI for its subscriber is left.
  pub terminate_subscriber_sessions_lem :
      (now : ℕ) (db : Database)
      → Keyed db.sessions
      → get_active_sessions_by_imsi number imsi
          (terminate_subscriber_sessions number now no_faults imsi db).0.sessions
        ≡ []
  unfolding terminate_subscriber_sessions get_active_sessions_by_imsi
  terminate_subscriber_sessions_lem now db k = end_all now (keep wanted db.sessions) db k refl

-- The sessions are looked up by the IMSI in the column of the subscribers' numbers: where the number
-- that the IMSI reads as is in no session, whomever the sessions belong to, suspending the subscriber
-- reports success and leaves every session as it was, when nothing fails.
pub suspension_keeps_sessions :
    (number : String → ℕ) (now id : ℕ) (s : Subscriber) (db : Database)
    → get_subscriber id db.subscribers ≡ some s
    → NoneMatch number s.imsi db.sessions
    → suspend_subscriber number now no_faults id db ≡ (
      record db {
        subscribers = update_subscriber (record s { status = suspended }) db.subscribers;
      },
      true,
    )
unfolding suspend_subscriber terminate_subscriber_sessions end_sessions
suspension_keeps_sessions number now id s db f h =
    rw (f, none_found number s.imsi db.sessions h) refl
