-- ===== src/ThreatDetector/Injection.antt =====
-- apps/carrier-connector/internal/security/threat_detection.go: what `DetectSQLInjection` flags, and
-- the events that are shown.
use telecom_platform.Base.{
  ℕ, suc, zero, ◌-◌, ◌≡◌, refl, List, [], ◌∷◌, ◌++◌, String, arith, leb, length, drop, length-drop,
  if◌then◌else◌, Bool-cases, inl, inr,
}
use telecom_platform.ThreatDetector.{
  ThreatDetector, detect_sql_injection, sql_event, get_recent_events, ThreatEvent, raise_alert,
}

pub flagged_lem :
    (detected : ℕ) (ip : String) (input : List ℕ) (td : ThreatDetector)
    → detect_sql_injection detected ip input td ≡ (
      (if leb 3 (length input) then raise_alert (sql_event detected ip) td else td),
      leb 3 (length input),
    )
unfolding detect_sql_injection
flagged_lem detected ip input td = ground arith

-- An input of three bytes or more is flagged, whatever it is, with one event, and a shorter one is
-- not, with none: only lengths are compared.
pub flagged_by_length :
    (detected : ℕ) (ip : String) (input : List ℕ) (td : ThreatDetector)
    → ((detect_sql_injection detected ip input td).1 ≡ leb 3 (length input))
      × ((detect_sql_injection detected ip input td).0.events
          ≡ (if leb 3 (length input) then td.events ++ sql_event detected ip ∷ [] else td.events))
unfolding raise_alert
flagged_by_length detected ip input td = rw (flagged_lem detected ip input td) (ground arith)

abbrev take : {A : Type 0} → ℕ → List A → List A
take zero xs = []
take (suc n) [] = []
take (suc n) (x ∷ xs) = x ∷ take n xs

take-drop : {A : Type 0} (n : ℕ) (xs : List A) → take n xs ++ drop n xs ≡ xs
take-drop zero xs = refl
take-drop (suc n) [] = refl
take-drop (suc n) (x ∷ xs) = ground (arith, take-drop n xs)

-- `GetRecentEvents` gives the last events in their order, as many as there are up to the limit.
pub get_recent_events_lem :
    (limit : ℕ) (td : ThreatDetector)
    → (length (get_recent_events limit td)
        ≡ (if leb (length td.events) limit then length td.events else limit))
      × ((before : List ThreatEvent) × (before ++ get_recent_events limit td ≡ td.events))
unfolding get_recent_events
get_recent_events_lem limit td = elim (Bool-cases (leb (length td.events) limit)) [
  | inl e ↦ rw e (refl, ([], refl))
  | inr e ↦ rw e (
    ground (arith, length-drop (length td.events - limit) td.events),
    (take (length td.events - limit) td.events, take-drop (length td.events - limit) td.events),
  )
]
