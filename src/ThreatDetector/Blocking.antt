-- ===== src/ThreatDetector/Blocking.antt =====
-- apps/carrier-connector/internal/security/threat_detection.go: blocked addresses.
use text.Mathlib.Text.{◌==◌ as str_eq}
use text.Mathlib.TextEquality.{eq_iff}
use telecom_platform.Base.{
  ℕ, ◌+◌, ◌≤◌, ◌≡◌, refl, Bool, true, false, ◌&&◌, ◌||◌, Option, none, some, List, [], ◌∷◌, String,
  arith, leb, if◌then◌else◌, Bool-cases, inl, inr, lookup, lookup-insert, Option-cases, insert,
  IsMap, length, ◌∙◌, insert-IsMap, delete_if-IsMap, lookup-delete_if, Dict, ap,
}
use telecom_platform.ThreatDetector.{
  ThreatDetector, ThreatType, IpActivity, record_request, DetectionRule, ThreatEvent, hour, is_idle,
  record_failed_login, check_rules, activity_of, block_ip, is_blocked, raise_alert, cleanup,
  get_ip_activity, same_type,
}
use telecom_platform.ThreatDetector.Injection.{flagged_lem}
use telecom_platform.ThreatDetector.Handlers.{Call, requests, logins, inputs, blocks, step}

abbrev tracked : Option IpActivity → Bool
tracked none = false
tracked (some a) = true

-- `BlockIP` blocks the address if it is tracked, and does nothing if it is not; every other address
-- stays as it was.
pub is_blocked-block_ip :
    (ip other : String) (td : ThreatDetector)
    → is_blocked other (block_ip ip td)
      ≡ (if str_eq ip other then tracked (get_ip_activity ip td) else is_blocked other td)
unfolding is_blocked block_ip get_ip_activity
is_blocked-block_ip ip other td = elim (Option-cases (lookup ip td.ip_tracker)) [
  | inl e ↦ ground (arith, eq_iff ip other)
  | inr (a, e) ↦
      ground (arith, lookup-insert ip other (record a { suspicious_count = 999 }) td.ip_tracker)
]

-- `cleanup` forgets an address exactly when its last request is more than an hour old and it is not
-- blocked; it keeps the counts of the others.
pub get_ip_activity-cleanup :
    (now : ℕ) (ip : String) (a : IpActivity) (td : ThreatDetector)
    → IsMap td.ip_tracker
    → get_ip_activity ip td ≡ some a
    → get_ip_activity ip (cleanup now td)
      ≡ (if leb now (a.last_request + hour) || leb 999 a.suspicious_count then some a else none)
unfolding get_ip_activity cleanup
get_ip_activity-cleanup now ip a td u e =
    ground (arith, lookup-delete_if (λ k b. is_idle now b) ip td.ip_tracker u)

-- A tracked and blocked address.
record Blocked (ip : String) (m : Dict IpActivity) : Type 0 where
  is_map : IsMap m
  activity : IpActivity
  found : lookup ip m ≡ some activity
  enough : 999 ≤ activity.suspicious_count

check_rules-ip_tracker :
    (kind : ThreatType) (crosses : ℕ → Bool) (event : DetectionRule → ThreatEvent)
    (rules : List DetectionRule) (td : ThreatDetector)
    → (check_rules kind crosses event rules td).ip_tracker ≡ td.ip_tracker
unfolding check_rules raise_alert
check_rules-ip_tracker kind crosses event [] td = refl
check_rules-ip_tracker kind crosses event (rule ∷ rules) td =
    check_rules-ip_tracker kind crosses event rules _
    ∙ (elim (Bool-cases (same_type rule.kind kind && rule.enabled && crosses rule.threshold)) [
      | inl e ↦ rw e refl
      | inr e ↦ rw e refl
    ])

insert-Blocked :
    (ip other : String) (a : IpActivity) (m : Dict IpActivity)
    → Blocked ip m
    → (other ≡ ip → 999 ≤ a.suspicious_count)
    → Blocked ip (insert other a m)
insert-Blocked ip other a m b h = elim (Bool-cases (str_eq other ip)) [
  | inl e ↦ record {
    is_map = insert-IsMap other a m b.is_map;
    activity = a;
    found = ground (arith, lookup-insert other ip a m);
    enough = h ((eq_iff other ip).0 e);
  }
  | inr e ↦ record {
    is_map = insert-IsMap other a m b.is_map;
    activity = b.activity;
    found = ground (arith, lookup-insert other ip a m, b.found);
    enough = b.enough;
  }
]

-- A handler keeps an activity's count of suspicions.
activity_of-kept :
    (created : ℕ) (ip other : String) (td : ThreatDetector)
    → Blocked ip td.ip_tracker
    → other ≡ ip
    → 999 ≤ (activity_of created other td).suspicious_count
unfolding activity_of
activity_of-kept created ip other td b q =
    ground (arith, b.found, b.enough, ap (λ k. lookup k td.ip_tracker) q)

step-Blocked :
    (call : Call) (ip : String) (td : ThreatDetector)
    → Blocked ip td.ip_tracker
    → Blocked ip (step call td).ip_tracker
unfolding step record_request record_failed_login block_ip raise_alert
step-Blocked (requests at other path) ip td b =
    rw (check_rules-ip_tracker)
      (insert-Blocked ip other _ td.ip_tracker b (activity_of-kept at.created ip other td b))
step-Blocked (logins at other user_id) ip td b =
    rw (check_rules-ip_tracker)
      (insert-Blocked ip other _ td.ip_tracker b (activity_of-kept at.created ip other td b))
step-Blocked (inputs detected other input) ip td b =
    rw (step, flagged_lem detected other input td)
      (elim (Bool-cases (leb 3 (length input))) [ inl e ↦ rw e b | inr e ↦ rw e b ])
step-Blocked (blocks other) ip td b = elim (Option-cases (lookup other td.ip_tracker)) [
  | inl e ↦ rw e b
  | inr (a, e) ↦ rw e (
      insert-Blocked ip other (record a { suspicious_count = 999 }) td.ip_tracker b
        (λ q. omega arith))
]

cleanup-Blocked :
    (now : ℕ) (ip : String) (td : ThreatDetector)
    → Blocked ip td.ip_tracker
    → Blocked ip (cleanup now td).ip_tracker
unfolding cleanup
cleanup-Blocked now ip td b = record {
  is_map = delete_if-IsMap (λ k a. is_idle now a) td.ip_tracker b.is_map;
  activity = b.activity;
  found =
      ground (
        arith,
        b.found,
        b.enough,
        lookup-delete_if (λ k a. is_idle now a) ip td.ip_tracker b.is_map,
      );
  enough = b.enough;
}

-- The calls and the ticks of the cleaning loop, in any order.
pub data Turn : Type 0 where
  calls : Call → Turn
  cleans : ℕ → Turn

unfoldable pub turns : List Turn → ThreatDetector → ThreatDetector
turns [] td = td
turns (calls call ∷ rest) td = turns rest (step call td)
turns (cleans now ∷ rest) td = turns rest (cleanup now td)

turns-Blocked :
    (rest : List Turn) (ip : String) (td : ThreatDetector)
    → Blocked ip td.ip_tracker
    → Blocked ip (turns rest td).ip_tracker
unfolding turns
turns-Blocked [] ip td b = b
turns-Blocked (calls call ∷ rest) ip td b =
    turns-Blocked rest ip (step call td) (step-Blocked call ip td b)
turns-Blocked (cleans now ∷ rest) ip td b =
    turns-Blocked rest ip (cleanup now td) (cleanup-Blocked now ip td b)

-- Where the tracker's keys are distinct, a blocked address stays blocked, whatever calls and
-- cleanings follow: nothing unblocks it.
pub blocked_for_good :
    (rest : List Turn) (ip : String) (td : ThreatDetector)
    → IsMap td.ip_tracker
    → is_blocked ip td ≡ true
    → is_blocked ip (turns rest td) ≡ true
unfolding is_blocked
blocked_for_good rest ip td u h = elim (Option-cases (lookup ip td.ip_tracker)) [
  | inl e ↦ ground arith
  | inr (a, e) ↦
      let b =
        turns-Blocked rest ip td
          (record { is_map = u; activity = a; found = e; enough = ground arith }) in
      ground (arith, b.found, b.enough)
]
