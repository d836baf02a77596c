-- ===== src/Smdp/Health.antt =====
-- apps/carrier-connector/internal/smdp/health_checker.go: what a health check changes.
use text.Mathlib.Text.{◌==◌ as str_eq}
use text.Mathlib.TextEquality.{eq_iff}
use telecom_platform.Base.{
  ℕ, ◌≡◌, Bool, false, not, ◌&&◌, Option, none, some, String, arith, leb, ltb, lookup,
  lookup-insert,
}
use telecom_platform.Smdp.{
  Carrier, CarrierMetrics, SmdpManager, evaluate_health, update_carrier_health, selectable,
  five_seconds,
}

abbrev may_select : Option Carrier → Bool
may_select none = false
may_select (some c) = selectable c

-- After a health check a carrier may be selected exactly when it is active and the check did not fail,
-- took five seconds at most and found no high error rate; no other carrier changes.
pub check_decides_selection :
    (high_error_rate : ℕ → ℕ → Bool) (failed : Bool) (response_time now : ℕ) (id : String)
    (c : Carrier) (s : CarrierMetrics) (m : SmdpManager)
    → lookup id m.carriers ≡ some c
    → let after =
        update_carrier_health now id (evaluate_health high_error_rate failed response_time s) m in
      (may_select (lookup id after.carriers) ≡ (
        c.is_active
        && not failed
        && leb response_time five_seconds
        && not (ltb 0 s.total_requests && high_error_rate s.failed_requests s.total_requests)))
      × ((other : String)
          → str_eq id other ≡ false
          → lookup other after.carriers ≡ lookup other m.carriers)
unfolding update_carrier_health evaluate_health
check_decides_selection high_error_rate failed response_time now id c s m f =
    let status = evaluate_health high_error_rate failed response_time s in
    let checked = record c { health_status = status; last_health_check = now } in
    (
      ground (arith, f, eq_iff id id, lookup-insert id id checked m.carriers),
      λ other ne. ground (arith, f, ne, lookup-insert id other checked m.carriers),
    )
