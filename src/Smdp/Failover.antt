-- ===== src/Smdp/Failover.antt =====
-- apps/carrier-connector/internal/smdp/operations.go: the failover to another carrier.
use text.Mathlib.Text.{◌==◌ as str_eq}
use telecom_platform.Base.{
  ℕ, zero, suc, ◌≡◌, refl, ap, ◌∙◌, sym, inl, inr, Bool, true, false, Option, none, some, List, [],
  ◌∷◌, ◌++◌, String, if◌then◌else◌, Dict, lookup, Option-cases, Bool-cases,
}
use telecom_platform.Smdp.{Carrier, SmdpManager}
use telecom_platform.Smdp.Download.{
  Answer, returns, deadlocks, read_locked, no_client, exhausted, update_carrier_metrics,
  attempt_download, download_with_retry, failover_loop, passed_over, handle_failover,
}

abbrev if_client : {A : Type 0} → Option String → A → A → A
if_client none a b = a
if_client (some client) a b = b

-- Under the read lock a download returns only for want of a client, and else waits for ever for the
-- write lock that `updateCarrierMetrics` takes.
download-locked :
    (es2 : String → ℕ → Answer) (id : String) (remaining attempt : ℕ) (m : SmdpManager)
    → download_with_retry read_locked es2 id remaining attempt m
      ≡ if_client (lookup id m.es2_clients) (returns (m, no_client)) deadlocks
unfolding download_with_retry attempt_download update_carrier_metrics
download-locked es2 id zero attempt m = elim (Option-cases (lookup id m.es2_clients)) [
  | inl e ↦ rw e refl
  | inr (client, e) ↦ rw e refl
]
download-locked es2 id (suc remaining) attempt m = elim (Option-cases (lookup id m.es2_clients)) [
  | inl e ↦ rw e refl
  | inr (client, e) ↦ rw e refl
]

-- Whether some carrier that the failover would try has a client.
unfoldable pub tries_client : String → Dict Carrier → Dict String → Bool
tries_client failed_id [] clients = false
tries_client failed_id ((id, c) ∷ carriers) clients =
    let rest = tries_client failed_id carriers clients in
    if passed_over failed_id id c then rest else if_client (lookup c.id clients) rest true

-- The carriers that the failover would try.
unfoldable pub tried : String → Dict Carrier → List String
tried failed_id [] = []
tried failed_id ((id, c) ∷ carriers) =
    let rest = tried failed_id carriers in if passed_over failed_id id c then rest else id ∷ rest

append-nil : (ids : List String) → ids ++ [] ≡ ids
append-nil [] = refl
append-nil (id ∷ ids) = ap (λ rest. id ∷ rest) (append-nil ids)

append-one : (ids rest : List String) (id : String) → (ids ++ id ∷ []) ++ rest ≡ ids ++ id ∷ rest
append-one [] rest id = refl
append-one (x ∷ ids) rest id = ap (λ tail. x ∷ tail) (append-one ids rest id)

failover_loop_lem :
    (es2 : String → ℕ → Answer) (failed_id : String) (carriers : Dict Carrier)
    (retried_on : List String) (m : SmdpManager)
    → failover_loop es2 failed_id carriers retried_on m ≡ (
        if tries_client failed_id carriers m.es2_clients
        then deadlocks
        else returns (m, exhausted (retried_on ++ tried failed_id carriers)))
unfolding failover_loop tries_client tried
failover_loop_lem es2 failed_id [] retried_on m =
    ap (λ ids. returns (m, exhausted ids)) (sym (append-nil retried_on))
failover_loop_lem es2 failed_id ((id, c) ∷ carriers) retried_on m =
    elim (Bool-cases (passed_over failed_id id c)) [
      | inl p ↦ simp p (failover_loop_lem es2 failed_id carriers retried_on m)
      | inr p ↦
          simp (p, download-locked es2 c.id m.config.max_retries 0 m)
            (elim (Option-cases (lookup c.id m.es2_clients)) [
              | inl e ↦ simp e (
                  failover_loop_lem es2 failed_id carriers (retried_on ++ id ∷ []) m
                  ∙ ap
                      (λ ids.
                        if tries_client failed_id carriers m.es2_clients
                        then deadlocks
                        else returns (m, exhausted ids))
                      (append-one retried_on (tried failed_id carriers) id))
              | inr (client, e) ↦ simp e refl
            ])
    ]

-- The failover never downloads anything: it waits for ever for its own lock as soon as a carrier that
-- it tries has a client, and else returns the carriers it tried, with an error.
pub handle_failover_lem :
    (es2 : String → ℕ → Answer) (failed_id : String) (m : SmdpManager)
    → handle_failover es2 failed_id m ≡ (
        if tries_client failed_id m.carriers m.es2_clients
        then deadlocks
        else returns (m, exhausted (tried failed_id m.carriers)))
unfolding handle_failover
handle_failover_lem es2 failed_id m = failover_loop_lem es2 failed_id m.carriers [] m
