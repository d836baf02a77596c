-- ===== src/Smdp/Retry.antt =====
-- apps/carrier-connector/internal/smdp/operations.go: the retries of one carrier.
use telecom_platform.Base.{
  ℕ, zero, suc, ◌+◌, ◌≤◌, ◌<◌, ◌^◌, u64, ◌≡◌, refl, ap, ◌∙◌, none, some, [], String, arith,
  if◌then◌else◌, lookup, delete-insert, Option-cases, inl, inr,
}
use telecom_platform.Smdp.{CarrierMetrics, SmdpManager}
use telecom_platform.Smdp.Download.{
  Answer, Outcome, returns, unheld, Download, downloaded, download_failed, record_answer,
  attempt_download, download_with_retry,
}
use telecom_platform.Smdp.Attempt.{
  Fail, recorded, is_error, Ready, Returned, noted, noted-Ready, attempt-succeeds, attempt-fails,
  later-Returned,
}

module _ (es2 : String → ℕ → Answer) (id : String) where
  ended :
      (next : String → SmdpManager → Outcome (SmdpManager × Download)) (attempt : ℕ) (a : Answer)
      (s : CarrierMetrics) (m : SmdpManager)
      → es2 id attempt ≡ a
      → a.error ≡ none
      → Ready id s m
      → Returned id
          (record_answer (es2 id attempt) s)
          (downloaded id a.execution_status a.status_message [])
          m
          (attempt_download unheld id (es2 id attempt) (lookup id m.es2_clients) next m)
  ended next attempt a s m q ok r = record {
    after = noted id (es2 id attempt) r.carrier s m;
    result =
        attempt-succeeds id (es2 id) next attempt s m r (ap (λ (x : Answer). x.error) q ∙ ok)
        ∙ ap
            (λ (x : Answer). returns (
              noted id (es2 id attempt) r.carrier s m,
              downloaded id x.execution_status x.status_message [],
            ))
            q;
    ready = noted-Ready id (es2 id attempt) s m r;
    same_config = refl;
    same_clients = refl;
    same_others = delete-insert id _ m.carriers;
  }

  -- After failures, the first answer without an error ends the series.
  pub retry-succeeds :
      (remaining failures attempt : ℕ) (a : Answer) (s : CarrierMetrics) (m : SmdpManager)
      → failures ≤ remaining
      → Fail (es2 id) attempt failures
      → es2 id (attempt + failures) ≡ a
      → a.error ≡ none
      → Ready id s m
      → Returned id
          (recorded (es2 id) attempt (suc failures) s)
          (downloaded id a.execution_status a.status_message [])
          m
          (download_with_retry unheld es2 id remaining attempt m)
  unfolding download_with_retry recorded
  retry-succeeds zero zero attempt a s m h fail q ok r =
      ended _ attempt a s m (ap (es2 id) (omega arith) ∙ q) ok r
  retry-succeeds (suc remaining) zero attempt a s m h fail q ok r =
      ended _ attempt a s m (ap (es2 id) (omega arith) ∙ q) ok r
  retry-succeeds zero (suc failures) attempt a s m h fail q ok r = ground (arith, h)
  retry-succeeds (suc remaining) (suc failures) attempt a s m h ((e, bad), fail) q ok r =
      let after = noted id (es2 id attempt) r.carrier s m in
      later-Returned id _ _ m after _ _ refl refl (delete-insert id _ m.carriers)
        (attempt-fails id (es2 id) _ attempt s m r e bad)
        (retry-succeeds remaining failures (attempt + 1) a (record_answer (es2 id attempt) s) after
          (omega (arith, h)) fail (ap (es2 id) (omega arith) ∙ q) ok
          (noted-Ready id (es2 id attempt) s m r))

  -- When every attempt fails, the last one's error is returned.
  pub retry-fails :
      (remaining attempt : ℕ) (e : String) (s : CarrierMetrics) (m : SmdpManager)
      → Fail (es2 id) attempt remaining
      → (es2 id (attempt + remaining)).error ≡ some e
      → Ready id s m
      → Returned id
          (recorded (es2 id) attempt (suc remaining) s)
          (download_failed id (attempt + remaining + 1) e)
          m
          (download_with_retry unheld es2 id remaining attempt m)
  unfolding download_with_retry recorded
  retry-fails zero attempt e s m fail bad r =
      let now : (es2 id attempt).error ≡ some e = ap (λ n. (es2 id n).error) (omega arith) ∙ bad in
      record {
        after = noted id (es2 id attempt) r.carrier s m;
        result =
            attempt-fails id (es2 id) _ attempt s m r e now
            ∙ ap (λ n. returns (noted id (es2 id attempt) r.carrier s m, download_failed id n e))
                (omega arith);
        ready = noted-Ready id (es2 id attempt) s m r;
        same_config = refl;
        same_clients = refl;
        same_others = delete-insert id _ m.carriers;
      }
  retry-fails (suc remaining) attempt e s m ((e', bad'), fail) bad r =
      let after = noted id (es2 id attempt) r.carrier s m in
      let same : attempt + suc remaining + 1 ≡ (attempt + 1) + remaining + 1 = omega arith in
      later-Returned id _ _ m after _ _ refl refl (delete-insert id _ m.carriers)
        (attempt-fails id (es2 id) _ attempt s m r e' bad')
        (rw same (
          retry-fails remaining (attempt + 1) e (record_answer (es2 id attempt) s) after fail
            (ap (λ n. (es2 id n).error) (omega arith) ∙ bad)
            (noted-Ready id (es2 id attempt) s m r)))

-- The counters after one answer.
record_answer-counts :
    (a : Answer) (s : CarrierMetrics)
    → ((record_answer a s).total_requests ≡ u64 (s.total_requests + 1))
      × ((record_answer a s).failed_requests
          ≡ (if is_error a.error then u64 (s.failed_requests + 1) else s.failed_requests))
unfolding record_answer
record_answer-counts a s = elim (Option-cases a.error) [
  | inl e ↦ ground arith
  | inr (e, q) ↦ ground arith
]

-- The counters after failures and, if it is given, a success.
recorded-failures :
    (answers : ℕ → Answer) (attempt n : ℕ) (s : CarrierMetrics)
    → Fail answers attempt n
    → s.total_requests < 2 ^ 64
    → s.failed_requests < 2 ^ 64
    → ((recorded answers attempt n s).total_requests ≡ u64 (s.total_requests + n))
      × ((recorded answers attempt n s).failed_requests ≡ u64 (s.failed_requests + n))
unfolding recorded
recorded-failures answers attempt zero s fail h k = (omega arith, omega arith)
recorded-failures answers attempt (suc n) s ((e, bad), fail) h k =
    let c = record_answer-counts (answers attempt) s in
    let failed : (record_answer (answers attempt) s).failed_requests ≡ u64 (s.failed_requests + 1) =
      ground (arith, c.1, bad) in
    let later =
      recorded-failures answers (attempt + 1) n (record_answer (answers attempt) s) fail
        (omega (arith, c.0)) (omega (arith, failed)) in
    (omega (arith, c.0, later.0), omega (arith, failed, later.1))

recorded-last :
    (answers : ℕ → Answer) (attempt n : ℕ) (s : CarrierMetrics)
    → recorded answers attempt (suc n) s
      ≡ record_answer (answers (attempt + n)) (recorded answers attempt n s)
unfolding recorded
recorded-last answers attempt zero s = ap (λ k. record_answer (answers k) s) (omega arith)
recorded-last answers attempt (suc n) s =
    recorded-last answers (attempt + 1) n (record_answer (answers attempt) s)
    ∙ ap
        (λ k.
          record_answer (answers k)
            (recorded answers (attempt + 1) n (record_answer (answers attempt) s)))
        (omega arith)

module _ (es2 : String → ℕ → Answer) (id : String) (s : CarrierMetrics) (m : SmdpManager) where
  -- For a carrier with a client and metrics whose counters are 64-bit, when the attempt after some
  -- failures succeeds and the limit of retries allows it, the download returns that answer, and the
  -- carrier has counted one request for each attempt and one failure for each that failed.
  pub download-retries :
      (failures : ℕ) (a : Answer)
      → failures ≤ m.config.max_retries
      → Fail (es2 id) 0 failures
      → es2 id failures ≡ a
      → a.error ≡ none
      → s.total_requests < 2 ^ 64
      → s.failed_requests < 2 ^ 64
      → Ready id s m
      → (after : CarrierMetrics) × Returned id after
          (downloaded id a.execution_status a.status_message [])
          m
          (download_with_retry unheld es2 id m.config.max_retries 0 m)
        × (after.total_requests ≡ u64 (s.total_requests + failures + 1))
        × (after.failed_requests ≡ u64 (s.failed_requests + failures))
  download-retries failures a limit fail q ok h k r =
      let c = recorded-failures (es2 id) 0 failures s fail h k in
      let last = recorded-last (es2 id) 0 failures s in
      let one = record_answer-counts (es2 id (0 + failures)) (recorded (es2 id) 0 failures s) in
      let q' : es2 id (0 + failures) ≡ a = ap (es2 id) (omega arith) ∙ q in
      let good : (es2 id (0 + failures)).error ≡ none = ap (λ (x : Answer). x.error) q' ∙ ok in
      (
        recorded (es2 id) 0 (suc failures) s,
        retry-succeeds es2 id m.config.max_retries failures 0 a s m limit fail q' ok r,
        omega (arith, ap (λ (x : CarrierMetrics). x.total_requests) last, one.0, c.0),
        ground (arith, ap (λ (x : CarrierMetrics). x.failed_requests) last, one.1, c.1, good),
      )
