-- ===== src/Onboarding/Monitoring.antt =====
-- What the monitor of apps/carrier-connector/internal/mvno/monitor.go says after any onboardings.
use telecom_platform.Base.{
  ℕ, ◌≡◌, refl, inl, inr, Bool, Option, none, some, List, [], ◌∷◌, String, arith, delete_if,
  Option-cases,
}
use telecom_platform.Onboarding.{
  OnboardingRequest, OnboardingProgress, OnboardingMonitor, get_failed_onboardings,
  get_active_onboarding_count, count_of, is_active, cleanup_old_progress,
}
use telecom_platform.Onboarding.Provisioner.{ProductionProvisioner}
use telecom_platform.Onboarding.Service.{Onboarding, execute_onboarding, start_onboarding}
use telecom_platform.Onboarding.Outcome.{AllQuiet, execute_onboarding-AllQuiet}

-- A request that arrives and whose onboarding runs, and a cleanup.
pub data Call : Type 0 where
  onboard : String → ℕ → ℕ → (ℕ → Bool) → OnboardingRequest → Call
  cleanup : ℕ → Call

delete_if-AllQuiet :
    (gone : String → OnboardingProgress → Bool) (m : OnboardingMonitor)
    → AllQuiet m
    → AllQuiet (delete_if gone m)
unfolding delete_if
delete_if-AllQuiet gone [] h = tt
delete_if-AllQuiet gone ((id, p) ∷ m) h = ground (arith, delete_if-AllQuiet gone m h.1)

quiet_failed : (m : OnboardingMonitor) → AllQuiet m → get_failed_onboardings m ≡ []
unfolding get_failed_onboardings
quiet_failed [] h = refl
quiet_failed ((id, p) ∷ m) ((a, b), k) = rw (a, quiet_failed m k) refl

quiet_count : (m : OnboardingMonitor) → AllQuiet m → count_of is_active m ≡ 0
unfolding count_of
quiet_count [] h = refl
quiet_count ((id, p) ∷ m) ((a, b), k) = rw (b, quiet_count m k) refl

module _ {W : Type 0} (p : Option (ProductionProvisioner W)) where
  abbrev left : Option (Onboarding W) → Option (W × OnboardingMonitor)
  left none = none
  left (some s) = some (s.world, s.monitor)

  abbrev run_started :
      (ℕ → Bool)
      → ℕ
      → Option (Onboarding W)
      → W × OnboardingMonitor
      → Option (W × OnboardingMonitor)
  run_started cancelled end none st = some st
  run_started cancelled end (some s) st = left (execute_onboarding p cancelled end s)

  unfoldable pub serve : Call → W × OnboardingMonitor → Option (W × OnboardingMonitor)
  serve (onboard id now end cancelled r) (w, m) =
      run_started cancelled end (start_onboarding id now w r m) (w, m)
  serve (cleanup cutoff) (w, m) = some (w, cleanup_old_progress cutoff m)

  abbrev next : {A : Type 0} → Option A → (A → Option A) → Option A
  next none k = none
  next (some a) k = k a

  unfoldable pub serve_all : List Call → W × OnboardingMonitor → Option (W × OnboardingMonitor)
  serve_all [] st = some st
  serve_all (c ∷ cs) st = next (serve c st) (serve_all cs)

  -- What a state has, where there is one.
  abbrev Keeps : Option (W × OnboardingMonitor) → Type 0
  Keeps none = Unit
  Keeps (some (w, m)) = AllQuiet m

  run_started-Keeps :
      (cancelled : ℕ → Bool) (now end : ℕ) (id : String) (r : OnboardingRequest) (w : W)
      (m : OnboardingMonitor) (s : Option (Onboarding W))
      → start_onboarding id now w r m ≡ s
      → AllQuiet m
      → Keeps (run_started cancelled end s (w, m))
  run_started-Keeps cancelled now end id r w m none h q = q
  run_started-Keeps cancelled now end id r w m (some s) h q =
      elim (Option-cases (execute_onboarding p cancelled end s)) [
        | inl e ↦ rw e tt
        | inr (after, e) ↦
            rw e (execute_onboarding-AllQuiet p cancelled now end id w r m s after h e q)
      ]

  serve-Keeps : (c : Call) (w : W) (m : OnboardingMonitor) → AllQuiet m → Keeps (serve c (w, m))
  unfolding serve cleanup_old_progress
  serve-Keeps (onboard id now end cancelled r) w m q =
      run_started-Keeps cancelled now end id r w m (start_onboarding id now w r m) refl q
  serve-Keeps (cleanup cutoff) w m q = delete_if-AllQuiet _ m q

  next-Keeps :
      (st : Option (W × OnboardingMonitor))
      (k : W × OnboardingMonitor → Option (W × OnboardingMonitor))
      → Keeps st
      → ((w : W) (m : OnboardingMonitor) → AllQuiet m → Keeps (k (w, m)))
      → Keeps (next st k)
  next-Keeps none k h f = tt
  next-Keeps (some (w, m)) k h f = f w m h

  serve_all-Keeps :
      (cs : List Call) (w : W) (m : OnboardingMonitor) → AllQuiet m → Keeps (serve_all cs (w, m))
  unfolding serve_all
  serve_all-Keeps [] w m q = q
  serve_all-Keeps (c ∷ cs) w m q =
      next-Keeps (serve c (w, m)) (serve_all cs) (serve-Keeps c w m q) (serve_all-Keeps cs)

  -- After any requests and cleanups that a new monitor has seen, whatever failed or was cancelled, it lists no
  -- failed onboarding and counts none as active.
  pub failures_never_reported :
      (cs : List Call) (w after : W) (m : OnboardingMonitor)
      → serve_all cs (w, []) ≡ some (after, m)
      → (get_failed_onboardings m ≡ []) × (get_active_onboarding_count m ≡ 0)
  unfolding get_active_onboarding_count
  failures_never_reported cs w after m h =
      let quiet : AllQuiet m = rw h at (serve_all-Keeps cs w [] tt) in
      (quiet_failed m quiet, quiet_count m quiet)
