-- ===== src/Onboarding/Unprovisioned.antt =====
-- NewOnboardingService of apps/carrier-connector/internal/services/onboarding_service.go leaves the provisioner
-- nil, and routes.go uses the service as it is.
use telecom_platform.Base.{
  ℕ, ◌≡◌, refl, sym, ◌↔◌, inl, inr, Bool, false, none, some, String, Bool-cases, Option-cases,
}
use telecom_platform.Onboarding.{Mvno, OnboardingRequest, OnboardingMonitor}
use telecom_platform.Onboarding.Validator.{validate_mvno}
use telecom_platform.Onboarding.Service.{
  Onboarding, execute_step, on_provisioner, execute_steps, execute_onboarding, start_onboarding,
  new_onboarding, new_onboarding_service, get_onboarding_steps, OnboardingService,
}
use telecom_platform.Onboarding.Outcome.{all_succeed, execute_onboarding_lem, started}

module _ {W : Type 0} where
  unprovisioned_fails :
      (cancelled : ℕ → Bool) (mvno : Mvno) (w : W)
      → all_succeed none cancelled 0 get_onboarding_steps mvno w ≡ false
  unfolding all_succeed execute_step on_provisioner get_onboarding_steps
  unprovisioned_fails cancelled mvno w = elim (Bool-cases (cancelled 0)) [
    | inl c ↦ rw c refl
    | inr c ↦ elim (Option-cases (validate_mvno mvno)) [
      | inl v ↦ elim (Bool-cases (cancelled 1)) [
        | inl d ↦ rw (c, v, d) refl
        | inr d ↦ rw (c, v, d) refl
      ]
      | inr (f, v) ↦ rw (c, v) refl
    ]
  ]

  panics :
      (cancelled : ℕ → Bool) (now end : ℕ) (id : String) (w : W) (r : OnboardingRequest)
      (m : OnboardingMonitor)
      → let s = new_onboarding id now w r m in
        (execute_onboarding none cancelled end s ≡ none)
        ↔ ((cancelled 0 ≡ false) × (validate_mvno s.mvno ≡ none) × (cancelled 1 ≡ false))
  unfolding execute_onboarding execute_steps execute_step on_provisioner get_onboarding_steps
      new_onboarding
  panics cancelled now end id w r m =
      let s : Onboarding W = new_onboarding id now w r m in
      elim (Bool-cases (cancelled 0)) [
        | inl c ↦ rw c ((λ h. cc), λ (x, y, z). cc)
        | inr c ↦ elim (Option-cases (validate_mvno s.mvno)) [
          | inl v ↦ elim (Bool-cases (cancelled 1)) [
            | inl d ↦ rw (c, v, d) ((λ h. cc), λ (x, y, z). cc)
            | inr d ↦ rw (c, v, d) ((λ h. (refl, refl, refl)), λ h. refl)
          ]
          | inr (f, v) ↦ rw (c, v) ((λ h. cc), λ (x, y, z). cc)
        ]
      ]

  -- With the service as it is made, an onboarding that started panics exactly where the MVNO passes its
  -- validation and the request is not cancelled before the second step; where it does not panic, the MVNO
  -- stays pending.
  pub unprovisioned_onboarding_lem :
      (cancelled : ℕ → Bool) (now end : ℕ) (id : String) (w : W) (r : OnboardingRequest)
      (m : OnboardingMonitor) (s : Onboarding W)
      → start_onboarding id now w r m ≡ some s
      → let service : OnboardingService W = new_onboarding_service in
        ((execute_onboarding service.provisioner cancelled end s ≡ none)
          ↔ ((cancelled 0 ≡ false) × (validate_mvno s.mvno ≡ none) × (cancelled 1 ≡ false)))
        × ((after : Onboarding W)
            → execute_onboarding service.provisioner cancelled end s ≡ some after
            → after.mvno.status ≡ "pending")
  unfolding new_onboarding_service
  unprovisioned_onboarding_lem cancelled now end id w r m s h = (
    rw (sym (started id now w r m s h)) (panics cancelled now end id w r m),
    λ after e.
        (rw (unprovisioned_fails cancelled s.mvno s.world) at
          (execute_onboarding_lem none cancelled now end id w r m s after h e)).0,
  )
