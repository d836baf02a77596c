-- ===== src/Onboarding/Outcome.antt =====
-- How an onboarding ends: executeOnboarding of apps/carrier-connector/internal/services/onboarding_service.go.
use telecom_platform.Base.{
  ℕ, ◌+◌, ◌*◌, ◌<◌, ◌≡◌, refl, sym, ap, ◌∙◌, inl, inr, Bool, true, false, Option, none, some, List,
  [], ◌∷◌, String, ◌==◌, length, arith, if◌then◌else◌, Bool-cases, insert,
}
use telecom_platform.Onboarding.{
  Mvno, OnboardingRequest, OnboardingStep, OnboardingProgress, OnboardingMonitor, update_progress,
  any_failed, is_active,
}
use telecom_platform.Onboarding.Validator.{Failure, validate_request}
use telecom_platform.Onboarding.Provisioner.{ProductionProvisioner, Answer}
use telecom_platform.Onboarding.Service.{
  Onboarding, execute_step, execute_steps, execute_onboarding, start_onboarding, new_onboarding,
  unless_failed, get_onboarding_steps, publish, advance, after_call, complete, continue_with,
  percent, finish,
}
use telecom_platform.Onboarding.Kept.{AllKept, execute_step-AllKept}

-- No step is seen to have failed, and none is seen to be running.
abbrev pub IsQuiet : OnboardingProgress → Type 0
IsQuiet p = (any_failed p.steps ≡ false) × (is_active p ≡ false)

abbrev pub AllQuiet : OnboardingMonitor → Type 0
AllQuiet [] = Unit
AllQuiet ((id, p) ∷ m) = IsQuiet p × AllQuiet m

insert-AllQuiet :
    (id : String) (p : OnboardingProgress) (m : OnboardingMonitor)
    → IsQuiet p
    → AllQuiet m
    → AllQuiet (insert id p m)
unfolding insert
insert-AllQuiet id p [] h k = (h, tt)
insert-AllQuiet id p ((j, q) ∷ m) h k = ground (arith, insert-AllQuiet id p m h k.1)

ongoing-IsQuiet :
    (p : OnboardingProgress) → p.steps ≡ get_onboarding_steps → p.completed_at ≡ none → IsQuiet p
unfolding any_failed is_active get_onboarding_steps
ongoing-IsQuiet p h k = (rw h refl, ground arith)

completed-IsQuiet :
    (p : OnboardingProgress) → p.steps ≡ get_onboarding_steps → p.progress ≡ 100 → IsQuiet p
unfolding any_failed is_active get_onboarding_steps
completed-IsQuiet p h k = (rw h refl, ground arith)

percent_of_five : (i n : ℕ) → n ≡ 5 → percent i n ≡ (i + 1) * 20
percent_of_five i n h = rw h (omega arith)

-- How far an onboarding came: whether every step succeeds, whether it returned early, and the percentage.
abbrev Reached : Bool → Bool → ℕ → Type 0
Reached true early n = (early ≡ false) × (n ≡ 100)
Reached false early n = n < 100

module _ {W : Type 0} where
  -- The next steps, where the call succeeded.
  abbrev pub answered : Option (Answer W) → (Mvno → W → Bool) → Bool
  answered none next = false
  answered (some (true, mvno, w)) next = false
  answered (some (false, mvno, w)) next = next mvno w

  -- Whether no step is cancelled or fails, each at what the steps before it left.
  unfoldable pub all_succeed :
      Option (ProductionProvisioner W) → (ℕ → Bool) → ℕ → List OnboardingStep → Mvno → W → Bool
  all_succeed p cancelled i [] mvno w = true
  all_succeed p cancelled i (step ∷ steps) mvno w =
      if cancelled i
      then false
      else answered (execute_step p (record step { status = "running" }) mvno w)
          (all_succeed p cancelled (i + 1) steps)

  module _ (before : OnboardingMonitor) where
    -- What holds until the last write.
    abbrev IsOngoing : Onboarding W → Type 0
    IsOngoing s =
        (s.mvno.status ≡ "pending")
        × (s.progress.steps ≡ get_onboarding_steps)
        × (s.progress.completed_at ≡ none)
        × (AllQuiet before → AllQuiet s.monitor)

    abbrev Result : Bool → Option (Bool × Onboarding W) → Type 0
    Result ok none = Unit
    Result ok (some (early, s)) = IsOngoing s × Reached ok early s.progress.progress

    publish-IsOngoing : (s : Onboarding W) → IsOngoing s → IsOngoing (publish s)
    unfolding update_progress
    publish-IsOngoing s (a, b, c, d) = (
      a,
      b,
      c,
      λ q. insert-AllQuiet s.mvno.id s.progress s.monitor (ongoing-IsQuiet s.progress b c) (d q),
    )

    next_lem :
        (i : ℕ) (s : Onboarding W) (o : Option (Answer W)) (ok : Mvno → W → Bool)
        (next : Onboarding W → Option (Bool × Onboarding W))
        → i < 5
        → IsOngoing s
        → s.progress.progress ≡ i * 20
        → AllKept s.mvno o
        → ((s' : Onboarding W)
            → IsOngoing s'
            → s'.progress.progress ≡ (i + 1) * 20
            → Result (ok s'.mvno s'.world) (next s'))
        → Result (answered o ok) (continue_with o i s next)
    unfolding get_onboarding_steps
    next_lem i s none ok next b h e k rest = tt
    next_lem i s (some (true, mvno, w)) ok next b (a, q, c, d) e k rest =
        ((k.1 ∙ a, q, c, d), omega arith)
    next_lem i s (some (false, mvno, w)) ok next b (a, q, c, d) e k rest =
        rest (advance i (after_call mvno w s))
          (publish-IsOngoing
            (record (after_call mvno w s) {
              progress = record s.progress { progress = percent i (length s.progress.steps) };
            })
            (k.1 ∙ a, q, c, d))
          (percent_of_five i (length s.progress.steps) (ap length q))

    execute_steps_lem :
        (p : Option (ProductionProvisioner W)) (cancelled : ℕ → Bool) (i : ℕ)
        (steps : List OnboardingStep) (s : Onboarding W)
        → i + length steps ≡ 5
        → IsOngoing s
        → s.progress.progress ≡ i * 20
        → Result
            (all_succeed p cancelled i steps s.mvno s.world)
            (execute_steps p cancelled i steps s)
    unfolding all_succeed execute_steps
    execute_steps_lem p cancelled i [] s n h e = (h, (refl, omega arith))
    execute_steps_lem p cancelled i (step ∷ steps) s n h e = elim (Bool-cases (cancelled i)) [
      | inl c ↦ rw c (h, omega arith)
      | inr c ↦ rw c (
          next_lem i (publish s) _ _ _ (omega arith) (publish-IsOngoing s h) e
            (execute_step-AllKept _ p _ _)
            λ s' h' e'. execute_steps_lem p cancelled (i + 1) steps s' (omega arith) h' e')
    ]

    -- An onboarding that has ended.
    abbrev Final : ℕ → Bool → Option (Onboarding W) → Type 0
    Final now ok none = Unit
    Final now ok (some s) =
        (s.mvno.status ≡ (if ok then "active" else "pending"))
        × (s.progress.completed_at ≡ (if ok then some now else none))
        × (AllQuiet before → AllQuiet s.monitor)

    complete_lem :
        (now : ℕ) (ok : Bool) (s : Onboarding W)
        → IsOngoing s
        → Reached ok false s.progress.progress
        → Final now ok (some (complete now s))
    unfolding complete update_progress
    complete_lem now true s (a, b, c, d) (e, h) =
        rw h (
          refl,
          refl,
          λ q. insert-AllQuiet s.mvno.id _ s.monitor (completed-IsQuiet _ b refl) (d q),
        )
    complete_lem now false s (a, b, c, d) h =
        let part : (s.progress.progress == 100) ≡ false = ground arith in rw part (a, c, d)

    finish_lem :
        (now : ℕ) (ok : Bool) (r : Option (Bool × Onboarding W))
        → Result ok r
        → Final now ok (finish now r)
    finish_lem now ok none h = tt
    finish_lem now true (some (true, s)) (h, (e, n)) = cc
    finish_lem now false (some (true, s)) ((a, b, c, d), n) = (a, c, d)
    finish_lem now ok (some (false, s)) (h, n) = complete_lem now ok s h n

  unless_failed-some :
      (e : Option Failure) (s s' : Onboarding W) → unless_failed e s ≡ some s' → s ≡ s'
  unless_failed-some none s s' h = cc
  unless_failed-some (some e) s s' h = cc

  pub started :
      (id : String) (now : ℕ) (w : W) (r : OnboardingRequest) (m : OnboardingMonitor)
      (s : Onboarding W)
      → start_onboarding id now w r m ≡ some s
      → new_onboarding id now w r m ≡ s
  unfolding start_onboarding
  started id now w r m s h = unless_failed-some (validate_request r) _ s h

  outcome :
      (p : Option (ProductionProvisioner W)) (cancelled : ℕ → Bool) (now : ℕ) (end : ℕ)
      (id : String) (w : W) (r : OnboardingRequest) (m : OnboardingMonitor) (s : Onboarding W)
      → start_onboarding id now w r m ≡ some s
      → Final m end
          (all_succeed p cancelled 0 get_onboarding_steps s.mvno s.world)
          (execute_onboarding p cancelled end s)
  unfolding execute_onboarding new_onboarding get_onboarding_steps
  outcome p cancelled now end id w r m s h = rw (sym (started id now w r m s h)) (
      finish_lem m end _ _ (
        execute_steps_lem m p cancelled 0 get_onboarding_steps (new_onboarding id now w r m) refl
          (refl, refl, refl, λ q. q) refl))

  -- An onboarding that started, and ended without a panic, made its MVNO active and its progress complete
  -- exactly where no step was cancelled and none failed; else the MVNO is pending and the progress has no end.
  pub execute_onboarding_lem :
      (p : Option (ProductionProvisioner W)) (cancelled : ℕ → Bool) (now end : ℕ) (id : String)
      (w : W) (r : OnboardingRequest) (m : OnboardingMonitor) (s after : Onboarding W)
      → start_onboarding id now w r m ≡ some s
      → execute_onboarding p cancelled end s ≡ some after
      → let ok = all_succeed p cancelled 0 get_onboarding_steps s.mvno s.world in
        (after.mvno.status ≡ (if ok then "active" else "pending"))
        × (after.progress.completed_at ≡ (if ok then some end else none))
  execute_onboarding_lem p cancelled now end id w r m s after h e =
      let (a, b, c) = rw e at (outcome p cancelled now end id w r m s h) in (a, b)

  pub execute_onboarding-AllQuiet :
      (p : Option (ProductionProvisioner W)) (cancelled : ℕ → Bool) (now end : ℕ) (id : String)
      (w : W) (r : OnboardingRequest) (m : OnboardingMonitor) (s after : Onboarding W)
      → start_onboarding id now w r m ≡ some s
      → execute_onboarding p cancelled end s ≡ some after
      → AllQuiet m
      → AllQuiet after.monitor
  execute_onboarding-AllQuiet p cancelled now end id w r m s after h e =
      (rw e at (outcome p cancelled now end id w r m s h)).2
