-- ===== src/Onboarding.antt =====
-- apps/carrier-connector/internal/mvno: the MVNO, its onboarding progress (types.go) and the monitor
-- (monitor.go). A progress is held by pointer, in the goroutine of its MVNO and in the monitor's map. Only
-- that goroutine writes to it, and it stores it first, so the map's entry is the progress. A percentage is a
-- number: with five steps each one is whole. The zero time is `none`. Left out are log
-- lines, fields that nothing reads, and the end and the error of a step, which are only written to copies.
pub mod Validator
pub mod Provisioner
pub mod Service
pub mod Kept
pub mod Outcome
pub mod Unprovisioned
pub mod Monitoring
pub mod Requests
mod Examples
use text.Mathlib.Text.{◌==◌ as str_eq}
use telecom_platform.Base.{
  ℕ, ◌+◌, ◌-◌, ◌*◌, ◌/◌, ℤ, Bool, true, false, ◌&&◌, Option, none, some, List, [], ◌∷◌, String,
  ◌==◌, ltb, length, if◌then◌else◌, Dict, lookup, insert, delete_if,
}

pub record MvnoConfig : Type 0 where
  pub max_subscribers : ℤ
  pub allowed_countries : List String
  pub carrier_pool : List String
  pub custom_branding : Bool
  pub api_access : Bool
  pub advanced_analytics : Bool

pub record Mvno : Type 0 where
  pub id : String
  pub name : String
  pub business_id : String
  pub status : String
  pub plan : String
  pub config : MvnoConfig

pub record OnboardingRequest : Type 0 where
  pub business_name : String
  pub business_id : String
  pub contact_email : String
  pub contact_phone : String
  pub plan : String
  pub estimated_subs : ℤ
  pub target_countries : List String
  pub use_case : String

pub record OnboardingStep : Type 0 where
  pub name : String
  pub status : String

pub record OnboardingProgress : Type 0 where
  pub mvno_id : String
  pub steps : List OnboardingStep
  pub progress : ℕ
  pub started_at : Option ℕ
  pub completed_at : Option ℕ

abbrev pub OnboardingMonitor : Type 0
OnboardingMonitor = Dict OnboardingProgress

unfoldable pub update_progress : String → OnboardingProgress → OnboardingMonitor → OnboardingMonitor
update_progress id progress m = insert id progress m

unfoldable pub get_progress : String → OnboardingMonitor → Option OnboardingProgress
get_progress id m = lookup id m

abbrev is_some {ℓ} : {A : Type ℓ} → Option A → Bool
is_some none = false
is_some (some a) = true

-- The three conditions of the monitor's loops.
unfoldable pub is_active : OnboardingProgress → Bool
is_active p = ltb p.progress 100 && is_some p.completed_at

unfoldable pub is_completed : OnboardingProgress → Bool
is_completed p = p.progress == 100 && is_some p.completed_at

unfoldable pub any_failed : List OnboardingStep → Bool
any_failed [] = false
any_failed (step ∷ steps) =
    let rest = any_failed steps in if str_eq step.status "failed" then true else rest

unfoldable pub count_of : (OnboardingProgress → Bool) → OnboardingMonitor → ℕ
count_of test [] = 0
count_of test ((id, p) ∷ m) = let rest = count_of test m in if test p then rest + 1 else rest

unfoldable pub get_active_onboarding_count : OnboardingMonitor → ℕ
get_active_onboarding_count m = count_of is_active m

unfoldable pub get_completed_onboarding_count : OnboardingMonitor → ℕ
get_completed_onboarding_count m = count_of is_completed m

-- The sum of the durations of the completed onboardings, and their number. A clock does not go back.
abbrev add_duration : Option ℕ → Option ℕ → ℕ × ℕ → ℕ × ℕ
add_duration (some start) (some end) (total, n) = (total + (end - start), n + 1)
add_duration start none (total, n) = (total, n)
add_duration none (some end) (total, n) = (total, n)

unfoldable pub durations : OnboardingMonitor → ℕ × ℕ
durations [] = (0, 0)
durations ((id, p) ∷ m) =
    let rest = durations m in
    if p.progress == 100 then add_duration p.started_at p.completed_at rest else rest

unfoldable pub get_average_onboarding_time : OnboardingMonitor → ℕ
get_average_onboarding_time m = let (total, n) = durations m in if n == 0 then 0 else total / n

unfoldable pub is_old : ℕ → OnboardingProgress → Bool
is_old cutoff p = elim p.completed_at [
  | none ↦ false
  | some end ↦ p.progress == 100 && ltb end cutoff
]

unfoldable pub cleanup_old_progress : ℕ → OnboardingMonitor → OnboardingMonitor
cleanup_old_progress cutoff m = delete_if (λ id p. is_old cutoff p) m

unfoldable pub get_failed_onboardings : OnboardingMonitor → List String
get_failed_onboardings [] = []
get_failed_onboardings ((id, p) ∷ m) =
    let rest = get_failed_onboardings m in if any_failed p.steps then id ∷ rest else rest

unfoldable pub get_current_status : OnboardingProgress → String
get_current_status p =
    if p.progress == 100
    then "completed"
    else if p.progress == 0
    then "pending"
    else if any_failed p.steps
    then "failed"
    else "in_progress"
