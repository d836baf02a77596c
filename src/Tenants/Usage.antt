-- ===== src/Tenants/Usage.antt =====
-- apps/carrier-connector/internal/services/tenant_quota.go: what a check of a quota sees.
use text.Mathlib.Text.{◌==◌ as str_eq}
use telecom_platform.Base.{
  ℤ, ◌≡◌, refl, ◌∙◌, ◌⊎◌, inl, inr, Bool, true, false, Option, none, some, List, [], ◌∷◌, ◌++◌,
  String, arith, Bool-cases, All,
}
use telecom_platform.Tenants.{Tenants}
use telecom_platform.Tenants.Quota.{
  TenantUsage, is_for, save_usage, earlier, get_usage, check_quota, update_usage, record_api_usage,
}

-- A usage that is recorded: of a resource, or of the API.
pub data Recorded : Type 0 where
  uses : Bool → String → String → String → ℤ → Recorded
  calls : Bool → String → String → Recorded

unfoldable pub apply : Recorded → List TenantUsage → List TenantUsage
apply (uses fault id tenant resource amount) usage =
    (update_usage fault id tenant resource amount usage).0
apply (calls fault id tenant) usage = (record_api_usage fault id tenant usage).0

unfoldable pub apply_all : List Recorded → List TenantUsage → List TenantUsage
apply_all [] usage = usage
apply_all (r ∷ recorded) usage = apply_all recorded (apply r usage)

abbrev pub id_of : Recorded → String
id_of (uses fault id tenant resource amount) = id
id_of (calls fault id tenant) = id

abbrev pub IsFresh : String → List TenantUsage → Type 0
IsFresh id usage = All (λ (v : TenantUsage). str_eq v.id id ≡ false) usage

save_usage-fresh :
    (w : TenantUsage) (usage : List TenantUsage)
    → IsFresh w.id usage
    → save_usage w usage ≡ usage ++ w ∷ []
unfolding save_usage
save_usage-fresh w [] new = refl
save_usage-fresh w (v ∷ usage) new = ground (arith, save_usage-fresh w usage new.1)

-- The order in which a database sorts is transitive.
abbrev pub IsTransitive : (String → String → Bool) → Type 0
IsTransitive before = (a b c : String) → before a b ≡ true → before b c ≡ true → before a c ≡ true

module _ (before : String → String → Bool) (sorts : IsTransitive before)
    (tenant resource : String) where
  abbrev Precedes : TenantUsage → Option TenantUsage → Type 0
  Precedes w none = Unit
  Precedes w (some t) = before w.id t.id ≡ true

  -- What is chosen once a row has been added at the end.
  abbrev Appended : TenantUsage → List TenantUsage → Type 0
  Appended w rows =
      (get_usage before tenant resource (rows ++ w ∷ []) ≡ get_usage before tenant resource rows)
      ⊎ ((get_usage before tenant resource (rows ++ w ∷ []) ≡ some w)
          × Precedes w (get_usage before tenant resource rows))

  earlier-Appended :
      (v w : TenantUsage) (old new : Option TenantUsage)
      → (new ≡ old) ⊎ ((new ≡ some w) × Precedes w old)
      → (earlier before v new ≡ earlier before v old)
        ⊎ ((earlier before v new ≡ some w) × Precedes w (earlier before v old))
  earlier-Appended v w old new (inl same) = inl (rw same refl)
  earlier-Appended v w none new (inr (chosen, b)) = elim (Bool-cases (before w.id v.id)) [
    | inl first ↦ rw chosen (inr (rw first refl, first))
    | inr last ↦ rw chosen (inl (rw last refl))
  ]
  earlier-Appended v w (some t) new (inr (chosen, b)) = elim (Bool-cases (before w.id v.id)) [
    | inl first ↦ rw chosen (inr (rw first refl, ground (arith, first, b)))
    | inr last ↦ elim (Bool-cases (before t.id v.id)) [
      | inl t_first ↦ cc (sorts w.id t.id v.id b t_first)
      | inr v_first ↦ rw chosen (inl (rw (last, v_first) refl))
    ]
  ]

  get_usage-append : (w : TenantUsage) (rows : List TenantUsage) → Appended w rows
  unfolding get_usage
  get_usage-append w [] = elim (Bool-cases (is_for tenant resource w)) [
    | inl mine ↦ inr (rw mine refl, tt)
    | inr other ↦ inl (rw other refl)
  ]
  get_usage-append w (v ∷ rows) = elim (Bool-cases (is_for tenant resource v)) [
    | inl mine ↦ rw mine (earlier-Appended v w _ _ (get_usage-append w rows))
    | inr other ↦ rw other (get_usage-append w rows)
  ]

  get_usage-later :
      (u w : TenantUsage) (rows : List TenantUsage)
      → before w.id u.id ≡ false
      → get_usage before tenant resource rows ≡ some u
      → get_usage before tenant resource (rows ++ w ∷ []) ≡ some u
  get_usage-later u w rows later f = elim (get_usage-append w rows) [
    | inl same ↦ same ∙ f
    | inr (chosen, b) ↦ cc (rw f at b)
  ]

  get_usage-save :
      (u w : TenantUsage) (usage : List TenantUsage)
      → IsFresh w.id usage
      → before w.id u.id ≡ false
      → get_usage before tenant resource usage ≡ some u
      → get_usage before tenant resource (save_usage w usage) ≡ some u
  get_usage-save u w usage new later f =
      rw (save_usage-fresh w usage new) (get_usage-later u w usage later f)

  get_usage-apply :
      (u : TenantUsage) (r : Recorded) (usage : List TenantUsage)
      → IsFresh (id_of r) usage
      → before (id_of r) u.id ≡ false
      → get_usage before tenant resource usage ≡ some u
      → get_usage before tenant resource (apply r usage) ≡ some u
  unfolding apply update_usage record_api_usage
  get_usage-apply u (uses true id t x n) usage new later f = f
  get_usage-apply u (uses false id t x n) usage new later f = get_usage-save u _ usage new later f
  get_usage-apply u (calls true id t) usage new later f = f
  get_usage-apply u (calls false id t) usage new later f = get_usage-save u _ usage new later f

  -- Each identifier is new when it is used, and none is sorted before that of `u`.
  abbrev pub AllLater : TenantUsage → List Recorded → List TenantUsage → Type 0
  AllLater u [] usage = Unit
  AllLater u (r ∷ recorded) usage =
      IsFresh (id_of r) usage
      × (before (id_of r) u.id ≡ false)
      × AllLater u recorded (apply r usage)

  get_usage-apply_all :
      (u : TenantUsage) (recorded : List Recorded) (usage : List TenantUsage)
      → AllLater u recorded usage
      → get_usage before tenant resource usage ≡ some u
      → get_usage before tenant resource (apply_all recorded usage) ≡ some u
  unfolding apply_all
  get_usage-apply_all u [] usage later f = f
  get_usage-apply_all u (r ∷ recorded) usage (new, l, later) f =
      get_usage-apply_all u recorded (apply r usage) later (get_usage-apply u r usage new l f)

  -- Each recorded usage is a row of its own, and a check reads one row alone. Once a check has a row to
  -- read, no usage that is recorded under new identifiers that the database does not sort before that
  -- row's, however much it is, changes what a check of any amount answers.
  pub usage_never_accumulates :
      (u : TenantUsage) (recorded : List Recorded) (usage : List TenantUsage) (amount : ℤ)
      (tenants : Tenants)
      → AllLater u recorded usage
      → get_usage before tenant resource usage ≡ some u
      → check_quota before false false tenant resource amount (apply_all recorded usage) tenants
        ≡ check_quota before false false tenant resource amount usage tenants
  unfolding check_quota
  usage_never_accumulates u recorded usage amount tenants later f =
      rw (get_usage-apply_all u recorded usage later f, f) refl
