-- ===== src/Onboarding/Provisioner.antt =====
-- apps/carrier-connector/internal/mvno/provisioner_production.go and provisioner_methods.go. The four services
-- are interfaces: each call of one takes the world and gives its answer and the world after it. The
-- order in which Go visits the set of carriers is the list's.
use text.Mathlib.Text.{◌==◌ as str_eq}
use telecom_platform.Base.{
  ℕ, ℤ, Bool, true, false, ◌||◌, Option, none, some, List, [], ◌∷◌, ◌++◌, String, if◌then◌else◌,
  Dict, insert,
}
use telecom_platform.Onboarding.{Mvno}

-- The values of a tenant's settings.
pub data Setting : Type 0 where
  plain : String → Setting
  number : ℤ → Setting
  texts : List String → Setting
  flag : Bool → Setting
  credentials : String → String → List String → Setting

-- A map that is nil is `none`.
pub record TenantConfig : Type 0 where
  pub id : String
  pub name : String
  pub plan : String
  pub settings : Option (Dict Setting)

pub record CarrierInfo : Type 0 where
  pub id : String
  pub is_active : Bool

-- `true` is an error, as is `none`.
pub record ProductionProvisioner (W : Type 0) : Type 0 where
  pub create_tenant : TenantConfig → W → Bool × W
  pub get_tenant : String → W → Option TenantConfig × W
  pub get_carriers_by_country : String → W → Option (List CarrierInfo) × W
  pub configure_carrier : String → String → W → Bool × W
  pub create_billing_account : String → String → W → Option String × W
  pub create_rate_plans : String → String → String → W → Bool × W
  pub setup_payment_gateway : String → String → W → Bool × W
  pub create_storage_bucket : String → ℕ → W → Bool × W
  pub create_database_schema : String → W → Bool × W
  pub generate_prefixed : String → W → String × W

-- What a step answers: whether it failed, the MVNO and the world.
abbrev pub Answer : Type 0 → Type 0
Answer W = Bool × Mvno × W

unfoldable pub tenant_config : Mvno → TenantConfig
tenant_config mvno = record {
  id = mvno.id;
  name = mvno.name;
  plan = mvno.plan;
  settings = some (
      ("business_id", plain mvno.business_id)
      ∷ ("max_subscribers", number mvno.config.max_subscribers)
      ∷ ("allowed_countries", texts mvno.config.allowed_countries)
      ∷ ("custom_branding", flag mvno.config.custom_branding)
      ∷ ("advanced_analytics", flag mvno.config.advanced_analytics)
      ∷ []);
}

unfoldable pub get_storage_allocation : String → ℕ
get_storage_allocation plan =
    if str_eq plan "growth"
    then 100
    else if str_eq plan "scale"
    then 1000
    else if str_eq plan "enterprise"
    then 10000
    else 10

unfoldable pub get_api_permissions : String → List String
get_api_permissions plan =
    if str_eq plan "starter"
    then "read:subscribers" ∷ "read:usage" ∷ []
    else if str_eq plan "growth"
    then "read:subscribers" ∷ "write:subscribers" ∷ "read:usage" ∷ "read:billing" ∷ []
    else if str_eq plan "scale"
    then "read:subscribers" ∷ "write:subscribers" ∷ "read:usage" ∷ "write:usage" ∷ "read:billing"
      ∷ "write:billing" ∷ "read:analytics" ∷ "write:analytics" ∷ []
    else if str_eq plan "enterprise"
    then "*" ∷ []
    else "read:subscribers" ∷ []

has_text : String → List String → Bool
has_text t [] = false
has_text t (u ∷ us) = str_eq u t || has_text t us

-- `selectedCarriers[carrier.ID] = true` for the active ones.
unfoldable pub add_active : List CarrierInfo → List String → List String
unfolding has_text
add_active [] selected = selected
add_active (c ∷ cs) selected = add_active cs (
    if c.is_active
    then if has_text c.id selected then selected else selected ++ c.id ∷ []
    else selected)

abbrev add_found : Option (List CarrierInfo) → List String → List String
add_found none selected = selected
add_found (some cs) selected = add_active cs selected

-- A call, and what follows where it does not fail.
unfoldable pub and_then : {W : Type 0} → Mvno → Bool × W → (W → Answer W) → Answer W
and_then mvno (true, w) next = (true, mvno, w)
and_then mvno (false, w) next = next w

module _ {W : Type 0} (p : ProductionProvisioner W) where
  unfoldable pub provision_resources : Mvno → W → Answer W
  provision_resources mvno w = and_then mvno (p.create_tenant (tenant_config mvno) w) λ w.
      and_then mvno (p.create_database_schema mvno.id w) λ w.
        and_then mvno (p.create_storage_bucket mvno.id (get_storage_allocation mvno.plan) w)
          λ w. (false, mvno, w)

  unfoldable pub select_carriers : List String → List String → W → List String × W
  unfolding add_active
  select_carriers [] selected w = (selected, w)
  select_carriers (country ∷ countries) selected w =
      let (found, w) = p.get_carriers_by_country country w in
      select_carriers countries (add_found found selected) w

  unfoldable pub configure_carriers : String → List String → W → Bool × W
  configure_carriers id [] w = (false, w)
  configure_carriers id (carrier ∷ carriers) w =
      let (failed, w) = p.configure_carrier id carrier w in
      let rest = configure_carriers id carriers w in if failed then (true, w) else rest

  unfoldable pub setup_selected : Mvno → List String → W → Answer W
  unfolding configure_carriers
  setup_selected mvno [] w = (true, mvno, w)
  setup_selected mvno (carrier ∷ carriers) w =
      and_then mvno (configure_carriers mvno.id (carrier ∷ carriers) w) λ w. (
        false,
        record mvno { config = record mvno.config { carrier_pool = carrier ∷ carriers } },
        w,
      )

  unfoldable pub setup_carriers : Mvno → W → Answer W
  unfolding select_carriers setup_selected
  setup_carriers mvno w =
      let (selected, w) = select_carriers mvno.config.allowed_countries [] w in
      setup_selected mvno selected w

  unfoldable pub bill : Mvno → Option String × W → Answer W
  bill mvno (none, w) = (true, mvno, w)
  bill mvno (some billing, w) =
      and_then mvno (p.create_rate_plans mvno.id billing mvno.plan w)
        λ w. and_then mvno (p.setup_payment_gateway mvno.id billing w) λ w. (false, mvno, w)

  unfoldable pub setup_billing : Mvno → W → Answer W
  unfolding bill
  setup_billing mvno w = bill mvno (p.create_billing_account mvno.id mvno.plan w)

  -- A write to a nil map panics.
  unfoldable pub write_access :
      Mvno → Setting → TenantConfig → Option (Dict Setting) → W → Option (Answer W)
  write_access mvno access tenant none w = none
  write_access mvno access tenant (some settings) w =
      let stored : TenantConfig = record tenant {
        settings = some (insert "api_access" access settings);
      } in
      some (and_then mvno (p.create_tenant stored w) λ w. (false, mvno, w))

  unfoldable pub store_access : Mvno → Setting → Option TenantConfig × W → Option (Answer W)
  unfolding write_access
  store_access mvno access (none, w) = some (true, mvno, w)
  store_access mvno access (some tenant, w) = write_access mvno access tenant tenant.settings w

  unfoldable pub setup_api_access : Mvno → W → Option (Answer W)
  unfolding store_access
  setup_api_access mvno w =
      if mvno.config.api_access
      then (let (api_key, w) = p.generate_prefixed "api" w in
          let (secret_key, w) = p.generate_prefixed "sec" w in
          store_access mvno (credentials api_key secret_key (get_api_permissions mvno.plan))
            (p.get_tenant mvno.id w))
      else some (false, mvno, w)
