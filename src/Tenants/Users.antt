-- ===== src/Tenants/Users.antt =====
-- apps/carrier-connector/internal/services/tenant_user_methods.go and tenant_user.go, with their queries in
-- internal/repository/tenant_repository_crud.go. The table of users is the list of its rows in the order in
-- which `First` finds them; a new row goes to a position that is an argument, as is its identifier.
-- ListTenantUsers, a filter in SQL, and dates are left out.
use text.Mathlib.Text.{◌==◌ as str_eq}
use telecom_platform.Base.{
  ℕ, zero, suc, Bool, true, false, not, ◌&&◌, ◌||◌, Option, none, some, List, [], ◌∷◌, String,
  if◌then◌else◌, Dict, keep,
}
use telecom_platform.Tenants.{
  TenantSettings, Tenant, TenantError, tenant_id_required, user_id_required, email_required,
  role_required, user_exists, get_failed, create_failed, update_failed, delete_failed,
  tenant_inactive, user_inactive, Result, ok, err, Tenants, get_tenant, or_fault, is_none,
}
use telecom_platform.Tenants.Service.{or_old}

pub record TenantUser : Type 0 where
  pub id : String
  pub tenant_id : String
  pub user_id : String
  pub email : String
  pub role : String
  pub status : String

pub record CreateTenantUserRequest : Type 0 where
  pub tenant_id : String
  pub user_id : String
  pub email : String
  pub role : String

pub record UpdateTenantUserRequest : Type 0 where
  pub role : Option String
  pub status : Option String

pub record TenantContext : Type 0 where
  pub tenant_id : String
  pub tenant_name : String
  pub plan : String
  pub user_id : String
  pub user_role : String
  pub settings : Option TenantSettings
  pub metadata : Option (Dict String)

abbrev pub Users : Type 0
Users = List TenantUser

abbrev pub is_user : String → String → TenantUser → Bool
is_user tenant user u = str_eq u.tenant_id tenant && str_eq u.user_id user

-- `Where("tenant_id = ? AND user_id = ?").First`
unfoldable pub find_user : String → String → Users → Option TenantUser
find_user tenant user [] = none
find_user tenant user (u ∷ users) =
    if is_user tenant user u then some u else find_user tenant user users

unfoldable pub find_user_row : String → Users → Option TenantUser
find_user_row id [] = none
find_user_row id (u ∷ users) = if str_eq u.id id then some u else find_user_row id users

unfoldable pub get_tenant_user : Bool → String → String → Users → Option TenantUser
get_tenant_user fault tenant user users = or_fault fault (find_user tenant user users)

unfoldable pub insert_user : ℕ → TenantUser → Users → Users
insert_user zero u users = u ∷ users
insert_user (suc n) u [] = u ∷ []
insert_user (suc n) u (v ∷ users) = v ∷ insert_user n u users

-- `Create`, which fails on an identifier that is there; tenant and user are not a unique index.
unfoldable pub create_user_row : Bool → ℕ → TenantUser → Users → Users × Bool
create_user_row fault at u users =
    if not fault && is_none (find_user_row u.id users)
    then (insert_user at u users, true)
    else (users, false)

unfoldable pub save_user : TenantUser → Users → Users
save_user u [] = []
save_user u (v ∷ users) = if str_eq v.id u.id then u ∷ users else v ∷ save_user u users

unfoldable pub validate_create_tenant_user_request : CreateTenantUserRequest → Option TenantError
validate_create_tenant_user_request request =
    if str_eq request.tenant_id ""
    then some tenant_id_required
    else if str_eq request.user_id ""
    then some user_id_required
    else if str_eq request.email ""
    then some email_required
    else if str_eq request.role ""
    then some role_required
    else none

abbrev user_of : String → CreateTenantUserRequest → TenantUser
user_of id request = record {
  id = id;
  tenant_id = request.tenant_id;
  user_id = request.user_id;
  email = request.email;
  role = request.role;
  status = "active";
}

abbrev saved {ℓ} : {A : Type ℓ} → A → TenantError → Users × Bool → Users × Result A
saved a e (users, true) = (users, ok a)
saved a e (users, false) = (users, err e)

add_unless_exists : Bool → ℕ → TenantUser → Option TenantUser → Users → Users × Result TenantUser
add_unless_exists fault at u (some existing) users = (users, err user_exists)
add_unless_exists fault at u none users = saved u create_failed (create_user_row fault at u users)

add_valid : Bool → Bool → ℕ → TenantUser → Option TenantError → Users → Users × Result TenantUser
unfolding add_unless_exists
add_valid read_fault fault at u (some e) users = (users, err e)
add_valid read_fault fault at u none users =
    add_unless_exists fault at u (get_tenant_user read_fault u.tenant_id u.user_id users) users

unfoldable pub add_user_to_tenant :
    Bool → Bool → ℕ → String → CreateTenantUserRequest → Users → Users × Result TenantUser
unfolding add_valid
add_user_to_tenant read_fault fault at id request users =
    add_valid read_fault fault at (user_of id request) (validate_create_tenant_user_request request)
      users

abbrev apply_user_updates : UpdateTenantUserRequest → TenantUser → TenantUser
apply_user_updates request u = record u {
  role = or_old request.role u.role;
  status = or_old request.status u.status;
}

update_user_found :
    Bool → UpdateTenantUserRequest → Option TenantUser → Users → Users × Result TenantUser
update_user_found fault request none users = (users, err get_failed)
update_user_found fault request (some u) users =
    if fault
    then (users, err update_failed)
    else (save_user (apply_user_updates request u) users, ok (apply_user_updates request u))

unfoldable pub update_tenant_user :
    Bool → Bool → String → String → UpdateTenantUserRequest → Users → Users × Result TenantUser
unfolding update_user_found
update_tenant_user read_fault fault tenant user request users =
    update_user_found fault request (get_tenant_user read_fault tenant user users) users

unfoldable pub remove_user_from_tenant : Bool → String → String → Users → Users × Result (Unit {0})
remove_user_from_tenant fault tenant user users =
    if fault
    then (users, err delete_failed)
    else (keep (λ (u : TenantUser). not (is_user tenant user u)) users, ok tt)

-- The cases of the `switch` over the role.
unfoldable pub allows : String → String → Bool
allows role permission =
    if str_eq role "owner" || str_eq role "admin"
    then true
    else if str_eq role "manager"
    then not (str_eq permission "delete")
    else if str_eq role "user"
    then str_eq permission "read"
    else false

permission_of : String → Option TenantUser → Result Bool
permission_of permission none = err get_failed
permission_of permission (some u) = ok (allows u.role permission)

unfoldable pub has_permission : Bool → String → String → String → Users → Result Bool
unfolding permission_of
has_permission fault tenant user permission users =
    permission_of permission (get_tenant_user fault tenant user users)

unfoldable pub context_of : Tenant → String → String → TenantContext
context_of t user role = record {
  tenant_id = t.id;
  tenant_name = t.name;
  plan = t.plan;
  user_id = user;
  user_role = role;
  settings = t.settings;
  metadata = t.metadata;
}

unfoldable pub access_user : Tenant → String → Option TenantUser → Result TenantContext
access_user t user none = err get_failed
access_user t user (some u) =
    if str_eq u.status "active" then ok (context_of t user u.role) else err user_inactive

access_tenant : Bool → String → String → Option Tenant → Users → Result TenantContext
unfolding access_user
access_tenant fault tenant user none users = err get_failed
access_tenant fault tenant user (some t) users =
    if str_eq t.status "active"
    then access_user t user (get_tenant_user fault tenant user users)
    else err tenant_inactive

unfoldable pub validate_tenant_access :
    Bool → Bool → String → String → Tenants → Users → Result TenantContext
unfolding access_tenant
validate_tenant_access tenant_fault fault tenant user tenants users =
    access_tenant fault tenant user (get_tenant tenant_fault tenant tenants) users

-- Without a user, whose role is then empty, and whatever the tenant's status is.
context_found : Option Tenant → Result TenantContext
context_found none = err get_failed
context_found (some t) = ok (context_of t "" "")

unfoldable pub get_tenant_context : Bool → String → Tenants → Result TenantContext
unfolding context_found
get_tenant_context fault tenant tenants = context_found (get_tenant fault tenant tenants)
