-- ===== src/Auth/Services.antt =====
-- What the auth service asks of the other services, and the role and terms that it works out from
-- their answers. A call answers none when it fails or times out.
pub mod Effective
use kodi_backend_template_a.Base.{
  ℕ, zero, suc, ◌≤◌, ◌<◌, String, ◌≡◌, refl, inl, inr, Bool, true, false, Option, none, some, List,
  [], ◌∷◌, map, arith, ltb, if◌then◌else◌, truthy, or_else, In, All,
}
use kodi_backend_template_a.Rbac.Roles.{
  UserRole, super_admin, city_admin, citizen, role_name, role_to_number,
}
use kodi_backend_template_a.Rbac.Permission.{Assignment}
use kodi_backend_template_a.Auth.Jwt.{CityAssignment}

pub record User : Type 0 where
  pub id : String
  pub email : Option String
  pub password : String
  pub role : UserRole
  pub is_active : Bool
  pub email_verified : Bool
  pub is_guest : Bool
  pub device_id : Option String
  pub device_platform : Option String

pub record Acceptance : Type 0 where
  pub has_accepted : Bool
  pub terms_id : Option String
  pub grace_period_ends_at : Option ℕ

pub record Terms : Type 0 where
  pub id : String
  pub version : String

pub record TermsInfo : Type 0 where
  pub requires_terms_acceptance : Bool
  pub terms_id : Option String
  pub latest_version : Option String
  pub grace_period_ends_at : Option ℕ

pub record Services : Type 0 where
  pub find_by_email : String → Option (Option User)
  pub find_by_id : String → Option (Option User)
  pub find_by_device : String → String → Option (Option User)
  pub create_guest : String → String → Option User
  pub convert_guest : String → String → String → Option User
  pub assignments : String → Option (List Assignment)
  pub password_matches : String → String → Bool
  pub check_acceptance : String → Option String → Option String → Option Acceptance
  pub latest_terms : Option String → Option String → Option (Option Terms)

-- The place in `roleHierarchy`.
abbrev pub role_index : UserRole → ℕ
role_index super_admin = 0
role_index city_admin = 1
role_index citizen = 2

abbrev pub role_at : ℕ → UserRole
role_at zero = super_admin
role_at (suc zero) = city_admin
role_at _ = citizen

-- `Math.min(...)` of the places, and the last place when there is none.
pub highest_index : List UserRole → ℕ
highest_index [] = 2
highest_index (r ∷ rs) =
    let rest = highest_index rs in if ltb rest (role_index r) then rest else role_index r

abbrev pub is_empty : List UserRole → Bool
is_empty [] = true
is_empty (r ∷ rs) = false

pub effective_role : UserRole → List UserRole → UserRole
unfolding highest_index
effective_role role assigned =
    if ltb (role_index role) (highest_index assigned)
    then role
    else if is_empty assigned
    then citizen
    else role_at (highest_index assigned)

-- The effective role in `refreshTokens`: the user comes from `findOne` of the users service, whose
-- role is a number and is not found in `roleHierarchy`, so that only the assignments count.
pub assigned_role : List UserRole → UserRole
unfolding highest_index
assigned_role assigned = if is_empty assigned then citizen else role_at (highest_index assigned)

pub city_assignment : Assignment → CityAssignment
city_assignment a = record {
  city_id = a.city_id;
  role = role_to_number (role_name a.role);
  can_manage_admins = a.can_manage_admins;
}

pub selected_city : List CityAssignment → Option String
selected_city [] = none
selected_city (a ∷ rest) = some a.city_id

-- `l.length > 0 ? l : undefined`.
abbrev pub non_empty : {A : Type 0} → List A → Option (List A)
non_empty [] = none
non_empty (a ∷ rest) = some (a ∷ rest)

abbrev pub nothing_required : TermsInfo
nothing_required = record {
  requires_terms_acceptance = false;
  terms_id = none;
  latest_version = none;
  grace_period_ends_at = none;
}

terms_of : Acceptance → Option (Option Terms) → TermsInfo
terms_of a latest = record {
  requires_terms_acceptance = true;
  terms_id = elim latest [
    | none ↦ a.terms_id
    | some t ↦ elim t [ none ↦ a.terms_id | some u ↦ or_else (some u.id) a.terms_id ]
  ];
  latest_version = elim latest [
    | none ↦ none
    | some t ↦ elim t [ none ↦ none | some u ↦ truthy (some u.version) ]
  ];
  grace_period_ends_at = a.grace_period_ends_at;
}

terms_checked : Services → Option String → Option String → Option Acceptance → TermsInfo
terms_checked services locale city none = nothing_required
terms_checked services locale city (some a) =
    if a.has_accepted then nothing_required else terms_of a (services.latest_terms locale city)

unfoldable pub check_terms_acceptance :
    Services → String → List CityAssignment → Option String → TermsInfo
unfolding terms_checked terms_of selected_city
check_terms_acceptance services user cities locale =
    terms_checked services locale (selected_city cities)
      (services.check_acceptance user locale (selected_city cities))
