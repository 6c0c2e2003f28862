-- ===== src/Rbac/Roles.antt =====
-- libs/rbac/src/utils/role.utils.ts, `hasRole` of permission.service.ts, and the role that the
-- guards read from a token. A role in a token is a number, or the text of the enum.
use kodi_backend_template_a.Base.{
  ℕ, ◌≤◌, String, ◌≡◌, refl, ◌↔◌, Bool, true, false, arith, nat_eq, leb, ◌==◌, if◌then◌else◌,
}

pub data UserRole : Type 0 where
  super_admin city_admin citizen : UserRole

abbrev pub role_eq : UserRole → UserRole → Bool
role_eq super_admin super_admin = true
role_eq city_admin city_admin = true
role_eq citizen citizen = true
role_eq _ _ = false

-- The text that the enum's value is at run time.
abbrev pub role_name : UserRole → String
role_name super_admin = "SUPER_ADMIN"
role_name city_admin = "CITY_ADMIN"
role_name citizen = "CITIZEN"

abbrev pub super_name : String
super_name = "SUPER_ADMIN"

abbrev pub city_admin_name : String
city_admin_name = "CITY_ADMIN"

abbrev pub citizen_name : String
citizen_name = "CITIZEN"

unfoldable pub role_to_number : String → ℕ
role_to_number role =
    if role == "SUPER_ADMIN"
    then 1
    else if role == "CITY_ADMIN"
    then 2
    else if role == "CITIZEN"
    then 3
    else 3

pub number_to_role : ℕ → UserRole
number_to_role n =
    if nat_eq n 1
    then super_admin
    else if nat_eq n 2
    then city_admin
    else if nat_eq n 3
    then citizen
    else citizen

pub data RoleClaim : Type 0 where
  number : ℕ → RoleClaim
  text : String → RoleClaim

unfoldable pub claimed_role : RoleClaim → String
unfolding number_to_role
claimed_role (number n) = role_name (number_to_role n)
claimed_role (text s) = s

role_level : UserRole → ℕ
role_level super_admin = 3
role_level city_admin = 2
role_level citizen = 1

unfoldable pub has_role : UserRole → UserRole → Bool
unfolding role_level
has_role user required =
    if role_eq user super_admin then true else leb (role_level required) (role_level user)

-- A role that is written to a token as a number is read back as the same role.
pub number_to_role-role_to_number :
    (r : UserRole) → number_to_role (role_to_number (role_name r)) ≡ r
unfolding number_to_role role_to_number
number_to_role-role_to_number super_admin = refl
number_to_role-role_to_number city_admin = refl
number_to_role-role_to_number citizen = refl

-- A user's role meets a required one exactly when its number in tokens is not greater.
pub has_role_iff :
    (user required : UserRole)
    → (has_role user required ≡ true)
      ↔ (role_to_number (role_name user) ≤ role_to_number (role_name required))
unfolding has_role role_to_number
has_role_iff super_admin super_admin = (λ h. omega arith, λ h. refl)
has_role_iff super_admin city_admin = (λ h. omega arith, λ h. refl)
has_role_iff super_admin citizen = (λ h. omega arith, λ h. refl)
has_role_iff city_admin super_admin = (λ h. cc, λ h. absurd (omega arith))
has_role_iff city_admin city_admin = (λ h. omega arith, λ h. refl)
has_role_iff city_admin citizen = (λ h. omega arith, λ h. refl)
has_role_iff citizen super_admin = (λ h. cc, λ h. absurd (omega arith))
has_role_iff citizen city_admin = (λ h. cc, λ h. absurd (omega arith))
has_role_iff citizen citizen = (λ h. omega arith, λ h. refl)
