-- ===== src/Rbac/Guards/Roles.antt =====
-- The guards of libs/rbac/src that look at the role and at the terms alone.
use mathlib.Core.Option.{none-ne-some}
use kodi_backend_template_a.Base.{
  ℕ, ◌≤◌, String, ◌≡◌, refl, ◌↔◌, inl, inr, Bool, true, false, not, ◌&&◌, ◌||◌, Option, none, some,
  arith, if◌then◌else◌, truthy, ◌==◌, Option-cases,
}
use kodi_backend_template_a.Rbac.Roles.{
  UserRole, super_admin, city_admin, citizen, number, role_name, number_to_role, claimed_role,
  has_role, super_name, city_admin_name,
}
use kodi_backend_template_a.Rbac.Guards.{
  Verdict, allowed, forbidden, super_admin_required, city_admin_required, terms_not_accepted,
  TokenUser, Request, AcceptanceCheck, admin_for, admin_only_guard, in_grace, terms_for,
  terms_acceptance_guard,
}

-- The role that the two marks of a route ask for.
abbrev pub required_role : Bool → Bool → UserRole
required_role super_only city_only =
    if super_only then super_admin else if city_only then city_admin else citizen

-- The verdict of the guard for a role, in the order of its tests.
abbrev admin_verdict : Bool → Bool → String → Verdict
admin_verdict super_only city_only role =
    if not super_only && not city_only
    then allowed
    else if super_only
    then if role == super_name then allowed else forbidden super_admin_required
    else if role == super_name || role == city_admin_name
    then allowed
    else forbidden city_admin_required

admin_verdict_level :
    (super_only city_only : Bool) (role : UserRole)
    → (admin_verdict super_only city_only (role_name role) ≡ allowed)
      ↔ (has_role role (required_role super_only city_only) ≡ true)
unfolding has_role
admin_verdict_level true city_only super_admin = (λ h. refl, λ h. refl)
admin_verdict_level true city_only city_admin = (λ h. cc, λ h. cc)
admin_verdict_level true city_only citizen = (λ h. cc, λ h. cc)
admin_verdict_level false true super_admin = (λ h. refl, λ h. refl)
admin_verdict_level false true city_admin = (λ h. refl, λ h. refl)
admin_verdict_level false true citizen = (λ h. cc, λ h. cc)
admin_verdict_level false false super_admin = (λ h. refl, λ h. refl)
admin_verdict_level false false city_admin = (λ h. refl, λ h. refl)
admin_verdict_level false false citizen = (λ h. refl, λ h. refl)

-- For a token whose role is a number, the guard of admin routes lets through exactly the roles that
-- meet the role that the marks of the route ask for: super admin, city admin, or any.
pub admin_only_guard-has_role :
    (super_only city_only : Bool) (r : Request) (u : TokenUser) (n : ℕ)
    → r.user ≡ some u
    → u.role ≡ number n
    → (admin_only_guard super_only city_only r ≡ allowed)
      ↔ (has_role (number_to_role n) (required_role super_only city_only) ≡ true)
unfolding admin_only_guard claimed_role
admin_only_guard-has_role super_only city_only r u n eu en =
    rw (eu, admin_for) (rw en (admin_verdict_level super_only city_only (number_to_role n)))

-- The terms service has answered that the terms are not accepted, outside a grace period.
abbrev pub IsUnaccepted : ℕ → Option AcceptanceCheck → Type 0
IsUnaccepted now check =
    (c : AcceptanceCheck) × (check ≡ some c)
    × (c.has_accepted ≡ false)
    × ((end_time : ℕ) → c.grace_period_ends_at ≡ some end_time → end_time ≤ now)

in_grace_iff :
    (now : ℕ) (grace : Option ℕ)
    → (in_grace now grace ≡ false) ↔ ((end_time : ℕ) → grace ≡ some end_time → end_time ≤ now)
unfolding in_grace
in_grace_iff now none = (λ h e q. absurd (none-ne-some e q), λ h. refl)
in_grace_iff now (some e) = (λ h d q. ground arith, λ h. ground (arith, h e refl))

terms_for-IsUnaccepted :
    (now : ℕ) (check : Option AcceptanceCheck)
    → (terms_for now check ≡ forbidden terms_not_accepted) ↔ IsUnaccepted now check
unfolding terms_for
terms_for-IsUnaccepted now none = (λ h. cc, λ (c, q, _, _). absurd (none-ne-some c q))
terms_for-IsUnaccepted now (some c) = (
  λ h. (c, refl, ground arith, (in_grace_iff now c.grace_period_ends_at).0 (ground arith)),
  λ (d, q, n, g).
      let same : c ≡ d = cc in rw (same, n, (in_grace_iff now d.grace_period_ends_at).1 g),
)

-- The guard of the terms refuses exactly a signed-in user on a route that is not exempt, of whom the
-- terms service has answered that the terms are not accepted, outside a grace period. So a service
-- that does not answer lets everybody through.
pub terms_acceptance_guard_iff :
    (exempt : Bool) (user : Option String) (now : ℕ) (check : Option AcceptanceCheck)
    → (terms_acceptance_guard exempt user now check ≡ forbidden terms_not_accepted)
      ↔ ((exempt ≡ false) × ((id : String) × (truthy user ≡ some id)) × IsUnaccepted now check)
unfolding terms_acceptance_guard
terms_acceptance_guard_iff true user now check = (λ h. cc, λ h. cc)
terms_acceptance_guard_iff false user now check = elim (Option-cases (truthy user)) [
  | inl e ↦ rw (e, terms_acceptance_guard) (λ h. cc, λ (_, (id, q), _). absurd (none-ne-some id q))
  | inr (id, e) ↦
      rw (e, terms_acceptance_guard)
        (
          λ h. (refl, (id, refl), (terms_for-IsUnaccepted now check).0 h),
          λ (_, _, w). (terms_for-IsUnaccepted now check).1 w,
        )
]
