-- ===== src/Auth/Services/Effective.antt =====
-- The effective role that `login` and `refreshTokens` of auth.service.ts take the permissions of.
use kodi_backend_template_a.Base.{
  ℕ, zero, suc, ◌≤◌, ◌≡◌, refl, inl, inr, Bool, true, false, List, [], ◌∷◌, arith, ltb,
  if◌then◌else◌, Bool-cases, In,
}
use kodi_backend_template_a.Rbac.Roles.{UserRole, super_admin, city_admin, citizen}
use kodi_backend_template_a.Auth.Services.{role_index, role_at, highest_index, effective_role}

role_at-role_index : (r : UserRole) → role_at (role_index r) ≡ r
role_at-role_index super_admin = refl
role_at-role_index city_admin = refl
role_at-role_index citizen = refl

role_index_le : (r : UserRole) → role_index r ≤ 2
role_index_le super_admin = omega arith
role_index_le city_admin = omega arith
role_index_le citizen = omega arith

highest_index_le : (x : UserRole) (rs : List UserRole) → In x rs → highest_index rs ≤ role_index x
unfolding highest_index
highest_index_le x [] m = absurd m
highest_index_le x (r ∷ rs) m = elim (Bool-cases (ltb (highest_index rs) (role_index r))) [
  | inl less ↦ elim m [
    | inl e ↦ rw (less, e) (ground arith)
    | inr k ↦ rw less (highest_index_le x rs k)
  ]
  | inr more ↦ elim m [
    | inl e ↦ rw (more, e) (omega arith)
    | inr k ↦ let rest = highest_index_le x rs k in rw more (ground arith)
  ]
]

choose-In :
    (b : Bool) (n : ℕ) (r : UserRole) (xs : List UserRole)
    → In (role_at n) xs
    → In (role_at (if b then n else role_index r)) (r ∷ xs)
choose-In true n r xs m = inr m
choose-In false n r xs m = inl (role_at-role_index r)

role_at-highest_index :
    (r : UserRole) (rs : List UserRole) → In (role_at (highest_index (r ∷ rs))) (r ∷ rs)
unfolding highest_index
role_at-highest_index super_admin [] = inl refl
role_at-highest_index city_admin [] = inl refl
role_at-highest_index citizen [] = inl refl
role_at-highest_index r (q ∷ rs) =
    choose-In (ltb (highest_index (q ∷ rs)) (role_index r)) (highest_index (q ∷ rs)) r (q ∷ rs)
      (role_at-highest_index q rs)

role_index-role_at : (n : ℕ) → n ≤ 2 → role_index (role_at n) ≡ n
role_index-role_at zero h = refl
role_index-role_at (suc zero) h = refl
role_index-role_at (suc (suc n)) h = omega arith

by_test :
    (b : Bool) (role r : UserRole) (rs : List UserRole) (x : UserRole)
    → ltb (role_index role) (highest_index (r ∷ rs)) ≡ b
    → In x (role ∷ r ∷ rs)
    → In (if b then role else role_at (highest_index (r ∷ rs))) (role ∷ r ∷ rs)
      × (role_index (if b then role else role_at (highest_index (r ∷ rs))) ≤ role_index x)
by_test true role r rs x h m = (
  inl refl,
  elim m [
    | inl e ↦ rw e (omega arith)
    | inr k ↦ let bound = highest_index_le x (r ∷ rs) k in ground arith
  ],
)
by_test false role r rs x h m =
    let first = highest_index_le r (r ∷ rs) (inl refl) in
    let small = role_index_le r in
    let same = role_index-role_at (highest_index (r ∷ rs)) (omega arith) in
    (
      inr (role_at-highest_index r rs),
      elim m [
        | inl e ↦ rw (same, e) (ground arith)
        | inr k ↦ rw same (highest_index_le x (r ∷ rs) k)
      ],
    )

-- The effective role is the user's own or an assigned one, and none of these is higher.
pub effective_role-In :
    (role : UserRole) (assigned : List UserRole) (x : UserRole)
    → In x (role ∷ assigned)
    → In (effective_role role assigned) (role ∷ assigned)
      × (role_index (effective_role role assigned) ≤ role_index x)
unfolding effective_role highest_index
effective_role-In super_admin [] x m =
    (inl refl, elim m [ inl e ↦ rw e (omega arith) | inr k ↦ absurd k ])
effective_role-In city_admin [] x m =
    (inl refl, elim m [ inl e ↦ rw e (omega arith) | inr k ↦ absurd k ])
effective_role-In citizen [] x m =
    (inl refl, elim m [ inl e ↦ rw e (omega arith) | inr k ↦ absurd k ])
effective_role-In role (r ∷ rs) x m =
    by_test (ltb (role_index role) (highest_index (r ∷ rs))) role r rs x refl m
