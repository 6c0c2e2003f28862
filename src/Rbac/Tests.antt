-- ===== src/Rbac/Tests.antt =====
-- Runs of the code of libs/rbac, and the theorems at concrete inputs: a country with a state and a
-- city in it, an admin of the state, and a database whose cities form a cycle.
use kodi_backend_template_a.Base.{
  ℕ, ◌+◌, ◌<◌, String, ◌≡◌, refl, ◌↔◌, ◌⊎◌, inl, inr, Bool, true, false, Option, none, some, List,
  [], ◌∷◌, ◌++◌, arith, ltb, if◌then◌else◌, ◌==◌, ne_of_==, In, Bool-cases, truthy, ret, diverge,
}
use kodi_backend_template_a.Base.Store.{KeyStore, function_store}
use kodi_backend_template_a.Rbac.Roles.{
  super_admin, city_admin, citizen, number, claimed_role, super_name,
}
use kodi_backend_template_a.Rbac.Hierarchy.{
  City, CityDb, get_child_cities, get_all_managed_cities, get_city_path,
}
use kodi_backend_template_a.Rbac.Hierarchy.Children.{
  Descendant, child, IsForest, get_child_cities-Descendant, get_child_cities_cycle,
}
use kodi_backend_template_a.Rbac.Hierarchy.Managed.{IsManaged, get_all_managed_cities-IsManaged}
use kodi_backend_template_a.Rbac.Hierarchy.Parents.{
  HasRoots, IsLinked, IsRooted, get_city_path-IsLinked,
}
use kodi_backend_template_a.Rbac.Permission.{
  Assignment, Permission, PermissionDb, get_user_city_assignments, decide, has_permission,
}
use kodi_backend_template_a.Rbac.Permission.Decision.{
  GrantsAnswer, IsGranted, kept, decide-IsGranted,
}
use kodi_backend_template_a.Rbac.Permission.Cache.{answer_of, has_permission_lag}
use kodi_backend_template_a.Rbac.Context.{can_manage_city}
use kodi_backend_template_a.Rbac.Context.Scope.{
  Administers, IsSuperUser, can_manage_city-Administers,
}
use kodi_backend_template_a.Rbac.Guards.{
  allowed, TokenUser, Request, AcceptanceCheck, city_management_guard, content_moderation_guard,
}
use kodi_backend_template_a.Rbac.Guards.Cities.{city_management_guard-Administers}

abbrev kids_of : String → List String
kids_of a = if a == "de" then "nrw" ∷ [] else if a == "nrw" then "koln" ∷ [] else []

abbrev height : String → ℕ
height a = if a == "de" then 2 else if a == "nrw" then 1 else 0

abbrev koln : City
koln = record { id = "koln"; name = "Köln"; parent_city_id = some "nrw" }

abbrev nrw : City
nrw = record { id = "nrw"; name = "NRW"; parent_city_id = none }

abbrev city_of : String → Option City
city_of a = if a == "koln" then some koln else if a == "nrw" then some nrw else none

abbrev country : CityDb
country = record { children = λ a. some (kids_of a); city = λ a. some (city_of a) }

height-kids_of : (a b : String) → In b (kids_of a) → height b < height a
height-kids_of a b m = elim (Bool-cases (a == "de")) [
  | inl d ↦
      let n : In b ("nrw" ∷ []) = rw d at m in
      elim n [ inl e ↦ rw (e, d) (omega arith) | inr z ↦ absurd z ]
  | inr d ↦ elim (Bool-cases (a == "nrw")) [
    | inl k ↦
        let n : In b ("koln" ∷ []) = rw (d, k) at m in
        elim n [ inl e ↦ rw (e, d, k) (omega arith) | inr z ↦ absurd z ]
    | inr k ↦ let n : In b [] = rw (d, k) at m in absurd n
  ]
]

country-IsForest : IsForest country height
country-IsForest = record {
  answers = λ a. (kids_of a, refl);
  falls = λ a b kids e m. let same : kids ≡ kids_of a = cc in height-kids_of a b (rw same at m);
}

height_bounded : (a : String) → height a < 3
height_bounded a = elim (Bool-cases (a == "de")) [
  | inl d ↦ rw d (omega arith)
  | inr d ↦ elim (Bool-cases (a == "nrw")) [
    | inl k ↦ rw (d, k) (omega arith)
    | inr k ↦ rw (d, k) (omega arith)
  ]
]

children_test : get_child_cities 3 country true "de" ≡ ret ("nrw" ∷ "koln" ∷ [])
unfolding get_child_cities
children_test = refl

get_child_cities-Descendant_example :
    (xs : List String) × (get_child_cities 3 country true "de" ≡ ret xs)
    × ((c : String) → In c xs ↔ Descendant country "de" c)
get_child_cities-Descendant_example =
    get_child_cities-Descendant country height 3 "de" country-IsForest (omega arith)

-- Two cities that name each other as parents.
abbrev loop : CityDb
loop = record {
  children = λ a. some (if a == "a" then "b" ∷ [] else "a" ∷ []);
  city = λ a. some none;
}

get_child_cities_cycle_example : get_child_cities 50 loop true "a" ≡ diverge
get_child_cities_cycle_example =
    get_child_cities_cycle loop 50 "a" (λ b. (if b == "a" then "b" ∷ [] else "a" ∷ [], refl))
      (Descendant.below "b" ("b" ∷ []) refl (inl refl) (child ("a" ∷ []) refl (inl refl)))

managed_test : get_all_managed_cities 3 country ("nrw" ∷ []) ≡ ret ("nrw" ∷ "koln" ∷ [])
unfolding get_all_managed_cities
managed_test = refl

get_all_managed_cities-IsManaged_example :
    (ms : List String) × (get_all_managed_cities 3 country ("nrw" ∷ []) ≡ ret ms)
    × ((c : String) → In c ms ↔ IsManaged country ("nrw" ∷ []) c)
get_all_managed_cities-IsManaged_example =
    get_all_managed_cities-IsManaged country height 3 country-IsForest ("nrw" ∷ [])
      (λ a m. height_bounded a)

-- The distance to the root.
abbrev depth : String → ℕ
depth a = if a == "koln" then 1 else 0

country-HasRoots : HasRoots country depth
country-HasRoots = record {
  answers = λ a. (city_of a, refl);
  falls = λ a p c e up. elim (Bool-cases (a == "koln")) [
    | inl k ↦
        let same : some (some koln) ≡ some (some c) = rw k at e in
        let is_koln : c ≡ koln = cc in
        let to_nrw : p ≡ "nrw" = cc (rw is_koln at up) in rw (k, to_nrw) (omega arith)
    | inr n ↦ elim (Bool-cases (a == "nrw")) [
      | inl w ↦
          let same : some (some nrw) ≡ some (some c) = rw (n, w) at e in
          let is_nrw : c ≡ nrw = cc in
          let none_up : truthy nrw.parent_city_id ≡ some p = rw is_nrw at up in cc
      | inr w ↦ let gone : some none ≡ some (some c) = rw (n, w) at e in cc
    ]
  ];
}

path_test : get_city_path 3 country "koln" ≡ ret (nrw ∷ koln ∷ [])
unfolding get_city_path
path_test = refl

get_city_path-IsLinked_example :
    (front : List City) × (get_city_path 3 country "koln" ≡ ret (front ++ koln ∷ []))
    × IsLinked country (front ++ koln ∷ [])
    × IsRooted country (front ++ koln ∷ [])
get_city_path-IsLinked_example =
    get_city_path-IsLinked country depth country-HasRoots 3 "koln" koln
      (λ e. ne_of_== "koln" "" refl e) refl (omega arith)

-- Anna administers the state; only city admins may read listings.
abbrev anna : Assignment
anna = record { city_id = "nrw"; role = city_admin; can_manage_admins = true }

abbrev reading : Permission
reading = record { id = "p"; resource = "listings"; action = "read"; description = none }

abbrev rights : PermissionDb
rights = record {
  assignments = λ u. some (if u == "anna" then anna ∷ [] else []);
  grants = λ resource action role. elim role [ city_admin ↦ some (some 1) | _ ↦ some none ];
  permissions_of = λ role. some (reading ∷ reading ∷ []);
  all_permissions = some (reading ∷ []);
}

rights-GrantsAnswer : GrantsAnswer rights
rights-GrantsAnswer resource action super_admin = (none, refl)
rights-GrantsAnswer resource action city_admin = (some 1, refl)
rights-GrantsAnswer resource action citizen = (none, refl)

decide-IsGranted_example :
    (b : Bool) × (decide 3 rights country "anna" "listings" "read" (some "koln")
      ≡ ret (b, kept (get_user_city_assignments rights "anna") b))
    × ((b ≡ true)
        ↔ IsGranted rights country
            (get_user_city_assignments rights "anna")
            "listings"
            "read"
            (some "koln"))
decide-IsGranted_example =
    decide-IsGranted rights country height 3 rights-GrantsAnswer country-IsForest height_bounded
      "anna" "listings" "read" (some "koln")

abbrev cache : KeyStore String
cache = function_store String (λ pattern key. false)

abbrev empty : cache.Keys
empty = λ key now. none

decide_test : decide 3 rights country "anna" "listings" "read" (some "koln") ≡ ret (true, true)
unfolding decide get_all_managed_cities
decide_test = refl

-- The rights that Anna has after her assignment was withdrawn.
abbrev withdrawn : PermissionDb
withdrawn = record rights { assignments = λ u. some [] }

has_permission_lag_example :
    (has_permission cache 3 withdrawn country
      (has_permission cache 3 rights country empty 100 "anna" "listings" "read" (some "koln")).1
      399
      "anna"
      "listings"
      "read"
      (some "koln")).0
    ≡ (if ltb 399 (100 + 300)
        then ret true
        else answer_of (decide 3 withdrawn country "anna" "listings" "read" (some "koln")))
has_permission_lag_example =
    has_permission_lag cache 3 country "anna" "listings" "read" rights withdrawn empty 100 399
      (some "koln") refl refl decide_test

can_manage_city-Administers_example :
    (b : Bool) × (can_manage_city 3 rights country "anna" "koln" ≡ ret b)
    × ((b ≡ true) ↔ (IsSuperUser rights "anna" ⊎ Administers rights country "anna" "koln"))
can_manage_city-Administers_example =
    can_manage_city-Administers country height 3 country-IsForest height_bounded rights "anna"
      "koln"

abbrev anna_token : TokenUser
anna_token = record { id = "anna"; role = number 2 }

abbrev for_koln : Request
for_koln = record {
  user = some anna_token;
  params_city = none;
  query_city = some "koln";
  body_city = some "de";
}

city_management_guard-Administers_example :
    (city_management_guard 3 rights country for_koln ≡ ret allowed) ↔ (
      (claimed_role anna_token.role ≡ super_name)
      ⊎ (IsSuperUser rights "anna" ⊎ Administers rights country "anna" "koln"))
city_management_guard-Administers_example =
    city_management_guard-Administers 3 rights country height for_koln anna_token "koln"
      country-IsForest height_bounded refl refl

management_test : city_management_guard 3 rights country for_koln ≡ ret allowed
unfolding city_management_guard can_manage_city get_user_city_assignments get_all_managed_cities
    claimed_role
management_test = refl

moderation_test :
    (content_moderation_guard cache 3 rights country empty 100 for_koln).0 ≡ ret allowed
unfolding content_moderation_guard can_manage_city has_permission get_user_city_assignments
    get_all_managed_cities claimed_role
moderation_test = refl

abbrev grace : AcceptanceCheck
grace = record { has_accepted = false; grace_period_ends_at = some 500 }
