-- ===== src/Rbac/Hierarchy/Parents.antt =====
-- The path from the root to a city: `getCityPath` of libs/rbac/src/city-hierarchy.service.ts.
use mathlib.Core.List.{append_assoc}
use kodi_backend_template_a.Base.{
  ℕ, zero, suc, ◌+◌, ◌<◌, String, ◌≡◌, refl, sym, ◌∙◌, ap, ◌≢◌, ◌⊎◌, inl, inr, Option, none, some,
  List, [], ◌∷◌, ◌++◌, arith, truthy, ==_of_ne, Option-cases, ret,
}
use kodi_backend_template_a.Rbac.Hierarchy.{City, CityDb, path_step, path_loop, get_city_path}

-- `p` is the city that the parent field of `c` names.
abbrev pub IsParent : CityDb → City → City → Type 0
IsParent db p c = (q : String) × (truthy c.parent_city_id ≡ some q) × (db.city q ≡ some (some p))

-- Each city of a list is the parent of the next one.
abbrev pub IsLinked : CityDb → List City → Type 0
IsLinked db [] = Unit
IsLinked db (p ∷ []) = Unit
IsLinked db (p ∷ c ∷ rest) = IsParent db p c × IsLinked db (c ∷ rest)

-- No further city can be put in front: nothing more is named, or what is named does not exist.
abbrev pub IsEnd : CityDb → Option String → Type 0
IsEnd db current =
    (truthy current ≡ none) ⊎ ((q : String) × (truthy current ≡ some q) × (db.city q ≡ some none))

abbrev pub IsRooted : CityDb → List City → Type 0
IsRooted db [] = Unit
IsRooted db (p ∷ rest) = IsEnd db p.parent_city_id

-- The queries answer, and the parents form no cycle: a rank falls from a city to its parent.
pub record HasRoots (db : CityDb) (rank : String → ℕ) : Type 0 where
  pub answers : (a : String) → (c : Option City) × (db.city a ≡ some c)
  pub falls :
      (a p : String) (c : City)
      → db.city a ≡ some (some c)
      → truthy c.parent_city_id ≡ some p
      → rank p < rank a

-- What the loop is at: the head of the path is what it came from.
abbrev Follows : Option String → List City → Type 0
Follows current [] = Unit
Follows current (c ∷ rest) = c.parent_city_id ≡ current

module _ (db : CityDb) (rank : String → ℕ) (roots : HasRoots db rank) where
  loop_end :
      (current : Option String) (path : List City)
      → IsEnd db current
      → Follows current path
      → IsRooted db path
  loop_end current [] e f = tt
  loop_end current (c ∷ rest) e f = rw f e

  link :
      (current : Option String) (q : String) (c : City) (path : List City)
      → truthy current ≡ some q
      → db.city q ≡ some (some c)
      → Follows current path
      → IsLinked db path
      → IsLinked db (c ∷ path)
  link current q c [] t e f l = tt
  link current q c (d ∷ rest) t e f l = ((q, ap truthy f ∙ t, e), l)

  abbrev Below : ℕ → Option String → Type 0
  Below fuel current = (q : String) → truthy current ≡ some q → suc (rank q) < fuel

  path_loop_done :
      (n : ℕ) (current : Option String) (path : List City)
      → IsEnd db current
      → path_loop (suc n) db current path ≡ ret path
  unfolding path_loop path_step
  path_loop_done n current path h = elim h [
    | inl e ↦ rw (e, path_loop)
    | inr (q, e, missing) ↦ rw (e, path_loop) (rw missing)
  ]

  path_loop_up :
      (n : ℕ) (current : Option String) (q : String) (c : City) (path : List City)
      → truthy current ≡ some q
      → db.city q ≡ some (some c)
      → path_loop (suc n) db current path ≡ path_loop n db c.parent_city_id (c ∷ path)
  unfolding path_loop path_step
  path_loop_up n current q c path e here = rw (e, path_loop) (rw here)

  path_loop_lem :
      (fuel : ℕ) (current : Option String) (path : List City)
      → 0 < fuel
      → Below fuel current
      → Follows current path
      → IsLinked db path
      → (front : List City) × (path_loop fuel db current path ≡ ret (front ++ path))
        × IsLinked db (front ++ path)
        × IsRooted db (front ++ path)
  path_loop_lem zero current path pos below f l = elim pos [ ]
  path_loop_lem (suc n) current path pos below f l = elim (Option-cases (truthy current)) [
    | inl e ↦ ([], path_loop_done n current path (inl e), l, loop_end current path (inl e) f)
    | inr (q, e) ↦
        let (found, answer) = roots.answers q in
        elim (Option-cases found) [
          | inl gone ↦
              let stop : IsEnd db current = inr (q, e, answer ∙ ap some gone) in
              ([], path_loop_done n current path stop, l, loop_end current path stop f)
          | inr (c, here) ↦
              let is_c : db.city q ≡ some (some c) = answer ∙ ap some here in
              let room = below q e in
              let (front, run, linked, rooted) =
                path_loop_lem n c.parent_city_id (c ∷ path) (omega arith)
                  (λ p up. omega (arith, roots.falls q p c is_c up)) refl
                  (link current q c path e is_c f l) in
              let same : (front ++ c ∷ []) ++ path ≡ front ++ c ∷ path =
                append_assoc front (c ∷ []) path in
              (
                front ++ c ∷ [],
                path_loop_up n current q c path e is_c ∙ run ∙ ap ret (sym same),
                rw same linked,
                rw same rooted,
              )
        ]
  ]

  -- Where the queries answer and the parents form no cycle, `getCityPath` of a city that exists
  -- returns with enough fuel. The path ends with that city, each city on it is the parent of the
  -- next one, and no existing parent is left out in front.
  pub get_city_path-IsLinked :
      (fuel : ℕ) (id : String) (c : City)
      → id ≢ ""
      → db.city id ≡ some (some c)
      → rank id + 1 < fuel
      → (front : List City) × (get_city_path fuel db id ≡ ret (front ++ c ∷ []))
        × IsLinked db (front ++ c ∷ [])
        × IsRooted db (front ++ c ∷ [])
  unfolding get_city_path
  get_city_path-IsLinked zero id c ne here h = elim h [ ]
  get_city_path-IsLinked (suc n) id c ne here h =
      let start : truthy (some id) ≡ some id = rw (==_of_ne id "" ne) in
      let (front, run, linked, rooted) =
        path_loop_lem n c.parent_city_id (c ∷ []) (omega arith)
          (λ p up. omega (arith, roots.falls id p c here up)) refl tt in
      (front, rw (path_loop_up n (some id) id c [] start here, run), linked, rooted)
