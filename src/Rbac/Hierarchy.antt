-- ===== src/Rbac/Hierarchy.antt =====
-- libs/rbac/src/city-hierarchy.service.ts: the children, the managed cities and the path of a city.
-- The database is a parameter; a query that throws answers `none`. The recursion over the children
-- and the loop over the parents take fuel.
pub mod Children
pub mod Managed
pub mod Parents
use kodi_backend_template_a.Base.{
  ℕ, zero, suc, String, Bool, true, Option, none, some, List, [], ◌∷◌, ◌++◌, map, if◌then◌else◌,
  truthy, includes, add_all, Run, ret, throw, diverge, ◌>>=◌, catch,
}

pub record City : Type 0 where
  pub id : String
  pub name : String
  pub parent_city_id : Option String

-- The two queries: the ids of the active cities with a given parent, and the city of an id.
pub record CityDb : Type 0 where
  pub children : String → Option (List String)
  pub city : String → Option (Option City)

abbrev pub or_throw {ℓ} : {A : Type ℓ} → Option A → Run A
or_throw none = throw
or_throw (some a) = ret a

-- The loop over the children of one city: each child, followed by its own children.
visit : (String → Run (List String)) → Bool → List String → Run (List String)
visit down recursive [] = ret []
visit down recursive (child ∷ rest) = do
  below ← if recursive then down child else ret []
  others ← visit down recursive rest
  ret (child ∷ (below ++ others))

get_children : ℕ → CityDb → Bool → String → Run (List String)
get_children zero db recursive parent = diverge
get_children (suc fuel) db recursive parent =
    or_throw (db.children parent) >>= visit (get_children fuel db recursive) recursive

unfoldable pub get_child_cities : ℕ → CityDb → Bool → String → Run (List String)
unfolding get_children visit
get_child_cities fuel db recursive city_id = catch (get_children fuel db recursive city_id) []

-- The loop over the assigned cities, which adds the children to the set.
manage : ℕ → CityDb → List String → List String → Run (List String)
manage fuel db [] managed = ret managed
manage fuel db (city_id ∷ rest) managed = do
  child_cities ← get_child_cities fuel db true city_id
  manage fuel db rest (add_all child_cities managed)

unfoldable pub get_all_managed_cities : ℕ → CityDb → List String → Run (List String)
unfolding manage get_child_cities
get_all_managed_cities fuel db city_ids =
    catch (manage fuel db city_ids (add_all city_ids [])) city_ids

abbrev pub is_city_in_scope : String → List String → Bool
is_city_in_scope city_id managed = includes city_id managed

-- One round of the loop towards the root: `unshift` the city, and go on with its parent.
path_step :
    (Option String → List City → Run (List City)) → List City → Option City → Run (List City)
path_step up path none = ret path
path_step up path (some c) = up c.parent_city_id (c ∷ path)

path_loop : ℕ → CityDb → Option String → List City → Run (List City)
path_loop zero db current path = diverge
path_loop (suc fuel) db current path = elim (truthy current) [
  | none ↦ ret path
  | some id ↦ or_throw (db.city id) >>= path_step (path_loop fuel db) path
]

unfoldable pub get_city_path : ℕ → CityDb → String → Run (List City)
unfolding path_loop path_step
get_city_path fuel db city_id = catch (path_loop fuel db (some city_id) []) []

pub get_hierarchical_cities : ℕ → CityDb → String → Run (List String)
unfolding get_city_path get_child_cities
get_hierarchical_cities fuel db city_id = catch view (city_id ∷ [])
  where
    view : Run (List String)
    view = do
      path ← get_city_path fuel db city_id
      child_cities ← get_child_cities fuel db true city_id
      ret (add_all child_cities (add_all (map (λ c. c.id) path) (city_id ∷ [])))
