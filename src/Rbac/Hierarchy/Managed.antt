-- ===== src/Rbac/Hierarchy/Managed.antt =====
-- Which cities `getAllManagedCities` and `getHierarchicalCities` return
-- (libs/rbac/src/city-hierarchy.service.ts).
use kodi_backend_template_a.Base.{
  ℕ, ◌<◌, String, ◌≡◌, refl, ◌↔◌, ◌⊎◌, inl, inr, List, [], ◌∷◌, In, add_all, In-add_all, ret,
}
use kodi_backend_template_a.Rbac.Hierarchy.{CityDb, manage, get_all_managed_cities}
use kodi_backend_template_a.Rbac.Hierarchy.Children.{
  Descendant, IsForest, get_child_cities-Descendant,
}

-- A city is one of the given ones, or stands below one of them.
abbrev pub IsManaged : CityDb → List String → String → Type 0
IsManaged db ids c = In c ids ⊎ ((a : String) × In a ids × Descendant db a c)

module _ (db : CityDb) (rank : String → ℕ) (fuel : ℕ) (forest : IsForest db rank) where
  manage_lem :
      (ids managed : List String)
      → ((a : String) → In a ids → rank a < fuel)
      → (ms : List String) × (manage fuel db ids managed ≡ ret ms)
        × ((c : String) → In c ms ↔ (In c managed ⊎ ((a : String) × In a ids × Descendant db a c)))
  unfolding manage
  manage_lem [] managed h =
      (managed, refl, λ c. (λ m. inl m, λ m. elim m [ inl k ↦ k | inr (a, n, d) ↦ absurd n ]))
  manage_lem (a ∷ rest) managed h =
      let (xs, e, mem) = get_child_cities-Descendant db rank fuel a forest (h a (inl refl)) in
      let (ms, e', mem') = manage_lem rest (add_all xs managed) (λ b n. h b (inr n)) in
      (
        ms,
        rw e e',
        λ c. (
          λ m. elim ((mem' c).0 m) [
            | inl k ↦ elim ((In-add_all c xs managed).0 k) [
              | inl x ↦ inr (a, inl refl, (mem c).0 x)
              | inr old ↦ inl old
            ]
            | inr (b, n, d) ↦ inr (b, inr n, d)
          ],
          λ m. elim m [
            | inl old ↦ (mem' c).1 (inl ((In-add_all c xs managed).1 (inr old)))
            | inr (b, n, d) ↦ elim n [
              | inl here ↦
                  (mem' c).1 (inl ((In-add_all c xs managed).1 (inl ((mem c).1 (rw here at d)))))
              | inr later ↦ (mem' c).1 (inr (b, later, d))
            ]
          ],
        ),
      )

  In-add_all_nil : (c : String) (ids : List String) → In c (add_all ids []) ↔ In c ids
  In-add_all_nil c ids = (
    λ m. elim ((In-add_all c ids []).0 m) [ inl k ↦ k | inr n ↦ absurd n ],
    λ m. (In-add_all c ids []).1 (inl m),
  )

  -- In a forest of cities, with fuel above the ranks of the assigned cities, `getAllManagedCities`
  -- returns, and it returns exactly the assigned cities and the cities below them.
  pub get_all_managed_cities-IsManaged :
      (ids : List String)
      → ((a : String) → In a ids → rank a < fuel)
      → (ms : List String) × (get_all_managed_cities fuel db ids ≡ ret ms)
        × ((c : String) → In c ms ↔ IsManaged db ids c)
  unfolding get_all_managed_cities
  get_all_managed_cities-IsManaged ids h =
      let (ms, e, mem) = manage_lem ids (add_all ids []) h in
      (
        ms,
        rw e,
        λ c. (
          λ m. elim ((mem c).0 m) [
            | inl k ↦ inl ((In-add_all_nil c ids).0 k)
            | inr deep ↦ inr deep
          ],
          λ m. elim m [
            | inl k ↦ (mem c).1 (inl ((In-add_all_nil c ids).1 k))
            | inr deep ↦ (mem c).1 (inr deep)
          ],
        ),
      )
