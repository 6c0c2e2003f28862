-- ===== src/Rbac/Hierarchy/Children.antt =====
-- What `getChildCities` collects, and that it ends, of city-hierarchy.service.ts.
use kodi_backend_template_a.Base.{
  ℕ, zero, suc, ◌<◌, String, ◌≡◌, refl, ap, ◌∙◌, ◌≢◌, ◌↔◌, ◌⊎◌, inl, inr, Bool, true, false, Option,
  none, some, List, [], ◌∷◌, ◌++◌, arith, In, In-append, Run, ret, throw, diverge, >>=-eq-ret,
  catch,
}
use kodi_backend_template_a.Rbac.Hierarchy.{CityDb, or_throw, visit, get_children, get_child_cities}

-- A city stands somewhere below another.
pub data Descendant (db : CityDb) : String → String → Type 0 where
  child :
      {a b : String} (kids : List String)
      → db.children a ≡ some kids
      → In b kids
      → Descendant db a b
  below :
      {a c : String} (b : String) (kids : List String)
      → db.children a ≡ some kids
      → In b kids
      → Descendant db b c
      → Descendant db a c

-- The queries answer, and the parents form no cycle: a rank falls from a city to its children.
pub record IsForest (db : CityDb) (rank : String → ℕ) : Type 0 where
  pub answers : (a : String) → (kids : List String) × (db.children a ≡ some kids)
  pub falls :
      (a b : String) (kids : List String) → db.children a ≡ some kids → In b kids → rank b < rank a

or_throw-eq-ret {ℓ} : {A : Type ℓ} (o : Option A) {a : A} → or_throw o ≡ ret a → o ≡ some a
or_throw-eq-ret none h = cc
or_throw-eq-ret (some b) h = cc

-- The lists that a visit is put together from.
visit_step :
    (down : String → Run (List String)) (b : String) (rest : List String) {xs : List String}
    → visit down true (b ∷ rest) ≡ ret xs
    → (ys zs : List String) × (down b ≡ ret ys)
      × (visit down true rest ≡ ret zs)
      × (xs ≡ b ∷ (ys ++ zs))
unfolding visit
visit_step down b rest h =
    let (ys, e, k) = >>=-eq-ret (down b) _ h in
    let (zs, e', k') = >>=-eq-ret (visit down true rest) _ k in (ys, zs, e, e', cc)

In-front :
    (c b : String) (ys zs : List String) → In c (b ∷ (ys ++ zs)) → (c ≡ b) ⊎ (In c ys ⊎ In c zs)
In-front c b ys zs h = ground (arith, In-append c ys zs)

In-of_front :
    (c b : String) (ys zs : List String) → (c ≡ b) ⊎ (In c ys ⊎ In c zs) → In c (b ∷ (ys ++ zs))
In-of_front c b ys zs h = ground (arith, In-append c ys zs)

visit_sound :
    (down : String → Run (List String)) (kids : List String) {xs : List String} (c : String)
    → visit down true kids ≡ ret xs
    → In c xs
    → In c kids ⊎ ((b : String) × (ys : List String) × In b kids × (down b ≡ ret ys) × In c ys)
unfolding visit
visit_sound down [] {xs} c h m = ground arith
visit_sound down (b ∷ rest) {xs} c h m =
    let (ys, zs, e, e', k) = visit_step down b rest h in
    elim (In-front c b ys zs (rw k at m)) [
      | inl here ↦ inl (inl here)
      | inr later ↦ elim later [
        | inl deep ↦ inr (b, ys, inl refl, e, deep)
        | inr side ↦ elim (visit_sound down rest c e' side) [
          | inl n ↦ inl (inr n)
          | inr (d, ws, n, eq, deep) ↦ inr (d, ws, inr n, eq, deep)
        ]
      ]
    ]

visit_complete :
    (down : String → Run (List String)) (kids : List String) {xs : List String} (c : String)
    → visit down true kids ≡ ret xs
    → In c kids
    → In c xs
visit_complete down [] {xs} c h m = elim m [ ]
visit_complete down (b ∷ rest) {xs} c h m =
    let (ys, zs, e, e', k) = visit_step down b rest h in
    rw k (
      In-of_front c b ys zs
        (elim m [ inl here ↦ inl here | inr n ↦ inr (inr (visit_complete down rest c e' n)) ]))

visit_deep :
    (down : String → Run (List String)) (kids : List String) {xs : List String} (b c : String)
    → visit down true kids ≡ ret xs
    → In b kids
    → (ys : List String) × (down b ≡ ret ys) × (In c ys → In c xs)
visit_deep down [] {xs} b c h m = elim m [ ]
visit_deep down (d ∷ rest) {xs} b c h m =
    let (ys, zs, e, e', k) = visit_step down d rest h in
    elim m [
      | inl here ↦ (ys, ap down here ∙ e, λ deep. rw k (In-of_front c d ys zs (inr (inl deep))))
      | inr n ↦
          let (ws, eq, into) = visit_deep down rest b c e' n in
          (ws, eq, λ deep. rw k (In-of_front c d ys zs (inr (inr (into deep)))))
    ]

visit_total :
    (down : String → Run (List String)) (recursive : Bool) (kids : List String)
    → ((b : String) → In b kids → (ys : List String) × (down b ≡ ret ys))
    → (xs : List String) × (visit down recursive kids ≡ ret xs)
unfolding visit
visit_total down recursive [] f = ([], refl)
visit_total down true (b ∷ rest) f =
    let (ys, e) = f b (inl refl) in
    let (zs, e') = visit_total down true rest (λ d m. f d (inr m)) in (b ∷ (ys ++ zs), rw (e, e'))
visit_total down false (b ∷ rest) f =
    let (zs, e') = visit_total down false rest (λ d m. f d (inr m)) in (b ∷ zs, rw e')

module _ (db : CityDb) where
  -- Where the recursion returns, it has collected descendants only, and all of them.
  get_children_sound :
      (fuel : ℕ) (a : String) {xs : List String} (c : String)
      → get_children fuel db true a ≡ ret xs
      → In c xs
      → Descendant db a c
  unfolding get_children
  get_children_sound zero a c h m = cc
  get_children_sound (suc f) a {xs} c h m =
      let (kids, e, k) = >>=-eq-ret (or_throw (db.children a)) _ h in
      let answer = or_throw-eq-ret (db.children a) e in
      elim (visit_sound (get_children f db true) kids c k m) [
        | inl n ↦ child kids answer n
        | inr (b, ys, n, eq, deep) ↦ below b kids answer n (get_children_sound f b c eq deep)
      ]

  get_children_step :
      (f : ℕ) (a : String) (kids : List String) {xs : List String}
      → db.children a ≡ some kids
      → get_children (suc f) db true a ≡ ret xs
      → visit (get_children f db true) true kids ≡ ret xs
  unfolding get_children
  get_children_step f a kids answer h = rw answer at h

  get_children_complete :
      (fuel : ℕ) (a : String) {xs : List String} (c : String)
      → get_children fuel db true a ≡ ret xs
      → Descendant db a c
      → In c xs
  unfolding get_children
  get_children_complete zero a c h d = cc
  get_children_complete (suc f) a {xs} c h (child kids answer n) =
      visit_complete (get_children f db true) kids c (get_children_step f a kids answer h) n
  get_children_complete (suc f) a {xs} c h (below b kids answer n d) =
      let step = get_children_step f a kids answer h in
      let (ys, e, into) = visit_deep (get_children f db true) kids b c step n in
      into (get_children_complete f b c e d)

  -- A city's rank bounds the depth of the recursion below it.
  get_children_total :
      (rank : String → ℕ) (forest : IsForest db rank) (recursive : Bool) (fuel : ℕ) (a : String)
      → rank a < fuel
      → (xs : List String) × (get_children fuel db recursive a ≡ ret xs)
  unfolding get_children
  get_children_total rank forest recursive zero a h = elim h [ ]
  get_children_total rank forest recursive (suc f) a h =
      let (kids, answer) = forest.answers a in
      rw answer (
        visit_total (get_children f db recursive) recursive kids λ b n.
          get_children_total rank forest recursive f b
            (omega (arith, forest.falls a b kids answer n)))

  -- With fuel above the rank of a city, the recursive query of a forest returns, and it returns the
  -- cities below that city, no others, and all of them.
  pub get_child_cities-Descendant :
      (rank : String → ℕ) (fuel : ℕ) (a : String)
      → IsForest db rank
      → rank a < fuel
      → (xs : List String) × (get_child_cities fuel db true a ≡ ret xs)
        × ((c : String) → In c xs ↔ Descendant db a c)
  unfolding get_child_cities
  get_child_cities-Descendant rank fuel a forest h =
      let (xs, e) = get_children_total rank forest true fuel a h in
      (xs, rw e, λ c. (get_children_sound fuel a c e, get_children_complete fuel a c e))

  visit_flat :
      (down : String → Run (List String)) (kids : List String) → visit down false kids ≡ ret kids
  unfolding visit
  visit_flat down [] = refl
  visit_flat down (b ∷ rest) = rw (visit_flat down rest)

  -- Without recursion the answer is the direct children in the order of the query, with any fuel.
  pub get_child_cities_direct :
      (fuel : ℕ) (a : String) (kids : List String)
      → db.children a ≡ some kids
      → get_child_cities (suc fuel) db false a ≡ ret kids
  unfolding get_child_cities get_children
  get_child_cities_direct fuel a kids h = rw (h, visit_flat (get_children fuel db false) kids)

  -- Where the recursion at a city returns, it returned at each city below, with less fuel.
  get_children_below :
      (fuel : ℕ) (a b : String) {xs : List String}
      → get_children fuel db true a ≡ ret xs
      → Descendant db a b
      → (g : ℕ) × (ys : List String) × (g < fuel) × (get_children g db true b ≡ ret ys)
  unfolding get_children
  get_children_below zero a b h d = cc
  get_children_below (suc f) a b {xs} h (child kids answer n) =
      let step = get_children_step f a kids answer h in
      let (ys, e, into) = visit_deep (get_children f db true) kids b b step n in
      (f, ys, omega arith, e)
  get_children_below (suc f) a b {xs} h (below c kids answer n d) =
      let step = get_children_step f a kids answer h in
      let (ys, e, into) = visit_deep (get_children f db true) kids c c step n in
      let (g, zs, small, e') = get_children_below f c b e d in (g, zs, omega arith, e')

  no_return :
      (bound fuel : ℕ) (a : String) {xs : List String}
      → fuel < bound
      → Descendant db a a
      → get_children fuel db true a ≡ ret xs
      → ⊥
  no_return zero fuel a {xs} h d e = elim h [ ]
  no_return (suc n) fuel a {xs} h d e =
      let (g, ys, small, e') = get_children_below fuel a a e d in no_return n g a (omega arith) d e'

  visit_ne_throw :
      (down : String → Run (List String)) (kids : List String)
      → ((b : String) → down b ≢ throw)
      → visit down true kids ≢ throw
  unfolding visit
  visit_ne_throw down [] f = λ e. cc
  visit_ne_throw down (b ∷ rest) f = ground (arith, f b, visit_ne_throw down rest f)

  get_children_ne_throw :
      (fuel : ℕ) (a : String)
      → ((b : String) → (kids : List String) × (db.children b ≡ some kids))
      → get_children fuel db true a ≢ throw
  unfolding get_children
  get_children_ne_throw zero a answers = λ e. cc
  get_children_ne_throw (suc f) a answers =
      let (kids, answer) = answers a in
      rw answer
        (visit_ne_throw (get_children f db true) kids λ b. get_children_ne_throw f b answers)

  -- Where every query answers and a city stands below itself, the recursive query of that city does
  -- not end: no amount of fuel is enough.
  pub get_child_cities_cycle :
      (fuel : ℕ) (a : String)
      → ((b : String) → (kids : List String) × (db.children b ≡ some kids))
      → Descendant db a a
      → get_child_cities fuel db true a ≡ diverge
  unfolding get_child_cities
  get_child_cities_cycle fuel a answers d =
      stuck (get_children fuel db true a) (get_children_ne_throw fuel a answers)
        (λ xs e. no_return (suc fuel) fuel a (omega arith) d e)
    where
      stuck :
          (m : Run (List String))
          → m ≢ throw
          → ((xs : List String) → m ≡ ret xs → ⊥)
          → catch m [] ≡ diverge
      stuck (ret xs) nt nr = absurd (nr xs refl)
      stuck throw nt nr = absurd (nt refl)
      stuck diverge nt nr = refl
