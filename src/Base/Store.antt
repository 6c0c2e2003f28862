-- ===== src/Base/Store.antt =====
-- The external stores as interfaces: a database table and a key-value store with expiry. A service
-- takes them as parameters. `list_table` and `function_store` show that the laws can be met.
use Prim.Native.Nat.{ℕ, ◌+◌, ◌≤◌}
use Prim.Native.String.{String}
use mathlib.Core.Path.{◌≡◌, refl, sym, ◌∙◌}
use mathlib.Core.Bool.{Bool, true, false, not}
use mathlib.Core.Option.{Option, none, some}
use mathlib.Core.List.{List, [], ◌∷◌, ◌++◌, map}
use mathlib.Core.Logic.{◌⊎◌, inl, inr}
use kodi_backend_template_a.Base.Tests.{ltb, ◌==◌, if◌then◌else◌, Bool-cases}
use kodi_backend_template_a.Base.Lists.{length, find?, filter, In}
use kodi_backend_template_a.Base.Rows.{find?-map, In-map, length-filter-map_bound}

-- What an update by a condition does to one row.
abbrev pub update_row : {Row : Type 0} → (Row → Bool) → (Row → Row) → Row → Row
update_row p f r = if p r then f r else r

-- A bound on the rows that meet a test which an update does not change.
pub length-filter-update :
    {Row : Type 0} (q p : Row → Bool) (f : Row → Row) (xs : List Row) (n : ℕ)
    → ((r : Row) → q (f r) ≡ q r)
    → length (filter q xs) ≤ n
    → length (filter q (map (update_row p f) xs)) ≤ n
length-filter-update q p f xs n kept = length-filter-map_bound q (update_row p f) xs n (λ r h.
    elim (Bool-cases (p r)) [
      | inl hit ↦ let k = rw hit at h in sym (kept r) ∙ k
      | inr miss ↦ rw miss at h
    ])

-- A search for what an update does not change finds the updated row.
pub find?-update :
    {Row : Type 0} (q p : Row → Bool) (f : Row → Row) (xs : List Row) {r : Row}
    → ((v : Row) → q (f v) ≡ q v)
    → find? q xs ≡ some r
    → find? q (map (update_row p f) xs) ≡ some (update_row p f r)
find?-update q p f xs kept found =
    find?-map q (update_row p f) xs
      (λ v. elim (Bool-cases (p v)) [ inl hit ↦ rw hit (kept v) | inr miss ↦ rw miss refl ]) found

-- A row after an update was changed by it, or was not met by its condition.
pub In-update :
    {Row : Type 0} (p : Row → Bool) (f : Row → Row) (xs : List Row) (r : Row)
    → In r (map (update_row p f) xs)
    → (x : Row) × In x xs × (((p x ≡ true) × (r ≡ f x)) ⊎ ((p x ≡ false) × (r ≡ x)))
In-update p f xs r m =
    let (x, there, e) = In-map (update_row p f) xs r m in
    (
      x,
      there,
      elim (Bool-cases (p x)) [
        | inl hit ↦ inl (hit, e ∙ rw hit refl)
        | inr miss ↦ inr (miss, e ∙ rw miss refl)
      ],
    )

-- A table of the database. A query reads `rows`, in the order of insertion.
pub record Table (Row : Type 0) : Type 1 where
  pub Rows : Type 0
  pub rows : Rows → List Row
  pub insert : Row → Rows → Rows
  pub update : (Row → Bool) → (Row → Row) → Rows → Rows
  pub remove : (Row → Bool) → Rows → Rows
  pub rows-insert : (r : Row) (t : Rows) → rows (insert r t) ≡ rows t ++ r ∷ []
  pub rows-update :
      (p : Row → Bool) (f : Row → Row) (t : Rows)
      → rows (update p f t) ≡ map (update_row p f) (rows t)
  pub rows-remove :
      (p : Row → Bool) (t : Rows) → rows (remove p t) ≡ filter (λ r. not (p r)) (rows t)

abbrev pub list_table : (Row : Type 0) → Table Row
list_table Row = record {
  Rows = List Row;
  rows = λ t. t;
  insert = λ r t. t ++ r ∷ [];
  update = λ p f t. map (update_row p f) t;
  remove = λ p t. filter (λ r. not (p r)) t;
  rows-insert = λ r t. refl;
  rows-update = λ p f t. refl;
  rows-remove = λ p t. refl;
}

-- The key-value store. Times are seconds; a key that was set at `now` for `ttl` seconds is there
-- until `now + ttl`. `set_nx` sets an absent key only, and says whether it did.
pub record KeyStore (V : Type 0) : Type 1 where
  pub Keys : Type 0
  pub get : Keys → ℕ → String → Option V
  pub setex : Keys → ℕ → String → ℕ → V → Keys
  pub set_nx : Keys → ℕ → String → ℕ → V → Keys × Bool
  pub del : Keys → String → Keys
  pub matches : String → String → Bool
  pub del_matching : Keys → String → Keys
  pub get-setex :
      (s : Keys) (t now ttl : ℕ) (k j : String) (v : V)
      → get (setex s t k ttl v) now j
        ≡ (if k == j then if ltb now (t + ttl) then some v else none else get s now j)
  pub get-del :
      (s : Keys) (now : ℕ) (k j : String)
      → get (del s k) now j ≡ (if k == j then none else get s now j)
  pub get-del_matching :
      (s : Keys) (now : ℕ) (p j : String)
      → get (del_matching s p) now j ≡ (if matches p j then none else get s now j)
  pub set_nx-absent :
      (s : Keys) (t ttl : ℕ) (k : String) (v : V)
      → get s t k ≡ none
      → set_nx s t k ttl v ≡ (setex s t k ttl v, true)
  pub set_nx-present :
      (s : Keys) (t ttl : ℕ) (k : String) (v w : V)
      → get s t k ≡ some w
      → set_nx s t k ttl v ≡ (s, false)

module _ (V : Type 0) where
  abbrev Cells : Type 0
  Cells = String → ℕ → Option V

  abbrev cells_setex : Cells → ℕ → String → ℕ → V → Cells
  cells_setex s t k ttl v =
      λ j now. if k == j then if ltb now (t + ttl) then some v else none else s j now

  abbrev cells_nx : Option V → Cells → ℕ → String → ℕ → V → Cells × Bool
  cells_nx none s t k ttl v = (cells_setex s t k ttl v, true)
  cells_nx (some w) s t k ttl v = (s, false)

  -- A store whose patterns are matched by a given test.
  abbrev pub function_store : (String → String → Bool) → KeyStore V
  function_store glob = record {
    Keys = Cells;
    get = λ s now k. s k now;
    setex = cells_setex;
    set_nx = λ s t k ttl v. cells_nx (s k t) s t k ttl v;
    del = λ s k. λ j now. if k == j then none else s j now;
    matches = glob;
    del_matching = λ s p. λ j now. if glob p j then none else s j now;
    get-setex = λ s t now ttl k j v. refl;
    get-del = λ s now k j. refl;
    get-del_matching = λ s now p j. refl;
    set_nx-absent = λ s t ttl k v h. rw h;
    set_nx-present = λ s t ttl k v w h. rw h;
  }
