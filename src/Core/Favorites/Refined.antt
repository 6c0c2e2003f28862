-- ===== src/Core/Favorites/Refined.antt =====
-- The favorites as a set of pairs of a user and a listing.
use kodi_backend_template_a.Base.{
  String, ◌≡◌, refl, ap, ◌∙◌, Bool, true, false, not, inl, inr, Option, none, some, List, [], ◌∷◌,
  ◌++◌, arith, eq_iff, ◌&&◌, ◌||◌, ◌==◌, Bool-cases, if◌then◌else◌, find?, filter, any,
}
use kodi_backend_template_a.Base.Store.{Table}
use kodi_backend_template_a.Core.{Listing, UserFavorite}
use kodi_backend_template_a.Core.Favorites.{
  is_favorite, is_listing, upsert_favorite, delete_favorite, add_to, toggle_found, add_favorite,
  remove_favorite, toggle_favorite,
}

-- A call.
pub data FavoriteCall : Type 0 where
  add : String → String → FavoriteCall
  remove : String → String → FavoriteCall
  toggle : String → String → Bool → FavoriteCall

-- The set of the favorites, and the set with one pair put in or taken out.
abbrev pub Favored : Type 0
Favored = String → String → Bool

abbrev pub set_to : Bool → String → String → Favored → Favored
set_to b user listing favored = λ u l. if user == u && listing == l then b else favored u l

-- What a call promises: only a listing that is there can be put in; everything can be taken out,
-- but by a toggle only where the listing is there.
abbrev pub promised : List Listing → FavoriteCall → Favored → Favored
promised ls (add user listing) favored =
    if any (is_listing listing) ls then set_to true user listing favored else favored
promised ls (remove user listing) favored = set_to false user listing favored
promised ls (toggle user listing b) favored =
    if any (is_listing listing) ls then set_to b user listing favored else favored

any-append_one :
    {A : Type 0} (p : A → Bool) (xs : List A) (x : A) → any p (xs ++ x ∷ []) ≡ (any p xs || p x)
any-append_one p [] x = ground arith
any-append_one p (y ∷ ys) x = let rest = any-append_one p ys x in ground arith

any_of_found :
    {A : Type 0} (p : A → Bool) (xs : List A) {a : A} → find? p xs ≡ some a → any p xs ≡ true
any_of_found p [] e = cc
any_of_found p (x ∷ xs) {a = a} e = elim (Bool-cases (p x)) [
  | inl hit ↦ rw hit refl
  | inr miss ↦ rw miss (any_of_found p xs {a = a} (cc (miss, e)))
]

any_of_none : {A : Type 0} (p : A → Bool) (xs : List A) → find? p xs ≡ none → any p xs ≡ false
any_of_none p [] e = refl
any_of_none p (x ∷ xs) e = elim (Bool-cases (p x)) [
  | inl hit ↦ cc (hit, e)
  | inr miss ↦ rw miss (any_of_none p xs (cc (miss, e)))
]

any-same : {A : Type 0} (p q : A → Bool) (xs : List A) → ((a : A) → p a ≡ q a) → any p xs ≡ any q xs
any-same p q [] h = refl
any-same p q (x ∷ xs) h = rw (h x, any-same p q xs h) refl

-- Without the rows of one key, a key has rows as before, unless it is that key.
any-removed :
    (user listing u l : String) (xs : List UserFavorite)
    → any (is_favorite u l) (filter (λ f. not (is_favorite user listing f)) xs)
      ≡ (if user == u && listing == l then false else any (is_favorite u l) xs)
any-removed user listing u l [] = ground arith
any-removed user listing u l (x ∷ xs) =
    let rest = any-removed user listing u l xs in
    ground (
      arith,
      eq_iff x.user_id user,
      eq_iff x.user_id u,
      eq_iff user u,
      eq_iff x.listing_id listing,
      eq_iff x.listing_id l,
      eq_iff listing l,
    )

or_if : (b c : Bool) → (c || b) ≡ (if b then true else c)
or_if b c = ground arith

same_favorite :
    (user listing u l : String) (a : UserFavorite)
    → (user == u && listing == l) ≡ true
    → is_favorite u l a ≡ is_favorite user listing a
same_favorite user listing u l a h = ground (
  arith,
  eq_iff user u,
  eq_iff listing l,
  eq_iff a.user_id u,
  eq_iff a.user_id user,
  eq_iff a.listing_id l,
  eq_iff a.listing_id listing,
)

module _ (listings : Table Listing) (table : Table UserFavorite) where
  open table use {Rows, rows, rows-insert, rows-remove}

  abbrev pub view : Rows → Favored
  view t = λ user listing. any (is_favorite user listing) (rows t)

  abbrev pub favorite_step : listings.Rows → FavoriteCall → Rows → Rows
  favorite_step ls (add user listing) t = (add_favorite listings table user listing ls t).0
  favorite_step ls (remove user listing) t = (remove_favorite listings table user listing t).0
  favorite_step ls (toggle user listing b) t =
      (toggle_favorite listings table user listing b ls t).0

  upsert-view :
      (user listing u l : String) (found : Option UserFavorite) (t : Rows)
      → find? (is_favorite user listing) (rows t) ≡ found
      → view (upsert_favorite listings table user listing found t).0 u l
        ≡ set_to true user listing (view t) u l
  upsert-view user listing u l (some f) t e = elim (Bool-cases (user == u && listing == l)) [
    | inl hit ↦ rw hit (
        any-same (is_favorite u l) (is_favorite user listing) (rows t)
          (λ a. same_favorite user listing u l a hit)
        ∙ any_of_found (is_favorite user listing) (rows t) {a = f} e)
    | inr miss ↦ rw miss refl
  ]
  upsert-view user listing u l none t e =
      let f : UserFavorite = record { user_id = user; listing_id = listing } in
      ap (any (is_favorite u l)) (rows-insert f t)
      ∙ any-append_one (is_favorite u l) (rows t) f
      ∙ or_if (user == u && listing == l) (view t u l)

  delete-view :
      (user listing u l : String) (found : Option UserFavorite) (t : Rows)
      → find? (is_favorite user listing) (rows t) ≡ found
      → view (delete_favorite listings table user listing found t).0 u l
        ≡ set_to false user listing (view t) u l
  delete-view user listing u l (some f) t e =
      ap (any (is_favorite u l)) (rows-remove (is_favorite user listing) t)
      ∙ any-removed user listing u l (rows t)
  delete-view user listing u l none t e = elim (Bool-cases (user == u && listing == l)) [
    | inl hit ↦ rw hit (
        any-same (is_favorite u l) (is_favorite user listing) (rows t)
          (λ a. same_favorite user listing u l a hit)
        ∙ any_of_none (is_favorite user listing) (rows t) e)
    | inr miss ↦ rw miss refl
  ]

  add-view :
      (user listing u l : String) (ls : List Listing) (found : Option Listing) (t : Rows)
      → find? (is_listing listing) ls ≡ found
      → view (add_to listings table found user listing t).0 u l
        ≡ promised ls (add user listing) (view t) u l
  add-view user listing u l ls none t e = rw (any_of_none (is_listing listing) ls e) refl
  add-view user listing u l ls (some x) t e =
      rw (any_of_found (is_listing listing) ls {a = x} e) (upsert-view user listing u l _ t refl)

  toggle-view :
      (user listing u l : String) (b : Bool) (ls : List Listing) (found : Option Listing) (t : Rows)
      → find? (is_listing listing) ls ≡ found
      → view (toggle_found listings table found b user listing t).0 u l
        ≡ promised ls (toggle user listing b) (view t) u l
  toggle-view user listing u l b ls none t e = rw (any_of_none (is_listing listing) ls e) refl
  toggle-view user listing u l true ls (some x) t e =
      rw (any_of_found (is_listing listing) ls {a = x} e) (upsert-view user listing u l _ t refl)
  toggle-view user listing u l false ls (some x) t e =
      rw (any_of_found (is_listing listing) ls {a = x} e) (delete-view user listing u l _ t refl)

  -- The favorites are a set of pairs of a user and a listing: each call changes it as the call
  -- promises, and changes no other pair.
  pub favorite_step-promised :
      (ls : listings.Rows) (c : FavoriteCall) (t : Rows) (u l : String)
      → view (favorite_step ls c t) u l ≡ promised (listings.rows ls) c (view t) u l
  unfolding add_favorite remove_favorite toggle_favorite
  favorite_step-promised ls (add user listing) t u l =
      add-view user listing u l (listings.rows ls) _ t refl
  favorite_step-promised ls (remove user listing) t u l = delete-view user listing u l _ t refl
  favorite_step-promised ls (toggle user listing b) t u l =
      toggle-view user listing u l b (listings.rows ls) _ t refl
