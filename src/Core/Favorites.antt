-- ===== src/Core/Favorites.antt =====
-- apps/core/src/modules/listings/listings.service.ts: `toggleFavorite`, `addFavorite` and
-- `removeFavorite`. An answer is the stored favorite, or none after a removal; the listing in the
-- response is left out. The table has the unique key of user and listing.
pub mod Refined
use kodi_backend_template_a.Base.{
  String, Bool, true, false, Option, none, some, List, [], ◌∷◌, ◌&&◌, ◌==◌, if◌then◌else◌, find?,
  any, Reply, refuse, answer,
}
use kodi_backend_template_a.Base.Store.{Table}
use kodi_backend_template_a.Core.{Listing, UserFavorite}

pub data FavoriteError : Type 0 where
  no_listing no_favorite : FavoriteError

abbrev pub is_favorite : String → String → UserFavorite → Bool
is_favorite user listing f = f.user_id == user && f.listing_id == listing

abbrev pub is_listing : String → Listing → Bool
is_listing id l = l.id == id

module _ (listings : Table Listing) (table : Table UserFavorite) where
  open table use {Rows, rows, insert, remove}

  -- `upsert` with an update of nothing.
  abbrev pub upsert_favorite :
      String
      → String
      → Option UserFavorite
      → Rows
      → Rows × Reply FavoriteError (Option UserFavorite)
  upsert_favorite user listing (some f) t = (t, answer (some f))
  upsert_favorite user listing none t =
      let f : UserFavorite = record { user_id = user; listing_id = listing } in
      (insert f t, answer (some f))

  abbrev pub delete_favorite :
      String
      → String
      → Option UserFavorite
      → Rows
      → Rows × Reply FavoriteError (Option UserFavorite)
  delete_favorite user listing none t = (t, refuse no_favorite)
  delete_favorite user listing (some f) t = (remove (is_favorite user listing) t, answer none)

  abbrev pub add_to :
      Option Listing → String → String → Rows → Rows × Reply FavoriteError (Option UserFavorite)
  add_to none user listing t = (t, refuse no_listing)
  add_to (some l) user listing t =
      upsert_favorite user listing (find? (is_favorite user listing) (rows t)) t

  unfoldable pub add_favorite :
      String → String → listings.Rows → Rows → Rows × Reply FavoriteError (Option UserFavorite)
  add_favorite user listing ls t =
      add_to (find? (is_listing listing) (listings.rows ls)) user listing t

  unfoldable pub remove_favorite :
      String → String → Rows → Rows × Reply FavoriteError (Option UserFavorite)
  remove_favorite user listing t =
      delete_favorite user listing (find? (is_favorite user listing) (rows t)) t

  abbrev pub toggle_found :
      Option Listing
      → Bool
      → String
      → String
      → Rows
      → Rows × Reply FavoriteError (Option UserFavorite)
  toggle_found none is_favorited user listing t = (t, refuse no_listing)
  toggle_found (some l) true user listing t =
      upsert_favorite user listing (find? (is_favorite user listing) (rows t)) t
  toggle_found (some l) false user listing t =
      delete_favorite user listing (find? (is_favorite user listing) (rows t)) t

  unfoldable pub toggle_favorite :
      String
      → String
      → Bool
      → listings.Rows
      → Rows
      → Rows × Reply FavoriteError (Option UserFavorite)
  toggle_favorite user listing is_favorited ls t =
      toggle_found (find? (is_listing listing) (listings.rows ls)) is_favorited user listing t
