-- ===== src/Users/Accounts/Moves.antt =====
-- What a call of users.service.ts can do to the rows of the users.
use kodi_backend_template_a.Base.{
  String, ◌≡◌, none, some, List, [], ◌∷◌, ◌++◌, map, find?, filter, not,
}
use kodi_backend_template_a.Base.Store.{Table, update_row}
use kodi_backend_template_a.Users.Accounts.{User, Texts, has_id, has_email, conflicts}

-- A change that keeps the id, the address and the device of a row.
pub record KeepsKeys (f : User → User) : Type 0 where
  pub id_kept : (u : User) → (f u).id ≡ u.id
  pub email_kept : (u : User) → (f u).email ≡ u.email
  pub device_kept : (u : User) → (f u).device_id ≡ u.device_id
  pub platform_kept : (u : User) → (f u).device_platform ≡ u.device_platform

-- A change that gives a row an address, and keeps its id and its device.
pub record GivesEmail (email : String) (f : User → User) : Type 0 where
  pub id_kept : (u : User) → (f u).id ≡ u.id
  pub email_given : (u : User) → (f u).email ≡ some email
  pub device_kept : (u : User) → (f u).device_id ≡ u.device_id
  pub platform_kept : (u : User) → (f u).device_platform ≡ u.device_platform

module _ (table : Table User) (texts : Texts) where
  pub data Moves (xs : List User) : List User → Type 0 where
    stays : (ys : List User) → ys ≡ xs → Moves xs ys
    changes :
        (id : String) (f : User → User) (ys : List User)
        → KeepsKeys f
        → ys ≡ map (update_row (has_id id) f) xs
        → Moves xs ys
    converts :
        (id email : String) (f : User → User) (ys : List User)
        → GivesEmail email f
        → find? (has_email table texts email) xs ≡ none
        → ys ≡ map (update_row (has_id id) f) xs
        → Moves xs ys
    adds :
        (u : User) (ys : List User)
        → find? (conflicts u) xs ≡ none
        → ((email : String) → u.email ≡ some email → find? (has_email table texts email) xs ≡ none)
        → ys ≡ xs ++ u ∷ []
        → Moves xs ys
    removes : (id : String) (ys : List User) → ys ≡ filter (λ u. not (has_id id u)) xs → Moves xs ys
