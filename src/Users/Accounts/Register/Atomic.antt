-- ===== src/Users/Accounts/Register/Atomic.antt =====
-- A registration in users.service.ts stores its user or leaves nothing behind.
use kodi_backend_template_a.Base.{
  ℕ, String, ◌≡◌, refl, ap, subst, sym, ◌∙◌, inl, inr, ◌⊎◌, Bool, true, false, Option, none, some,
  [], ◌∷◌, ◌++◌, eq_refl, find?-none_of, filter-not_added, if◌then◌else◌, Option-cases, find?,
  filter, not, refuse, answer, Run, ret, throw, diverge, truthy,
}
use kodi_backend_template_a.Base.Store.{Table, KeyStore}
use kodi_backend_template_a.Saga.{
  SagaState, start_saga, finish_rollback, get_saga, save_saga, create_saga, execute_step, fail_step,
  compensated as saga_compensated,
}
use kodi_backend_template_a.Saga.Stored.{saved, execute_found}
use kodi_backend_template_a.Users.Accounts.Register.Rollback.{
  started, user_stored, undone, user_stored_next, user_stored_id, rolled_back,
}
use kodi_backend_template_a.Users.Accounts.{
  EmailFree, IsNew, User, UserError, Texts, UsersState, create_row, delete_row, emit, conflicts,
  has_id, has_email, normalized, city_not_assigned, saga_failed, unique_violated,
}
use kodi_backend_template_a.Users.Accounts.Register.{
  RegisterRequest, Passwords, SagaPayload, created_user, success, Registered, unexpected, roll_back,
  assigned, stepped, with_row, register_with_city, announced, register_row, name_taken,
  register_checked, register_fields, register, registered_user,
}

module _ (table : Table User) (texts : Texts) (store : KeyStore (SagaState SagaPayload))
    (passwords : Passwords) (assign_city : String → String → Bool) where
  open store use {Keys}
  open table use {rows, rows-insert, rows-remove}

  -- What a registration leaves: the new row and nothing else, or all as it was.
  unfoldable pub Leaves :
      UsersState table texts → Registered table texts store passwords assign_city → Type 0
  Leaves s (keys, s', answer u) = (rows s'.users ≡ rows s.users ++ u ∷ []) × IsNew table texts u s
  Leaves s (keys, s', refuse e) = (rows s'.users ≡ rows s.users) × (s'.events ≡ s.events)

  unexpected-Leaves :
      (e : UserError) (now : ℕ) (saga : String) (keys : Keys) (s : UsersState table texts)
      → Leaves s (unexpected table texts store passwords assign_city e now saga keys s)
  unfolding unexpected Leaves
  unexpected-Leaves e now saga keys s = kept (fail_step store keys now saga "error")
    where
      kept :
          (m : Run Keys)
          → Leaves s (elim m [
            | ret keys' ↦ (keys', s, refuse e)
            | throw ↦ (keys, s, refuse saga_failed)
            | diverge ↦ (keys, s, refuse saga_failed)
          ])
      kept (ret k) = (refl, refl)
      kept throw = (refl, refl)
      kept diverge = (refl, refl)

  -- The state with a row that can be taken out again.
  abbrev Added : User → UsersState table texts → UsersState table texts → Type 0
  Added u s s1 =
      (rows s1.users ≡ rows s.users ++ u ∷ [])
      × (find? (conflicts u) (rows s.users) ≡ none)
      × (s1.events ≡ s.events)

  removed-rows :
      (u : User) (s s1 : UsersState table texts)
      → Added u s s1
      → rows (delete_row table texts u.id s1).users ≡ rows s.users
  unfolding delete_row has_id conflicts
  removed-rows u s s1 (new, free, _) =
      let fresh =
        find?-none_of (conflicts u) (has_id u.id) (rows s.users) (λ a h. rw h refl) free in
      rows-remove (has_id u.id) s1.users
      ∙ (ap (filter (λ r. not (has_id u.id r))) new
          ∙ filter-not_added (has_id u.id) (rows s.users) u fresh (eq_refl u.id))

  back-Leaves :
      (now : ℕ) (saga city : String) (u : User) (keys : Keys) (s s1 : UsersState table texts)
      → Added u s s1
      → get_saga store keys now saga ≡ some (user_stored now saga city u)
      → Leaves s (roll_back table texts store passwords assign_city now saga u.id keys s1)
  unfolding Leaves delete_row
  back-Leaves now saga city u keys s s1 added found =
      let (k, e, _) =
        rolled_back table texts store passwords assign_city now saga city u keys s1 found in
      rw e (removed-rows u s s1 added, added.2)

  city-Leaves :
      (b : Bool) (now : ℕ) (saga city : String) (u : User) (keys : Keys)
      (s s1 : UsersState table texts)
      → Added u s s1
      → EmailFree table texts u s
      → get_saga store keys now saga ≡ some (user_stored now saga city u)
      → Leaves s (
          if b
          then assigned table texts store passwords assign_city now saga city u keys s1
              (execute_step store keys now saga success)
          else roll_back table texts store passwords assign_city now saga u.id keys s1)
  unfolding Leaves assigned emit
  city-Leaves true now saga city u keys s s1 added mail found =
      rw (execute_found store keys now saga success (user_stored now saga city u) found, assigned)
        (added.0, (added.1, mail))
  city-Leaves false now saga city u keys s s1 added mail found =
      back-Leaves now saga city u keys s s1 added found

  stepped-Leaves :
      (now : ℕ) (saga city : String) (u : User) (keys : Keys) (s s1 : UsersState table texts)
      → Added u s s1
      → EmailFree table texts u s
      → get_saga store keys now saga ≡ some (started now saga city u)
      → Leaves s (
          stepped table texts store passwords assign_city now saga city u keys s1
            (execute_step store keys now saga (created_user u.id)))
  unfolding stepped
  stepped-Leaves now saga city u keys s s1 added mail found =
      let (next, e) = user_stored_next now saga city u in
      let k1 = save_saga store keys now (user_stored now saga city u) in
      rw (execute_found store keys now saga (created_user u.id) (started now saga city u) found, e)
        (city-Leaves (assign_city u.id city) now saga city u k1 s s1 added mail (
          saved store keys now saga (user_stored now saga city u) (user_stored_id now saga city u)))

  -- A row that is created is new by its id.
  create_row_cases :
      (u : User) (s : UsersState table texts)
      → ((e : UserError) × (create_row table texts u s ≡ (s, refuse e)))
        ⊎ ((s1 : UsersState table texts) × (create_row table texts u s ≡ (s1, answer u))
            × Added u s s1)
  unfolding create_row conflicts
  create_row_cases u s = elim (Option-cases (find? (conflicts u) (rows s.users))) [
    | inl free ↦ inr (
      record s { users = table.insert u s.users },
      rw (free, create_row) refl,
      (rows-insert u s.users, free, refl),
    )
    | inr (v, taken) ↦ inl (unique_violated, rw (taken, create_row) refl)
  ]

  register_with_city-Leaves :
      (now : ℕ) (saga city : String) (u : User) (keys : Keys) (s : UsersState table texts)
      → EmailFree table texts u s
      → Leaves s (register_with_city table texts store passwords assign_city now saga city u keys s)
  unfolding register_with_city with_row create_saga start_saga
  register_with_city-Leaves now saga city u keys s mail = elim (create_row_cases u s) [
    | inl (e, refused) ↦
        subst
          (λ x. Leaves s (
            with_row table texts store passwords assign_city now saga city
              (save_saga store keys now (started now saga city u)) x))
          (sym refused)
          (unexpected-Leaves e now saga (save_saga store keys now (started now saga city u)) s)
    | inr (s1, created, added) ↦
        subst
          (λ x. Leaves s (
            with_row table texts store passwords assign_city now saga city
              (save_saga store keys now (started now saga city u)) x))
          (sym created)
          (stepped-Leaves now saga city u (save_saga store keys now (started now saga city u)) s s1
            added mail (saved store keys now saga (started now saga city u) refl))
  ]

  register_row-Leaves :
      (city : Option String) (now : ℕ) (saga : String) (u : User) (keys : Keys)
      (s : UsersState table texts)
      → EmailFree table texts u s
      → Leaves s (register_row table texts store passwords assign_city city now saga u keys s)
  unfolding register_row announced emit Leaves
  register_row-Leaves none now saga u keys s mail = elim (create_row_cases u s) [
    | inl (e, refused) ↦
        subst (λ x. Leaves s (announced table texts store passwords assign_city keys x))
          (sym refused) (refl, refl)
    | inr (s1, created, added) ↦
        subst (λ x. Leaves s (announced table texts store passwords assign_city keys x))
          (sym created) (added.0, (added.1, mail))
  ]
  register_row-Leaves (some city) now saga u keys s mail =
      register_with_city-Leaves now saga city u keys s mail

  checked-Leaves :
      (o p : Option User) (now : ℕ) (email password : String) (r : RegisterRequest) (keys : Keys)
      (s : UsersState table texts)
      → find? (has_email table texts email) (rows s.users) ≡ o
      → Leaves s
          (register_checked table texts store passwords assign_city o p now email password r keys s)
  unfolding register_checked Leaves registered_user
  checked-Leaves (some other) p now email password r keys s e = (refl, refl)
  checked-Leaves none (some other) now email password r keys s e = (refl, refl)
  checked-Leaves none none now email password r keys s e =
      register_row-Leaves (truthy r.city_id) now r.saga_id
        (registered_user now email (passwords.hash password) r) keys s
        (λ a k. let same_text : email ≡ a = cc in rw (← same_text) e)

  fields-Leaves :
      (o p : Option String) (now : ℕ) (r : RegisterRequest) (keys : Keys)
      (s : UsersState table texts)
      → Leaves s (register_fields table texts store passwords assign_city o p now r keys s)
  unfolding register_fields Leaves
  fields-Leaves (some email) (some password) now r keys s =
      let address = normalized table texts email in
      checked-Leaves (find? (has_email table texts address) (rows s.users))
        (name_taken table texts store passwords assign_city (truthy r.username) s) now address
        password r keys s refl
  fields-Leaves none p now r keys s = (refl, refl)
  fields-Leaves (some email) none now r keys s = (refl, refl)

  -- A registration is atomic: it answers with a user, and then the table holds that row in addition
  -- to the rows it had, none of which had its address, in whatever case, or another unique key of it;
  -- or it is refused, and then the table and the messages are what they were.
  -- This also holds where the city is not assigned after the row of the user was stored.
  pub register-Leaves :
      (now : ℕ) (r : RegisterRequest) (keys : Keys) (s : UsersState table texts)
      → Leaves s (register table texts store passwords assign_city now r keys s)
  unfolding register
  register-Leaves now r keys s = fields-Leaves (truthy r.email) (truthy r.password) now r keys s

  -- Where the core service does not assign the city, the saga of a registration whose row could be
  -- stored ends as compensated.
  pub register_with_city-compensated :
      (now : ℕ) (saga city : String) (u : User) (keys : Keys) (s : UsersState table texts)
      → find? (conflicts u) (rows s.users) ≡ none
      → assign_city u.id city ≡ false
      → (keys' : Keys) × (s' : UsersState table texts) × (sg : SagaState SagaPayload)
        × (register_with_city table texts store passwords assign_city now saga city u keys s
            ≡ (keys', s', refuse city_not_assigned))
        × (get_saga store keys' now saga ≡ some sg)
        × (sg.status ≡ saga_compensated)
  unfolding register_with_city with_row create_saga stepped create_row finish_rollback start_saga
  register_with_city-compensated now saga city u keys s free failed =
      let k0 = save_saga store keys now (started now saga city u) in
      let k1 = save_saga store k0 now (user_stored now saga city u) in
      let s1 : UsersState table texts = record s { users = table.insert u s.users } in
      let (next, e) = user_stored_next now saga city u in
      let (k, back, kept) =
        rolled_back table texts store passwords assign_city now saga city u k1 s1 (
          saved store k0 now saga (user_stored now saga city u) (user_stored_id now saga city u)) in
      (
        k,
        delete_row table texts u.id s1,
        finish_rollback (undone now saga city u),
        rw (free, create_row)
            (rw
              (
                execute_found store k0 now saga (created_user u.id) (started now saga city u)
                    (saved store keys now saga (started now saga city u) refl),
                e,
              )
              (rw failed back)),
        kept,
        refl,
      )
