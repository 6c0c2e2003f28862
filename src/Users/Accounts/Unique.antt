-- ===== src/Users/Accounts/Unique.antt =====
-- The keys of the users in users.service.ts: ids, addresses without regard to case, and devices.
use kodi_backend_template_a.Base.{
  ◌≤◌, String, ◌≡◌, refl, subst, sym, ◌∙◌, ap, inl, inr, true, false, Option, none, some, List, [],
  ◌∷◌, ◌++◌, map, arith, eq_iff, Bool-cases, filter, find?, length, not, ◌==◌, find?-none_of,
  true≢false, All-imp, All_of_find?, length-filter-map_le_of, length-filter-filter,
  length-filter-map_bound, length-filter-insert,
}
use kodi_backend_template_a.Base.Store.{Table, update_row, length-filter-update}
use kodi_backend_template_a.Users.Accounts.{
  User, Texts, DevicePlatform, android, ios, has_id, has_email, is_on_device, conflicts, is_email,
  device_matches, device_taken, same_platform,
}
use kodi_backend_template_a.Users.Accounts.Moves.{
  KeepsKeys, GivesEmail, Moves, stays, changes, converts, adds, removes,
}

eq_of_same_platform : (p q : DevicePlatform) → same_platform p q ≡ true → p ≡ q
eq_of_same_platform android android h = refl
eq_of_same_platform ios ios h = refl
eq_of_same_platform android ios h = cc
eq_of_same_platform ios android h = cc

module _ (table : Table User) (texts : Texts) where
  -- No two users have the same id, the same address in whatever case, or the same device.
  pub record IsValid (xs : List User) : Type 0 where
    pub one_id : (id : String) → length (filter (has_id id) xs) ≤ 1
    pub one_email : (email : String) → length (filter (has_email table texts email) xs) ≤ 1
    pub one_device :
        (device : String) (platform : DevicePlatform)
        → length (filter (is_on_device device platform) xs) ≤ 1

  id_same : (id : String) (u v : User) → u.id ≡ v.id → has_id id u ≡ has_id id v
  unfolding has_id
  id_same id u v e = ap (λ (i : String). i == id) e

  email_same :
      (email : String) (u v : User)
      → u.email ≡ v.email
      → has_email table texts email u ≡ has_email table texts email v
  unfolding has_email
  email_same email u v e = ap (is_email table texts email) e

  device_same :
      (device : String) (platform : DevicePlatform) (u v : User)
      → u.device_id ≡ v.device_id
      → u.device_platform ≡ v.device_platform
      → is_on_device device platform u ≡ is_on_device device platform v
  unfolding is_on_device
  device_same device platform u v d p =
      ap (λ (x : Option String). device_matches device platform x u.device_platform) d
      ∙ ap (device_matches device platform v.device_id) p

  changes-IsValid :
      (id : String) (f : User → User) (xs : List User)
      → KeepsKeys f
      → IsValid xs
      → IsValid (map (update_row (has_id id) f) xs)
  changes-IsValid id f xs k h = record {
    one_id = λ i.
        length-filter-update (has_id i) (has_id id) f xs 1 (λ u. id_same i (f u) u (k.id_kept u))
          (h.one_id i);
    one_email = λ e.
        length-filter-update (has_email table texts e) (has_id id) f xs 1
          (λ u. email_same e (f u) u (k.email_kept u)) (h.one_email e);
    one_device = λ d p.
        length-filter-update (is_on_device d p) (has_id id) f xs 1
          (λ u. device_same d p (f u) u (k.device_kept u) (k.platform_kept u)) (h.one_device d p);
  }

  -- Two addresses that are the same but for case.
  fold_moves :
      (email e : String) (m : Option String)
      → texts.fold email ≡ texts.fold e
      → is_email table texts e m ≡ true
      → is_email table texts email m ≡ true
  unfolding is_email
  fold_moves email e none same_fold was = was
  fold_moves email e (some m) same_fold was = ap (λ (t : String). texts.fold m == t) same_fold ∙ was

  only_converted :
      (id email e : String) (f : User → User) (u : User)
      → has_email table texts email u ≡ false
      → has_email table texts e (update_row (has_id id) f u) ≡ true
      → texts.fold email ≡ texts.fold e
      → has_id id u ≡ true
  unfolding has_email
  only_converted id email e f u absent there same_fold = elim (Bool-cases (has_id id u)) [
    | inl hit ↦ hit
    | inr miss ↦
        let was : is_email table texts e u.email ≡ true = rw miss at there in
        absurd (true≢false (sym (fold_moves email e u.email same_fold was) ∙ absent))
  ]

  not_given :
      (id email e : String) (f : User → User) (u : User)
      → (f u).email ≡ some email
      → has_email table texts e (update_row (has_id id) f u) ≡ true
      → (texts.fold email == texts.fold e) ≡ false
      → has_email table texts e u ≡ true
  unfolding has_email is_email
  not_given id email e f u given there miss = elim (Bool-cases (has_id id u)) [
    | inl hit ↦
        let now_there : is_email table texts e (f u).email ≡ true = rw hit at there in
        let at_given : is_email table texts e (some email) ≡ true =
          subst (λ m. is_email table texts e m ≡ true) given now_there in
        absurd (true≢false (sym at_given ∙ miss))
    | inr other ↦ rw other at there
  ]

  -- An address that no row had is that of the converted row alone.
  given_email :
      (id email e : String) (f : User → User) (xs : List User)
      → GivesEmail email f
      → find? (has_email table texts email) xs ≡ none
      → IsValid xs
      → length (filter (has_email table texts e) (map (update_row (has_id id) f) xs)) ≤ 1
  unfolding has_email is_email
  given_email id email e f xs k free h = elim (Bool-cases (texts.fold email == texts.fold e)) [
    | inl hit ↦
        let same_fold : texts.fold email ≡ texts.fold e =
          (eq_iff (texts.fold email) (texts.fold e)).0 hit in
        let bound =
          length-filter-map_le_of (has_email table texts e) (has_id id) (update_row (has_id id) f)
            xs
            (All-imp (λ u. has_email table texts email u ≡ false)
              (λ u.
                has_email table texts e (update_row (has_id id) f u) ≡ true → has_id id u ≡ true)
              xs (λ u absent there. only_converted id email e f u absent there same_fold)
              (All_of_find? (has_email table texts email) xs free)) in
        let few = h.one_id id in omega arith
    | inr miss ↦
        length-filter-map_bound (has_email table texts e) (update_row (has_id id) f) xs 1
          (λ u there. not_given id email e f u (k.email_given u) there miss) (h.one_email e)
  ]

  converts-IsValid :
      (id email : String) (f : User → User) (xs : List User)
      → GivesEmail email f
      → find? (has_email table texts email) xs ≡ none
      → IsValid xs
      → IsValid (map (update_row (has_id id) f) xs)
  converts-IsValid id email f xs k free h = record {
    one_id = λ i.
        length-filter-update (has_id i) (has_id id) f xs 1 (λ u. id_same i (f u) u (k.id_kept u))
          (h.one_id i);
    one_email = λ e. given_email id email e f xs k free h;
    one_device = λ d p.
        length-filter-update (is_on_device d p) (has_id id) f xs 1
          (λ u. device_same d p (f u) u (k.device_kept u) (k.platform_kept u)) (h.one_device d p);
  }

  same_device :
      (device : String) (platform : DevicePlatform) (d : Option String) (p : Option DevicePlatform)
      (v : User)
      → device_matches device platform d p ≡ true
      → is_on_device device platform v ≡ true
      → device_taken d p v ≡ true
  unfolding device_taken
  same_device device platform none p v h k = cc
  same_device device platform (some d) none v h k = ground arith
  same_device device platform (some d) (some p) v h k =
      let e : d ≡ device = ground (arith, eq_iff d device) in
      let q : p ≡ platform = eq_of_same_platform p platform (ground arith) in
      subst (λ (x : DevicePlatform). is_on_device d x v ≡ true) (sym q)
        (subst (λ (x : String). is_on_device x platform v ≡ true) (sym e) k)

  conflict_device :
      (device : String) (platform : DevicePlatform) (u v : User)
      → is_on_device device platform u ≡ true
      → is_on_device device platform v ≡ true
      → conflicts u v ≡ true
  unfolding conflicts is_on_device
  conflict_device device platform u v h k =
      let taken = same_device device platform u.device_id u.device_platform v h k in ground arith

  conflict_id :
      (id : String) (u v : User) → has_id id u ≡ true → has_id id v ≡ true → conflicts u v ≡ true
  unfolding conflicts has_id
  conflict_id id u v h k = ground (arith, eq_iff u.id id, eq_iff v.id id, eq_iff v.id u.id)

  new_email :
      (e : String) (o : Option String) (xs : List User)
      → ((email : String) → o ≡ some email → find? (has_email table texts email) xs ≡ none)
      → is_email table texts e o ≡ true
      → find? (has_email table texts e) xs ≡ none
  unfolding has_email is_email
  new_email e none xs free hit = cc
  new_email e (some m) xs free hit =
      let same_fold : texts.fold m ≡ texts.fold e = (eq_iff (texts.fold m) (texts.fold e)).0 hit in
      find?-none_of (has_email table texts m) (has_email table texts e) xs
        (λ u was. fold_moves m e u.email same_fold was) (free m refl)

  adds-IsValid :
      (u : User) (xs : List User)
      → find? (conflicts u) xs ≡ none
      → ((email : String) → u.email ≡ some email → find? (has_email table texts email) xs ≡ none)
      → IsValid xs
      → IsValid (xs ++ u ∷ [])
  unfolding has_email
  adds-IsValid u xs free mail h = record {
    one_id = λ i.
        length-filter-insert (has_id i) xs u (h.one_id i)
          (λ hit. find?-none_of (conflicts u) (has_id i) xs (λ v k. conflict_id i u v hit k) free);
    one_email = λ e.
        length-filter-insert (has_email table texts e) xs u (h.one_email e)
          (new_email e u.email xs mail);
    one_device = λ d p. length-filter-insert (is_on_device d p) xs u (h.one_device d p) (λ hit.
        find?-none_of (conflicts u) (is_on_device d p) xs (λ v k. conflict_device d p u v hit k)
          free);
  }

  pub Moves-IsValid : {xs ys : List User} → Moves table texts xs ys → IsValid xs → IsValid ys
  Moves-IsValid (stays ys e) h = rw e h
  Moves-IsValid {xs = xs} (changes id f ys k e) h = rw e (changes-IsValid id f xs k h)
  Moves-IsValid {xs = xs} (converts id email f ys k free e) h =
      rw e (converts-IsValid id email f xs k free h)
  Moves-IsValid {xs = xs} (adds u ys free mail e) h = rw e (adds-IsValid u xs free mail h)
  Moves-IsValid {xs = xs} (removes id ys e) h =
      let p = λ (u : User). not (has_id id u) in
      rw e (record {
        one_id = λ i. length-filter-filter (has_id i) p xs 1 (h.one_id i);
        one_email = λ m. length-filter-filter (has_email table texts m) p xs 1 (h.one_email m);
        one_device = λ d q. length-filter-filter (is_on_device d q) p xs 1 (h.one_device d q);
      })
