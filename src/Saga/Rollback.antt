-- ===== src/Saga/Rollback.antt =====
-- The compensation of a saga: what `compensate` and `markCompensated` of
-- libs/saga/src/saga-orchestrator.service.ts undo, and in which order.
use mathlib.Core.List.{reverse, reverse-append, append_assoc, append-nil, map-append}
use kodi_backend_template_a.Base.{
  ℕ, zero, suc, ◌<◌, ◌≤◌, ◌≡◌, refl, ap, ◌∙◌, true, false, some, List, [], ◌∷◌, ◌++◌, map, arith,
  inl, inr, if◌then◌else◌, length, get_elem?, modify, take, drop, filter, Bool-cases, take-modify,
  drop-modify, drop_first, take_last, get_elem?_of_lt, length-modify, filter-append, ret,
}
use kodi_backend_template_a.Saga.{
  SagaStep, SagaState, is_compensable, start_compensation, compensate_at, compensate_loop,
  start_rollback, finish_step, finish_rollback, compensated,
}

module _ {P : Type 0} where
  -- What the loop leaves of a step.
  abbrev pub undone : SagaStep P → SagaStep P
  undone s = if is_compensable s then start_compensation s else s

  -- The steps before a position that are to be undone, the last one first.
  abbrev pub to_undo : ℕ → List (SagaStep P) → List (SagaStep P)
  to_undo n steps = map start_compensation (reverse (filter is_compensable (take n steps)))

  to_undo_last :
      (i : ℕ) (steps : List (SagaStep P)) (s : SagaStep P)
      → get_elem? steps i ≡ some s
      → to_undo (suc i) steps
        ≡ (if is_compensable s then start_compensation s ∷ to_undo i steps else to_undo i steps)
  to_undo_last i steps s h =
      rw (take_last steps i s h, filter-append is_compensable (take i steps) (s ∷ []))
        (elim (Bool-cases (is_compensable s)) [
          | inl c ↦ rw c (
              ap (map start_compensation)
                (reverse-append (filter is_compensable (take i steps)) (s ∷ [])))
          | inr n ↦ rw n (rw append-nil)
        ])

  left_last :
      (i : ℕ) (steps : List (SagaStep P)) (s : SagaStep P)
      → get_elem? steps i ≡ some s
      → map undone (take (suc i) steps) ++ drop (suc i) steps
        ≡ map undone (take i steps) ++ undone s ∷ drop (suc i) steps
  left_last i steps s h =
      rw (take_last steps i s h, map-append undone (take i steps) (s ∷ []))
        (append_assoc (map undone (take i steps)) (undone s ∷ []) (drop (suc i) steps))

  -- One round of the loop, where the rounds below are known.
  compensate_round :
      (i : ℕ) (steps : List (SagaStep P)) (s : SagaStep P)
      → get_elem? steps i ≡ some s
      → ((l : List (SagaStep P))
          → length l ≡ length steps
          → compensate_loop i l ≡ ret (to_undo i l, map undone (take i l) ++ drop i l))
      → compensate_loop (suc i) steps
        ≡ ret (to_undo (suc i) steps, map undone (take (suc i) steps) ++ drop (suc i) steps)
  unfolding compensate_loop compensate_at
  compensate_round i steps s e below =
      rw (to_undo_last i steps s e, left_last i steps s e)
        (rw (e, compensate_loop)
          (elim (Bool-cases (is_compensable s)) [
            | inl c ↦ rw c (
                rw (
                  below (modify steps i start_compensation)
                      (length-modify steps i start_compensation),
                  take-modify steps i start_compensation,
                  drop-modify steps i start_compensation s e,
                ))
            | inr n ↦ rw n (rw (below steps refl, drop_first steps i s e))
          ]))

  compensate_loop_lem :
      (i : ℕ) (steps : List (SagaStep P))
      → i ≤ length steps
      → compensate_loop i steps ≡ ret (to_undo i steps, map undone (take i steps) ++ drop i steps)
  unfolding compensate_loop
  compensate_loop_lem zero steps h = refl
  compensate_loop_lem (suc i) steps h =
      let (s, e) = get_elem?_of_lt steps i h in
      compensate_round i steps s e (λ l q. compensate_loop_lem i l (omega (arith, q)))

  -- Where the position is within the steps, `compensate` returns the completed steps before it that
  -- have a compensation, the last one first, and marks exactly those as compensating.
  pub start_rollback_order :
      (saga : SagaState P)
      → saga.current_step ≤ length saga.steps
      → start_rollback saga
        ≡ ret (
          to_undo saga.current_step saga.steps,
          record saga {
            steps =
                map undone (take saga.current_step saga.steps) ++ drop saga.current_step saga.steps;
          },
        )
  unfolding start_rollback
  start_rollback_order saga h = rw (compensate_loop_lem saga.current_step saga.steps h)

  undone_not : (s : SagaStep P) → is_compensable (undone s) ≡ false
  unfolding start_compensation is_compensable
  undone_not s = elim (Bool-cases (is_compensable s)) [ inl c ↦ rw c | inr n ↦ rw n n ]

  filter-undone : (l : List (SagaStep P)) → filter is_compensable (map undone l) ≡ []
  filter-undone [] = refl
  filter-undone (s ∷ l) = rw (undone_not s) (filter-undone l)

  undone_again : (l : List (SagaStep P)) → map undone (map undone l) ≡ map undone l
  undone_again [] = refl
  undone_again (s ∷ l) = rw (undone_not s) (ap (◌∷◌ (undone s)) (undone_again l))

  take_front :
      (n : ℕ) (f : SagaStep P → SagaStep P) (l : List (SagaStep P))
      → take n (map f (take n l) ++ drop n l) ≡ map f (take n l)
  take_front zero f l = refl
  take_front (suc n) f [] = refl
  take_front (suc n) f (s ∷ l) = ap (◌∷◌ (f s)) (take_front n f l)

  drop_front :
      (n : ℕ) (f : SagaStep P → SagaStep P) (l : List (SagaStep P))
      → drop n (map f (take n l) ++ drop n l) ≡ drop n l
  drop_front zero f l = refl
  drop_front (suc n) f [] = refl
  drop_front (suc n) f (s ∷ l) = drop_front n f l

  length_front :
      (n : ℕ) (f : SagaStep P → SagaStep P) (l : List (SagaStep P))
      → length (map f (take n l) ++ drop n l) ≡ length l
  length_front zero f l = refl
  length_front (suc n) f [] = refl
  length_front (suc n) f (s ∷ l) = ap suc (length_front n f l)

  -- A second `compensate` finds nothing to undo and changes nothing: no step is undone twice.
  pub start_rollback_once :
      (saga : SagaState P) (l : List (SagaStep P)) (saga' : SagaState P)
      → saga.current_step ≤ length saga.steps
      → start_rollback saga ≡ ret (l, saga')
      → start_rollback saga' ≡ ret ([], saga')
  start_rollback_once saga l saga' h e =
      let n = saga.current_step in
      let left : SagaState P = record saga {
        steps = map undone (take n saga.steps) ++ drop n saga.steps;
      } in
      let same : saga' ≡ left = cc (start_rollback_order saga h) in
      rw same (
        start_rollback_order left (omega (arith, length_front n undone saga.steps))
        ∙ rw (take_front n undone saga.steps, drop_front n undone saga.steps)
            (rw (filter-undone (take n saga.steps), undone_again (take n saga.steps))))

  get_front :
      (n i : ℕ) (f : SagaStep P → SagaStep P) (l : List (SagaStep P)) (s : SagaStep P)
      → i < n
      → get_elem? l i ≡ some s
      → get_elem? (map f (take n l) ++ drop n l) i ≡ some (f s)
  get_front zero i f l s h e = elim h [ ]
  get_front (suc n) i f [] s h e = cc
  get_front (suc n) zero f (x ∷ l) s h e = cc
  get_front (suc n) (suc i) f (x ∷ l) s h e = get_front n i f l s (omega arith) e

  get-map :
      (f : SagaStep P → SagaStep P) (l : List (SagaStep P)) (i : ℕ) (s : SagaStep P)
      → get_elem? l i ≡ some s
      → get_elem? (map f l) i ≡ some (f s)
  get-map f [] i s e = cc
  get-map f (x ∷ l) zero s e = cc
  get-map f (x ∷ l) (suc i) s e = get-map f l i s e

  -- After `compensate` and `markCompensated`, each step before the position that was completed and
  -- has a compensation is marked as compensated, and is otherwise unchanged.
  pub finish_rollback-compensated :
      (saga : SagaState P) (l : List (SagaStep P)) (saga' : SagaState P) (i : ℕ) (s : SagaStep P)
      → saga.current_step ≤ length saga.steps
      → start_rollback saga ≡ ret (l, saga')
      → i < saga.current_step
      → get_elem? saga.steps i ≡ some s
      → is_compensable s ≡ true
      → get_elem? (finish_rollback saga').steps i ≡ some (record s { status = compensated })
  unfolding finish_rollback finish_step start_compensation
  finish_rollback-compensated saga l saga' i s h e small here c =
      let n = saga.current_step in
      let left : SagaState P = record saga {
        steps = map undone (take n saga.steps) ++ drop n saga.steps;
      } in
      let same : saga' ≡ left = cc (start_rollback_order saga h) in
      rw same (
        get-map finish_step left.steps i (undone s) (get_front n i undone saga.steps s small here)
        ∙ rw c)
