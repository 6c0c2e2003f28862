-- ===== src/Saga/Progress.antt =====
-- How a saga advances, and that a failure undoes the steps done so far
-- (libs/saga/src/saga-orchestrator.service.ts).
use mathlib.Core.List.{reverse, append_assoc, map-append, reverse-cons}
use kodi_backend_template_a.Base.{
  ℕ, suc, ◌+◌, ◌≤◌, String, ◌≡◌, refl, sym, ap, ◌∙◌, some, List, [], ◌∷◌, ◌++◌, map, arith, inl,
  inr, leb, length, modify, take, filter, Bool-cases, take-modify, length-modify, ret,
}
use kodi_backend_template_a.Saga.{
  SagaStep, SagaState, completed, start_step, start_saga, complete_step, advance, fail,
  fail_current, has_compensation, is_compensable, start_compensation, start_rollback,
}
use kodi_backend_template_a.Saga.Rollback.{start_rollback_order}

module _ {P : Type 0} where
  -- `executeStep` for each of some results, with the times of the calls.
  abbrev pub advance_all : List (ℕ × P) → SagaState P → SagaState P
  advance_all [] saga = saga
  advance_all ((now, value) ∷ rest) saga = advance_all rest (advance now value saga)

  -- The steps with the first of them completed by given results.
  abbrev pub with_results : List (SagaStep P) → List (ℕ × P) → List (SagaStep P)
  with_results steps [] = steps
  with_results [] (v ∷ rest) = []
  with_results (s ∷ steps) ((now, value) ∷ rest) =
      record s { status = completed; result = some value } ∷ with_results steps rest

  modify_middle :
      (front : List (SagaStep P)) (s : SagaStep P) (rest : List (SagaStep P))
      (f : SagaStep P → SagaStep P)
      → modify (front ++ s ∷ rest) (length front) f ≡ front ++ f s ∷ rest
  modify_middle [] s rest f = refl
  modify_middle (x ∷ front) s rest f = ap (◌∷◌ x) (modify_middle front s rest f)

  steps-advance :
      (now : ℕ) (value : P) (saga : SagaState P)
      → (advance now value saga).steps
        ≡ modify saga.steps saga.current_step
            (λ s. record s { status = completed; result = some value })
  unfolding advance
  steps-advance now value saga =
      elim (Bool-cases (
        leb (length (modify saga.steps saga.current_step (complete_step value)))
          (saga.current_step + 1))) [ inl t ↦ rw t | inr n ↦ rw n ]

  current-advance :
      (now : ℕ) (value : P) (saga : SagaState P)
      → (advance now value saga).current_step ≡ saga.current_step + 1
  unfolding advance
  current-advance now value saga =
      elim (Bool-cases (
        leb (length (modify saga.steps saga.current_step (complete_step value)))
          (saga.current_step + 1))) [ inl t ↦ rw t | inr n ↦ rw n ]

  length-snoc :
      (front : List (SagaStep P)) (s : SagaStep P) → length (front ++ s ∷ []) ≡ length front + 1
  length-snoc [] s = omega arith
  length-snoc (x ∷ front) s = omega (arith, length-snoc front s)

  advance_all_from :
      (vs : List (ℕ × P)) (front rest : List (SagaStep P)) (saga : SagaState P)
      → saga.steps ≡ front ++ rest
      → saga.current_step ≡ length front
      → length vs ≤ length rest
      → ((advance_all vs saga).steps ≡ front ++ with_results rest vs)
        × ((advance_all vs saga).current_step ≡ length front + length vs)
  advance_all_from [] front rest saga es ec h = (es, omega arith)
  advance_all_from ((now, value) ∷ vs) front [] saga es ec h = elim h [ ]
  advance_all_from ((now, value) ∷ vs) front (s ∷ rest) saga es ec h =
      let s' : SagaStep P = record s { status = completed; result = some value } in
      let (es', ec') =
        advance_all_from vs (front ++ s' ∷ []) rest (advance now value saga)
          (steps-advance now value saga
            ∙ rw (es, ec)
                (modify_middle front s rest
                    (λ x. record x { status = completed; result = some value })
                  ∙ sym (append_assoc front (s' ∷ []) rest)))
          (omega (arith, current-advance now value saga, length-snoc front s')) (omega arith) in
      (
        es' ∙ append_assoc front (s' ∷ []) (with_results rest vs),
        omega (arith, length-snoc front s'),
      )

  length-started : (steps : List (SagaStep P)) → length (map start_step steps) ≡ length steps
  length-started [] = refl
  length-started (s ∷ steps) = ap suc (length-started steps)

  -- As long as results come for existing steps, the position counts them, and exactly the first
  -- steps are completed, each with its result.
  pub advance_all-start_saga :
      (now : ℕ) (id transaction_type : String) (steps : List (SagaStep P)) (vs : List (ℕ × P))
      → length vs ≤ length steps
      → ((advance_all vs (start_saga now id transaction_type steps)).steps
          ≡ with_results (map start_step steps) vs)
        × ((advance_all vs (start_saga now id transaction_type steps)).current_step ≡ length vs)
  unfolding start_saga
  advance_all-start_saga now id transaction_type steps vs h =
      let (es, ec) =
        advance_all_from vs [] (map start_step steps) (start_saga now id transaction_type steps)
          refl refl (omega (arith, length-started steps)) in
      (es, omega arith)

  length-with_results :
      (steps : List (SagaStep P)) (vs : List (ℕ × P))
      → length (with_results steps vs) ≡ length steps
  length-with_results steps [] = refl
  length-with_results [] (v ∷ vs) = refl
  length-with_results (s ∷ steps) ((now, value) ∷ vs) = ap suc (length-with_results steps vs)

  abbrev pub step_ids : List (SagaStep P) → List String
  step_ids = map λ s. s.step_id

  -- Of completed steps, those with a compensation are to be undone.
  ids-completed :
      (steps : List (SagaStep P)) (vs : List (ℕ × P))
      → length vs ≤ length steps
      → step_ids (filter is_compensable (take (length vs) (with_results (map start_step steps) vs)))
        ≡ step_ids (filter has_compensation (take (length vs) steps))
  unfolding start_step is_compensable
  ids-completed steps [] h = refl
  ids-completed [] (v ∷ vs) h = elim h [ ]
  ids-completed (s ∷ steps) ((now, value) ∷ vs) h =
      let rest = ids-completed steps vs (omega arith) in
      elim (Bool-cases (has_compensation s)) [
        | inl c ↦ rw c (ap (◌∷◌ s.step_id) rest)
        | inr n ↦ rw n rest
      ]

  ids-start_compensation :
      (l : List (SagaStep P)) → step_ids (map start_compensation l) ≡ step_ids l
  unfolding start_compensation
  ids-start_compensation [] = refl
  ids-start_compensation (s ∷ l) = ap (◌∷◌ s.step_id) (ids-start_compensation l)

  ids-reverse : (l : List (SagaStep P)) → step_ids (reverse l) ≡ reverse (step_ids l)
  ids-reverse [] = refl
  ids-reverse (s ∷ l) =
      ap step_ids (reverse-cons s l)
      ∙ map-append (λ x. x.step_id) (reverse l) (s ∷ [])
      ∙ ap (λ r. r ++ s.step_id ∷ []) (ids-reverse l)
      ∙ sym (reverse-cons s.step_id (step_ids l))

  -- A saga that fails at a step, after the steps before it were completed, compensates exactly those
  -- of them that have a compensation, in reverse order.
  pub rollback_after_failure :
      (now : ℕ) (id transaction_type message : String) (steps : List (SagaStep P))
      (vs : List (ℕ × P))
      → length vs ≤ length steps
      → (l : List (SagaStep P)) × (saga : SagaState P) × (start_rollback
            (fail message (advance_all vs (start_saga now id transaction_type steps)))
          ≡ ret (l, saga))
        × (step_ids l ≡ reverse (step_ids (filter has_compensation (take (length vs) steps))))
  unfolding fail
  rollback_after_failure now id transaction_type message steps vs h =
      let before = advance_all vs (start_saga now id transaction_type steps) in
      let (es, ec) = advance_all-start_saga now id transaction_type steps vs h in
      let broken = fail message before in
      let fits : length broken.steps ≡ length steps =
        length-modify before.steps before.current_step (fail_current message)
        ∙ ap length es
        ∙ length-with_results (map start_step steps) vs
        ∙ length-started steps in
      let left =
        take before.current_step (modify before.steps before.current_step (fail_current message)) in
      let done : step_ids (filter is_compensable left)
          ≡ step_ids (filter has_compensation (take (length vs) steps)) =
        rw (take-modify before.steps before.current_step (fail_current message))
          (rw (ec, es) (ids-completed steps vs h)) in
      (
        _,
        _,
        start_rollback_order broken (omega (arith, ec)),
        ids-start_compensation (reverse (filter is_compensable left))
            ∙ ids-reverse (filter is_compensable left)
            ∙ ap reverse done,
      )
