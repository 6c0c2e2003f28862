-- ===== src/Scheduler/Lock.antt =====
-- The lock around a tick of tasks.service.ts, and the log of its runs.
use kodi_backend_template_a.Base.{
  ℕ, ◌≤◌, String, ◌≡◌, refl, sym, ap, ◌∙◌, inl, inr, Bool-cases, filter, eq_refl, Bool, true, false,
  none, some, List, [], ◌∷◌, ◌++◌, map, arith, length,
}
use kodi_backend_template_a.Base.Store.{Table, KeyStore, update_row}
use kodi_backend_template_a.Scheduler.{
  Schedule, RunLog, Runner, TaskState, Work, reminders, cleanup, default, work_of, emit_task,
  do_work, new_log, open_log, close_run, announce_run, execute_task, execute_all, due_tasks,
  run_locked, handle_hourly_tasks, lock_key, finish_log, has_log_id,
}

-- The log's own id, with the schedule that it is about.
abbrev pub log_names : RunLog → String × String
log_names l = (l.id, l.schedule_id)

abbrev pub is_open_log : RunLog → Bool
is_open_log l = elim l.finished_at [ none ↦ true | some t ↦ false ]

finish_log_names : (ok : Bool) (at : ℕ) (l : RunLog) → log_names (finish_log ok at l) ≡ log_names l
unfolding finish_log
finish_log_names true at l = refl
finish_log_names false at l = refl

finish_log-is_open_log :
    (ok : Bool) (at : ℕ) (l : RunLog) → is_open_log (finish_log ok at l) ≡ false
unfolding finish_log
finish_log-is_open_log true at l = refl
finish_log-is_open_log false at l = refl

map_names-update :
    (p : RunLog → Bool) (ok : Bool) (at : ℕ) (xs : List RunLog)
    → map log_names (map (update_row p (finish_log ok at)) xs) ≡ map log_names xs
map_names-update p ok at [] = refl
map_names-update p ok at (x ∷ xs) =
    let rest = map_names-update p ok at xs in
    elim (Bool-cases (p x)) [
      | inl hit ↦ rw (hit, finish_log_names ok at x) (ap (◌∷◌ (log_names x)) rest)
      | inr miss ↦ rw miss (ap (◌∷◌ (log_names x)) rest)
    ]

map-append :
    {A : Type 0} {B : Type 0} (f : A → B) (xs ys : List A) → map f (xs ++ ys) ≡ map f xs ++ map f ys
map-append f [] ys = refl
map-append f (x ∷ xs) ys = ap (◌∷◌ (f x)) (map-append f xs ys)

append_nil : {A : Type 0} (xs : List A) → xs ++ [] ≡ xs
append_nil [] = refl
append_nil (x ∷ xs) = ap (◌∷◌ x) (append_nil xs)

append_assoc :
    {A : Type 0} (xs : List A) (y : A) (ys : List A) → (xs ++ y ∷ []) ++ ys ≡ xs ++ y ∷ ys
append_assoc [] y ys = refl
append_assoc (x ∷ xs) y ys = ap (◌∷◌ x) (append_assoc xs y ys)

-- Closing a log that was added last leaves no more open ones than there were.
length-filter-closed :
    (p : RunLog → Bool) (ok : Bool) (at : ℕ) (xs : List RunLog) (new : RunLog)
    → p new ≡ true
    → length (filter is_open_log (map (update_row p (finish_log ok at)) (xs ++ new ∷ [])))
      ≤ length (filter is_open_log xs)
length-filter-closed p ok at [] new hit = rw (hit, finish_log-is_open_log ok at new) (omega arith)
length-filter-closed p ok at (x ∷ xs) new hit =
    let rest = length-filter-closed p ok at xs new hit in
    elim (Bool-cases (p x)) [
      | inl closed ↦
          rw (closed, finish_log-is_open_log ok at x)
            (elim (Bool-cases (is_open_log x)) [
              | inl was ↦ rw was (omega arith)
              | inr done ↦ rw done rest
            ])
      | inr kept ↦ rw kept (elim (Bool-cases (is_open_log x)) [
        | inl was ↦ rw was (omega arith)
        | inr done ↦ rw done rest
      ])
    ]

module _ (store : KeyStore String) (schedules : Table Schedule) (logs : Table RunLog)
    (runner : Runner) where
  open store use {get, set_nx, get-del, set_nx-present}

  abbrev State : Type 0
  State = TaskState store schedules logs runner

  announce-runs :
      (t : Schedule) (ok : Bool) (s : State)
      → (announce_run store schedules logs runner t ok s).runs ≡ s.runs
  unfolding announce_run emit_task
  announce-runs t true s = refl
  announce-runs t false s = refl

  do_work-runs :
      (w : Work) (t : Schedule) (s : State)
      → (do_work store schedules logs runner w t s).0.runs ≡ s.runs
  unfolding do_work emit_task
  do_work-runs reminders t s = refl
  do_work-runs cleanup t s = refl
  do_work-runs default t s = refl

  -- The names of the log that a run of a schedule is to write.
  abbrev pub run_names : Schedule → String × String
  run_names t = (runner.log_id t, t.id)

  execute_task_rows :
      (t : Schedule) (s : State)
      → (ok : Bool) × (logs.rows (execute_task store schedules logs runner t s).runs
          ≡ map
              (update_row (has_log_id (runner.log_id t)) (finish_log ok (runner.end' t)))
              (logs.rows s.runs ++ new_log store schedules logs runner t ∷ []))
  unfolding execute_task close_run open_log
  execute_task_rows t s =
      let opened = open_log store schedules logs runner t s in
      let (worked, ok) = do_work store schedules logs runner (work_of t.kind) t opened in
      (
        ok,
        rw
            (
              announce-runs t ok (close_run store schedules logs runner t ok worked),
              logs.rows-update,
              do_work-runs (work_of t.kind) t opened,
              logs.rows-insert,
            )
            refl,
      )

  -- What a state's logs are after some schedules were run: named as before and after them, and no
  -- more of them open.
  abbrev Logged : List Schedule → State → State → Type 0
  Logged ts s s' =
      (map log_names (logs.rows s'.runs) ≡ map log_names (logs.rows s.runs) ++ map run_names ts)
      × (length (filter is_open_log (logs.rows s'.runs))
          ≤ length (filter is_open_log (logs.rows s.runs)))

  execute_task-Logged :
      (t : Schedule) (s : State) → Logged (t ∷ []) s (execute_task store schedules logs runner t s)
  unfolding new_log has_log_id
  execute_task-Logged t s =
      let (ok, written) = execute_task_rows t s in
      let new = new_log store schedules logs runner t in
      let own = has_log_id (runner.log_id t) in
      (
        ap (map log_names) written
            ∙ map_names-update own ok (runner.end' t) (logs.rows s.runs ++ new ∷ [])
            ∙ map-append log_names (logs.rows s.runs) (new ∷ []),
        rw written (
            length-filter-closed own ok (runner.end' t) (logs.rows s.runs) new
              (eq_refl (runner.log_id t))),
      )

  execute_all-Logged :
      (ts : List Schedule) (s : State) → Logged ts s (execute_all store schedules logs runner ts s)
  unfolding execute_all
  execute_all-Logged [] s = (sym (append_nil (map log_names (logs.rows s.runs))), omega arith)
  execute_all-Logged (t ∷ ts) s =
      let (names, fewer) = execute_all-Logged ts (execute_task store schedules logs runner t s) in
      let (name, few) = execute_task-Logged t s in
      (
        names
            ∙ ap (λ xs. xs ++ map run_names ts) name
            ∙ append_assoc (map log_names (logs.rows s.runs)) (run_names t) (map run_names ts),
        omega arith,
      )

  -- A tick that finds the lock taken changes nothing and sends nothing.
  pub handle_hourly_tasks_taken :
      (now : ℕ) (s : State) (v : String)
      → get s.keys now lock_key ≡ some v
      → handle_hourly_tasks store schedules logs runner now s ≡ s
  unfolding handle_hourly_tasks run_locked
  handle_hourly_tasks_taken now s v taken =
      rw (set_nx-present s.keys now 300 lock_key "1" v taken) refl

  -- A tick that gets the lock adds one log for each due schedule, in their order, with the schedule's
  -- id and the id of its run; it leaves no more logs open than there were, and the lock is free after
  -- it.
  pub handle_hourly_tasks_runs :
      (now later : ℕ) (s : State) (keys : store.Keys)
      → set_nx s.keys now lock_key 300 "1" ≡ (keys, true)
      → let s' = handle_hourly_tasks store schedules logs runner now s in
        (map log_names (logs.rows s'.runs)
          ≡ map log_names (logs.rows s.runs)
            ++ map run_names (due_tasks store schedules logs runner now s))
        × (length (filter is_open_log (logs.rows s'.runs))
            ≤ length (filter is_open_log (logs.rows s.runs)))
        × (get s'.keys later lock_key ≡ none)
  unfolding handle_hourly_tasks run_locked
  handle_hourly_tasks_runs now later s keys locked =
      let (names, few) =
        execute_all-Logged (due_tasks store schedules logs runner now s)
          (record s { keys = keys }) in
      rw locked (names, few, get-del _ later lock_key lock_key)
