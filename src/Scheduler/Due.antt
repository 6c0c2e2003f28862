-- ===== src/Scheduler/Due.antt =====
-- Which schedules are due after a tick of tasks.service.ts.
use kodi_backend_template_a.Base.{
  ℕ, ◌<◌, String, ◌≡◌, refl, inl, inr, Bool, true, false, some, List, [], ◌∷◌, map, arith, eq_refl,
  Bool-cases, In, In-filter, filter,
}
use kodi_backend_template_a.Base.Store.{Table, KeyStore, update_row, In-update}
use kodi_backend_template_a.Scheduler.{
  Schedule, RunLog, Runner, is_due, has_schedule_id, record_run, keep_or, TaskState, emit_task,
  do_work, work_of, Work, reminders, cleanup, default, open_log, close_run, announce_run,
  execute_task, execute_all, due_tasks, run_locked, handle_hourly_tasks, lock_key,
}

record_run-is_due :
    (ok : Bool) (now at n : ℕ) (t : Schedule)
    → now < n
    → is_due now (record_run ok at (some n) t) ≡ false
unfolding is_due record_run keep_or
record_run-is_due true now at n t h = ground arith
record_run-is_due false now at n t h = ground arith

module _ (store : KeyStore String) (schedules : Table Schedule) (logs : Table RunLog)
    (runner : Runner) where
  open store use {set_nx}
  open schedules use {rows, rows-update}

  abbrev State : Type 0
  State = TaskState store schedules logs runner

  do_work-tasks :
      (w : Work) (t : Schedule) (s : State)
      → (do_work store schedules logs runner w t s).0.tasks ≡ s.tasks
  unfolding do_work emit_task
  do_work-tasks reminders t s = refl
  do_work-tasks cleanup t s = refl
  do_work-tasks default t s = refl

  announce-tasks :
      (t : Schedule) (ok : Bool) (s : State)
      → (announce_run store schedules logs runner t ok s).tasks ≡ s.tasks
  unfolding announce_run emit_task
  announce-tasks t true s = refl
  announce-tasks t false s = refl

  -- Whether the work of a task succeeds.
  pub succeeds : Schedule → State → Bool
  succeeds t s =
      (do_work store schedules logs runner (work_of t.kind) t
        (open_log store schedules logs runner t s)).1

  -- What a run makes of the schedules.
  execute_task_rows :
      (t : Schedule) (s : State)
      → rows (execute_task store schedules logs runner t s).tasks
        ≡ map
            (update_row (has_schedule_id t.id) (
              record_run
                (succeeds t s)
                (runner.end' t)
                (runner.compute_next_run t.cron_expression (runner.end' t))))
            (rows s.tasks)
  unfolding execute_task close_run open_log succeeds
  execute_task_rows t s =
      let opened = open_log store schedules logs runner t s in
      let (worked, ok) = do_work store schedules logs runner (work_of t.kind) t opened in
      rw
        (
          announce-tasks t ok (close_run store schedules logs runner t ok worked),
          rows-update,
          do_work-tasks (work_of t.kind) t opened,
        )
        refl

  -- The next run of a task can be computed and lies in the future.
  unfoldable pub RunsAgain : ℕ → Schedule → Type 0
  RunsAgain now t =
      (n : ℕ) × (runner.compute_next_run t.cron_expression (runner.end' t) ≡ some n) × (now < n)

  execute_task-In :
      (now : ℕ) (t r : Schedule) (s : State)
      → RunsAgain now t
      → In r (rows (execute_task store schedules logs runner t s).tasks)
      → is_due now r ≡ true
      → In r (rows s.tasks) × (has_schedule_id t.id r ≡ false)
  unfolding RunsAgain
  execute_task-In now t r s (n, next, future) m due =
      let f =
        record_run (succeeds t s) (runner.end' t)
          (runner.compute_next_run t.cron_expression (runner.end' t)) in
      let (x, there, how) =
        In-update (has_schedule_id t.id) f (rows s.tasks) r (rw⁻¹ (execute_task_rows t s) m) in
      elim how [
        | inl (hit, e) ↦
            let closed : is_due now (f x) ≡ false =
              rw next (record_run-is_due (succeeds t s) now (runner.end' t) n x future) in
            cc (due, e, closed)
        | inr (miss, e) ↦ (rw e there, rw e miss)
      ]

  execute_all-In :
      (now : ℕ) (ts : List Schedule) (r : Schedule) (s : State)
      → ((t : Schedule) → In t ts → RunsAgain now t)
      → In r (rows (execute_all store schedules logs runner ts s).tasks)
      → is_due now r ≡ true
      → In r (rows s.tasks) × ((t : Schedule) → In t ts → has_schedule_id t.id r ≡ false)
  unfolding execute_all
  execute_all-In now [] r s again m due = (m, λ t k. absurd k)
  execute_all-In now (t ∷ ts) r s again m due =
      let (m', others) =
        execute_all-In now ts r (execute_task store schedules logs runner t s)
          (λ u k. again u (inr k)) m due in
      let (m'', own) = execute_task-In now t r s (again t (inl refl)) m' due in
      (m'', λ u k. elim k [ inl e ↦ rw e own | inr k' ↦ others u k' ])

  locked_rows :
      (now : ℕ) (got : store.Keys × Bool) (keys : store.Keys) (s : State)
      → got ≡ (keys, true)
      → rows (run_locked store schedules logs runner now got s).tasks
        ≡ rows
            (execute_all store schedules logs runner
              (due_tasks store schedules logs runner now s)
              (record s { keys = keys })).tasks
  unfolding run_locked
  locked_rows now got keys s e = rw e refl

  -- After a tick that gets the lock, no schedule is due any more at that time, where the next run of
  -- each due schedule can be computed and lies in the future.
  pub handle_hourly_tasks-is_due :
      (now : ℕ) (r : Schedule) (s : State) (keys : store.Keys)
      → set_nx s.keys now lock_key 300 "1" ≡ (keys, true)
      → ((t : Schedule) → In t (due_tasks store schedules logs runner now s) → RunsAgain now t)
      → In r (rows (handle_hourly_tasks store schedules logs runner now s).tasks)
      → is_due now r ≡ false
  unfolding handle_hourly_tasks due_tasks has_schedule_id
  handle_hourly_tasks-is_due now r s keys locked again m = elim (Bool-cases (is_due now r)) [
    | inr no' ↦ no'
    | inl due ↦
        let ran : In r (
            rows
              (execute_all store schedules logs runner (filter (is_due now) (rows s.tasks))
                (record s { keys = keys })).tasks) =
          rw⁻¹ (locked_rows now (set_nx s.keys now lock_key 300 "1") keys s locked) m in
        let (there, apart) =
          execute_all-In now (filter (is_due now) (rows s.tasks)) r (record s { keys = keys }) again
            ran due in
        let own : has_schedule_id r.id r ≡ false =
          apart r (In-filter (is_due now) (rows s.tasks) r there due) in
        let same : has_schedule_id r.id r ≡ true = eq_refl r.id in cc (own, same)
  ]
