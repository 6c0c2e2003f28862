-- ===== src/Scheduler.antt =====
-- apps/scheduler/src/modules/tasks/tasks.service.ts with the lock of libs/redis/src/redis.service.ts.
-- The library that reads cron expressions is a parameter; it answers none where it throws. Times are
-- seconds; the start, the end and the id of a run are arguments.
pub mod Due
pub mod Lock
mod Tests
use kodi_backend_template_a.Base.{
  ℕ, ◌+◌, String, Bool, true, false, Option, none, some, List, [], ◌∷◌, ◌++◌, ◌&&◌, leb, ◌==◌,
  if◌then◌else◌, filter, find?, take, length, Reply, refuse, answer,
}
use kodi_backend_template_a.Base.Store.{Table, KeyStore}

pub data RunStatus : Type 0 where
  success failed : RunStatus

pub record Schedule : Type 0 where
  pub id : String
  pub cron_expression : String
  pub kind : Option String
  pub is_enabled : Bool
  pub next_run : Option ℕ
  pub last_run : Option ℕ
  pub last_run_status : Option RunStatus
  pub run_count : ℕ
  pub created_at : ℕ

pub record RunLog : Type 0 where
  pub id : String
  pub schedule_id : String
  pub started_at : ℕ
  pub finished_at : Option ℕ
  pub status : RunStatus
  pub created_at : ℕ

pub data TaskEvent : Type 0 where
  reminders_run cleanup_run schedule_execute schedule_completed : String → TaskEvent

-- `computeNextRun` and `isValidCronExpression`, whether the services that do the work answer, and
-- the start, the end and the log's id of a run.
pub record Runner : Type 0 where
  pub compute_next_run : String → ℕ → Option ℕ
  pub is_valid : String → Bool
  pub reminders_answer : Schedule → Bool
  pub cleanup_answers : Schedule → Bool
  pub start : Schedule → ℕ
  pub end' : Schedule → ℕ
  pub log_id : Schedule → String

pub data TaskError : Type 0 where
  invalid_cron schedule_not_found : TaskError

-- `CreateTaskDto`, with the id that is drawn.
pub record TaskRequest : Type 0 where
  pub new_id : String
  pub cron_expression : String
  pub kind : Option String

pub is_due : ℕ → Schedule → Bool
is_due now t = t.is_enabled && elim t.next_run [ none ↦ true | some n ↦ leb n now ]

pub needs_backfill : Schedule → Bool
needs_backfill t = t.is_enabled && elim t.next_run [ none ↦ true | some n ↦ false ]

pub has_schedule_id : String → Schedule → Bool
has_schedule_id id t = t.id == id

pub has_log_id : String → RunLog → Bool
has_log_id id l = l.id == id

-- `nextRun || undefined`: without a next run the old one stays.
pub keep_or : Option ℕ → Option ℕ → Option ℕ
keep_or old none = old
keep_or old (some n) = some n

-- What a run writes to its schedule; the first argument says whether it succeeded.
pub record_run : Bool → ℕ → Option ℕ → Schedule → Schedule
unfolding keep_or
record_run true at next t = record t {
  last_run = some at;
  last_run_status = some success;
  run_count = t.run_count + 1;
  next_run = keep_or t.next_run next;
}
record_run false at next t = record t {
  last_run = some at;
  last_run_status = some failed;
  next_run = keep_or t.next_run next;
}

pub finish_log : Bool → ℕ → RunLog → RunLog
finish_log true at l = record l { finished_at = some at; status = success }
finish_log false at l = record l { finished_at = some at; status = failed }

pub reschedule : Option ℕ → Schedule → Schedule
reschedule next t = record t { next_run = next }

-- The handlers that a task is routed to.
pub data Work : Type 0 where
  reminders cleanup default : Work

pub work_of : Option String → Work
work_of none = default
work_of (some k) =
    if k == "favorite-event-reminders"
    then reminders
    else if k == "expire-events-cleanup"
    then cleanup
    else default

abbrev pub lock_key : String
lock_key = "scheduler:hourly:lock"

module _ (store : KeyStore String) (schedules : Table Schedule) (logs : Table RunLog)
    (runner : Runner) where
  open store use {Keys, set_nx, del}
  open schedules use {Rows, rows, insert, update}

  pub record TaskState : Type 0 where
    pub keys : Keys
    pub tasks : Rows
    pub runs : logs.Rows
    pub events : List TaskEvent

  pub emit_task : TaskEvent → TaskState → TaskState
  emit_task e s = record s { events = s.events ++ e ∷ [] }

  -- The work of a task, and whether it succeeds.
  pub do_work : Work → Schedule → TaskState → TaskState × Bool
  do_work reminders t s = (emit_task (reminders_run t.id) s, runner.reminders_answer t)
  do_work cleanup t s = (emit_task (cleanup_run t.id) s, runner.cleanup_answers t)
  do_work default t s = (emit_task (schedule_execute t.id) s, true)

  pub new_log : Schedule → RunLog
  new_log t = record {
    id = runner.log_id t;
    schedule_id = t.id;
    started_at = runner.start t;
    finished_at = none;
    status = success;
    created_at = runner.start t;
  }

  pub open_log : Schedule → TaskState → TaskState
  unfolding new_log
  open_log t s = record s { runs = logs.insert (new_log t) s.runs }

  pub close_run : Schedule → Bool → TaskState → TaskState
  unfolding finish_log has_schedule_id has_log_id record_run
  close_run t ok s = record s {
    tasks =
        update (has_schedule_id t.id)
          (record_run ok (runner.end' t)
            (runner.compute_next_run t.cron_expression (runner.end' t)))
          s.tasks;
    runs = logs.update (has_log_id (runner.log_id t)) (finish_log ok (runner.end' t)) s.runs;
  }

  -- The completion is announced only after a success.
  pub announce_run : Schedule → Bool → TaskState → TaskState
  announce_run t true s = emit_task (schedule_completed t.id) s
  announce_run t false s = s

  pub execute_task : Schedule → TaskState → TaskState
  unfolding open_log close_run announce_run
  execute_task t s =
      let (worked, ok) = do_work (work_of t.kind) t (open_log t s) in
      announce_run t ok (close_run t ok worked)

  pub execute_all : List Schedule → TaskState → TaskState
  unfolding execute_task
  execute_all [] s = s
  execute_all (t ∷ ts) s = execute_all ts (execute_task t s)

  pub due_tasks : ℕ → TaskState → List Schedule
  due_tasks now s = filter (is_due now) (rows s.tasks)

  -- The lock is released in any case.
  pub run_locked : ℕ → Keys × Bool → TaskState → TaskState
  unfolding execute_all due_tasks
  run_locked now (keys, true) s =
      let done = execute_all (due_tasks now s) (record s { keys = keys }) in
      record done { keys = del done.keys lock_key }
  run_locked now (keys, false) s = record s { keys = keys }

  pub handle_hourly_tasks : ℕ → TaskState → TaskState
  unfolding run_locked
  handle_hourly_tasks now s = run_locked now (set_nx s.keys now lock_key 300 "1") s

  -- A schedule whose expression cannot be read is left alone.
  backfill_one : Option ℕ → Schedule → TaskState → TaskState
  backfill_one none t s = s
  backfill_one (some n) t s = record s {
    tasks = update (has_schedule_id t.id) (reschedule (some n)) s.tasks;
  }

  backfill_all : ℕ → List Schedule → TaskState → TaskState
  backfill_all now [] s = s
  backfill_all now (t ∷ ts) s =
      backfill_all now ts (backfill_one (runner.compute_next_run t.cron_expression now) t s)

  pub backfill_next_run : ℕ → TaskState → TaskState
  unfolding backfill_all backfill_one needs_backfill reschedule
  backfill_next_run now s = backfill_all now (filter needs_backfill (rows s.tasks)) s

  create_with : Option ℕ → ℕ → TaskRequest → TaskState → TaskState × Reply TaskError Schedule
  create_with none now r s = (s, refuse invalid_cron)
  create_with (some n) now r s =
      let t : Schedule = record {
        id = r.new_id;
        cron_expression = r.cron_expression;
        kind = r.kind;
        is_enabled = true;
        next_run = some n;
        last_run = none;
        last_run_status = none;
        run_count = 0;
        created_at = now;
      } in
      (record s { tasks = insert t s.tasks }, answer t)

  pub create : ℕ → TaskRequest → TaskState → TaskState × Reply TaskError Schedule
  unfolding create_with
  create now r s =
      if runner.is_valid r.cron_expression
      then create_with (runner.compute_next_run r.cron_expression now) now r s
      else (s, refuse invalid_cron)

  run_found : Option Schedule → TaskState → TaskState × Reply TaskError Schedule
  run_found none s = (s, refuse schedule_not_found)
  run_found (some t) s = (execute_task t s, answer t)

  pub run_by_id : String → TaskState → TaskState × Reply TaskError Schedule
  unfolding run_found
  run_by_id id s = run_found (find? (has_schedule_id id) (rows s.tasks)) s
