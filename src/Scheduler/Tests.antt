-- ===== src/Scheduler/Tests.antt =====
-- Ticks of tasks.service.ts at concrete inputs: one schedule that is due, every hour.
use kodi_backend_template_a.Base.{
  ◌≤◌, map, filter, String, ◌≡◌, refl, inl, true, false, none, some, [], ◌∷◌, arith, length, In,
}
use kodi_backend_template_a.Base.Store.{Table, list_table, KeyStore, function_store}
use kodi_backend_template_a.Scheduler.{
  do_work, work_of, emit_task, Schedule, RunLog, Runner, TaskState, is_due, due_tasks, lock_key,
  handle_hourly_tasks, record_run,
}
use kodi_backend_template_a.Scheduler.Due.{RunsAgain, handle_hourly_tasks-is_due}
use kodi_backend_template_a.Scheduler.Lock.{
  log_names, is_open_log, run_names, handle_hourly_tasks_runs,
}

abbrev task : Schedule
task = record {
  id = "t";
  cron_expression = "0 * * * *";
  kind = none;
  is_enabled = true;
  next_run = some 3600;
  last_run = none;
  last_run_status = none;
  run_count = 0;
  created_at = 0;
}

abbrev runner : Runner
runner = record {
  compute_next_run = λ c now. some 7200;
  is_valid = λ c. true;
  reminders_answer = λ t. true;
  cleanup_answers = λ t. true;
  start = λ t. 3600;
  end' = λ t. 3605;
  log_id = λ t. "l";
}

abbrev store : KeyStore String
store = function_store String (λ p k. false)

abbrev schedules : Table Schedule
schedules = list_table Schedule

abbrev logs : Table RunLog
logs = list_table RunLog

abbrev state : TaskState store schedules logs runner
state = record { keys = λ k t. none; tasks = task ∷ []; runs = []; events = [] }

abbrev locked_keys : store.Keys
locked_keys = store.setex state.keys 3600 lock_key 300 "1"

abbrev busy : TaskState store schedules logs runner
busy = record state { keys = λ k t. some "1" }

abbrev done : Schedule
done = record_run true 3605 (some 7200) task

handle_hourly_tasks_runs_example :
    let s = handle_hourly_tasks store schedules logs runner 3600 state in
    (map log_names s.runs
      ≡ map
          (run_names store schedules logs runner)
          (due_tasks store schedules logs runner 3600 state))
    × (length (filter is_open_log s.runs) ≤ 0)
    × (s.keys lock_key 3700 ≡ none)
handle_hourly_tasks_runs_example =
    handle_hourly_tasks_runs store schedules logs runner 3600 3700 state locked_keys refl

again :
    (t : Schedule)
    → In t (due_tasks store schedules logs runner 3600 state)
    → RunsAgain store schedules logs runner 3600 t
unfolding RunsAgain
again t m = (7200, refl, omega arith)

there : In done (handle_hourly_tasks store schedules logs runner 3600 state).tasks
unfolding handle_hourly_tasks due_tasks is_due do_work work_of emit_task
there = inl refl

handle_hourly_tasks-is_due_example : is_due 3600 done ≡ false
handle_hourly_tasks-is_due_example =
    handle_hourly_tasks-is_due store schedules logs runner 3600 done state locked_keys refl again
      there
