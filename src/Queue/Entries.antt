-- ===== src/Queue/Entries.antt =====
-- The schedule entries of internal/queue: the table schedule_entries with GetScheduleEntryState and
-- UpsertScheduleEntryState. A failure of SQLite is not modelled. No status is empty.
use senechal_gw.Prelude.{
  ℕ, String, Bool, ◌&&◌, Option, none, some, List, [], ◌∷◌, is_empty, str_eq, if◌then◌else◌,
}
use senechal_gw.Queue.Table.{
  Result, ok, ◌>>◌, reject_if, plugin_is_empty, command_is_empty, schedule_id_is_empty,
}

-- types.go: ScheduleEntryStatus
pub data ScheduleEntryStatus : Type 0 where
  active paused_manual paused_invalid exhausted : ScheduleEntryStatus

-- types.go: ScheduleEntryState
pub record ScheduleEntryState : Type 0 where
  pub plugin : String
  pub schedule_id : String
  pub command : String
  pub status : ScheduleEntryStatus
  pub reason : Option String
  pub last_fired_at : Option ℕ
  pub last_success_job_id : Option String
  pub last_success_at : Option ℕ
  pub next_run_at : Option ℕ
  pub updated_at : ℕ

unfoldable pub is_entry : String → String → ScheduleEntryState → Bool
is_entry plugin schedule_id e = str_eq e.plugin plugin && str_eq e.schedule_id schedule_id

unfoldable pub find_entry : String → String → List ScheduleEntryState → Option ScheduleEntryState
find_entry plugin schedule_id [] = none
find_entry plugin schedule_id (e ∷ rest) =
    let later = find_entry plugin schedule_id rest in
    if is_entry plugin schedule_id e then some e else later

-- GetScheduleEntryState
unfoldable pub get_schedule_entry_state :
    String → String → List ScheduleEntryState → Result (Option ScheduleEntryState)
get_schedule_entry_state plugin schedule_id rows = do
  reject_if (is_empty plugin) plugin_is_empty
  reject_if (is_empty schedule_id) schedule_id_is_empty
  ok (find_entry plugin schedule_id rows)

-- INSERT … ON CONFLICT(plugin, schedule_id) DO UPDATE
unfoldable pub put_entry : ScheduleEntryState → List ScheduleEntryState → List ScheduleEntryState
put_entry e [] = e ∷ []
put_entry e (x ∷ xs) =
    let rest = put_entry e xs in if is_entry e.plugin e.schedule_id x then e ∷ xs else x ∷ rest

-- UpsertScheduleEntryState
unfoldable pub upsert_schedule_entry_state :
    ScheduleEntryState → ℕ → List ScheduleEntryState → Result (List ScheduleEntryState)
unfolding put_entry
upsert_schedule_entry_state e now rows = do
  reject_if (is_empty e.plugin) plugin_is_empty
  reject_if (is_empty e.schedule_id) schedule_id_is_empty
  reject_if (is_empty e.command) command_is_empty
  ok (put_entry (record e { updated_at = now }) rows)
