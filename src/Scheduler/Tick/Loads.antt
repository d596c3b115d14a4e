-- ===== src/Scheduler/Tick/Loads.antt =====
-- processSchedule of internal/scheduler/scheduler.go: the entry that is loaded and what its status lets
-- pass.
use senechal_gw.Prelude.{
  ◌≡◌, ◌≢◌, refl, ap, subst, sym, ◌∙◌, inl, inr, String, true, false, some, List, [], ◌∷◌, arith,
  is_empty, str_eq, eq_iff, Bool-cases, Option-cases,
}
use senechal_gw.Queue.Table.{Db, Result, ok, err}
use senechal_gw.Queue.Entries.{
  ScheduleEntryState, ScheduleEntryStatus, active, paused_manual, paused_invalid, exhausted,
  is_entry, find_entry, get_schedule_entry_state,
}
use senechal_gw.Scheduler.Tick.{
  Tables, Call, go, ◌>>=◌, schedule_id_of, command_of, save, current_entry, change_command,
  check_status, status_step, loaded, load_entry, renamed, new_entry, entry_or_new,
}
use senechal_gw.Scheduler.Tick.Stages.{
  Goes, Goes-bind, Passed, Runs, Goes-imply, Goes-if, save-Goes,
}

find_entry-is_entry :
    (plugin id : String) (rows : List ScheduleEntryState) (e : ScheduleEntryState)
    → find_entry plugin id rows ≡ some e
    → is_entry plugin id e ≡ true
unfolding find_entry
find_entry-is_entry plugin id [] e h = absurd (ground (arith, h))
find_entry-is_entry plugin id (x ∷ xs) e h = elim (Bool-cases (is_entry plugin id x)) [
  | inl t ↦ subst (λ y. is_entry plugin id y ≡ true) (ground (arith, t, h)) t
  | inr n ↦ find_entry-is_entry plugin id xs e (ground (arith, n, h))
]

-- What reading an entry gives.
pub record IsLoaded (plugin id : String) (e : ScheduleEntryState) : Type 0 where
  pub plugin_eq : e.plugin ≡ plugin
  pub schedule_id_eq : e.schedule_id ≡ id
  pub plugin_ne : is_empty plugin ≡ false
  pub id_ne : is_empty id ≡ false

pub current_entry-IsLoaded :
    (plugin id command : String) (rows : List ScheduleEntryState) (e : ScheduleEntryState)
    → current_entry plugin id command rows ≡ ok e
    → IsLoaded plugin id e
unfolding current_entry get_schedule_entry_state is_entry
current_entry-IsLoaded plugin id command rows e h = elim (Bool-cases (is_empty plugin)) [
  | inl p ↦ absurd (ground (arith, p, h))
  | inr p ↦ elim (Bool-cases (is_empty id)) [
    | inl i ↦ absurd (ground (arith, p, i, h))
    | inr i ↦ elim (Option-cases (find_entry plugin id rows)) [
      | inl n ↦
          let same : new_entry plugin id command ≡ e = ground (arith, p, i, n, h) in
          record {
            plugin_eq = sym (ap (λ x. x.plugin) same);
            schedule_id_eq = sym (ap (λ x. x.schedule_id) same);
            plugin_ne = p;
            id_ne = i;
          }
      | inr (x, f) ↦
          let is = find_entry-is_entry plugin id rows x f in
          let a : x.plugin ≡ plugin = (eq_iff x.plugin plugin).0 (ground (arith, is)) in
          let b : x.schedule_id ≡ id = (eq_iff x.schedule_id id).0 (ground (arith, is)) in
          let same : entry_or_new plugin id command (some x) ≡ e = ground (arith, p, i, f, h) in
          record {
            plugin_eq = sym (ap (λ x. x.plugin) same) ∙ or_new-plugin plugin id command x ∙ a;
            schedule_id_eq = sym (ap (λ x. x.schedule_id) same) ∙ or_new-id plugin id command x ∙ b;
            plugin_ne = p;
            id_ne = i;
          }
    ]
  ]
]
  where
    or_new-plugin :
        (plugin id command : String) (x : ScheduleEntryState)
        → (entry_or_new plugin id command (some x)).plugin ≡ x.plugin
    or_new-plugin plugin id command x = ground arith

    or_new-id :
        (plugin id command : String) (x : ScheduleEntryState)
        → (entry_or_new plugin id command (some x)).schedule_id ≡ x.schedule_id
    or_new-id plugin id command x = ground arith

renamed-facts :
    (command : String) (e : ScheduleEntryState)
    → ((renamed command e).plugin ≡ e.plugin)
      × ((renamed command e).schedule_id ≡ e.schedule_id)
      × ((renamed command e).command ≡ command)
      × ((renamed command e).status ≢ paused_manual → e.status ≢ paused_manual)
      × ((renamed command e).status ≢ exhausted → e.status ≢ exhausted)
renamed-facts command e = (
  ground arith,
  ground arith,
  ground arith,
  λ n h. n (ground (arith, h)),
  λ n h. n (ground (arith, h)),
)

-- The entry that was loaded, and the one that the call goes on with.
record IsNamed (c : Call) (t : Tables) (e e' : ScheduleEntryState) (t' : Tables) : Type 0 where
  pub passed : Passed c t e' t'
  pub store_eq : t'.store ≡ t.store
  not_manual : e'.status ≢ paused_manual → e.status ≢ paused_manual
  not_exhausted : e'.status ≢ exhausted → e.status ≢ exhausted

change_command-Goes :
    (c : Call) (t : Tables) (e : ScheduleEntryState)
    → IsLoaded c.plugin (schedule_id_of c.schedule) e
    → Goes t.store.db (IsNamed c t e) (change_command c e t)
unfolding change_command
change_command-Goes c t e l =
    let command = command_of c.schedule in
    Goes-if t.store.db (IsNamed c t e) (str_eq e.command command) (go e t)
      (save c (renamed command e) t)
      (λ h. record {
        passed = record {
          plugin_eq = l.plugin_eq;
          schedule_id_eq = l.schedule_id_eq;
          command_eq = (eq_iff e.command command).0 h;
          db_eq = refl;
        };
        store_eq = refl;
        not_manual = λ n. n;
        not_exhausted = λ n. n;
      })
      (λ h. save-Goes t.store.db (IsNamed c t e) c t (renamed command e) refl (λ rows.
        let (p, i, k, m, x) = renamed-facts command e in
        record {
          passed = record {
            plugin_eq = p ∙ l.plugin_eq;
            schedule_id_eq = i ∙ l.schedule_id_eq;
            command_eq = k;
            db_eq = refl;
          };
          store_eq = refl;
          not_manual = m;
          not_exhausted = x;
        }))

check_status-Goes :
    (d : Db) (P : ScheduleEntryState → Tables → Type 0) (e : ScheduleEntryState) (t : Tables)
    → t.store.db ≡ d
    → (e.status ≢ paused_manual → e.status ≢ exhausted → P e t)
    → Goes d P (check_status e t)
check_status-Goes d P e t q h = of_status e.status refl
  where
    of_status : (st : ScheduleEntryStatus) → e.status ≡ st → Goes d P (status_step st e t)
    of_status paused_manual k = (refl, q)
    of_status exhausted k = (refl, q)
    of_status active k = h (λ a. cc) (λ a. cc)
    of_status paused_invalid k = h (λ a. cc) (λ a. cc)

-- What the first part of the call goes on with.
pub record IsRunning (c : Call) (t : Tables) (e : ScheduleEntryState) (t' : Tables) : Type 0 where
  pub passed : Passed c t e t'
  pub store_eq : t'.store ≡ t.store
  pub runs : Runs c t

loaded-Goes :
    (d : Db) (P : ScheduleEntryState → Tables → Type 0) (t : Tables) (r : Result ScheduleEntryState)
    → t.store.db ≡ d
    → ((e : ScheduleEntryState) → r ≡ ok e → P e t)
    → Goes d P (loaded t r)
loaded-Goes d P t (err x) q h = (refl, q)
loaded-Goes d P t (ok e) q h = h e refl

pub load_entry-Goes : (c : Call) (t : Tables) → Goes t.store.db (IsRunning c t) (load_entry c t)
unfolding load_entry
load_entry-Goes c t =
    let start =
      current_entry c.plugin (schedule_id_of c.schedule) (command_of c.schedule) t.entries in
    Goes-bind t.store.db (λ e' t'. (e : ScheduleEntryState) × (start ≡ ok e) × IsNamed c t e e' t')
      (IsRunning c t) (loaded t start >>= change_command c) check_status
      (Goes-bind t.store.db (λ e t'. (start ≡ ok e) × (t' ≡ t))
        (λ e' t'. (e : ScheduleEntryState) × (start ≡ ok e) × IsNamed c t e e' t') (loaded t start)
        (change_command c)
        (loaded-Goes t.store.db (λ e t'. (start ≡ ok e) × (t' ≡ t)) t start refl (λ e h. (h, refl)))
        (λ e t' (h, same).
          subst
            (λ u.
              Goes t.store.db
                (λ e' t''. (e : ScheduleEntryState) × (start ≡ ok e) × IsNamed c t e e' t'')
                (change_command c e u))
            (sym same)
            (Goes-imply t.store.db (IsNamed c t e)
              (λ e' t''. (e : ScheduleEntryState) × (start ≡ ok e) × IsNamed c t e e' t'')
              (change_command c e t)
              (change_command-Goes c t e (
                current_entry-IsLoaded c.plugin (schedule_id_of c.schedule) (command_of c.schedule)
                  t.entries e h))
              (λ e' t'' n. (e, h, n)))))
      (λ e' t' (e, h, n). check_status-Goes t.store.db (IsRunning c t) e' t' n.passed.db_eq (λ a b.
        record {
          passed = n.passed;
          store_eq = n.store_eq;
          runs = record {
            entry = e;
            loads = h;
            not_manual = n.not_manual a;
            not_exhausted = n.not_exhausted b;
          };
        }))
