-- ===== src/RunLogs/Bounds.antt =====
-- The bounds of the history: how many runs, and how long the texts of an entry.
use log_agent.Prelude.{
  ◌++◌, ◌⊎◌, ℕ, zero, suc, ◌≤◌, ltb, Bool, not, ◌||◌, List, [], ◌∷◌, map, Option, none, some, Text,
  text_eq, ◌==◌, if◌then◌else◌, is_empty, filterb, take, length, ◌≡◌, refl, arith, Bool-cases, inl,
  inr, All, All-append, length-take, length-filterb,
}
use log_agent.Prelude.Members.{contains}
use log_agent.Commands.{Flow, Line}
use log_agent.Workspace.{Workspace}
use log_agent.RunLogs.{
  LogStatus, LogEntry, RunLog, LogsView, Logs, Batch, max_runs, max_output, clamp_command_log_text,
  save_command_logs, new_run, start_command_log, update_run, begin_command_log_entry, update_last,
  output_or, clamp_error, finish_entry, finish_command_log_entry, finish_command_log,
  command_log_runs, open_command_logs, done_ids, clear_view, clear_command_logs,
}

pub data Action : Type 0 where
  start : Text → Text → ℕ → Option Batch → Flow → Workspace → Action
  begin_entry : Text → ℕ → Flow → Line → ℕ → Workspace → Action
  end_entry : Text → ℕ → LogStatus → Option Text → Text → Text → Action
  end_run : Text → ℕ → LogStatus → Action
  save : Action
  open_window : Bool → Text → Action
  clear : Bool → Action

unfoldable pub act : Text → Action → Logs → Logs
unfolding start_command_log begin_command_log_entry finish_command_log_entry finish_command_log
    save_command_logs open_command_logs clear_command_logs
act notice (start new_id unnamed now batch flow w) l =
    start_command_log new_id unnamed now batch flow w l
act notice (begin_entry run_id now flow line index w) l =
    begin_command_log_entry run_id now flow line index w l
act notice (end_entry run_id now status output error_text cwd) l =
    finish_command_log_entry run_id notice now status output error_text cwd l
act notice (end_run run_id now result) l = finish_command_log run_id now result l
act notice save l = save_command_logs l
act notice (open_window of_group id) l = open_command_logs of_group id l
act notice (clear confirmed) l = clear_command_logs confirmed l

unfoldable pub act_all : Text → List Action → Logs → Logs
unfolding act
act_all notice [] l = l
act_all notice (a ∷ actions) l = act_all notice actions (act notice a l)

abbrev pub no_logs : Logs
no_logs = record { runs = []; view = none }

length-take_of_long : (n : ℕ) (text : Text) → n ≤ length text → length (take n text) ≡ n
length-take_of_long zero text h = refl
length-take_of_long (suc n) [] h = absurd (omega (arith, h))
length-take_of_long (suc n) (c ∷ text) h =
    omega (arith, length-take_of_long n text (omega (arith, h)))

module _ (notice : Text) where
  -- A text of the history: at most 20000 characters, or 20000 of them, a line break and the notice.
  abbrev pub IsShort : Text → Type 0
  IsShort text =
      (length text ≤ 20000)
      ⊎ ((kept : Text) × (length kept ≡ 20000) × (text ≡ kept ++ (10 ∷ notice)))

  abbrev pub IsShortEntry : LogEntry → Type 0
  IsShortEntry entry = IsShort entry.output × IsShort entry.error_text

  abbrev pub IsShortRun : RunLog → Type 0
  IsShortRun run = All IsShortEntry run.entries

  pub record AreLogs (l : Logs) : Type 0 where
    pub few : length l.runs ≤ max_runs
    pub short : All IsShortRun l.runs

  clamp-IsShort : (text : Text) → IsShort (clamp_command_log_text notice text)
  unfolding clamp_command_log_text
  clamp-IsShort text = elim (Bool-cases (ltb max_output (length text))) [
    | inl e ↦
        rw e (
          inr (take max_output text, length-take_of_long max_output text (ground (arith, e)), refl))
    | inr e ↦ rw e (inl (ground (arith, e)))
  ]

  clamp_error-IsShort : (text old : Text) → IsShort old → IsShort (clamp_error notice text old)
  clamp_error-IsShort [] old h = h
  clamp_error-IsShort (c ∷ text) old h = clamp-IsShort (c ∷ text)

  finish_entry-IsShortEntry :
      (now : ℕ) (status : LogStatus) (output : Option Text) (error_text cwd : Text)
      (entry : LogEntry)
      → IsShortEntry entry
      → IsShortEntry (finish_entry notice now status output error_text cwd entry)
  unfolding finish_entry
  finish_entry-IsShortEntry now status output error_text cwd entry (out, err) = (
    clamp-IsShort (output_or output entry.output),
    clamp_error-IsShort error_text entry.error_text err,
  )

  update_last-All :
      (f : LogEntry → LogEntry) (entries : List LogEntry)
      → ((entry : LogEntry) → IsShortEntry entry → IsShortEntry (f entry))
      → All IsShortEntry entries
      → All IsShortEntry (update_last f entries)
  update_last-All f [] k h = tt
  update_last-All f (entry ∷ []) k (h, rest) = (k entry h, tt)
  update_last-All f (entry ∷ next ∷ entries) k (h, rest) =
      (h, update_last-All f (next ∷ entries) k rest)

  -- A run of the history is changed.
  updated :
      (id : Text) (f : RunLog → RunLog) (l : Logs)
      → ((run : RunLog) → IsShortRun run → IsShortRun (f run))
      → AreLogs l
      → AreLogs (update_run id f l)
  updated id f l k h = record {
    few = omega (arith, length_same l.runs, h.few);
    short = all_short l.runs h.short;
  }
    where
      length_same :
          (runs : List RunLog)
          → length (map (λ (run : RunLog). if run.id == id then f run else run) runs) ≡ length runs
      length_same [] = refl
      length_same (run ∷ runs) = omega (arith, length_same runs)

      all_short :
          (runs : List RunLog)
          → All IsShortRun runs
          → All IsShortRun (map (λ (run : RunLog). if run.id == id then f run else run) runs)
      all_short [] h = tt
      all_short (run ∷ runs) (h, hs) = elim (Bool-cases (run.id == id)) [
        | inl e ↦ rw e (k run h, all_short runs hs)
        | inr e ↦ rw e (h, all_short runs hs)
      ]

  taken : (n : ℕ) (runs : List RunLog) → All IsShortRun runs → All IsShortRun (take n runs)
  taken zero runs h = tt
  taken (suc n) [] h = tt
  taken (suc n) (run ∷ runs) (h, hs) = (h, taken n runs hs)

  filtered :
      (p : RunLog → Bool) (runs : List RunLog)
      → All IsShortRun runs
      → All IsShortRun (filterb p runs)
  filtered p [] h = tt
  filtered p (run ∷ runs) (h, hs) = elim (Bool-cases (p run)) [
    | inl e ↦ rw e (h, filtered p runs hs)
    | inr e ↦ rw e (filtered p runs hs)
  ]

  cleared :
      (confirmed : Bool) (view : Option LogsView) (l : Logs)
      → AreLogs l
      → AreLogs (clear_view confirmed view l)
  unfolding clear_view
  cleared confirmed none l h = h
  cleared confirmed (some view) l h =
      let runs = command_log_runs view.of_group view.id l in
      elim (Bool-cases (is_empty runs || not confirmed)) [
        | inl e ↦ rw e h
        | inr e ↦ rw e (record {
          few = omega (
            arith,
            length-filterb (λ (run : RunLog). not (contains run.id (done_ids runs))) l.runs,
            h.few,
          );
          short = filtered (λ (run : RunLog). not (contains run.id (done_ids runs))) l.runs h.short;
        })
      ]

  act-AreLogs : (a : Action) (l : Logs) → AreLogs l → AreLogs (act notice a l)
  unfolding act start_command_log new_run begin_command_log_entry finish_command_log_entry
      finish_command_log save_command_logs open_command_logs clear_command_logs
  act-AreLogs (start new_id unnamed now batch flow w) l h = record {
    few = omega (arith, length-take max_runs (new_run new_id unnamed now batch flow w ∷ l.runs));
    short = taken max_runs (new_run new_id unnamed now batch flow w ∷ l.runs) (tt, h.short);
  }
  act-AreLogs (begin_entry run_id now flow line index w) l h =
      updated run_id _ l
        (λ run short.
          All-append IsShortEntry run.entries _ short ((inl (omega arith), inl (omega arith)), tt))
        h
  act-AreLogs (end_entry run_id now status output error_text cwd) l h =
      updated run_id _ l
        (λ run short.
          update_last-All _ run.entries (finish_entry-IsShortEntry now status output error_text cwd)
            short)
        h
  act-AreLogs (end_run run_id now result) l h = updated run_id _ l (λ run short. short) h
  act-AreLogs save l h = record {
    few = omega (arith, length-take max_runs l.runs);
    short = taken max_runs l.runs h.short;
  }
  act-AreLogs (open_window of_group id) l h = record { few = h.few; short = h.short }
  act-AreLogs (clear confirmed) l h = cleared confirmed l.view l h

  act_all-kept : (actions : List Action) (l : Logs) → AreLogs l → AreLogs (act_all notice actions l)
  unfolding act_all
  act_all-kept [] l h = h
  act_all-kept (a ∷ actions) l h = act_all-kept actions (act notice a l) (act-AreLogs a l h)

  -- From an empty history, after any starts, entries and ends of runs, savings, openings of the
  -- window and clearings (a history that is loaded from the database is not among them): there are
  -- at most 200 runs, and the output and the error of an entry each have at most 20000 characters,
  -- or are 20000 characters, a line break and the notice that they were cut.
  pub act_all-AreLogs : (actions : List Action) → AreLogs (act_all notice actions no_logs)
  act_all-AreLogs actions = act_all-kept actions no_logs (record { few = omega arith; short = tt })
