-- ===== src/Proctrack.antt =====
-- lib/clplumbing/proctrack.c: the processes that are tracked, and the signals sent to one that has
-- timed out. The table of processes is GLib's, an argument; what `kill` and the timers answer is an
-- argument of the function that calls them, and what the code does to others is a list of effects.
pub mod Signals
pub mod Timeouts
pub mod Escalate
mod Tests
use cluster_glue_import.Prelude.{
  ℕ, zero, suc, ◌+◌, Bool, true, false, ◌&&◌, ◌||◌, not, List, [], ◌∷◌, ◌++◌, Option, none, some,
  ◌==◌, if◌then◌else◌, get_elem?, ℤ, pos, negsuc, HashTable, is_some,
}
use cluster_glue_import.Lrmd.Perform.{Kill}

pub data LogType : Type 0 where
  pt_lognone : LogType
  pt_lognormal : LogType
  pt_logverbose : LogType

-- `struct _ProcTrack`. A timer id is 0 where there is no timer; `killinfo` may be NULL.
pub record Proc : Type 0 where
  pub isapgrp : Bool
  pub loglevel : LogType
  pub timerid : ℕ
  pub timeoutseq : ℤ
  pub killinfo : Option (List Kill)

-- `kill`, with the group of the process as its target where the first field says so; the main
-- loop's timers; and the calls of `ops`.
pub data Effect : Type 0 where
  signal : Bool → ℕ → ℕ → Effect
  timeout_add : ℕ → ℕ → Effect
  timeout_remove : ℕ → Effect
  procregistered : ℕ → Effect
  procdied : ℕ → ℕ → ℕ → Bool → Effect

-- What `kill` returns: 0, -1 with ESRCH, or -1 with another error.
pub data Killed : Type 0 where
  sent : Killed
  esrch : Killed
  failed : Killed

-- What the calls of one timeout return.
pub record Answer : Type 0 where
  pub killed : Killed
  pub timer : ℕ

-- What `wait` says of a process: its exit code or its signal, and whether it dumped core.
pub data Death : Type 0 where
  exited : ℕ → Death
  signaled : ℕ → Death
  strange : Death

abbrev pub sigkill : ℕ
sigkill = 9

abbrev pub same_pid : ℕ → ℕ → Bool
same_pid a b = a == b

module _ (procs : HashTable ℕ Proc same_pid) where
  open procs use {Table, lookup, insert, remove}

  -- `ProcessTable`, whether the daemon has all its privileges, `LoggingIsEnabled` and
  -- `DEBUGPROCTRACK`.
  pub record World : Type 0 where
    pub table : Table
    pub full_privs : Bool
    pub logging : Bool
    pub debug : Bool

  abbrev pub get_proc_info : World → ℕ → Option Proc
  get_proc_info w pid = lookup w.table pid

  abbrev pub put : World → ℕ → Proc → World
  put w pid p = record w { table = insert w.table pid p }

  unfoldable pub new_tracked_proc : World → ℕ → Bool → LogType → Bool → World × List Effect
  new_tracked_proc w pid isapgrp loglevel has_procregistered = (
    put w pid (record {
      isapgrp = isapgrp;
      loglevel = loglevel;
      timerid = 0;
      timeoutseq = negsuc 0;
      killinfo = none;
    }),
    if has_procregistered then procregistered pid ∷ [] else [],
  )

  -- The first entry of `info` is read; `none` is a read behind the end of it.
  unfoldable pub set_tracked_proc_timeouts :
      World → ℕ → List Kill → ℕ → Option (World × List Effect)
  set_tracked_proc_timeouts w pid info timer = elim (get_proc_info w pid) [
    | none ↦ some (w, [])
    | some p ↦ elim info [
      | [] ↦ none
      | kill ∷ kills ↦ some (
        put w pid
            (record p { timeoutseq = pos 0; killinfo = some (kill ∷ kills); timerid = timer }),
        timeout_add kill.mstimeout pid ∷ [],
      )
    ]
  ]

  abbrev pub stop_timer : Proc → List Effect
  stop_timer p =
      if is_some p.killinfo && not (p.timerid == 0) then timeout_remove p.timerid ∷ [] else []

  unfoldable pub remove_tracked_proc_timeouts : World → ℕ → World × List Effect
  remove_tracked_proc_timeouts w pid = elim (get_proc_info w pid) [
    | none ↦ (w, [])
    | some p ↦ (put w pid (record p { killinfo = none; timerid = 0 }), stop_timer p)
  ]

  -- `TrackedProcTimeoutFunction` from the signal on: `next` is the entry behind the one that is due.
  abbrev pub send_signal :
      World → ℕ → Proc → ℕ → Kill → Option Kill → Answer → Option (World × List Effect)
  send_signal w pid p seq kill next a =
      let p' = record p { timerid = 0; timeoutseq = pos (suc seq) } in
      let send = signal p.isapgrp pid kill.signalno in
      elim a.killed [
        | esrch ↦ some (record (put w pid p') { full_privs = true }, send ∷ [])
        | _ ↦ elim next [
          | none ↦ none
          | some k ↦ some (
            put w pid (record p' { timerid = a.timer }),
            send
                ∷ timeout_add k.mstimeout pid
                ∷ (if a.timer == 0 then signal p.isapgrp pid sigkill ∷ [] else []),
          )
        ]
      ]

  -- The entry that is due: a signal 0 ends the sequence.
  abbrev pub time_out : World → ℕ → Proc → ℕ → List Kill → Answer → Option (World × List Effect)
  time_out w pid p seq info a = elim (get_elem? info seq) [
    | none ↦ none
    | some kill ↦
        if kill.signalno == 0
        then some (put w pid (record p { timerid = 0 }), [])
        else send_signal w pid p seq kill (get_elem? info (suc seq)) a
  ]

  unfoldable pub tracked_proc_timeout_function : World → ℕ → Answer → Option (World × List Effect)
  tracked_proc_timeout_function w pid a = elim (get_proc_info w pid) [
    | none ↦ some (w, [])
    | some p ↦ elim p.timeoutseq [
      | negsuc _ ↦ some (w, [])
      | pos seq ↦ elim p.killinfo [ none ↦ some (w, []) | some info ↦ time_out w pid p seq info a ]
    ]
  ]

  abbrev pub exit_code : Death → ℕ
  exit_code (exited code) = code
  exit_code _ = 0

  abbrev pub signo : Death → ℕ
  signo (signaled n) = n
  signo _ = 0

  abbrev pub by_signal : Death → Bool
  by_signal (signaled n) = true
  by_signal _ = false

  abbrev pub level_report : LogType → Bool → Bool
  level_report pt_logverbose report = true
  level_report pt_lognone report = false
  level_report pt_lognormal report = report

  -- `doreport`, in the order in which the code decides on it.
  abbrev pub do_report : World → LogType → Death → Bool → Bool
  do_report w level death core =
      (level_report level (by_signal death) && w.logging) || core || w.debug

  unfoldable pub report_proc_has_died : World → ℕ → Death → Bool → World × List Effect × Bool
  report_proc_has_died w pid death core = elim (get_proc_info w pid) [
    | none ↦ (w, [], do_report w pt_lognone death core)
    | some p ↦
        let report = do_report w p.loglevel death core in
        let (w1, effects) = remove_tracked_proc_timeouts w pid in
        (
          record w1 { table = remove w1.table pid },
          effects ++ procdied pid (signo death) (exit_code death) report ∷ [],
          report,
        )
  ]
