-- ===== src/Proctrack/Timeouts.antt =====
-- The timeouts of one process (lib/clplumbing/proctrack.c), one after the other, as long as the main
-- loop has a timer for it.
use cluster_glue_import.Prelude.{
  ℕ, suc, ◌<◌, ◌≡◌, ◌≢◌, refl, Bool, true, false, not, List, [], ◌∷◌, ◌++◌, Option, none, some,
  ◌==◌, ==_refl, get_elem?, pos, arith, HashTable,
}
use cluster_glue_import.Lrmd.Perform.{Kill}
use cluster_glue_import.Proctrack.{
  Proc, Effect, signal, timeout_add, Killed, sent, esrch, failed, Answer, same_pid, World,
  get_proc_info, put, tracked_proc_timeout_function,
}

module _ (procs : HashTable ℕ Proc same_pid) where
  open procs use {lookup-insert}

  abbrev pub pending_proc : Option Proc → Bool
  pending_proc none = false
  pending_proc (some p) = not (p.timerid == 0)

  -- Whether the main loop has a timer for the process.
  abbrev pub pending : World procs → ℕ → Bool
  pending w pid = pending_proc (get_proc_info procs w pid)

  abbrev pub and_then :
      List Effect → Option (World procs × List Effect) → Option (World procs × List Effect)
  and_then es none = none
  and_then es (some (w, fs)) = some (w, es ++ fs)

  -- The timeouts of one process, one after the other, with what the system answers in each.
  unfoldable pub timeouts : World procs → ℕ → List Answer → Option (World procs × List Effect)
  timeouts w pid [] = some (w, [])
  timeouts w pid (a ∷ as') = elim (pending w pid) [
    | false ↦ some (w, [])
    | true ↦ elim (tracked_proc_timeout_function procs w pid a) [
      | none ↦ none
      | some r ↦ and_then r.1 (timeouts r.0 pid as')
    ]
  ]

  -- The entry `seq` of the sequence is due.
  pub record Due (w : World procs) (pid : ℕ) (p : Proc) (seq : ℕ) (info : List Kill) : Type 0 where
    pub found : get_proc_info procs w pid ≡ some p
    pub number : p.timeoutseq ≡ pos seq
    pub sequence : p.killinfo ≡ some info

  pub ended :
      (w : World procs) (pid : ℕ) (p : Proc) (seq : ℕ) (info : List Kill) (kill : Kill) (a : Answer)
      → Due w pid p seq info
      → get_elem? info seq ≡ some kill
      → kill.signalno ≡ 0
      → tracked_proc_timeout_function procs w pid a
        ≡ some (put procs w pid (record p { timerid = 0 }), [])
  unfolding tracked_proc_timeout_function
  ended w pid p seq info kill a due e z = ground (arith, due.found, due.number, due.sequence, e, z)

  pub idle :
      (w : World procs) (pid : ℕ) (as' : List Answer)
      → pending w pid ≡ false
      → timeouts w pid as' ≡ some (w, [])
  unfolding timeouts
  idle w pid [] h = refl
  idle w pid (a ∷ as') h = ground (arith, h)

  pub lookup-put :
      (w : World procs) (pid : ℕ) (p : Proc) → get_proc_info procs (put procs w pid p) pid ≡ some p
  lookup-put w pid p = rw (lookup-insert w.table pid pid p, ==_refl pid) refl

  pub gone :
      (w : World procs) (pid : ℕ) (p : Proc) (seq : ℕ) (info : List Kill) (kill : Kill) (a : Answer)
      → Due w pid p seq info
      → get_elem? info seq ≡ some kill
      → 0 < kill.signalno
      → a.killed ≡ esrch
      → tracked_proc_timeout_function procs w pid a
        ≡ some (
          record (put procs w pid (record p { timerid = 0; timeoutseq = pos (suc seq) })) {
            full_privs = true;
          },
          signal p.isapgrp pid kill.signalno ∷ [],
        )
  unfolding tracked_proc_timeout_function
  gone w pid p seq info kill a due e lt k =
      ground (arith, due.found, due.number, due.sequence, e, k)

  pub again :
      (w : World procs) (pid : ℕ) (p : Proc) (seq : ℕ) (info : List Kill) (kill next : Kill)
      (a : Answer)
      → Due w pid p seq info
      → get_elem? info seq ≡ some kill
      → get_elem? info (suc seq) ≡ some next
      → 0 < kill.signalno
      → a.killed ≢ esrch
      → 0 < a.timer
      → tracked_proc_timeout_function procs w pid a
        ≡ some (
          put procs w pid (record p { timerid = a.timer; timeoutseq = pos (suc seq) }),
          signal p.isapgrp pid kill.signalno ∷ timeout_add next.mstimeout pid ∷ [],
        )
  unfolding tracked_proc_timeout_function
  again w pid p seq info kill next a due e e' lt k t = go a.killed refl
    where
      go :
          (x : Killed)
          → a.killed ≡ x
          → tracked_proc_timeout_function procs w pid a
            ≡ some (
              put procs w pid (record p { timerid = a.timer; timeoutseq = pos (suc seq) }),
              signal p.isapgrp pid kill.signalno ∷ timeout_add next.mstimeout pid ∷ [],
            )
      go sent eq = ground (arith, due.found, due.number, due.sequence, e, e', eq)
      go esrch eq = absurd (k eq)
      go failed eq = ground (arith, due.found, due.number, due.sequence, e, e', eq)

  -- One timeout, and then the others.
  pub onward :
      (w w1 : World procs) (pid : ℕ) (a : Answer) (as' : List Answer) (es : List Effect)
      → pending w pid ≡ true
      → tracked_proc_timeout_function procs w pid a ≡ some (w1, es)
      → timeouts w pid (a ∷ as') ≡ and_then es (timeouts w1 pid as')
  unfolding timeouts
  onward w w1 pid a as' es h e = ground (arith, h, e)

  pub stopped :
      (w : World procs) (pid : ℕ) (p : Proc)
      → get_proc_info procs w pid ≡ some p
      → p.timerid ≡ 0
      → pending w pid ≡ false
  stopped w pid p e z = ground (arith, e, z)

  pub waits :
      (w : World procs) (pid : ℕ) (p : Proc)
      → get_proc_info procs w pid ≡ some p
      → 0 < p.timerid
      → pending w pid ≡ true
  waits w pid p e lt = ground (arith, e, lt)
