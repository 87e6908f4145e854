-- ===== src/Proctrack/Escalate.antt =====
-- What happens to a process that does not end in time (lib/clplumbing/proctrack.c): the signals of
-- the kill sequence.
use cluster_glue_import.Prelude.{
  String, str_eq, if◌then◌else◌, ◌+◌, ℕ, suc, ◌<◌, ◌≡◌, inl, inr, refl, ap, ◌∙◌, true, false, List,
  [], ◌∷◌, ◌++◌, map, some, length, drop, All, pos, arith, HashTable,
}
use cluster_glue_import.Lrmd.Perform.{Kill, kill_sequence}
use cluster_glue_import.Proctrack.{
  Proc, Effect, timeout_add, Answer, same_pid, World, get_proc_info, put, set_tracked_proc_timeouts,
  tracked_proc_timeout_function,
}
use cluster_glue_import.Proctrack.Signals.{signals, signals-append, drop-suc, following, esrch_or}
use cluster_glue_import.Proctrack.Timeouts.{
  timeouts, pending, and_then, Due, ended, idle, lookup-put, gone, again, onward, stopped, waits,
}

module _ (procs : HashTable ℕ Proc same_pid) where
  -- The results of the timeouts that are to come.
  abbrev Outcome : World procs → ℕ → List Answer → List ℕ → Type 0
  Outcome w pid as' due =
      (w' : World procs) × (es : List Effect) × (rest : List ℕ) × (timeouts procs w pid as'
        ≡ some (w', es))
      × (signals es ++ rest ≡ due)
      × (length due < length as' → pending procs w' pid ≡ false)

  first_then :
      (w w1 : World procs) (pid n : ℕ) (a : Answer) (as' : List Answer) (es : List Effect)
      (due : List ℕ)
      → pending procs w pid ≡ true
      → tracked_proc_timeout_function procs w pid a ≡ some (w1, es)
      → signals es ≡ n ∷ []
      → Outcome w1 pid as' due
      → Outcome w pid (a ∷ as') (n ∷ due)
  first_then w w1 pid n a as' es due h e one (w', fs, rest, run, split, ends) = (
    w',
    es ++ fs,
    rest,
    onward procs w w1 pid a as' es h e ∙ ap (and_then procs es) run,
    rw (signals-append es fs, one) (ap (λ l. n ∷ l) split),
    λ lt. ends (omega arith),
  )

  Due-put :
      (w : World procs) (pid : ℕ) (p : Proc) (seq : ℕ) (info : List Kill) (timer : ℕ)
      → p.killinfo ≡ some info
      → Due procs
          (put procs w pid (record p { timerid = timer; timeoutseq = pos seq }))
          pid
          (record p { timerid = timer; timeoutseq = pos seq })
          seq
          info
  Due-put w pid p seq info timer e = record {
    found = lookup-put procs w pid (record p { timerid = timer; timeoutseq = pos seq });
    number = refl;
    sequence = e;
  }

  escalate :
      (kills : List Kill) (end' : Kill) (as' : List Answer) (w : World procs) (pid : ℕ) (p : Proc)
      (seq : ℕ) (info : List Kill)
      → Due procs w pid p seq info
      → 0 < p.timerid
      → drop seq info ≡ kills ++ end' ∷ []
      → end'.signalno ≡ 0
      → All (λ k. 0 < k.signalno) kills
      → All (λ a. 0 < a.timer) as'
      → Outcome w pid as' (map (λ k. k.signalno) kills)
  unfolding timeouts
  escalate kills end' [] w pid p seq info due t e z hk ha =
      (w, [], map (λ k. k.signalno) kills, refl, refl, λ lt. absurd (omega arith))
  escalate [] end' (a ∷ as') w pid p seq info due t e z hk ha =
      let w1 = put procs w pid (record p { timerid = 0 }) in
      let (here, _) = drop-suc info [] seq end' e in
      let no_timer =
        stopped procs w1 pid (record p { timerid = 0 }) (lookup-put procs w pid _) refl in
      (
        w1,
        [],
        [],
        onward procs w w1 pid a as' [] (waits procs w pid p due.found t)
              (ended procs w pid p seq info end' a due here z)
            ∙ ap (and_then procs []) (idle procs w1 pid as' no_timer),
        refl,
        λ _. no_timer,
      )
  escalate (k ∷ ks) end' (a ∷ as') w pid p seq info due t e z (hk, hks) (ha, has) =
      let (here, next) = drop-suc info (ks ++ end' ∷ []) seq k e in
      elim (esrch_or a.killed) [
        | inl eq ↦
            let p1 = record p { timerid = 0; timeoutseq = pos (suc seq) } in
            let w1 = record (put procs w pid p1) { full_privs = true } in
            let no_timer = stopped procs w1 pid p1 (lookup-put procs w pid p1) refl in
            first_then w w1 pid k.signalno a as' _ (map (λ k. k.signalno) ks)
              (waits procs w pid p due.found t) (gone procs w pid p seq info k a due here hk eq)
              refl
              (
                w1,
                [],
                map (λ k. k.signalno) ks,
                idle procs w1 pid as' no_timer,
                refl,
                λ _. no_timer,
              )
        | inr ne ↦
            let (n, _, after) = following ks end' in
            let (there, _) = drop-suc info _ (suc seq) n (next ∙ after) in
            first_then w _ pid k.signalno a as' _ (map (λ k. k.signalno) ks)
              (waits procs w pid p due.found t)
              (again procs w pid p seq info k n a due here there hk ne ha) refl
              (escalate ks end' as' _ pid _ (suc seq) info
                (Due-put w pid p (suc seq) info a.timer due.sequence) ha next z hks has)
      ]

  set-first :
      (w : World procs) (pid : ℕ) (p : Proc) (info rest : List Kill) (k : Kill) (timer : ℕ)
      → get_proc_info procs w pid ≡ some p
      → info ≡ k ∷ rest
      → set_tracked_proc_timeouts procs w pid info timer
        ≡ some (
          put procs w pid (record p { timerid = timer; timeoutseq = pos 0; killinfo = some info }),
          timeout_add k.mstimeout pid ∷ [],
        )
  unfolding set_tracked_proc_timeouts
  set-first w pid p [] rest k timer e e' = ground (arith, e')
  set-first w pid p (x ∷ xs) rest k timer e e' = ground (arith, e, e')

  set-escalate :
      (w : World procs) (pid : ℕ) (p : Proc) (kills : List Kill) (end' : Kill) (timer : ℕ)
      (as' : List Answer)
      → get_proc_info procs w pid ≡ some p
      → end'.signalno ≡ 0
      → All (λ k. 0 < k.signalno) kills
      → All (λ a. 0 < a.timer) as'
      → 0 < timer
      → (w1 : World procs) × (added : List Effect) × (set_tracked_proc_timeouts procs w pid
            (kills ++ end' ∷ [])
            timer
          ≡ some (w1, added))
        × Outcome w1 pid as' (map (λ k. k.signalno) kills)
  set-escalate w pid p kills end' timer as' e z hk ha t =
      let info = kills ++ end' ∷ [] in
      let (k, rest, first) = following kills end' in
      let p1 = record p { timerid = timer; timeoutseq = pos 0; killinfo = some info } in
      let due : Due procs (put procs w pid p1) pid p1 0 info = record {
        found = lookup-put procs w pid p1;
        number = refl;
        sequence = refl;
      } in
      (
        put procs w pid p1,
        timeout_add k.mstimeout pid ∷ [],
        set-first w pid p info rest k timer e first,
        escalate kills end' as' (put procs w pid p1) pid p1 0 info due t refl z hk ha,
      )

  -- For a tracked process, a kill sequence whose last entry and no other has the signal 0, and
  -- timers that can be added: whatever `kill` returns in each timeout, no entry behind the end is
  -- read, and the signals that are sent to the process are those of the sequence, in its order and
  -- each at most once, up to some entry.
  pub timeouts-signals :
      (w : World procs) (pid : ℕ) (p : Proc) (kills : List Kill) (end' : Kill) (timer : ℕ)
      (answers : List Answer)
      → get_proc_info procs w pid ≡ some p
      → end'.signalno ≡ 0
      → All (λ k. 0 < k.signalno) kills
      → All (λ a. 0 < a.timer) answers
      → 0 < timer
      → (w1 w' : World procs) × (added es : List Effect) × (rest : List ℕ)
        × (set_tracked_proc_timeouts procs w pid (kills ++ end' ∷ []) timer ≡ some (w1, added))
        × (timeouts procs w1 pid answers ≡ some (w', es))
        × (signals es ++ rest ≡ map (λ k. k.signalno) kills)
  timeouts-signals w pid p kills end' timer answers e z hk ha t =
      let (w1, added, set, (w', es, rest, run, split, _)) =
        set-escalate w pid p kills end' timer answers e z hk ha t in
      (w1, w', added, es, rest, set, run, split)

  -- Under the same conditions, after more timeouts than the sequence has signals, no timer of the
  -- process is left.
  pub timeouts-end :
      (w : World procs) (pid : ℕ) (p : Proc) (kills : List Kill) (end' : Kill) (timer : ℕ)
      (answers : List Answer)
      → get_proc_info procs w pid ≡ some p
      → end'.signalno ≡ 0
      → All (λ k. 0 < k.signalno) kills
      → All (λ a. 0 < a.timer) answers
      → 0 < timer
      → length (map (λ k. k.signalno) kills) < length answers
      → (w1 w' : World procs) × (added es : List Effect) × (set_tracked_proc_timeouts procs w pid
            (kills ++ end' ∷ [])
            timer
          ≡ some (w1, added))
        × (timeouts procs w1 pid answers ≡ some (w', es))
        × (pending procs w' pid ≡ false)
  timeouts-end w pid p kills end' timer answers e z hk ha t lt =
      let (w1, added, set, (w', es, rest, run, split, ends)) =
        set-escalate w pid p kills end' timer answers e z hk ha t in
      (w1, w', added, es, set, run, ends lt)

  -- A tracked process without a timer gets the kill sequence that `perform_ra_op` of the local resource manager makes
  -- for an operation with a timeout, timers can be added, and there are at least three timeouts:
  -- whatever `kill` returns, the process is sent SIGTERM and SIGKILL at most once each and in this
  -- order, and no timer is left in the end.
  pub timeouts-kill_sequence :
      (w : World procs) (pid : ℕ) (p : Proc) (rsc_class : String) (timeout timer : ℕ)
      (answers : List Answer)
      → get_proc_info procs w pid ≡ some p
      → p.timerid ≡ 0
      → All (λ a. 0 < a.timer) answers
      → 0 < timer
      → 2 < length answers
      → (w1 w' : World procs) × (added es : List Effect) × (rest : List ℕ)
        × (set_tracked_proc_timeouts procs w pid (kill_sequence rsc_class (pos (suc timeout))) timer
            ≡ some (w1, added))
        × (timeouts procs w1 pid answers ≡ some (w', es))
        × (signals es ++ rest ≡ 15 ∷ 9 ∷ [])
        × (pending procs w' pid ≡ false)
  timeouts-kill_sequence w pid p rsc_class timeout timer answers e unset ha t lt =
      let ms = suc timeout + (if str_eq rsc_class "stonith" then 15000 else 0) in
      let kills : List Kill =
        record { mstimeout = ms; signalno = 15 } ∷ record { mstimeout = 5000; signalno = 9 } ∷ [] in
      let (w1, added, set, (w', es, rest, run, split, ends)) =
        set-escalate w pid p kills (record { mstimeout = 5000; signalno = 0 }) timer answers e refl
          (omega arith, (omega arith, tt)) ha t in
      (w1, w', added, es, rest, set, run, split, ends lt)
