-- ===== src/Raexec/Exited.antt =====
-- What lrm/lrmd/lrmd.c makes of the exit codes that the plugins map.
use cluster_glue_import.Prelude.{
  ℕ, ◌≡◌, refl, inl, inr, Bool-cases, Bool, true, false, ◌&&◌, ◌||◌, not, List, [], ◌∷◌, All,
  get_or, length, zero, suc, Option, none, some, String, ltb, ◌==◌, if◌then◌else◌, ℤ, pos, negsuc,
  int_eq, arith,
}
use cluster_glue_import.Lrmd.Messages.{lrm_op_done, lrm_op_timeout, lrm_op_error}
use cluster_glue_import.Lrmd.Ended.{Exit, exit_status, execra_exec_unknown_error, execra_no_ra}
use cluster_glue_import.Raexec.{execra_not_installed, execra_not_running, is_status_op}
use cluster_glue_import.Raexec.Ocf
use cluster_glue_import.Raexec.Lsb
use cluster_glue_import.Raexec.Hb

-- What the end of a process is reported as: by the signal alone.
abbrev pub reported : Exit → ℤ
reported e =
    if e.signo == 0 then lrm_op_done else if e.timed_out then lrm_op_timeout else lrm_op_error

-- Not one of the two codes that stand for a failure to run the agent.
abbrev is_fine : ℤ → Bool
is_fine rc = not (int_eq rc execra_exec_unknown_error || int_eq rc execra_no_ra)

fine_status :
    (map_rc : ℤ → ℤ) (e : Exit)
    → is_fine (map_rc e.exitcode) ≡ true
    → exit_status map_rc e ≡ reported e
fine_status map_rc e h = ground arith

if_fine :
    (b : Bool) (x y : ℤ) → is_fine x ≡ true → is_fine y ≡ true → is_fine (if b then x else y) ≡ true
if_fine true x y h k = h
if_fine false x y h k = k

get_or_fine :
    (xs : List ℤ) (n : ℕ) (d : ℤ)
    → All (λ x. is_fine x ≡ true) xs
    → is_fine d ≡ true
    → is_fine (get_or xs n d) ≡ true
get_or_fine [] n d a h = h
get_or_fine (x ∷ xs) zero d (a, _) h = a
get_or_fine (x ∷ xs) (suc n) d (_, a) h = get_or_fine xs n d a h

no_negative_fine : (r : ℤ) → is_fine (Hb.no_negative r) ≡ true
no_negative_fine (negsuc n) = refl
no_negative_fine (pos n) = refl

ocf_fine : (r : ℤ) → is_fine (Ocf.map_ra_retvalue r) ≡ true
ocf_fine (negsuc n) = refl
ocf_fine (pos n) = ground arith

lsb_fine : (r : ℤ) (op_type : String) → is_fine (Lsb.map_ra_retvalue r op_type) ≡ true
lsb_fine (negsuc n) op_type = refl
lsb_fine (pos n) op_type = if_fine (n == 5) (pos n) _ refl (
    if_fine (is_status_op op_type && ltb n (length Lsb.status_op_exitcode_map)) _ (pos n)
      (get_or_fine Lsb.status_op_exitcode_map n (pos n) (refl, (refl, (refl, (refl, (refl, tt)))))
        refl)
      refl)

module _ (matches : List ℕ → List ℕ → Bool) (strdown : List ℕ → List ℕ) where
  installed : (r : ℤ) → int_eq r execra_not_installed ≡ true → is_fine r ≡ true
  installed (pos n) e = refl
  installed (negsuc n) e = absurd cc

  output_fine :
      (out : Option (List ℕ))
      → is_fine (elim out [
        | none ↦ execra_not_running
        | some s ↦ Hb.no_negative (Hb.state_of matches strdown s)
      ])
        ≡ true
  output_fine none = refl
  output_fine (some s) = no_negative_fine (Hb.state_of matches strdown s)

  hb_fine :
      (r : ℤ) (op_type : String) (out : Option (List ℕ))
      → is_fine (Hb.map_ra_retvalue matches strdown r op_type out) ≡ true
  hb_fine r op_type out = elim (Bool-cases (int_eq r execra_not_installed)) [
    | inl e ↦ rw e (installed r e)
    | inr e ↦
        rw e (
          if_fine (is_status_op op_type) _ (Hb.no_negative r) (output_fine out)
            (no_negative_fine r))
  ]

  -- Whatever the exit code, the operation and the output: for the agents of the classes ocf, lsb and
  -- heartbeat, an operation is reported as done if its process was not killed, as timed out if it
  -- was killed by the kill sequence, and as an error if another signal ended it.
  pub exit_status-reported :
      (e : Exit) (op_type : String) (out : Option (List ℕ))
      → (exit_status Ocf.map_ra_retvalue e ≡ reported e)
        × (exit_status (λ r. Lsb.map_ra_retvalue r op_type) e ≡ reported e)
        × (exit_status (λ r. Hb.map_ra_retvalue matches strdown r op_type out) e ≡ reported e)
  exit_status-reported e op_type out = (
    fine_status Ocf.map_ra_retvalue e (ocf_fine e.exitcode),
    fine_status (λ r. Lsb.map_ra_retvalue r op_type) e (lsb_fine e.exitcode op_type),
    fine_status (λ r. Hb.map_ra_retvalue matches strdown r op_type out) e
        (hb_fine e.exitcode op_type out),
  )
