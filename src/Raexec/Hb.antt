-- ===== src/Raexec/Hb.antt =====
-- lib/plugins/lrm/raexechb.c: the state is read off the agent's output.
use cluster_glue_import.Prelude.{
  ℕ, ℤ, pos, negsuc, String, List, Bool, ◌||◌, Option, none, some, codes, int_eq, if◌then◌else◌,
}
use cluster_glue_import.Raexec.{
  execra_ok, execra_unknown_error, execra_not_installed, execra_not_running, is_status_op,
}

-- A code below 0 becomes an unknown error.
abbrev pub no_negative : ℤ → ℤ
no_negative (negsuc n) = execra_unknown_error
no_negative (pos n) = pos n

-- `matches` is `g_pattern_match_simple` on a pattern and a text, and `strdown` is
-- `g_ascii_strdown`.
module _ (matches : List ℕ → List ℕ → Bool) (strdown : List ℕ → List ℕ) where
  abbrev pub state_of : List ℕ → ℤ
  state_of s =
      if matches (codes "*stopped*") (strdown s) || matches (codes "*not*running*") (strdown s)
      then execra_not_running
      else if matches (codes "*running*") (strdown s) || matches (codes "*OK*") s
      then execra_ok
      else execra_not_running

  abbrev pub map_ra_retvalue : ℤ → String → Option (List ℕ) → ℤ
  map_ra_retvalue ret op_type std_output =
      if int_eq ret execra_not_installed
      then ret
      else if is_status_op op_type
      then (elim std_output [ none ↦ execra_not_running | some s ↦ no_negative (state_of s) ])
      else no_negative ret
