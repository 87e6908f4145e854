-- ===== src/Raexec/Lsb.antt =====
-- lib/plugins/lrm/raexeclsb.c.
use cluster_glue_import.Prelude.{
  ℤ, pos, negsuc, String, List, [], ◌∷◌, ◌==◌, ◌&&◌, ltb, if◌then◌else◌, length, get_or,
}
use cluster_glue_import.Raexec.{execra_ok, execra_unknown_error, execra_not_running, is_status_op}

abbrev pub status_op_exitcode_map : List ℤ
status_op_exitcode_map =
    execra_ok ∷ execra_not_running ∷ execra_not_running ∷ execra_not_running ∷ execra_unknown_error
    ∷ []

abbrev pub map_ra_retvalue : ℤ → String → ℤ
map_ra_retvalue (negsuc n) op_type = execra_unknown_error
map_ra_retvalue (pos n) op_type =
    if n == 5
    then pos n
    else if is_status_op op_type && ltb n (length status_op_exitcode_map)
    then get_or status_op_exitcode_map n (pos n)
    else pos n
