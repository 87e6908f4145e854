-- ===== src/Raexec.antt =====
-- The resource agent plugins lib/plugins/lrm/raexec*.c: how they map the exit code of an agent
-- (`map_ra_retvalue`), which lrm/lrmd/lrmd.c calls through `RAExecFuncs`. The codes are those of
-- include/lrm/raexec.h.
pub mod Ocf
pub mod Lsb
pub mod Hb
pub mod Upstart
pub mod Exited
mod Tests
use cluster_glue_import.Prelude.{String, str_eq, Bool, ◌||◌, ℤ, pos}

abbrev pub execra_ok : ℤ
execra_ok = pos 0

abbrev pub execra_unknown_error : ℤ
execra_unknown_error = pos 1

abbrev pub execra_not_installed : ℤ
execra_not_installed = pos 5

abbrev pub execra_not_running : ℤ
execra_not_running = pos 7

-- The test that the operation asks for the state.
abbrev pub is_status_op : String → Bool
is_status_op op_type = str_eq op_type "status" || str_eq op_type "monitor"
