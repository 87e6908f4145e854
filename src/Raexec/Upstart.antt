-- ===== src/Raexec/Upstart.antt =====
-- lib/plugins/lrm/raexecupstart.c.
use cluster_glue_import.Prelude.{ℤ}

abbrev pub map_ra_retvalue : ℤ → ℤ
map_ra_retvalue ret = ret
