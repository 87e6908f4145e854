-- ===== src/Raexec/Ocf.antt =====
-- lib/plugins/lrm/raexecocf.c.
use cluster_glue_import.Prelude.{ℤ, pos, negsuc, ltb, if◌then◌else◌}
use cluster_glue_import.Raexec.{execra_unknown_error}

abbrev pub map_ra_retvalue : ℤ → ℤ
map_ra_retvalue (negsuc n) = execra_unknown_error
map_ra_retvalue (pos n) = if ltb 9 n then execra_unknown_error else pos n
