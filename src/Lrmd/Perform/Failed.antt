-- ===== src/Lrmd/Perform/Failed.antt =====
-- What `perform_op` (lrm/lrmd/lrmd.c) reports of an operation that it could not start.
use cluster_glue_import.Lrmd.Messages.{Messages}
