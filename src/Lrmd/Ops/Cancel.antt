-- ===== src/Lrmd/Ops/Cancel.antt =====
-- What `cancel_op` (lrm/lrmd/lrmd.c) does to a list of operations, where memory is at hand.
use cluster_glue_import.Prelude.{
  ℕ, List, [], ◌∷◌, Option, none, some, ◌==◌, if◌then◌else◌, map, ◌&&◌, is_some,
}
use cluster_glue_import.Lrmd.Messages.{Messages}
use cluster_glue_import.Lrmd.Ops.{Op, Rc, ha_ok, ha_fail, ha_rscbusy, Clients}
use cluster_glue_import.Lrmd.Ops.Flush.{pending}

module _ (ms : Messages) where
  open ms use {value_int}

  -- The first operation with a call id.
  abbrev pub first_with : ℕ → List (Op ms) → Option (Op ms)
  first_with id [] = none
  first_with id (o ∷ os) = if o.call_id == id then some o else first_with id os

  abbrev pub cancel_rc : Option (Op ms) → Rc
  cancel_rc none = ha_fail
  cancel_rc (some o) = if pending ms o then ha_ok else ha_rscbusy

  -- The addresses without the first operation with the call id, where no process runs for it.
  abbrev pub cancelled_ptrs : ℕ → List (Op ms) → List ℕ
  cancelled_ptrs id [] = []
  cancelled_ptrs id (o ∷ os) =
      if o.call_id == id
      then (if pending ms o
          then map (λ (x : Op ms). x.ptr) os
          else o.ptr ∷ map (λ (x : Op ms). x.ptr) os)
      else o.ptr ∷ cancelled_ptrs id os

  -- How many notices there are.
  abbrev pub cancel_told : Clients ms → Option (Op ms) → ℕ
  cancel_told clients none = 0
  cancel_told clients (some o) = if pending ms o && is_some (clients o.client_id) then 1 else 0
