-- ===== src/Lrmd/Messages.antt =====
-- What the daemon needs of `struct ha_msg` (include/ha_msg.h): the fields that it reads and writes,
-- behind their laws, which are those of the messages of lib/clplumbing/cl_msg.c (Lrmd/HaMessages).
-- A write that is refused leaves the message as it was; `true` stands for memory at hand.
use cluster_glue_import.Prelude.{
  ℕ, ◌≡◌, Bool, true, false, ◌&&◌, ◌||◌, not, List, [], ◌∷◌, Option, none, some, String, ◌==◌, ℤ,
  if◌then◌else◌, pos, negsuc, is_some,
}
use Prim.Native.Char.{code}
use cluster_glue_import.Message.Scan.{in_int}

-- include/lrm/lrm_msg.h.
abbrev pub f_lrm_op : String
f_lrm_op = "lrm_op"

abbrev pub f_lrm_timeout : String
f_lrm_timeout = "lrm_timeout"

abbrev pub f_lrm_interval : String
f_lrm_interval = "lrm_interval"

abbrev pub f_lrm_opstatus : String
f_lrm_opstatus = "lrm_opstatus"

abbrev pub f_lrm_rc : String
f_lrm_rc = "lrm_rc"

abbrev pub f_lrm_rid : String
f_lrm_rid = "lrm_rid"

abbrev pub f_lrm_app : String
f_lrm_app = "lrm_app"

abbrev pub f_lrm_callid : String
f_lrm_callid = "lrm_callid"

abbrev pub f_lrm_delay : String
f_lrm_delay = "lrm_delay"

abbrev pub f_lrm_data : String
f_lrm_data = "lrm_data"

abbrev pub f_lrm_lastrc : String
f_lrm_lastrc = "lrm_lastrc"

abbrev pub f_lrm_targetrc : String
f_lrm_targetrc = "lrm_targetrc"

abbrev pub f_lrm_rscdeleted : String
f_lrm_rscdeleted = "lrm_rscdeleted"

abbrev pub f_lrm_t_run : String
f_lrm_t_run = "lrm_t_run"

abbrev pub f_lrm_t_rcchange : String
f_lrm_t_rcchange = "lrm_t_rcchange"

abbrev pub f_lrm_exec_time : String
f_lrm_exec_time = "lrm_exec_time"

abbrev pub f_lrm_queue_time : String
f_lrm_queue_time = "lrm_queue_time"

-- `strcmp` on names.
abbrev pub name_eq : String → String → Bool
name_eq String.[] String.[] = true
name_eq String.[] (String.◌∷◌ c k) = false
name_eq (String.◌∷◌ b n) String.[] = false
name_eq (String.◌∷◌ b n) (String.◌∷◌ c k) = code b == code c && name_eq n k

-- The names of the fields that the daemon writes. All are written as strings.
abbrev pub written_names : List String
written_names =
    f_lrm_opstatus ∷ f_lrm_rc ∷ f_lrm_lastrc ∷ f_lrm_callid ∷ f_lrm_rscdeleted ∷ f_lrm_t_run
    ∷ f_lrm_t_rcchange ∷ f_lrm_exec_time ∷ f_lrm_queue_time ∷ f_lrm_app ∷ f_lrm_data ∷ []

abbrev pub is_one_of : List String → String → Bool
is_one_of [] n = false
is_one_of (o ∷ os) n = name_eq o n || is_one_of os n

abbrev pub is_written : String → Bool
is_written n = is_one_of written_names n

-- A number that is no int was written under the name that is read.
abbrev pub no_int : String → String → ℤ → Bool
no_int n k v = name_eq n k && not (in_int v)

pub record Messages : Type 1 where
  pub Msg : Type 0
  -- `ha_msg_value`: the bytes of a field.
  pub value : Msg → String → Option (List ℕ)
  -- `ha_msg_value_int`; `none` is HA_FAIL.
  pub value_int : Msg → String → Option ℤ
  -- `ha_msg_mod_int` and `ha_msg_mod_ul`: a field is written, and added if it is missing.
  pub mod_int : Bool → Msg → String → ℤ → Option Msg
  -- `ha_msg_add_int`: a field is added behind the others.
  pub add_int : Bool → Msg → String → ℤ → Option Msg
  -- `cl_msg_remove`.
  pub remove : Msg → String → Msg
  pub mod_int-some :
      (m : Msg) (n : String) (v : ℤ)
      → is_written n ≡ true
      → (m' : Msg) × (mod_int true m n v ≡ some m')
  pub value_int-mod_int :
      {a : Bool} {m m' : Msg} (n k : String) {v : ℤ}
      → mod_int a m n v ≡ some m'
      → is_written n ≡ true
      → no_int n k v ≡ false
      → value_int m' k ≡ (if name_eq n k then some v else value_int m k)
  pub add_int-some :
      (m : Msg) (n : String) (v : ℤ)
      → is_written n ≡ true
      → (m' : Msg) × (add_int true m n v ≡ some m')
  -- The first field of a name is the one that is read.
  pub value_int-add_int :
      {a : Bool} {m m' : Msg} (n k : String) {v : ℤ}
      → add_int a m n v ≡ some m'
      → is_written n ≡ true
      → no_int n k v ≡ false
      → value_int m' k
        ≡ (if is_some (value_int m k) then value_int m k else if name_eq n k then some v else none)
  pub value_int-remove :
      (m : Msg) (n k : String) → name_eq n k ≡ false → value_int (remove m n) k ≡ value_int m k

-- include/lrm/lrm_api.h: `op_status_t`, EVERYTIME and CHANGED.
abbrev pub lrm_op_done : ℤ
lrm_op_done = pos 0

abbrev pub lrm_op_cancelled : ℤ
lrm_op_cancelled = pos 1

abbrev pub lrm_op_timeout : ℤ
lrm_op_timeout = pos 2

abbrev pub lrm_op_error : ℤ
lrm_op_error = pos 4

abbrev pub everytime : ℤ
everytime = negsuc 0

abbrev pub changed : ℤ
changed = negsuc 1
