-- ===== src/Lrmd/Sample.antt =====
-- Messages with a few fields, and a resource with a few operations, for the tests.
use cluster_glue_import.Prelude.{
  ℕ, ◌≡◌, refl, Bool, true, false, ◌+◌, List, Option, none, some, String, codes, bytes_eq, ℤ, pos,
  negsuc,
}
use cluster_glue_import.Message.{HaMsg, empty, field, Value, string, cl_get_string, cl_get_value}
use cluster_glue_import.Message.Ints.{int_text}
use cluster_glue_import.Message.Netstring.{digits}
use cluster_glue_import.Message.Scan.{scan_digits, sscanf_int}
use cluster_glue_import.Lrmd.Messages.{
  Messages, f_lrm_opstatus, f_lrm_targetrc, f_lrm_rc, everytime,
}
use cluster_glue_import.Lrmd.Named.{strings_named, fits_name}
use cluster_glue_import.Lrmd.HaMessages.{Named, int_of}
use cluster_glue_import.Lrmd.HaFields.{ha_fields}
use cluster_glue_import.Lrmd.Ops.{Op, Rsc, Clients}
use cluster_glue_import.Lrmd.Done.{World}
use cluster_glue_import.Lrmd.Perform.{Round, no_child}

abbrev pub no_field : ℕ → List ℕ → Option Value
no_field type s = none

abbrev pub overflowed : List ℕ → ℤ
overflowed s = pos 0

abbrev pub fields : Messages
fields = ha_fields no_field overflowed

-- A field with a number.
abbrev pub numbered : String → ℤ → HaMsg → HaMsg
numbered n v m = field (codes n) (string (int_text v)) m

abbrev pub three_numbers : HaMsg
three_numbers =
    numbered f_lrm_targetrc everytime
      (numbered f_lrm_opstatus (pos 0) (numbered f_lrm_rc (pos 7) empty))

pub three_named : strings_named three_numbers ≡ true
unfolding strings_named fits_name bytes_eq
three_named = refl

pub bare_named : strings_named empty ≡ true
unfolding strings_named
bare_named = refl

abbrev pub message : Named
message = record { msg = three_numbers; strings = three_named }

pub has_target : fields.value_int message f_lrm_targetrc ≡ some everytime
unfolding int_of cl_get_string cl_get_value bytes_eq scan_digits sscanf_int digits
has_target = refl

pub has_status : fields.value_int message f_lrm_opstatus ≡ some (pos 0)
unfolding int_of cl_get_string cl_get_value bytes_eq scan_digits sscanf_int digits
has_status = refl

-- A message without fields.
abbrev pub bare : Named
bare = record { msg = empty; strings = bare_named }

pub no_target : fields.value_int bare f_lrm_targetrc ≡ none
unfolding int_of cl_get_string cl_get_value
no_target = refl

-- An operation of the client 50, for which the process with this id runs.
abbrev pub op_of : ℕ → ℤ → ℕ → Bool → Op fields
op_of ptr pid interval is_cancelled = record {
  ptr = ptr;
  is_copy = false;
  client_id = 50;
  call_id = ptr;
  exec_pid = pid;
  repeat_timeout_tag = 0;
  interval = interval;
  delay = 0;
  is_cancelled = is_cancelled;
  weight = 1;
  msg = message;
  t_addtolist = 100;
  t_perform = 200;
  t_done = 0;
  t_rcchange = 0;
}

abbrev pub rsc_of : List (Op fields) → List (Op fields) → Rsc fields
rsc_of queued repeating = record {
  id = "ip";
  rsc_class = "ocf";
  op_list = queued;
  repeat_op_list = repeating;
  last_op_table = λ app key. none;
  last_op_done = none;
  delay_timeout = 0;
  state = 0;
}

abbrev pub clients : Clients fields
clients pid = some "crmd"

abbrev pub calm : World fields
calm = record {
  now = 300;
  later = 301;
  hz = 100;
  unix_time = 1000000;
  clients = clients;
  mem = λ i. true;
  new_ptr = λ i. 1000 + i;
  timer = 9;
}

abbrev pub monitor : Op fields
monitor = op_of 1 (pos 77) 10000 false

abbrev pub stopped : Op fields
stopped = op_of 2 (pos 78) 0 true

-- A repeating operation between two runs.
abbrev pub idle : Op fields
idle = op_of 4 (negsuc 0) 10000 false

abbrev pub start : Op fields
start = op_of 3 (negsuc 0) 0 false

abbrev pub rounds : ℕ → Round fields
rounds i = record { world = calm; fork = no_child }
