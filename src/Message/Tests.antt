-- ===== src/Message/Tests.antt =====
-- Messages on small inputs: the theorems where their hypotheses hold, and runs of the code.
use cluster_glue_import.Prelude.{
  ltb, ◌==◌, ℕ, suc, ◌≡◌, ◌≢◌, refl, true, List, [], ◌∷◌, ◌++◌, Option, some, none, codes, length,
  bytes_eq, if◌then◌else◌, negsuc, arith,
}
use cluster_glue_import.Message.{
  done, refused, fault, unfinished, HaMsg, empty, field, Value, string, strings, structure, nfields,
  type_of, ft_string, cl_get_value, cl_get_string, cl_get_type, cl_msg_remove, cl_msg_mod,
  cl_msg_modstring, set_value, sym_to_nl, nl_to_sym, ha_msg_addraw, add_string_field,
}
use cluster_glue_import.Message.Netstring.{
  string_list_pack_length, has_nul, msg2netstring, msg2netstring_buf, get_netstringlen, digits,
  digit_count,
}
use cluster_glue_import.Message.Parse.{
  netstring2msg, fields_loop, strncmp_eq, peel_netstring, peel_text, parse_loop, skip_to_colon,
  process_netstring_nvpair, name_span,
}
use cluster_glue_import.Message.Wire.{wire, wire_fields, wire_value, wire_strings, Encodable}
use cluster_glue_import.Message.Encode.{msg2netstring_buf-wire, get_netstringlen-enough}
use cluster_glue_import.Message.Peel.{no_stop}
use cluster_glue_import.Message.Sendable.{
  Sendable, SendableValue, good_name, plain, fresh, Sendable-Encodable,
}
use cluster_glue_import.Message.RoundTrip.{netstring2msg-msg2netstring}
use cluster_glue_import.Message.Ended.{netstring2msg_total}
use cluster_glue_import.Message.Fields.{
  cl_msg_modstring_lem, cl_msg_remove_lem, sym_to_nl-nl_to_sym,
}
use cluster_glue_import.Message.Types.{cl_get_type-mod}
use cluster_glue_import.Message.{ft_binary}
use cluster_glue_import.Message.Access.{cl_msg_moduuid, cl_get_uuid, get_uuid-moduuid}
use cluster_glue_import.Message.Ints.{ha_msg_mod_int, ha_msg_value_int, value_int-mod_int}

abbrev no_types : ℕ → List ℕ → Option Value
no_types type s = none

abbrev inner : HaMsg
inner = field (codes "n") (string (codes "v")) empty

abbrev names : List (List ℕ)
names = codes "q" ∷ codes "rs" ∷ []

abbrev mail : HaMsg
mail =
    field (codes "ab") (string (codes "xyz"))
      (field (codes "l") (strings names) (field (codes "s") (structure inner) empty))

abbrev mail_text : List ℕ
mail_text = codes "###\n9:(0)ab=xyz,14:(3)l=1:q,2:rs,,22:(2)s=###\n6:(0)n=v,%%%\n,%%%\n"

mail-wire : wire mail ≡ mail_text
unfolding wire_fields wire_value wire_strings digits
mail-wire = refl

mail-length : length (wire mail) ≡ 64
unfolding wire_fields wire_value wire_strings digits
mail-length = refl

mail-Sendable : Sendable empty mail
unfolding Sendable SendableValue good_name plain fresh no_stop string_list_pack_length has_nul
    bytes_eq digit_count
mail-Sendable = (
  refl,
  refl,
  (refl, (omega arith, (refl, (refl, tt)), omega arith, refl), (refl, (refl, refl, tt), tt)),
)

mail-Encodable : Encodable mail
mail-Encodable = Sendable-Encodable mail empty mail-Sendable

netstring2msg-msg2netstring_example :
    (text : List ℕ) × (msg2netstring mail ≡ done text)
    × (netstring2msg true no_types (text ++ codes "tail") (length text) ≡ done mail)
netstring2msg-msg2netstring_example =
    netstring2msg-msg2netstring true no_types mail (codes "tail") mail-Sendable
      (omega (arith, mail-length))

msg2netstring_buf-wire_example : msg2netstring_buf mail 65 ≡ (
    if ltb (length (wire mail)) 65
    then done (wire mail)
    else if length (wire mail) == 65
    then fault
    else refused)
msg2netstring_buf-wire_example =
    msg2netstring_buf-wire mail 65 mail-Encodable (omega (arith, mail-length)) (omega arith)

get_netstringlen-enough_example :
    (len : ℕ) × (get_netstringlen mail ≡ done len)
    × (length (wire mail) ≡ len)
    × (msg2netstring_buf mail (suc len) ≡ done (wire mail))
    × (msg2netstring_buf mail len ≡ fault)
get_netstringlen-enough_example =
    get_netstringlen-enough mail mail-Encodable (omega (arith, mail-length))

netstring2msg_total_example : netstring2msg true no_types (codes "###\n9:(0)ab=xy") 14 ≢ unfinished
netstring2msg_total_example = netstring2msg_total true no_types (codes "###\n9:(0)ab=xy") 14

ab-string : (v : Value) → cl_get_value inner (codes "n") ≡ some v → type_of v ≡ ft_string
unfolding cl_get_value bytes_eq
ab-string v e = ground (arith, e)

cl_msg_modstring_lem_example :
    (m : HaMsg) × (cl_msg_modstring no_types inner (codes "n") (codes "w") ≡ done m)
    × (cl_get_string m (codes "n") ≡ some (codes "w"))
    × (cl_get_value m (codes "o") ≡ cl_get_value inner (codes "o"))
unfolding good_name plain bytes_eq no_stop
cl_msg_modstring_lem_example =
    cl_msg_modstring_lem no_types inner (codes "n") (codes "w") refl refl (codes "o") ab-string refl

value_int-mod_int_example :
    (m : HaMsg) × (ha_msg_mod_int no_types inner (codes "n") (negsuc 41) ≡ done m)
    × (ha_msg_value_int m (codes "n") ≡ done (negsuc 41))
unfolding good_name no_stop
value_int-mod_int_example =
    value_int-mod_int no_types inner (codes "n") (negsuc 41) refl refl ab-string

cl_get_type-mod_example :
    cl_get_type (field (codes "n") (string (codes "w")) empty) (codes "n") ≡ some 0
unfolding cl_get_value cl_msg_mod set_value bytes_eq
cl_get_type-mod_example =
    cl_get_type-mod no_types inner (field (codes "n") (string (codes "w")) empty) (codes "n")
      (codes "n") (string (codes "w")) 0 refl refl

cl_msg_remove_lem_example :
    (m : HaMsg) × (cl_msg_remove mail (codes "l") ≡ done m)
    × (nfields mail ≡ suc (nfields m))
    × (cl_get_value m (codes "s") ≡ cl_get_value mail (codes "s"))
unfolding cl_get_value bytes_eq
cl_msg_remove_lem_example = cl_msg_remove_lem mail (codes "l") (codes "s") (strings names) refl refl

sym_to_nl-nl_to_sym_example : sym_to_nl 19 (97 ∷ 19 ∷ 98 ∷ []) ≡ codes "a\nb"
unfolding nl_to_sym
sym_to_nl-nl_to_sym_example =
    sym_to_nl-nl_to_sym 19 (codes "a\nb") (97 ∷ 19 ∷ 98 ∷ []) (λ e. absurd (omega arith))
      (λ e. absurd (omega arith)) refl

abbrev uuid : List ℕ
uuid = 1 ∷ 2 ∷ 3 ∷ 4 ∷ 5 ∷ 6 ∷ 7 ∷ 8 ∷ 9 ∷ 10 ∷ 11 ∷ 12 ∷ 13 ∷ 14 ∷ 15 ∷ 16 ∷ []

no_u : (v : Value) → cl_get_value inner (codes "u") ≡ some v → type_of v ≡ ft_binary
unfolding cl_get_value bytes_eq
no_u v e = ground (arith, e)

get_uuid-moduuid_example :
    (m : HaMsg) × (cl_msg_moduuid no_types inner (codes "u") uuid ≡ done m)
    × (cl_get_uuid m (codes "u") ≡ done uuid)
unfolding good_name no_stop
get_uuid-moduuid_example = get_uuid-moduuid no_types inner (codes "u") uuid refl refl no_u

-- A text that is cut off behind a field is taken for a whole message.
cut_off : netstring2msg true no_types (codes "###\n6:(0)n=v,") 13 ≡ done inner
unfolding fields_loop strncmp_eq peel_netstring peel_text parse_loop skip_to_colon
    process_netstring_nvpair name_span ha_msg_addraw add_string_field sym_to_nl
cut_off = refl

-- A type that there is none of is looked up behind the table's end.
type_seven : netstring2msg true no_types (codes "###\n6:(7)n=v,%%%\n") 17 ≡ fault
unfolding fields_loop strncmp_eq peel_netstring peel_text parse_loop skip_to_colon
    process_netstring_nvpair name_span ha_msg_addraw add_string_field sym_to_nl
type_seven = refl

-- A name that runs on behind its field leaves a value of negative length.
long_name : netstring2msg true no_types (codes "###\n4:(0)n,=v,%%%\n") 18 ≡ refused
unfolding fields_loop strncmp_eq peel_netstring peel_text parse_loop skip_to_colon
    process_netstring_nvpair name_span ha_msg_addraw add_string_field sym_to_nl
long_name = refl
