-- ===== src/Message/ErrorTypes.antt =====
-- The types and the codes of OpenFlow errors in openflow.h that src/lib/openflow_message.c uses.
use trema.Base.{ℕ}

abbrev pub ofpet_hello_failed : ℕ
ofpet_hello_failed = 0

abbrev pub ofpet_bad_request : ℕ
ofpet_bad_request = 1

abbrev pub ofpet_bad_action : ℕ
ofpet_bad_action = 2

abbrev pub ofpet_flow_mod_failed : ℕ
ofpet_flow_mod_failed = 3

abbrev pub ofpet_port_mod_failed : ℕ
ofpet_port_mod_failed = 4

abbrev pub ofpet_queue_op_failed : ℕ
ofpet_queue_op_failed = 5

abbrev pub ofphfc_incompatible : ℕ
ofphfc_incompatible = 0

abbrev pub ofpbrc_bad_version : ℕ
ofpbrc_bad_version = 0

abbrev pub ofpbrc_bad_type : ℕ
ofpbrc_bad_type = 1

abbrev pub ofpbrc_bad_stat : ℕ
ofpbrc_bad_stat = 2

abbrev pub ofpbrc_eperm : ℕ
ofpbrc_eperm = 5

abbrev pub ofpbrc_bad_len : ℕ
ofpbrc_bad_len = 6

abbrev pub ofpbac_bad_type : ℕ
ofpbac_bad_type = 0

abbrev pub ofpbac_bad_len : ℕ
ofpbac_bad_len = 1

abbrev pub ofpbac_bad_out_port : ℕ
ofpbac_bad_out_port = 4

abbrev pub ofpbac_bad_argument : ℕ
ofpbac_bad_argument = 5

abbrev pub ofpfmfc_eperm : ℕ
ofpfmfc_eperm = 2

abbrev pub ofpfmfc_bad_command : ℕ
ofpfmfc_bad_command = 4

abbrev pub ofppmfc_bad_port : ℕ
ofppmfc_bad_port = 0

abbrev pub ofpqofc_bad_port : ℕ
ofpqofc_bad_port = 0
