-- ===== src/Status.antt =====
-- Result codes, src/pqueue/status.h. The text of a message is left out: no decision reads it.
use pqueue.Base.{ℕ, Bool, true, false}

pub data StatusCode : Type 0 where
  ok : StatusCode
  invalid_argument backend_unavailable : StatusCode
  mount_failed read_failed write_failed rename_failed remove_failed list_failed : StatusCode
  invalid_index invalid_record crc_mismatch record_too_large queue_full queue_empty : StatusCode
  lock_timeout : StatusCode
  encode_failed decode_failed send_failed dropped : StatusCode
  data_corrupt range_limit_exceeded sequence_exhausted : StatusCode
  no_op : StatusCode

pub record Status : Type 0 where
  pub code : StatusCode
  pub backend_code : ℕ

-- `Status::ok()`
abbrev pub is_ok_code : StatusCode → Bool
is_ok_code StatusCode.ok = true
is_ok_code StatusCode.no_op = true
is_ok_code _ = false

abbrev pub is_ok : Status → Bool
is_ok st = is_ok_code st.code

abbrev pub is_no_op_code : StatusCode → Bool
is_no_op_code StatusCode.no_op = true
is_no_op_code _ = false

abbrev pub is_no_op : Status → Bool
is_no_op st = is_no_op_code st.code

abbrev pub success : Status
success = record { code = StatusCode.ok; backend_code = 0 }

abbrev pub no_op_status : Status
no_op_status = record { code = StatusCode.no_op; backend_code = 0 }

abbrev pub failure : StatusCode → Status
failure code = record { code = code; backend_code = 0 }
