-- ===== src/Status.antt =====
-- crates/wxbtrv-core/src/constants.rs: the status codes.
use wx_btrieve_sql_driver.Base.{ℕ}

abbrev pub err_context_setup : ℕ
err_context_setup = 0x4652

abbrev pub err_context_failure : ℕ
err_context_failure = 0x07dc

abbrev pub btr_success : ℕ
btr_success = 0

abbrev pub btr_file_not_open : ℕ
btr_file_not_open = 3

abbrev pub btr_key_not_found : ℕ
btr_key_not_found = 4

abbrev pub btr_duplicate_key : ℕ
btr_duplicate_key = 5

abbrev pub btr_invalid_key_num : ℕ
btr_invalid_key_num = 6

abbrev pub btr_invalid_pos : ℕ
btr_invalid_pos = 8

abbrev pub btr_eof : ℕ
btr_eof = 9

abbrev pub btr_file_not_found : ℕ
btr_file_not_found = 12

abbrev pub btr_unsupported_op : ℕ
btr_unsupported_op = 20

abbrev pub btr_data_too_short : ℕ
btr_data_too_short = 22

abbrev pub btr_txn_active : ℕ
btr_txn_active = 37

abbrev pub btr_no_txn : ℕ
btr_no_txn = 39

abbrev pub btr_record_locked : ℕ
btr_record_locked = 43
