-- ===== src/Abi/Fs.antt =====
-- kernel/mene-abi/src/lib.rs, `mod fs`: the protocol of the file service.
use mene_os.Base.{ℕ}

abbrev pub flag_reqid : ℕ
flag_reqid = 0x8000

abbrev pub req_ping : ℕ
req_ping = 0

abbrev pub req_write : ℕ
req_write = 1

abbrev pub req_read : ℕ
req_read = 2

abbrev pub req_delete : ℕ
req_delete = 3

abbrev pub req_exec : ℕ
req_exec = 4

abbrev pub max_path : ℕ
max_path = 128

abbrev pub max_data : ℕ
max_data = 512

abbrev pub write_hdr_len : ℕ
write_hdr_len = 8

abbrev pub path_hdr_len : ℕ
path_hdr_len = 4

abbrev pub write_hdr_len_v2 : ℕ
write_hdr_len_v2 = 12

abbrev pub path_hdr_len_v2 : ℕ
path_hdr_len_v2 = 8

abbrev pub resp_reqid_len : ℕ
resp_reqid_len = 4
