-- ===== src/Abi/Blk.antt =====
-- kernel/mene-abi/src/lib.rs, `mod blk`: the protocol of the block service.
use mene_os.Base.{ℕ, ◌+◌}

abbrev pub req_ping : ℕ
req_ping = 1

abbrev pub req_get_info : ℕ
req_get_info = 2

abbrev pub req_read : ℕ
req_read = 3

abbrev pub req_write : ℕ
req_write = 4

abbrev pub req_flush : ℕ
req_flush = 5

abbrev pub rw_hdr_len : ℕ
rw_hdr_len = 14

abbrev pub tag_len : ℕ
tag_len = 4

abbrev pub tagged_hdr_len : ℕ
tagged_hdr_len = 2 + tag_len

abbrev pub rw_tagged_hdr_len : ℕ
rw_tagged_hdr_len = tagged_hdr_len + 8 + 4

abbrev pub max_io_bytes : ℕ
max_io_bytes = 4096
