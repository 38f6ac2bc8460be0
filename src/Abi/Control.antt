-- ===== src/Abi/Control.antt =====
-- kernel/mene-abi/src/lib.rs, `mod control`: the protocol of the control plane.
use mene_os.Base.{ℕ}

abbrev pub req_register_service : ℕ
req_register_service = 1

abbrev pub req_lookup_service : ℕ
req_lookup_service = 2

abbrev pub req_device_query : ℕ
req_device_query = 3

abbrev pub max_service_name : ℕ
max_service_name = 32

abbrev pub hdr_len : ℕ
hdr_len = 4
