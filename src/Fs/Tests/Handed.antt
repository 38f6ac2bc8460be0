-- ===== src/Fs/Tests/Handed.antt =====
-- A message that the kernel hands to the services.
use mene_os.Base.{ℕ, ◌-◌, ◌^◌, ◌≡◌, [], ◌∷◌, none, some, false, true}
use mene_os.Ipc.Manager.{AxError, send}
use mene_os.Ipc.Endpoint.{new_endpoint}
use mene_os.Ulib.World.{World}
use mene_os.Kernel.Lifecycle.{initial}
use mene_os.Kernel.Syscall.{Kernel}
use mene_os.Fs.Service.{Server, round}
use mene_os.Fs.Service.NoCapability.{handed, hears, services_ignore}
use mene_os.Fs.Tests.Memory.{memory}
use mene_os.VirtioBlk.Backend.{Driver, mock}
use mene_os.VirtioBlk.Service.{Service}
use mene_os.VirtioBlk.Start

-- Process 2 has sent a PING with a capability to process 3.
abbrev waiting : Kernel
waiting = record {
  supervisor = initial;
  endpoints = (send 2 3 (1 ∷ 0 ∷ []) 1 (some ((3, new_endpoint) ∷ []))).1;
  process_table = [];
}

abbrev code : AxError → ℕ
code e = 2 ^ 64 - 11

abbrev quiet : World
quiet = record {
  recvs = [];
  send_rets = [];
  spawn_rets = [];
  sent = [];
  spawned = [];
  spawned_elfs = [];
}

abbrev server : Server memory
server = record {
  fs = some (λ q. none);
  client = record { world = quiet; blk_req_id = 1; blk_service_handle = 0 };
}

abbrev driver : Driver
driver = record {
  Dev = ℕ;
  capacity = λ d. 0;
  read_blocks = λ d sector out. (false, out, d);
  write_blocks = λ d sector bytes. (false, d);
  flush = λ d. (true, d);
}

abbrev service : Service driver driver
service = record { disk = record { backend = mock; mock_disk = [] }; io_buf = [] }

services_ignore_example :
    let heard = hears (handed code 3 (0 ∷ 0 ∷ []) waiting) in
    (round memory (record server { client = record server.client { world = heard quiet } })
      ≡ server)
    × (Start.round (heard quiet, service) ≡ (quiet, service))
services_ignore_example = services_ignore code 3 (0 ∷ 0 ∷ []) waiting memory server quiet service
