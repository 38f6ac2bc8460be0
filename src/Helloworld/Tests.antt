-- ===== src/Helloworld/Tests.antt =====
-- Runs of the client at concrete inputs.
use mene_os.Base.{ℕ, bytes_eq, length, ◌≡◌, refl, true, List, [], ◌∷◌, ◌++◌, none, some, arith}
use mene_os.Ulib.World.{RawRecv, World}
use mene_os.Fs.BlkCall.{Client, eagain}
use mene_os.Fs.Service.{Server, ok}
use mene_os.Fs.Tests.Memory.{memory}
use mene_os.Helloworld.{App, path, content, fs_write, write_request}
use mene_os.Helloworld.Retries.{fs_write-waited, waited}

abbrev message : List ℕ → RawRecv
message payload = record {
  ret = length payload;
  bytes = payload ++ 0 ∷ 0 ∷ [];
  meta0 = 5;
  meta1 = 0;
}

abbrev answered : List RawRecv → World
answered recvs = record {
  recvs = recvs;
  send_rets = [];
  spawn_rets = [];
  sent = [];
  spawned = [];
  spawned_elfs = [];
}

abbrev kernel : World
kernel = answered (message eagain ∷ message ok ∷ message content ∷ [])

abbrev app : App
app = record { world = kernel; slept = []; logged = [] }

abbrev client : Client
client = record { world = answered []; blk_req_id = 1; blk_service_handle = 0 }

abbrev server : Server memory
server = record { fs = some (λ q. none); client = client }

fs_write-waited_example :
    fs_write path content [] app
    ≡ (true, (message ok).bytes, waited 2 1 (write_request path content) (message content ∷ []) app)
unfolding bytes_eq
fs_write-waited_example =
    fs_write-waited path content [] (message eagain ∷ []) (message ok) (message content ∷ []) app tt
      (refl, tt) (omega arith) refl refl
