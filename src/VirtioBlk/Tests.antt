-- ===== src/VirtioBlk/Tests.antt =====
-- Runs of the block service at concrete inputs, over the mock disk.
mod Devices
use mene_os.Base.{
  ℕ, ap, ◌%◌, ◌≡◌, inl, inr, refl, false, true, List, [], ◌∷◌, ◌++◌, some, arith, length, replicate,
  length-replicate, to_le, from_le, slice,
}
use mene_os.Abi.Handle.{dynamic}
use mene_os.VirtioBlk.Backend.{Driver, Disk, read_blocks, write_blocks}
use mene_os.VirtioBlk.Backend.MockDisk.{capacity, Fits, mock_of, read_blocks-write_blocks_mock}
use mene_os.VirtioBlk.Service.{Request, Service, einval, serve_opcode, serve}
use mene_os.VirtioBlk.Service.Requests.{
  received, short_rw_refused, large_write_refused, written, done_text, serve-write_message,
}
use mene_os.Fs.BlkCall.{tag_request}
use mene_os.Fs.Disk.{write_request}

-- No device: the mock disk needs none.
abbrev no_driver : Driver
no_driver = record {
  Dev = Unit;
  capacity = λ d. 0;
  read_blocks = λ d sector out. (false, out, d);
  write_blocks = λ d sector bytes. (false, d);
  flush = λ d. (false, d);
}

abbrev sevens : List ℕ
sevens = replicate 512 7

abbrev store : List ℕ
store = replicate capacity 0

abbrev disk : List ℕ → Disk no_driver no_driver
disk bytes = mock_of no_driver no_driver bytes

length-sevens : length sevens ≡ 512
length-sevens = length-replicate {A = ℕ} 512 7

sevens-Fits : Fits 3 (length sevens)
sevens-Fits =
    rw (length-replicate {A = ℕ} 512 7)
      (record { some_bytes = omega arith; whole = refl; inside = omega arith })

sevens-Fits_next : Fits 4 (length sevens)
sevens-Fits_next =
    rw (length-replicate {A = ℕ} 512 7)
      (record { some_bytes = omega arith; whole = refl; inside = omega arith })

read_blocks-write_blocks_mock_example :
    let d = (write_blocks 3 sevens (disk store)).1 in
    (read_blocks 3 sevens d ≡ (true, sevens, d))
    × (read_blocks 4 sevens d ≡ (true, (read_blocks 4 sevens (disk store)).1, d))
read_blocks-write_blocks_mock_example =
    read_blocks-write_blocks_mock no_driver no_driver 3 sevens store sevens 4 sevens
      (length-replicate {A = ℕ} capacity 0) sevens-Fits refl sevens-Fits_next
      (inr (omega (arith, length-sevens)))

abbrev service : Service no_driver no_driver
service = record { disk = disk store; io_buf = [] }

-- A read of one block in the untagged layout, and a tagged write of eight blocks.
abbrev untagged_read : Request
untagged_read = received (3 ∷ 0 ∷ to_le 8 0 ++ 0 ∷ 2 ∷ 0 ∷ 0 ∷ []) [] (dynamic 9)

abbrev eight_blocks : Request
eight_blocks = received (4 ∷ 0 ∷ to_le 4 1 ++ (to_le 8 0 ++ 0 ∷ 16 ∷ 0 ∷ 0 ∷ [])) [] (dynamic 9)

serve-write_message_example :
    let (done, disk) = written 3 sevens service.disk.backend service.disk.mock_disk in
    serve (received (tag_request 9 (write_request 3 sevens)) [] (dynamic 9)) service ≡ (
      some (dynamic 9, to_le 4 9 ++ done_text done),
      record { disk = disk; io_buf = service.io_buf },
    )
serve-write_message_example =
    serve-write_message 9 3 sevens [] (dynamic 9) (omega arith) (omega arith)
      (omega (arith, length-sevens)) (omega (arith, length-sevens))
      (ap (λ n. n % 512) length-sevens) service
