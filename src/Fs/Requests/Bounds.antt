-- ===== src/Fs/Requests/Bounds.antt =====
-- The ranges of the request that the service reads, and requests that it reads back.
use mene_os.Base.{
  ℕ, ◌+◌, ◌-◌, ◌≡◌, ◌≤◌, List, ◌++◌, some, arith, length, drop, slice, from_le, length-take,
  length-drop,
}
use mene_os.Base.Ranges.{list_ext, get_elem?-append, get_elem?-slice, length-slice}
use mene_os.Abi.Fs
use mene_os.Fs.Requests.{Request, write_args, write_hdr_len}

length-slice_le : (off n : ℕ) (xs : List ℕ) → length (slice off n xs) ≤ n
length-slice_le off n xs = unfold slice in omega (arith, length-take n (drop off xs))

pub short_data :
    (r : Request) (path bytes : List ℕ)
    → write_args r ≡ some (path, bytes)
    → length bytes ≤ Fs.max_data
unfolding write_args
short_data r path bytes h =
    let off = write_hdr_len r + from_le (slice 2 2 r.req_buf) in
    ground (arith, h, length-slice_le off (from_le (slice 4 4 r.req_buf)) r.req_buf)

length-slice_inside : (off n : ℕ) (xs : List ℕ) → off + n ≤ length xs → length (slice off n xs) ≡ n
length-slice_inside off n xs h =
    unfold slice in omega (arith, length-take n (drop off xs), length-drop off xs, h)

-- Two ranges that follow each other.
slice-append :
    (off m n : ℕ) (xs : List ℕ)
    → off + m + n ≤ length xs
    → slice off m xs ++ slice (off + m) n xs ≡ slice off (m + n) xs
slice-append off m n xs h = list_ext _ _ λ i.
    let place : m ≤ i → (off + m) + (i - m) ≡ off + i = λ le. omega (arith, le) in
    ground (
      arith,
      place,
      get_elem?-append (slice off m xs) (slice (off + m) n xs) i,
      length-slice off m xs (omega (arith, h)),
      get_elem?-slice off m i xs,
      get_elem?-slice (off + m) n (i - m) xs,
      get_elem?-slice off (m + n) i xs,
    )

-- A request to write that is accepted, of a message that lies in its buffer, has a path of 1 to 128
-- bytes and at most 512 bytes of data, with the lengths that its header gives. The path and right
-- behind it the data are what stands behind the header, and both end before the message does.
pub write_args-bounds :
    (r : Request) (path bytes : List ℕ)
    → r.req_len ≤ length r.req_buf
    → write_args r ≡ some (path, bytes)
    → (1 ≤ length path)
      × (length path ≤ Fs.max_path)
      × (length bytes ≤ Fs.max_data)
      × (write_hdr_len r + length path + length bytes ≤ r.req_len)
      × (length path ≡ from_le (slice 2 2 r.req_buf))
      × (length bytes ≡ from_le (slice 4 4 r.req_buf))
      × (slice (write_hdr_len r) (length path + length bytes) r.req_buf ≡ path ++ bytes)
unfolding write_args
write_args-bounds r path bytes inside h =
    let hdr = write_hdr_len r in
    let path_len = from_le (slice 2 2 r.req_buf) in
    let data_len = from_le (slice 4 4 r.req_buf) in
    ground (
      arith,
      h,
      inside,
      length-slice_inside hdr path_len r.req_buf,
      length-slice_inside (hdr + path_len) data_len r.req_buf,
      slice-append hdr path_len data_len r.req_buf,
    )
