-- ===== src/Kernel/Protocol.antt =====
-- kernel/mene-kernel/src/ipc/protocol.rs: the header of an IPC message.
use mene_os.Base.{
  ℕ, ◌^◌, ◌<◌, ◌≡◌, ap₂, ◌⊎◌, inl, inr, List, [], ◌∷◌, ◌++◌, Option, none, some, arith, length,
  take, slice, ltb, if◌then◌else◌, to_le, from_le, AreBytes, to_le-from_le, false, Bool-cases,
  from_le-lt,
}

pub record IpcHeader : Type 0 where
  pub opcode : ℕ
  pub flags : ℕ
  pub payload_len : ℕ

-- IpcHeader::SIZE
abbrev pub size : ℕ
size = 8

-- IpcHeader::new
abbrev pub new : ℕ → ℕ → IpcHeader
new opcode payload_len = record { opcode = opcode; flags = 0; payload_len = payload_len }

pub from_bytes : List ℕ → Option IpcHeader
from_bytes buf =
    if ltb (length buf) size
    then none
    else some (record {
      opcode = from_le (slice 0 2 buf);
      flags = from_le (slice 2 2 buf);
      payload_len = from_le (slice 4 4 buf);
    })

pub to_bytes : IpcHeader → List ℕ
to_bytes h = to_le 2 h.opcode ++ (to_le 2 h.flags ++ to_le 4 h.payload_len)

-- The fields have 16, 16 and 32 bits.
pub record IsHeader (h : IpcHeader) : Type 0 where
  pub opcode : h.opcode < 2 ^ 16
  pub flags : h.flags < 2 ^ 16
  pub payload_len : h.payload_len < 2 ^ 32

-- A header is read back from its bytes, whatever payload follows.
pub from_bytes-to_bytes :
    (h : IpcHeader) (rest : List ℕ) → IsHeader h → from_bytes (to_bytes h ++ rest) ≡ some h
unfolding from_bytes to_bytes slice to_le from_le
from_bytes-to_bytes h rest v = ground arith

long_buffer :
    (buf : List ℕ)
    → AreBytes buf
    → ltb (length buf) 8 ≡ false
    → (h : IpcHeader) × (from_bytes buf ≡ some h) × IsHeader h × (to_bytes h ≡ take 8 buf)
unfolding from_bytes to_bytes slice
long_buffer (a ∷ b ∷ c ∷ d ∷ e ∷ f ∷ g ∷ i ∷ rest) v l =
    let low : AreBytes (a ∷ b ∷ []) = (v.0, (v.1.0, tt)) in
    let mid : AreBytes (c ∷ d ∷ []) = (v.1.1.0, (v.1.1.1.0, tt)) in
    let v4 = v.1.1.1.1 in
    let high : AreBytes (e ∷ f ∷ g ∷ i ∷ []) = (v4.0, (v4.1.0, (v4.1.1.0, (v4.1.1.1.0, tt)))) in
    (
      record {
        opcode = from_le (a ∷ b ∷ []);
        flags = from_le (c ∷ d ∷ []);
        payload_len = from_le (e ∷ f ∷ g ∷ i ∷ []);
      },
      rw l,
      omega (
        arith,
        from_le-lt (a ∷ b ∷ []) low,
        from_le-lt (c ∷ d ∷ []) mid,
        from_le-lt (e ∷ f ∷ g ∷ i ∷ []) high,
      ),
      ap₂ ◌++◌ (to_le-from_le (a ∷ b ∷ []) low)
          (ap₂ ◌++◌ (to_le-from_le (c ∷ d ∷ []) mid) (to_le-from_le (e ∷ f ∷ g ∷ i ∷ []) high)),
    )
long_buffer [] v l = cc
long_buffer (_ ∷ []) v l = cc
long_buffer (_ ∷ _ ∷ []) v l = cc
long_buffer (_ ∷ _ ∷ _ ∷ []) v l = cc
long_buffer (_ ∷ _ ∷ _ ∷ _ ∷ []) v l = cc
long_buffer (_ ∷ _ ∷ _ ∷ _ ∷ _ ∷ []) v l = cc
long_buffer (_ ∷ _ ∷ _ ∷ _ ∷ _ ∷ _ ∷ []) v l = cc
long_buffer (_ ∷ _ ∷ _ ∷ _ ∷ _ ∷ _ ∷ _ ∷ []) v l = cc

-- What `from_bytes` reads from at least 8 bytes has fields in range, and `to_bytes` writes the
-- first 8 of them again; with fewer bytes it gives nothing.
pub to_bytes-from_bytes :
    (buf : List ℕ)
    → AreBytes buf
    → ((length buf < 8) × (from_bytes buf ≡ none))
      ⊎ ((h : IpcHeader) × (from_bytes buf ≡ some h) × IsHeader h × (to_bytes h ≡ take 8 buf))
unfolding from_bytes
to_bytes-from_bytes buf b = elim (Bool-cases (ltb (length buf) 8)) [
  | inl short ↦ inl (ground arith, rw short)
  | inr long ↦ inr (long_buffer buf b long)
]
