-- ===== src/Processing/Depacketizer/Steps.antt =====
-- internal/processing/depacketizer.go: what `Push` does with one FU-A fragment.
use Prim.Native.Nat.{bit_and}
use monitoreoedgeis.Prelude.{
  ltb, ap, ℕ, ◌+◌, ◌%◌, ◌<◌, ◌≤◌, ◌^◌, ◌≡◌, true, false, none, some, [], ◌∷◌, ◌++◌, length,
  length-append, arith,
}
use monitoreoedgeis.Processing.{Bytes}
use monitoreoedgeis.Processing.Rtp.{RtpHeader, bit_set}
use monitoreoedgeis.Processing.Depacketizer.{
  pop_from, AccessUnit, Depacketizer, max_access_unit_bytes, reassembly_error, open_au, store_nalu,
  append_nalu, close_au, maybe_close_on_marker, pop_ready, on_sequence, on_timestamp, fua_store,
  fua_end, handle_fua, take_payload, push,
}
use monitoreoedgeis.Processing.Depacketizer.Bits.{fu_indicator, fu_header, bits_lem}

-- No access unit is open or waits.
abbrev pub IsIdle : Depacketizer → Type 0
IsIdle d =
    (d.au_open ≡ false)
    × (d.au_nalus ≡ [])
    × (d.au_bytes ≡ 0)
    × (d.au_overflow ≡ false)
    × (d.au_corrupt ≡ false)
    × (d.ready ≡ [])

-- Idle, behind fragments of the NAL unit `h ∷ buf`, the last with sequence number `seq`.
abbrev pub Collects : ℕ → Bytes → ℕ → Depacketizer → Type 0
Collects h buf seq d =
    IsIdle d
    × (d.have_last_seq ≡ true)
    × (d.last_seq ≡ seq)
    × (d.fu_active ≡ true)
    × (d.fu_nal_header ≡ h ∷ [])
    × (d.fu_buf ≡ buf)

pub start_step :
    (hdr : RtpHeader) (h : ℕ) (body : Bytes) (recv_at : ℕ) (d : Depacketizer)
    → h < 256
    → IsIdle d
    → Collects h body hdr.sequence_number
        (push hdr (fu_indicator h ∷ fu_header 0x80 h ∷ body) recv_at d).0
      × ((push hdr (fu_indicator h ∷ fu_header 0x80 h ∷ body) recv_at d).1 ≡ none)
unfolding push on_sequence on_timestamp take_payload handle_fua fua_store pop_ready reassembly_error
start_step hdr h body recv_at d lt idle = ground (arith, bits_lem h lt)

pub next_step :
    (hdr : RtpHeader) (h : ℕ) (buf body : Bytes) (seq recv_at : ℕ) (d : Depacketizer)
    → h < 256
    → hdr.sequence_number ≡ (seq + 1) % 2 ^ 16
    → length buf + length body ≤ max_access_unit_bytes
    → Collects h buf seq d
    → Collects h
        (buf ++ body)
        hdr.sequence_number
        (push hdr (fu_indicator h ∷ fu_header 0 h ∷ body) recv_at d).0
      × ((push hdr (fu_indicator h ∷ fu_header 0 h ∷ body) recv_at d).1 ≡ none)
unfolding push on_sequence on_timestamp take_payload handle_fua fua_store pop_ready reassembly_error
next_step hdr h buf body seq recv_at d lt follows fits c = ground (arith, bits_lem h lt)

-- Nothing but one finished access unit.
abbrev Finished : AccessUnit → Depacketizer → Type 0
Finished au d =
    (d.au_open ≡ false)
    × (d.au_nalus ≡ [])
    × (d.au_bytes ≡ 0)
    × (d.au_overflow ≡ false)
    × (d.au_corrupt ≡ false)
    × (d.ready ≡ au ∷ [])

-- An access unit is open with one NAL unit.
abbrev HoldsOne : Bytes → ℕ → Depacketizer → Type 0
HoldsOne nalu recv_at d =
    (d.au_nalus ≡ nalu ∷ [])
    × (d.au_received_at ≡ recv_at)
    × (d.au_overflow ≡ false)
    × (d.au_corrupt ≡ false)
    × (d.ready ≡ [])

append_nalu-HoldsOne :
    (nalu : Bytes) (timestamp recv_at : ℕ) (d : Depacketizer)
    → length nalu ≤ max_access_unit_bytes
    → IsIdle d
    → HoldsOne nalu recv_at (append_nalu nalu timestamp recv_at d)
unfolding append_nalu open_au store_nalu
append_nalu-HoldsOne nalu timestamp recv_at d fits idle = ground arith

maybe_close-Finished :
    (nalu : Bytes) (recv_at : ℕ) (hdr : RtpHeader) (d : Depacketizer)
    → hdr.marker ≡ true
    → HoldsOne nalu recv_at d
    → Finished (record { nalus = nalu ∷ []; received_at = recv_at }) (maybe_close_on_marker hdr d)
unfolding maybe_close_on_marker close_au
maybe_close-Finished nalu recv_at hdr d marked h = ground arith

fua_end-Finished :
    (h : ℕ) (buf : Bytes) (seq recv_at : ℕ) (hdr : RtpHeader) (d : Depacketizer)
    → hdr.marker ≡ true
    → length buf < max_access_unit_bytes
    → Collects h buf seq d
    → Finished (record { nalus = (h ∷ buf) ∷ []; received_at = recv_at }) (fua_end hdr recv_at d)
unfolding fua_end
fua_end-Finished h buf seq recv_at hdr d marked fits c =
    let closed = record d { fu_active = false; fu_buf = [] } in
    let nalu : d.fu_nal_header ++ d.fu_buf ≡ h ∷ buf = ground (arith, c) in
    let held = append_nalu-HoldsOne (h ∷ buf) hdr.timestamp recv_at closed (omega arith) c.0 in
    rw (c.3, nalu) (maybe_close-Finished (h ∷ buf) recv_at hdr _ marked held)

before-Collects :
    (hdr : RtpHeader) (h : ℕ) (buf : Bytes) (seq : ℕ) (d : Depacketizer)
    → hdr.sequence_number ≡ (seq + 1) % 2 ^ 16
    → Collects h buf seq d
    → Collects h buf hdr.sequence_number (on_timestamp hdr (on_sequence hdr d))
unfolding on_timestamp on_sequence
before-Collects hdr h buf seq d follows c = ground arith

fua_store-append :
    (ind header : ℕ) (body : Bytes) (hdr : RtpHeader) (d : Depacketizer)
    → bit_set header 0x80 ≡ false
    → d.fu_active ≡ true
    → length d.fu_buf + length body ≤ max_access_unit_bytes
    → fua_store ind header body hdr d ≡ (record d { fu_buf = d.fu_buf ++ body }, true)
unfolding fua_store
fua_store-append ind header body hdr d start active fits =
    let small : ltb max_access_unit_bytes (length d.fu_buf + length body) ≡ false = ground arith in
    simp (start, active, small)

handle_fua-Finished :
    (hdr : RtpHeader) (h : ℕ) (buf body : Bytes) (seq recv_at : ℕ) (d : Depacketizer)
    → h < 256
    → hdr.marker ≡ true
    → length (buf ++ body) < max_access_unit_bytes
    → Collects h buf seq d
    → Finished
        (record { nalus = (h ∷ (buf ++ body)) ∷ []; received_at = recv_at })
        (handle_fua (fu_indicator h ∷ fu_header 0x40 h ∷ body) hdr recv_at d)
unfolding handle_fua
handle_fua-Finished hdr h buf body seq recv_at d lt marked fits c =
    let bits = bits_lem h lt in
    let joined_size : length d.fu_buf + length body ≤ max_access_unit_bytes =
      rw c.5 (omega (arith, length-append buf body)) in
    let stored =
      fua_store-append (fu_indicator h) (fu_header 0x40 h) body hdr d bits.6 c.3 joined_size in
    let collected : Collects h (buf ++ body) seq (record d { fu_buf = d.fu_buf ++ body }) =
      (c.0, c.1, c.2, c.3, c.4, ap (λ bs. bs ++ body) c.5) in
    simp (stored, bits.7)
      (fua_end-Finished h (buf ++ body) seq recv_at hdr (record d { fu_buf = d.fu_buf ++ body })
        marked fits collected)

pop_ready-Finished :
    (au : AccessUnit) (d : Depacketizer)
    → Finished au d
    → IsIdle (pop_ready d).0 × ((pop_ready d).1 ≡ some au)
unfolding pop_ready pop_from
pop_ready-Finished au d h = ground arith

take_payload-fua :
    (h : ℕ) (rest : Bytes) (hdr : RtpHeader) (recv_at : ℕ) (d : Depacketizer)
    → h < 256
    → take_payload (bit_and (fu_indicator h) 0x1F) (fu_indicator h ∷ rest) hdr recv_at d
      ≡ handle_fua (fu_indicator h ∷ rest) hdr recv_at d
unfolding take_payload
take_payload-fua h rest hdr recv_at d lt = simp ((bits_lem h lt).1)

pub last_step :
    (hdr : RtpHeader) (h : ℕ) (buf body : Bytes) (seq recv_at : ℕ) (d : Depacketizer)
    → h < 256
    → hdr.sequence_number ≡ (seq + 1) % 2 ^ 16
    → hdr.marker ≡ true
    → length (buf ++ body) < max_access_unit_bytes
    → Collects h buf seq d
    → IsIdle (push hdr (fu_indicator h ∷ fu_header 0x40 h ∷ body) recv_at d).0
      × ((push hdr (fu_indicator h ∷ fu_header 0x40 h ∷ body) recv_at d).1
          ≡ some (record { nalus = (h ∷ (buf ++ body)) ∷ []; received_at = recv_at }))
unfolding push
last_step hdr h buf body seq recv_at d lt follows marked fits c =
    rw
      (take_payload-fua h (fu_header 0x40 h ∷ body) hdr recv_at
        (on_timestamp hdr (on_sequence hdr d)) lt)
      (pop_ready-Finished (record { nalus = (h ∷ (buf ++ body)) ∷ []; received_at = recv_at }) _
        (handle_fua-Finished hdr h buf body hdr.sequence_number recv_at _ lt marked fits
          (before-Collects hdr h buf seq d follows c)))
