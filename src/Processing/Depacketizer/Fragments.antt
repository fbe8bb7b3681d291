-- ===== src/Processing/Depacketizer/Fragments.antt =====
-- internal/processing/depacketizer.go: FU-A fragments of a NAL unit (RFC 6184, section 5.8).
use mathlib.Core.List.{append_assoc}
use monitoreoedgeis.Prelude.{
  ℕ, ◌+◌, ◌%◌, ◌<◌, ◌^◌, ◌≡◌, refl, Bool, true, false, Option, List, [], ◌∷◌, ◌++◌, length,
  length-append, arith,
}
use monitoreoedgeis.Processing.{Bytes}
use monitoreoedgeis.Processing.Rtp.{RtpHeader}
use monitoreoedgeis.Processing.Depacketizer.{
  AccessUnit, Depacketizer, Packet, max_access_unit_bytes, delivered, push, push_all,
}
use monitoreoedgeis.Processing.Depacketizer.Bits.{fu_indicator, fu_header}
use monitoreoedgeis.Processing.Depacketizer.Steps.{
  IsIdle, Collects, start_step, next_step, last_step,
}

-- A fragment's bytes and its arrival.
abbrev pub Chunk : Type 0
Chunk = Bytes × ℕ

abbrev pub header_of : ℕ → ℕ → Bool → RtpHeader
header_of seq timestamp marker = record {
  version = 2;
  padding = false;
  extension = false;
  csrc_count = 0;
  marker = marker;
  payload_type = 96;
  sequence_number = seq;
  timestamp = timestamp;
  ssrc = 0;
  csrc = [];
  payload_start = 12;
  payload_end = 12;
}

abbrev pub fragment : ℕ → ℕ → ℕ → ℕ → Bool → Chunk → Packet
fragment flags h timestamp seq marker c = record {
  header = header_of seq timestamp marker;
  payload = fu_indicator h ∷ fu_header flags h ∷ c.0;
  recv_at = c.1;
}

-- A sender's packets: fragments behind the packet with sequence number `seq`, the last of which has
-- the end bit and the marker.
unfoldable pub rest_fragments : ℕ → ℕ → ℕ → List Chunk → Chunk → List Packet
rest_fragments h timestamp seq [] last =
    fragment 0x40 h timestamp ((seq + 1) % 2 ^ 16) true last ∷ []
rest_fragments h timestamp seq (c ∷ cs) last =
    fragment 0 h timestamp ((seq + 1) % 2 ^ 16) false c
    ∷ rest_fragments h timestamp ((seq + 1) % 2 ^ 16) cs last

unfoldable pub fragments : ℕ → ℕ → ℕ → Chunk → List Chunk → Chunk → List Packet
unfolding rest_fragments
fragments h timestamp seq first middle last =
    fragment 0x80 h timestamp seq false first ∷ rest_fragments h timestamp seq middle last

-- The bytes of the chunks and of the last one.
unfoldable pub joined : List Chunk → Chunk → Bytes
joined [] last = last.0
joined (c ∷ cs) last = c.0 ++ joined cs last

push_all-step :
    (p : Packet) (ps : List Packet) (d : Depacketizer) {au : Option AccessUnit}
    → (push p.header p.payload p.recv_at d).1 ≡ au
    → push_all push (p ∷ ps) d ≡ (
      (push_all push ps (push p.header p.payload p.recv_at d).0).0,
      delivered au (push_all push ps (push p.header p.payload p.recv_at d).0).1,
    )
unfolding push_all
push_all-step p ps d e = rw (← e) refl

push_all_last :
    (p : Packet) (d : Depacketizer) {au : Option AccessUnit}
    → (push p.header p.payload p.recv_at d).1 ≡ au
    → push_all push (p ∷ []) d ≡ ((push p.header p.payload p.recv_at d).0, delivered au [])
unfolding push_all
push_all_last p d e = rw (← e) refl

module _ (h timestamp : ℕ) (lt : h < 256) (last : Chunk) where
  -- One access unit, with the NAL unit `nalu`, and then idle.
  abbrev pub Delivers : List Packet → Bytes → Depacketizer → Type 0
  Delivers ps nalu d =
      IsIdle (push_all push ps d).0
      × ((push_all push ps d).1 ≡ record { nalus = nalu ∷ []; received_at = last.1 } ∷ [])

  rest-Delivers :
      (middle : List Chunk) (buf : Bytes) (seq : ℕ) (d : Depacketizer)
      → length (buf ++ joined middle last) < max_access_unit_bytes
      → Collects h buf seq d
      → Delivers (rest_fragments h timestamp seq middle last) (h ∷ (buf ++ joined middle last)) d
  unfolding rest_fragments joined delivered
  rest-Delivers [] buf seq d fits c =
      let step =
        last_step (header_of ((seq + 1) % 2 ^ 16) timestamp true) h buf last.0 seq last.1 d lt refl
          refl (omega (arith, length-append buf last.0)) c in
      rw (push_all_last _ d step.1) (step.0, refl)
  rest-Delivers (m ∷ ms) buf seq d fits c =
      let step =
        next_step (header_of ((seq + 1) % 2 ^ 16) timestamp false) h buf m.0 seq m.1 d lt refl
          (omega
            (arith, length-append buf (m.0 ++ joined ms last), length-append m.0 (joined ms last)))
          c in
      rw (push_all-step _ (rest_fragments h timestamp ((seq + 1) % 2 ^ 16) ms last) d step.1) (
        rw (← append_assoc buf m.0 (joined ms last)) (
          rest-Delivers ms (buf ++ m.0) ((seq + 1) % 2 ^ 16) _
            (rw (append_assoc buf m.0 (joined ms last)) fits) step.0))

  -- The fragments of a NAL unit, pushed in the order of their sequence numbers from any idle state,
  -- yield one access unit with exactly that NAL unit, and the state is idle again, where the NAL
  -- unit's header byte is a byte and its size is at most 8 MiB; the access unit carries the arrival of
  -- the last fragment.
  pub push_all-fragments :
      (first : Chunk) (middle : List Chunk) (seq : ℕ) (d : Depacketizer)
      → IsIdle d
      → length (first.0 ++ joined middle last) < max_access_unit_bytes
      → Delivers
          (fragments h timestamp seq first middle last)
          (h ∷ (first.0 ++ joined middle last))
          d
  unfolding fragments delivered
  push_all-fragments first middle seq d idle fits =
      let step = start_step (header_of seq timestamp false) h first.0 first.1 d lt idle in
      rw (push_all-step _ (rest_fragments h timestamp seq middle last) d step.1)
        (rest-Delivers middle first.0 seq _ fits step.0)
