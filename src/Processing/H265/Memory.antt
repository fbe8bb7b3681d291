-- ===== src/Processing/H265/Memory.antt =====
-- internal/processing/depacketizer_h265.go: `Push` keeps the bounds on the memory.
use Prim.Native.Nat.{bit_and}
use monitoreoedgeis.Prelude.{
  ℕ, ◌+◌, ◌/◌, ◌≤◌, false, not, ◌&&◌, Option, none, some, List, [], ◌∷◌, ◌++◌, length,
  length-append, ltb, leb, ◌==◌, if-rule, arith,
}
use monitoreoedgeis.Processing.{Bytes}
use monitoreoedgeis.Processing.Rtp.{RtpHeader, bit_set}
use monitoreoedgeis.Processing.Depacketizer.{
  Depacketizer, max_access_unit_bytes, reassembly_error, abandon_oversized_au,
}
use monitoreoedgeis.Processing.H265.{
  parse_h265_ap, fu_store, fu_end, short_fu, handle_fu, take_ap, take_hevc, push_h265,
}
use monitoreoedgeis.Processing.Depacketizer.Memory.{
  IsBounded, Holds, Stored, KeepsBounds, maybe_close-Holds, append_nalu-Holds, append_nalus-Holds,
  in_progress-le, ignored_packet, taken_packet, total, in_progress,
}

errs-Holds :
    (hdr : RtpHeader) (d : Depacketizer)
    → IsBounded d
    → length d.ready ≤ 1
    → Holds 2 2 (short_fu hdr d)
unfolding short_fu reassembly_error
errs-Holds hdr d h k =
    maybe_close-Holds {r = 1} hdr (reassembly_error d) (omega (arith, in_progress-le d.au_nalus))

fu_end-Holds :
    (hdr : RtpHeader) (recv_at : ℕ) (d : Depacketizer)
    → IsBounded d
    → length d.ready ≤ 1
    → Holds 2 2 (fu_end hdr recv_at d)
unfolding fu_end short_fu
fu_end-Holds hdr recv_at d h k =
    if-rule (Holds 2 2) (not d.fu_active) (λ _. errs-Holds hdr d h k)
      (λ _. maybe_close-Holds {r = 1} hdr _ (
        append_nalu-Holds (d.fu_nal_header ++ d.fu_buf) hdr.timestamp recv_at
          (record d { fu_active = false; fu_buf = [] }) (omega arith) k))

fu_store-Stored :
    (b0 b1 header : ℕ) (fragment : Bytes) (hdr : RtpHeader) (d : Depacketizer)
    → length fragment ≤ max_access_unit_bytes
    → IsBounded d
    → length d.ready ≤ 1
    → Stored (fu_store b0 b1 header fragment hdr d)
unfolding fu_store short_fu reassembly_error abandon_oversized_au total in_progress
fu_store-Stored b0 b1 header fragment hdr d small h k =
    if-rule Stored (bit_set header 0x80) (λ _. ground (arith, in_progress-le d.au_nalus))
      λ _.
        if-rule Stored (not d.fu_active) (λ _. (errs-Holds hdr d h k, λ e. cc))
          λ _.
            if-rule Stored (ltb max_access_unit_bytes (length d.fu_buf + length fragment + 2))
              (λ _. (maybe_close-Holds {r = 1} hdr _ (omega arith), λ e. cc))
              (λ fits. ground (arith, in_progress-le d.au_nalus, length-append d.fu_buf fragment))

handle_fu-Holds :
    (payload : Bytes) (hdr : RtpHeader) (recv_at : ℕ) (d : Depacketizer)
    → length payload ≤ max_access_unit_bytes + 2
    → IsBounded d
    → length d.ready ≤ 1
    → Holds 2 2 (handle_fu payload hdr recv_at d)
unfolding handle_fu
handle_fu-Holds [] hdr recv_at d small h k = errs-Holds hdr d h k
handle_fu-Holds (a ∷ []) hdr recv_at d small h k = errs-Holds hdr d h k
handle_fu-Holds (a ∷ b ∷ []) hdr recv_at d small h k = errs-Holds hdr d h k
handle_fu-Holds (a ∷ b ∷ c ∷ []) hdr recv_at d small h k = errs-Holds hdr d h k
handle_fu-Holds (b0 ∷ b1 ∷ header ∷ f ∷ fs) hdr recv_at d small h k =
    let stored = fu_store-Stored b0 b1 header (f ∷ fs) hdr d (omega arith) h k in
    if-rule (Holds 2 2) ((fu_store b0 b1 header (f ∷ fs) hdr d).1 && bit_set header 0x40)
      (λ goes_on.
        fu_end-Holds hdr recv_at (fu_store b0 b1 header (f ∷ fs) hdr d).0 stored.0.0
          (stored.1 (ground arith)))
      (λ _. stored.0)

take_ap-Holds :
    (parsed : Option (List Bytes)) (hdr : RtpHeader) (recv_at : ℕ) (d : Depacketizer)
    → IsBounded d
    → length d.ready ≤ 1
    → Holds 2 2 (take_ap parsed hdr recv_at d)
unfolding take_ap short_fu
take_ap-Holds none hdr recv_at d h k = errs-Holds hdr d h k
take_ap-Holds (some nalus) hdr recv_at d h k =
    maybe_close-Holds {r = 1} hdr _ (append_nalus-Holds nalus hdr.timestamp recv_at d h k)

take_hevc-Holds :
    (nal_type : ℕ) (payload : Bytes) (hdr : RtpHeader) (recv_at : ℕ) (d : Depacketizer)
    → length payload ≤ max_access_unit_bytes + 2
    → IsBounded d
    → length d.ready ≤ 1
    → Holds 2 2 (take_hevc nal_type payload hdr recv_at d)
unfolding take_hevc
take_hevc-Holds nal_type payload hdr recv_at d small h k =
    if-rule (Holds 2 2) (leb nal_type 47)
      (λ _. maybe_close-Holds {r = 1} hdr _ (append_nalu-Holds payload hdr.timestamp recv_at d h k))
      λ _.
        if-rule (Holds 2 2) (nal_type == 48)
          (λ _. take_ap-Holds (parse_h265_ap payload) hdr recv_at d h k)
          λ _.
            if-rule (Holds 2 2) (nal_type == 49)
              (λ _. handle_fu-Holds payload hdr recv_at d small h k)
              (λ _. maybe_close-Holds {r = 1} hdr _ (omega (arith, in_progress-le d.au_nalus)))

pub push_h265-KeepsBounds : KeepsBounds push_h265
unfolding push_h265
push_h265-KeepsBounds hdr [] recv_at d small h = ignored_packet d h
push_h265-KeepsBounds hdr (b ∷ []) recv_at d small h = ignored_packet d h
push_h265-KeepsBounds hdr (b0 ∷ b1 ∷ bs) recv_at d small h =
    taken_packet hdr (take_hevc (bit_and (b0 / 2) 0x3f) (b0 ∷ b1 ∷ bs) hdr recv_at) d
      (λ d'. take_hevc-Holds (bit_and (b0 / 2) 0x3f) (b0 ∷ b1 ∷ bs) hdr recv_at d' small) h
