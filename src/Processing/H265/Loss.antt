-- ===== src/Processing/H265/Loss.antt =====
-- internal/processing/depacketizer_h265.go: an access unit in which a packet was lost.
use monitoreoedgeis.Prelude.{
  ℕ, ◌+◌, refl, false, not, ◌&&◌, Option, none, some, List, [], ◌∷◌, ◌++◌, length, ltb, leb, ◌==◌,
  if-rule, arith,
}
use monitoreoedgeis.Processing.{Bytes}
use monitoreoedgeis.Processing.Rtp.{RtpHeader, bit_set}
use monitoreoedgeis.Processing.Depacketizer.{
  Depacketizer, max_access_unit_bytes, reassembly_error, abandon_oversized_au,
}
use monitoreoedgeis.Processing.Depacketizer.Loss.{
  IsLost, Discards, StaysLost, DiscardsLoss, append_nalu-IsLost, append_nalus-IsLost,
  maybe_close-Discards, before-IsLost, pop_ready-Discards,
}
use monitoreoedgeis.Processing.H265.{
  parse_h265_ap, fu_store, fu_end, short_fu, handle_fu, take_ap, take_hevc, push_h265,
}

short_fu-Discards :
    (t : ℕ) (hdr : RtpHeader) (d : Depacketizer) → IsLost t d → Discards t hdr (short_fu hdr d)
unfolding short_fu reassembly_error
short_fu-Discards t hdr d h = maybe_close-Discards t hdr (reassembly_error d) h

fu_end-Discards :
    (t : ℕ) (hdr : RtpHeader) (recv_at : ℕ) (d : Depacketizer)
    → IsLost t d
    → Discards t hdr (fu_end hdr recv_at d)
unfolding fu_end short_fu
fu_end-Discards t hdr recv_at d h =
    if-rule (Discards t hdr) (not d.fu_active) (λ _. short_fu-Discards t hdr d h)
      (λ _. maybe_close-Discards t hdr _ (
        append_nalu-IsLost t (d.fu_nal_header ++ d.fu_buf) hdr.timestamp recv_at
          (record d { fu_active = false; fu_buf = [] }) h))

fu_store-StaysLost :
    (t b0 b1 header : ℕ) (fragment : Bytes) (hdr : RtpHeader) (d : Depacketizer)
    → IsLost t d
    → StaysLost t hdr (fu_store b0 b1 header fragment hdr d)
unfolding fu_store short_fu reassembly_error abandon_oversized_au
fu_store-StaysLost t b0 b1 header fragment hdr d h =
    if-rule (StaysLost t hdr) (bit_set header 0x80) (λ _. ground arith)
      λ _.
        if-rule (StaysLost t hdr) (not d.fu_active) (λ _. (short_fu-Discards t hdr d h, λ e. cc))
          λ _.
            if-rule (StaysLost t hdr)
              (ltb max_access_unit_bytes (length d.fu_buf + length fragment + 2))
              (λ _. (maybe_close-Discards t hdr _ (refl, h.1, h.2, h.3), λ e. cc))
              (λ _. ((h.3, λ _. h), λ _. h))

handle_fu-Discards :
    (t : ℕ) (payload : Bytes) (hdr : RtpHeader) (recv_at : ℕ) (d : Depacketizer)
    → IsLost t d
    → Discards t hdr (handle_fu payload hdr recv_at d)
unfolding handle_fu
handle_fu-Discards t [] hdr recv_at d h = short_fu-Discards t hdr d h
handle_fu-Discards t (a ∷ []) hdr recv_at d h = short_fu-Discards t hdr d h
handle_fu-Discards t (a ∷ b ∷ []) hdr recv_at d h = short_fu-Discards t hdr d h
handle_fu-Discards t (a ∷ b ∷ c ∷ []) hdr recv_at d h = short_fu-Discards t hdr d h
handle_fu-Discards t (b0 ∷ b1 ∷ header ∷ f ∷ fs) hdr recv_at d h =
    let stored = fu_store-StaysLost t b0 b1 header (f ∷ fs) hdr d h in
    if-rule (Discards t hdr) ((fu_store b0 b1 header (f ∷ fs) hdr d).1 && bit_set header 0x40)
      (λ goes_on.
        fu_end-Discards t hdr recv_at (fu_store b0 b1 header (f ∷ fs) hdr d).0
          (stored.1 (ground arith)))
      (λ _. stored.0)

take_ap-Discards :
    (t : ℕ) (parsed : Option (List Bytes)) (hdr : RtpHeader) (recv_at : ℕ) (d : Depacketizer)
    → IsLost t d
    → Discards t hdr (take_ap parsed hdr recv_at d)
unfolding take_ap short_fu
take_ap-Discards t none hdr recv_at d h = short_fu-Discards t hdr d h
take_ap-Discards t (some nalus) hdr recv_at d h =
    maybe_close-Discards t hdr _ (append_nalus-IsLost t nalus hdr.timestamp recv_at d h)

take_hevc-Discards :
    (t nal_type : ℕ) (payload : Bytes) (hdr : RtpHeader) (recv_at : ℕ) (d : Depacketizer)
    → IsLost t d
    → Discards t hdr (take_hevc nal_type payload hdr recv_at d)
unfolding take_hevc
take_hevc-Discards t nal_type payload hdr recv_at d h =
    if-rule (Discards t hdr) (leb nal_type 47)
      (λ _. maybe_close-Discards t hdr _ (append_nalu-IsLost t payload hdr.timestamp recv_at d h))
      λ _.
        if-rule (Discards t hdr) (nal_type == 48)
          (λ _. take_ap-Discards t (parse_h265_ap payload) hdr recv_at d h)
          λ _.
            if-rule (Discards t hdr) (nal_type == 49)
              (λ _. handle_fu-Discards t payload hdr recv_at d h)
              (λ _. maybe_close-Discards t hdr _ h)

pub push_h265-DiscardsLoss : DiscardsLoss push_h265 2
unfolding push_h265
push_h265-DiscardsLoss hdr [] recv_at d h l = absurd (omega arith)
push_h265-DiscardsLoss hdr (b ∷ []) recv_at d h l = absurd (omega arith)
push_h265-DiscardsLoss hdr (b0 ∷ b1 ∷ bs) recv_at d h l =
    pop_ready-Discards hdr.timestamp hdr _
      (take_hevc-Discards hdr.timestamp _ (b0 ∷ b1 ∷ bs) hdr recv_at _ (before-IsLost hdr d l))
