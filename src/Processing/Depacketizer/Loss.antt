-- ===== src/Processing/Depacketizer/Loss.antt =====
-- internal/processing/depacketizer.go: an access unit in which a packet was lost.
use monitoreoedgeis.Prelude.{
  ◌≤◌, ℕ, ◌+◌, ◌%◌, ◌^◌, ◌≡◌, ◌≢◌, ◌⊎◌, inl, inr, refl, sym, subst, ◌∙◌, Bool, true, false, not,
  ◌&&◌, none, List, [], ◌∷◌, ◌++◌, length, ltb, leb, ◌==◌, if-rule, Result, ok, err, arith,
}
use monitoreoedgeis.Processing.{Bytes}
use monitoreoedgeis.Processing.Rtp.{RtpHeader, bit_set}
use monitoreoedgeis.Processing.Stapa.{StapaError, parse_stapa}
use monitoreoedgeis.Processing.Depacketizer.{
  PushPacket, Depacketizer, Packet, max_access_unit_bytes, reassembly_error, delivered,
  abandon_oversized_au, open_au, store_nalu, append_nalu, append_nalus, close_au,
  maybe_close_on_marker, pop_ready, pop_from, on_sequence, on_timestamp, fua_store, fua_end,
  handle_fua, take_stapa, take_payload, push, push_all,
}

-- An access unit with timestamp `t` is open and marked corrupt.
abbrev pub IsLost : ℕ → Depacketizer → Type 0
IsLost t d = (d.au_open ≡ true) × (d.au_corrupt ≡ true) × (d.au_timestamp ≡ t) × (d.ready ≡ [])

-- Nothing is finished, and the access unit stays lost up to the marker.
abbrev pub Discards : ℕ → RtpHeader → Depacketizer → Type 0
Discards t hdr d = (d.ready ≡ []) × (hdr.marker ≡ false → IsLost t d)

pub maybe_close-Discards :
    (t : ℕ) (hdr : RtpHeader) (d : Depacketizer)
    → IsLost t d
    → Discards t hdr (maybe_close_on_marker hdr d)
unfolding maybe_close_on_marker close_au
maybe_close-Discards t hdr d h = ground arith

pub append_nalu-IsLost :
    (t : ℕ) (n : Bytes) (timestamp recv_at : ℕ) (d : Depacketizer)
    → IsLost t d
    → IsLost t (append_nalu n timestamp recv_at d)
unfolding append_nalu open_au store_nalu abandon_oversized_au
append_nalu-IsLost t n timestamp recv_at d h = ground arith

pub append_nalus-IsLost :
    (t : ℕ) (ns : List Bytes) (timestamp recv_at : ℕ) (d : Depacketizer)
    → IsLost t d
    → IsLost t (append_nalus ns timestamp recv_at d)
unfolding append_nalus
append_nalus-IsLost t [] timestamp recv_at d h = h
append_nalus-IsLost t (n ∷ ns) timestamp recv_at d h =
    append_nalus-IsLost t ns timestamp recv_at _ (append_nalu-IsLost t n timestamp recv_at d h)

take_stapa-Discards :
    (t : ℕ) (parsed : Result StapaError (List Bytes)) (hdr : RtpHeader) (recv_at : ℕ)
    (d : Depacketizer)
    → IsLost t d
    → Discards t hdr (take_stapa parsed hdr recv_at d)
unfolding take_stapa reassembly_error
take_stapa-Discards t (err e) hdr recv_at d h = maybe_close-Discards t hdr (reassembly_error d) h
take_stapa-Discards t (ok nalus) hdr recv_at d h =
    maybe_close-Discards t hdr _ (append_nalus-IsLost t nalus hdr.timestamp recv_at d h)

fua_end-Discards :
    (t : ℕ) (hdr : RtpHeader) (recv_at : ℕ) (d : Depacketizer)
    → IsLost t d
    → Discards t hdr (fua_end hdr recv_at d)
unfolding fua_end reassembly_error
fua_end-Discards t hdr recv_at d h =
    if-rule (Discards t hdr) (not d.fu_active)
      (λ _. maybe_close-Discards t hdr (reassembly_error d) h)
      (λ _. maybe_close-Discards t hdr _ (
        append_nalu-IsLost t (d.fu_nal_header ++ d.fu_buf) hdr.timestamp recv_at
          (record d { fu_active = false; fu_buf = [] }) h))

abbrev pub StaysLost : ℕ → RtpHeader → Depacketizer × Bool → Type 0
StaysLost t hdr p = Discards t hdr p.0 × (p.1 ≡ true → IsLost t p.0)

fua_store-StaysLost :
    (t ind header : ℕ) (body : Bytes) (hdr : RtpHeader) (d : Depacketizer)
    → IsLost t d
    → StaysLost t hdr (fua_store ind header body hdr d)
unfolding fua_store reassembly_error abandon_oversized_au
fua_store-StaysLost t ind header body hdr d h =
    if-rule (StaysLost t hdr) (bit_set header 0x80) (λ _. ground arith)
      λ _.
        if-rule (StaysLost t hdr) (not d.fu_active)
          (λ _. (maybe_close-Discards t hdr (reassembly_error d) h, λ e. cc))
          λ _.
            if-rule (StaysLost t hdr) (ltb max_access_unit_bytes (length d.fu_buf + length body))
              (λ _. (maybe_close-Discards t hdr _ (refl, h.1, h.2, h.3), λ e. cc))
              (λ _. ((h.3, λ _. h), λ _. h))

handle_fua-Discards :
    (t : ℕ) (payload : Bytes) (hdr : RtpHeader) (recv_at : ℕ) (d : Depacketizer)
    → IsLost t d
    → Discards t hdr (handle_fua payload hdr recv_at d)
unfolding handle_fua reassembly_error
handle_fua-Discards t [] hdr recv_at d h = (h.3, λ _. h)
handle_fua-Discards t (b ∷ []) hdr recv_at d h = (h.3, λ _. h)
handle_fua-Discards t (ind ∷ header ∷ body) hdr recv_at d h =
    let stored = fua_store-StaysLost t ind header body hdr d h in
    if-rule (Discards t hdr) ((fua_store ind header body hdr d).1 && bit_set header 0x40)
      (λ goes_on.
        fua_end-Discards t hdr recv_at (fua_store ind header body hdr d).0
          (stored.1 (ground arith)))
      (λ _. stored.0)

take_payload-Discards :
    (t nal_type : ℕ) (payload : Bytes) (hdr : RtpHeader) (recv_at : ℕ) (d : Depacketizer)
    → IsLost t d
    → Discards t hdr (take_payload nal_type payload hdr recv_at d)
unfolding take_payload
take_payload-Discards t nal_type payload hdr recv_at d h =
    if-rule (Discards t hdr) (nal_type == 24)
      (λ _. take_stapa-Discards t (parse_stapa payload) hdr recv_at d h)
      λ _.
        if-rule (Discards t hdr) (nal_type == 28)
          (λ _. handle_fua-Discards t payload hdr recv_at d h)
          λ _.
            if-rule (Discards t hdr) (leb 1 nal_type && leb nal_type 23)
              (λ _.
                maybe_close-Discards t hdr _
                  (append_nalu-IsLost t payload hdr.timestamp recv_at d h))
              (λ _. maybe_close-Discards t hdr _ h)

-- The packet's sequence number does not follow the last one.
abbrev pub IsGap : RtpHeader → Depacketizer → Type 0
IsGap hdr d = (d.have_last_seq ≡ true) × (hdr.sequence_number ≢ (d.last_seq + 1) % 2 ^ 16)

-- Where an access unit is open, with nothing finished: the packet shows a gap, or one showed before.
abbrev pub LosesPacket : RtpHeader → Depacketizer → Type 0
LosesPacket hdr d =
    (d.au_open ≡ true)
    × (d.au_timestamp ≡ hdr.timestamp)
    × (d.ready ≡ [])
    × (IsGap hdr d ⊎ (d.au_corrupt ≡ true))

pub before-IsLost :
    (hdr : RtpHeader) (d : Depacketizer)
    → LosesPacket hdr d
    → IsLost hdr.timestamp (on_timestamp hdr (on_sequence hdr d))
unfolding on_timestamp on_sequence
before-IsLost hdr d h = ground arith

pub pop_ready-Discards :
    (t : ℕ) (hdr : RtpHeader) (d : Depacketizer)
    → Discards t hdr d
    → Discards t hdr (pop_ready d).0 × ((pop_ready d).1 ≡ none)
unfolding pop_ready pop_from
pop_ready-Discards t hdr d h = ground arith

push-Discards :
    (hdr : RtpHeader) (b : ℕ) (bs : Bytes) (recv_at : ℕ) (d : Depacketizer)
    → LosesPacket hdr d
    → Discards hdr.timestamp hdr (push hdr (b ∷ bs) recv_at d).0
      × ((push hdr (b ∷ bs) recv_at d).1 ≡ none)
unfolding push
push-Discards hdr b bs recv_at d h =
    pop_ready-Discards hdr.timestamp hdr _
      (take_payload-Discards hdr.timestamp _ (b ∷ bs) hdr recv_at _ (before-IsLost hdr d h))

-- Packets of one access unit with timestamp `t`, with payloads of at least `shortest` bytes, of which
-- only the last may have the marker.
abbrev pub AreOneUnit : ℕ → ℕ → List Packet → Type 0
AreOneUnit shortest t [] = Unit {0}
AreOneUnit shortest t (p ∷ ps) =
    (p.header.timestamp ≡ t)
    × (shortest ≤ length p.payload)
    × ((p.header.marker ≡ false) ⊎ (ps ≡ []))
    × AreOneUnit shortest t ps

-- A packet that shows the loss, or follows it, is discarded.
abbrev pub DiscardsLoss : PushPacket → ℕ → Type 0
DiscardsLoss push_packet shortest =
    (hdr : RtpHeader) (payload : Bytes) (recv_at : ℕ) (d : Depacketizer)
    → shortest ≤ length payload
    → LosesPacket hdr d
    → Discards hdr.timestamp hdr (push_packet hdr payload recv_at d).0
      × ((push_packet hdr payload recv_at d).1 ≡ none)

pub push-DiscardsLoss : DiscardsLoss push 1
push-DiscardsLoss hdr [] recv_at d h l = absurd (omega arith)
push-DiscardsLoss hdr (b ∷ bs) recv_at d h l = push-Discards hdr b bs recv_at d l

module _ (push_packet : PushPacket) (shortest : ℕ)
    (discards : DiscardsLoss push_packet shortest) where
  push_all-nothing :
      (p : Packet) (ps : List Packet) (d : Depacketizer)
      → (push_packet p.header p.payload p.recv_at d).1 ≡ none
      → (push_all push_packet ps (push_packet p.header p.payload p.recv_at d).0).1 ≡ []
      → (push_all push_packet (p ∷ ps) d).1 ≡ []
  unfolding push_all
  push_all-nothing p ps d e g = rw (e, g) (unfold delivered in refl)

  pub push_all-discards :
      (p : Packet) (ps : List Packet) (d : Depacketizer)
      → LosesPacket p.header d
      → AreOneUnit shortest p.header.timestamp (p ∷ ps)
      → (push_all push_packet (p ∷ ps) d).1 ≡ []
  push_all-discards p [] d l u =
      push_all-nothing p [] d (discards p.header p.payload p.recv_at d u.1 l).1
        (unfold push_all in refl)
  push_all-discards p (q ∷ ps) d l u =
      let step = discards p.header p.payload p.recv_at d u.1 l in
      let lost = step.0.1 (elim u.2 [ inl m ↦ m | inr e ↦ cc ]) in
      push_all-nothing p (q ∷ ps) d step.1 (
        push_all-discards q ps (push_packet p.header p.payload p.recv_at d).0
          (lost.0, lost.2 ∙ sym u.3.0, lost.3, inr lost.1)
          (subst (λ (t : ℕ). AreOneUnit shortest t (q ∷ ps)) (sym u.3.0) u.3))
