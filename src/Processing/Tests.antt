-- ===== src/Processing/Tests.antt =====
-- internal/processing: runs on concrete packets and frames, and the theorems at concrete inputs.
use monitoreoedgeis.Prelude.{
  ℕ, ◌≤◌, ◌≡◌, refl, Bool, true, false, List, [], ◌∷◌, inl, inr, ok, err, some, arith,
}
use monitoreoedgeis.Processing.{Bytes, done, Returns, at}
use monitoreoedgeis.Processing.Rtp.{
  read16, read32, fixed_header, csrc_entries, skip_extension, trim_padding, variable_header,
  parse_rtp_header,
}
use monitoreoedgeis.Processing.Rtp.Bounds.{IsInPacket, parse_rtp_header-IsInPacket}
use monitoreoedgeis.Processing.Stapa.{parse_stapa, parse_stapa-aggregate, aggregate, stapa_bounds}
use monitoreoedgeis.Processing.Depacketizer.{
  Depacketizer, Packet, new_depacketizer, push, push_all, on_sequence, on_timestamp, take_payload,
  append_nalu, append_nalus, open_au, store_nalu, maybe_close_on_marker, close_au, pop_ready,
}
use monitoreoedgeis.Processing.Depacketizer.Memory.{IsBounded, load}
use monitoreoedgeis.Processing.Depacketizer.Fragments.{
  fragments, header_of, joined, push_all-fragments, Delivers,
}
use monitoreoedgeis.Processing.Reassembly.{
  h264, h265, push_of, push_all-IsBounded, push_all-LosesPacket,
}
use monitoreoedgeis.Processing.H265.{push_h265, take_hevc, take_ap, parse_h265_ap}
use monitoreoedgeis.Processing.RingBuffer.{
  new_ring_buffer, frames_from, snapshot, push as push_to_ring, resize,
}
use monitoreoedgeis.Processing.RingBuffer.Resize.{
  apply_all, spec_apply_all, push_frame, set_capacity, new-apply_all-Represents, Represents,
}

-- One CSRC entry, an extension of one word, and two bytes of padding behind the payload 7, 8.
abbrev packet : Bytes
packet =
    0xB1 ∷ 0xE0 ∷ 0 ∷ 5 ∷ 0 ∷ 0 ∷ 0 ∷ 9 ∷ 0 ∷ 0 ∷ 0 ∷ 1 ∷ 0 ∷ 0 ∷ 0 ∷ 2 ∷ 0 ∷ 0 ∷ 0 ∷ 1 ∷ 3 ∷ 3 ∷ 3
    ∷ 3 ∷ 7 ∷ 8 ∷ 0 ∷ 2 ∷ []

packet_header :
    parse_rtp_header packet
    ≡ done (record {
      version = 2;
      padding = true;
      extension = true;
      csrc_count = 1;
      marker = true;
      payload_type = 96;
      sequence_number = 5;
      timestamp = 9;
      ssrc = 1;
      csrc = 2 ∷ [];
      payload_start = 24;
      payload_end = 26;
    })
unfolding parse_rtp_header variable_header fixed_header csrc_entries skip_extension trim_padding
    read16 read32 at
packet_header = refl

parse_rtp_header-IsInPacket_example : Returns (parse_rtp_header packet) (IsInPacket packet)
parse_rtp_header-IsInPacket_example = parse_rtp_header-IsInPacket packet

stapa_too_long : parse_stapa (24 ∷ 0 ∷ 3 ∷ 1 ∷ 2 ∷ []) ≡ err stapa_bounds
unfolding parse_stapa
stapa_too_long = refl

abbrev two_nalus : List Bytes
two_nalus = (103 ∷ 1 ∷ []) ∷ (104 ∷ []) ∷ []

parse_stapa-aggregate_example : parse_stapa (24 ∷ aggregate two_nalus) ≡ ok two_nalus
parse_stapa-aggregate_example =
    parse_stapa-aggregate 24 two_nalus (omega arith, omega arith, (omega arith, omega arith, tt))
      (λ e. cc)

-- A slice that is aggregated, then one that is fragmented, then one behind a lost packet.
abbrev single : ℕ → ℕ → Bool → Packet
single seq timestamp marker = record {
  header = header_of seq timestamp marker;
  payload = 65 ∷ 1 ∷ [];
  recv_at = seq;
}

abbrev lossy : List Packet
lossy = single 1 90 false ∷ single 3 90 false ∷ single 4 90 true ∷ []

lossy_run : (push_all push lossy new_depacketizer).1 ≡ []
unfolding push_all push on_sequence on_timestamp take_payload append_nalu open_au store_nalu
    maybe_close_on_marker close_au pop_ready
lossy_run = refl

push_all-IsBounded_example :
    IsBounded (push_all (push_of h265) lossy new_depacketizer).0
    × (load (push_all (push_of h265) lossy new_depacketizer).0 ≤ 1)
push_all-IsBounded_example =
    push_all-IsBounded h265 lossy (omega arith, (omega arith, (omega arith, tt)))

-- An aggregation packet of two HEVC NAL units.
hevc_run :
    (push_h265
      (header_of 1 90 true)
      (96 ∷ 1 ∷ 0 ∷ 2 ∷ 64 ∷ 1 ∷ 0 ∷ 1 ∷ 66 ∷ [])
      7
      new_depacketizer).1
    ≡ some (record { nalus = (64 ∷ 1 ∷ []) ∷ (66 ∷ []) ∷ []; received_at = 7 })
unfolding push_h265 take_hevc take_ap parse_h265_ap on_sequence on_timestamp append_nalus
    append_nalu open_au store_nalu maybe_close_on_marker close_au pop_ready
hevc_run = refl

push_all-fragments_example :
    Delivers 101 90
      (omega arith)
      (2 ∷ [], 30)
      (fragments 101 90 65535 (1 ∷ [], 10) ((7 ∷ 8 ∷ [], 20) ∷ []) (2 ∷ [], 30))
      (101 ∷ 1 ∷ 7 ∷ 8 ∷ 2 ∷ [])
      new_depacketizer
unfolding joined
push_all-fragments_example =
    push_all-fragments 101 90 (omega arith) (2 ∷ [], 30) (1 ∷ [], 10) ((7 ∷ 8 ∷ [], 20) ∷ []) 65535
      new_depacketizer (refl, refl, refl, refl, refl, refl) (omega arith)

abbrev opened : Depacketizer
opened = record new_depacketizer {
  have_last_seq = true;
  last_seq = 1;
  au_open = true;
  au_timestamp = 90;
  au_nalus = (65 ∷ 1 ∷ []) ∷ [];
  au_bytes = 2;
}

push_all-LosesPacket_example :
    (push_all (push_of h264) (single 3 90 false ∷ single 4 90 true ∷ []) opened).1 ≡ []
push_all-LosesPacket_example =
    push_all-LosesPacket h264 (single 3 90 false) (single 4 90 true ∷ []) opened
      (refl, refl, refl, inl (refl, λ e. absurd (omega arith)))
      (refl, omega arith, inl refl, (refl, omega arith, inr refl, tt))

ring_run :
    snapshot {F = ℕ} 0 (
      apply_all 0
        (push_frame 1
          ∷ push_frame 2
          ∷ push_frame 3
          ∷ push_frame 4
          ∷ set_capacity 2
          ∷ push_frame 5
          ∷ [])
        (new_ring_buffer 0 3))
    ≡ 4 ∷ 5 ∷ []
unfolding snapshot apply_all new_ring_buffer push_to_ring resize frames_from
ring_run = refl

new-apply_all-Represents_example :
    Represents {F = ℕ} 0 (apply_all 0 (push_frame 1 ∷ set_capacity 0 ∷ []) (new_ring_buffer 0 3)) (
      spec_apply_all
        (push_frame 1 ∷ set_capacity 0 ∷ [])
        (record { frames = []; bound = 3; pushed = 0 }))
new-apply_all-Represents_example =
    new-apply_all-Represents {F = ℕ} 0 3 (push_frame 1 ∷ set_capacity 0 ∷ [])
