-- ===== src/Processing/H265.antt =====
-- internal/processing/depacketizer_h265.go: HEVC access units out of RTP packets. What is the same
-- there as in depacketizer.go is `Depacketizer`: the state and its access unit.
pub mod Memory
pub mod Loss
use Prim.Native.Nat.{bit_and, bit_or}
use mathlib.Core.WellFounded.{Acc}
use monitoreoedgeis.Prelude.{
  ℕ, suc, ◌+◌, ◌*◌, ◌/◌, ◌^◌, Bool, true, false, not, ◌&&◌, ◌||◌, Option, none, some, List, [], ◌∷◌,
  ◌++◌, length, take, drop, ltb, leb, ◌==◌, if◌then◌else◌,
}
use monitoreoedgeis.Processing.{Bytes}
use monitoreoedgeis.Processing.Rtp.{RtpHeader, bit_set}
use monitoreoedgeis.Processing.Stapa.{IsShorter, all_shorter, drop_shorter}
use monitoreoedgeis.Processing.Depacketizer.{
  AccessUnit, Depacketizer, max_access_unit_bytes, reassembly_error, abandon_oversized_au,
  append_nalu, append_nalus, maybe_close_on_marker, pop_ready, on_sequence, on_timestamp,
}

abbrev nal_type_ap : ℕ
nal_type_ap = 48

abbrev nal_type_fu : ℕ
nal_type_fu = 49

unfoldable pub some_nalus : List Bytes → Option (List Bytes)
some_nalus [] = none
some_nalus (n ∷ ns) = some (n ∷ ns)

-- The loop of `parseH265AP` on the bytes from `offset` on; a byte that is left over is an error.
unfoldable pub ap_loop : (rest : Bytes) → Acc IsShorter rest → List Bytes → Option (List Bytes)
ap_loop [] w nalus = some_nalus nalus
ap_loop (b ∷ []) w nalus = none
ap_loop (hi ∷ lo ∷ rest) (Acc.intro _ inner) nalus =
    let size = hi * 2 ^ 8 + lo in
    let later =
      ap_loop (drop size rest) (inner (drop size rest) (drop_shorter size hi lo rest))
        (nalus ++ (take size rest ∷ [])) in
    if size == 0 || ltb (length rest) size then none else later

-- `parseH265AP`.
unfoldable pub parse_h265_ap : Bytes → Option (List Bytes)
unfolding ap_loop some_nalus all_shorter
parse_h265_ap payload = ap_loop (drop 2 payload) (all_shorter (drop 2 payload)) []

-- The first half of `handleFU`; the Boolean tells that it goes on to the end bit.
unfoldable pub fu_store : ℕ → ℕ → ℕ → Bytes → RtpHeader → Depacketizer → Depacketizer × Bool
unfolding reassembly_error abandon_oversized_au
fu_store b0 b1 fu_header fragment hdr d =
    if bit_set fu_header 0x80
    then (
      record (if d.fu_active then reassembly_error d else d) {
        fu_active = true;
        fu_nal_header = bit_or (bit_and b0 0x81) (bit_and fu_header 0x3f * 2) ∷ b1 ∷ [];
        fu_buf = fragment;
      },
      true,
    )
    else if not d.fu_active
    then (maybe_close_on_marker hdr (reassembly_error d), false)
    else if ltb max_access_unit_bytes (length d.fu_buf + length fragment + 2)
    then (
      maybe_close_on_marker hdr
          (abandon_oversized_au (reassembly_error (record d { fu_active = false; fu_buf = [] }))),
      false,
    )
    else (record d { fu_buf = d.fu_buf ++ fragment }, true)

unfoldable pub fu_end : RtpHeader → ℕ → Depacketizer → Depacketizer
fu_end hdr recv_at d =
    if not d.fu_active
    then maybe_close_on_marker hdr (reassembly_error d)
    else maybe_close_on_marker hdr (
        append_nalu (d.fu_nal_header ++ d.fu_buf) hdr.timestamp recv_at
          (record d { fu_active = false; fu_buf = [] }))

unfoldable pub short_fu : RtpHeader → Depacketizer → Depacketizer
unfolding reassembly_error
short_fu hdr d = maybe_close_on_marker hdr (reassembly_error d)

-- `handleFU`, which wants four bytes at least.
unfoldable pub handle_fu : Bytes → RtpHeader → ℕ → Depacketizer → Depacketizer
unfolding short_fu
handle_fu [] hdr recv_at d = short_fu hdr d
handle_fu (a ∷ []) hdr recv_at d = short_fu hdr d
handle_fu (a ∷ b ∷ []) hdr recv_at d = short_fu hdr d
handle_fu (a ∷ b ∷ c ∷ []) hdr recv_at d = short_fu hdr d
handle_fu (b0 ∷ b1 ∷ fu_header ∷ f ∷ fs) hdr recv_at d =
    let (d', go_on) = fu_store b0 b1 fu_header (f ∷ fs) hdr d in
    if go_on && bit_set fu_header 0x40 then fu_end hdr recv_at d' else d'

unfoldable pub take_ap : Option (List Bytes) → RtpHeader → ℕ → Depacketizer → Depacketizer
take_ap none hdr recv_at d = maybe_close_on_marker hdr (reassembly_error d)
take_ap (some nalus) hdr recv_at d =
    maybe_close_on_marker hdr (append_nalus nalus hdr.timestamp recv_at d)

-- The `switch` of `Push`; PACI and the reserved types are counted alike.
unfoldable pub take_hevc : ℕ → Bytes → RtpHeader → ℕ → Depacketizer → Depacketizer
take_hevc nal_type payload hdr recv_at d =
    if leb nal_type 47
    then maybe_close_on_marker hdr (append_nalu payload hdr.timestamp recv_at d)
    else if nal_type == nal_type_ap
    then take_ap (parse_h265_ap payload) hdr recv_at d
    else if nal_type == nal_type_fu
    then handle_fu payload hdr recv_at d
    else maybe_close_on_marker hdr
        (record d { unsupported_nal_types = suc d.unsupported_nal_types })

-- `Push`.
unfoldable pub push_h265 : RtpHeader → Bytes → ℕ → Depacketizer → Depacketizer × Option AccessUnit
push_h265 hdr [] recv_at d = pop_ready (reassembly_error d)
push_h265 hdr (b ∷ []) recv_at d = pop_ready (reassembly_error d)
push_h265 hdr (b0 ∷ b1 ∷ bs) recv_at d = pop_ready (
    take_hevc (bit_and (b0 / 2) 0x3f) (b0 ∷ b1 ∷ bs) hdr recv_at
      (on_timestamp hdr (on_sequence hdr d)))
