-- ===== src/Processing/Depacketizer.antt =====
-- internal/processing/depacketizer.go: H.264 access units out of RTP packets.
-- That slices share memory with the packet is left out: no byte of it is written to.
pub mod Memory
pub mod Bits
pub mod Steps
pub mod Fragments
pub mod Loss
use Prim.Native.Nat.{bit_and, bit_or}
use monitoreoedgeis.Prelude.{
  ℕ, zero, suc, ◌+◌, ◌*◌, ◌%◌, ◌^◌, Bool, true, false, not, ◌&&◌, ◌||◌, Option, none, some, List,
  [], ◌∷◌, ◌++◌, length, ltb, leb, ◌==◌, if◌then◌else◌, Result, ok, err,
}
use monitoreoedgeis.Processing.{Bytes}
use monitoreoedgeis.Processing.Rtp.{RtpHeader, bit_set}
use monitoreoedgeis.Processing.Stapa.{StapaError, parse_stapa}

abbrev pub nal_type_stapa : ℕ
nal_type_stapa = 24

abbrev pub nal_type_fua : ℕ
nal_type_fua = 28

abbrev pub max_access_unit_bytes : ℕ
max_access_unit_bytes = 8 * 2 ^ 20

abbrev pub max_access_unit_nalus : ℕ
max_access_unit_nalus = 4096

-- Times are nanoseconds since Go's zero time.
pub record AccessUnit : Type 0 where
  pub nalus : List Bytes
  pub received_at : ℕ

-- `H264Depacketizer`, and `H265Depacketizer`, whose `fuHeader` has two bytes where `fuNALHeader` has one.
pub record Depacketizer : Type 0 where
  pub have_last_seq : Bool
  pub last_seq : ℕ
  pub au_nalus : List Bytes
  pub au_bytes : ℕ
  pub au_received_at : ℕ
  pub au_timestamp : ℕ
  pub au_open : Bool
  pub au_corrupt : Bool
  pub au_overflow : Bool
  pub fu_active : Bool
  pub fu_nal_header : Bytes
  pub fu_buf : Bytes
  pub ready : List AccessUnit
  pub incomplete_aus_dropped : ℕ
  pub reassembly_errors : ℕ
  pub unsupported_nal_types : ℕ
  pub oversized_aus_dropped : ℕ

-- `NewH264Depacketizer`.
abbrev pub new_depacketizer : Depacketizer
new_depacketizer = record {
  have_last_seq = false;
  last_seq = 0;
  au_nalus = [];
  au_bytes = 0;
  au_received_at = 0;
  au_timestamp = 0;
  au_open = false;
  au_corrupt = false;
  au_overflow = false;
  fu_active = false;
  fu_nal_header = [];
  fu_buf = [];
  ready = [];
  incomplete_aus_dropped = 0;
  reassembly_errors = 0;
  unsupported_nal_types = 0;
  oversized_aus_dropped = 0;
}

unfoldable pub reassembly_error : Depacketizer → Depacketizer
reassembly_error d = record d { reassembly_errors = suc d.reassembly_errors }

unfoldable pub abandon_oversized_au : Depacketizer → Depacketizer
abandon_oversized_au d = record d {
  au_open = true;
  au_overflow = true;
  au_nalus = [];
  au_bytes = 0;
}

unfoldable pub open_au : ℕ → ℕ → Depacketizer → Depacketizer
open_au timestamp recv_at d =
    if d.au_open
    then d
    else record d { au_open = true; au_received_at = recv_at; au_timestamp = timestamp }

-- `appendNALU` once the access unit is open.
unfoldable pub store_nalu : Bytes → Depacketizer → Depacketizer
store_nalu nalu d =
    if d.au_overflow
    then d
    else if ltb max_access_unit_bytes (d.au_bytes + length nalu)
        || leb max_access_unit_nalus (length d.au_nalus)
    then abandon_oversized_au d
    else record d { au_nalus = d.au_nalus ++ (nalu ∷ []); au_bytes = d.au_bytes + length nalu }

unfoldable pub append_nalu : Bytes → ℕ → ℕ → Depacketizer → Depacketizer
append_nalu nalu timestamp recv_at d = store_nalu nalu (open_au timestamp recv_at d)

-- The loop over the NAL units of a STAP-A packet.
unfoldable pub append_nalus : List Bytes → ℕ → ℕ → Depacketizer → Depacketizer
append_nalus [] timestamp recv_at d = d
append_nalus (n ∷ ns) timestamp recv_at d =
    append_nalus ns timestamp recv_at (append_nalu n timestamp recv_at d)

unfoldable pub reset_au_state : Depacketizer → Depacketizer
reset_au_state d = record d {
  au_nalus = [];
  au_bytes = 0;
  au_open = false;
  au_corrupt = false;
  au_overflow = false;
  au_timestamp = 0;
}

-- `closeAU`, and what its two callers do with the access unit: it joins `ready`.
unfoldable pub close_au : Depacketizer → Depacketizer
unfolding reset_au_state
close_au d =
    if d.au_overflow
    then reset_au_state (record d { oversized_aus_dropped = suc d.oversized_aus_dropped })
    else if d.au_corrupt
    then reset_au_state (record d { incomplete_aus_dropped = suc d.incomplete_aus_dropped })
    else if length d.au_nalus == 0
    then reset_au_state d
    else reset_au_state (record d {
      ready = d.ready ++ (record { nalus = d.au_nalus; received_at = d.au_received_at } ∷ []);
    })

unfoldable pub maybe_close_on_marker : RtpHeader → Depacketizer → Depacketizer
maybe_close_on_marker hdr d = if hdr.marker then close_au d else d

unfoldable pub pop_from : Depacketizer → List AccessUnit → Depacketizer × Option AccessUnit
pop_from d [] = (d, none)
pop_from d (au ∷ aus) = (record d { ready = aus }, some au)

unfoldable pub pop_ready : Depacketizer → Depacketizer × Option AccessUnit
unfolding pop_from
pop_ready d = pop_from d d.ready

-- `checkSequenceGap`; the sequence number is a uint16.
unfoldable pub check_sequence_gap : ℕ → Depacketizer → Depacketizer × Bool
check_sequence_gap seq d =
    if d.have_last_seq
    then (record d { last_seq = seq }, not (seq == (d.last_seq + 1) % 2 ^ 16))
    else (record d { have_last_seq = true; last_seq = seq }, false)

-- What `Push` does first with the packet's sequence number.
unfoldable pub on_sequence : RtpHeader → Depacketizer → Depacketizer
unfolding check_sequence_gap
on_sequence hdr d =
    let (d', gap) = check_sequence_gap hdr.sequence_number d in
    if gap
    then record d' { fu_active = false; fu_buf = []; au_corrupt = d'.au_open || d'.au_corrupt }
    else d'

-- And then with its timestamp.
unfoldable pub on_timestamp : RtpHeader → Depacketizer → Depacketizer
on_timestamp hdr d = if d.au_open && not (hdr.timestamp == d.au_timestamp) then close_au d else d

-- The first half of `handleFUA`; the Boolean tells that it goes on to the end bit.
unfoldable pub fua_store : ℕ → ℕ → Bytes → RtpHeader → Depacketizer → Depacketizer × Bool
unfolding reassembly_error abandon_oversized_au
fua_store fu_indicator fu_header body hdr d =
    if bit_set fu_header 0x80
    then (
      record (if d.fu_active then reassembly_error d else d) {
        fu_active = true;
        fu_nal_header = bit_or (bit_and fu_indicator 0xE0) (bit_and fu_header 0x1F) ∷ [];
        fu_buf = body;
      },
      true,
    )
    else if not d.fu_active
    then (maybe_close_on_marker hdr (reassembly_error d), false)
    else if ltb max_access_unit_bytes (length d.fu_buf + length body)
    then (
      maybe_close_on_marker hdr
          (abandon_oversized_au (reassembly_error (record d { fu_active = false; fu_buf = [] }))),
      false,
    )
    else (record d { fu_buf = d.fu_buf ++ body }, true)

-- The end bit: the fragments become a NAL unit.
unfoldable pub fua_end : RtpHeader → ℕ → Depacketizer → Depacketizer
fua_end hdr recv_at d =
    if not d.fu_active
    then maybe_close_on_marker hdr (reassembly_error d)
    else maybe_close_on_marker hdr (
        append_nalu (d.fu_nal_header ++ d.fu_buf) hdr.timestamp recv_at
          (record d { fu_active = false; fu_buf = [] }))

unfoldable pub handle_fua : Bytes → RtpHeader → ℕ → Depacketizer → Depacketizer
handle_fua [] hdr recv_at d = reassembly_error d
handle_fua (b ∷ []) hdr recv_at d = reassembly_error d
handle_fua (fu_indicator ∷ fu_header ∷ body) hdr recv_at d =
    let (d', go_on) = fua_store fu_indicator fu_header body hdr d in
    if go_on && bit_set fu_header 0x40 then fua_end hdr recv_at d' else d'

unfoldable pub take_stapa :
    Result StapaError (List Bytes) → RtpHeader → ℕ → Depacketizer → Depacketizer
take_stapa (err e) hdr recv_at d = maybe_close_on_marker hdr (reassembly_error d)
take_stapa (ok nalus) hdr recv_at d =
    maybe_close_on_marker hdr (append_nalus nalus hdr.timestamp recv_at d)

-- The `switch` of `Push` on the type of the NAL unit.
unfoldable pub take_payload : ℕ → Bytes → RtpHeader → ℕ → Depacketizer → Depacketizer
take_payload nal_type payload hdr recv_at d =
    if nal_type == nal_type_stapa
    then take_stapa (parse_stapa payload) hdr recv_at d
    else if nal_type == nal_type_fua
    then handle_fua payload hdr recv_at d
    else if leb 1 nal_type && leb nal_type 23
    then maybe_close_on_marker hdr (append_nalu payload hdr.timestamp recv_at d)
    else maybe_close_on_marker hdr
        (record d { unsupported_nal_types = suc d.unsupported_nal_types })

-- `Push`.
unfoldable pub push : RtpHeader → Bytes → ℕ → Depacketizer → Depacketizer × Option AccessUnit
push hdr [] recv_at d = pop_ready (reassembly_error d)
push hdr (b ∷ bs) recv_at d =
    pop_ready
      (take_payload (bit_and b 0x1F) (b ∷ bs) hdr recv_at (on_timestamp hdr (on_sequence hdr d)))

-- A packet as `Push` takes it, with its arrival.
pub record Packet : Type 0 where
  pub header : RtpHeader
  pub payload : Bytes
  pub recv_at : ℕ

unfoldable pub delivered : Option AccessUnit → List AccessUnit → List AccessUnit
delivered none aus = aus
delivered (some au) aus = au ∷ aus

-- `RTPDepacketizer.Push`.
abbrev pub PushPacket : Type 0
PushPacket = RtpHeader → Bytes → ℕ → Depacketizer → Depacketizer × Option AccessUnit

-- Packets one after another: the last state, and the access units that `Push` returned, in order.
unfoldable pub push_all : PushPacket → List Packet → Depacketizer → Depacketizer × List AccessUnit
unfolding delivered
push_all push_packet [] d = (d, [])
push_all push_packet (p ∷ ps) d =
    let (d', au) = push_packet p.header p.payload p.recv_at d in
    let (d'', aus) = push_all push_packet ps d' in (d'', delivered au aus)
