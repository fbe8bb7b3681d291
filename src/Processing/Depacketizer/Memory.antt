-- ===== src/Processing/Depacketizer/Memory.antt =====
-- internal/processing/depacketizer.go: what the reassembly keeps in memory, over any packets.
use Prim.Native.Nat.{bit_and}
use monitoreoedgeis.Prelude.{
  ℕ, ◌+◌, ◌≤◌, ◌≡◌, ◌≢◌, refl, Bool, true, false, not, ◌&&◌, List, [], ◌∷◌, ◌++◌, length,
  length-append, ltb, leb, ◌==◌, if-rule, Result, ok, err, arith,
}
use monitoreoedgeis.Processing.{Bytes}
use monitoreoedgeis.Processing.Rtp.{RtpHeader, bit_set}
use monitoreoedgeis.Processing.Stapa.{StapaError, parse_stapa}
use monitoreoedgeis.Processing.Depacketizer.{
  PushPacket, AccessUnit, Depacketizer, Packet, push_all, new_depacketizer, max_access_unit_bytes,
  max_access_unit_nalus, reassembly_error, abandon_oversized_au, open_au, store_nalu, append_nalu,
  append_nalus, close_au, maybe_close_on_marker, pop_ready, pop_from, on_sequence, on_timestamp,
  fua_store, fua_end, handle_fua, take_stapa, take_payload, push,
}

unfoldable pub total : List Bytes → ℕ
total [] = 0
total (n ∷ ns) = length n + total ns

unfoldable pub in_progress : List Bytes → ℕ
in_progress [] = 0
in_progress (n ∷ ns) = 1

total-snoc : (ns : List Bytes) (n : Bytes) → total (ns ++ (n ∷ [])) ≡ total ns + length n
unfolding total
total-snoc [] n = omega arith
total-snoc (m ∷ ns) n = omega (arith, total-snoc ns n)

pub in_progress-le : (ns : List Bytes) → in_progress ns ≤ 1
unfolding in_progress
in_progress-le [] = omega arith
in_progress-le (n ∷ ns) = omega arith

-- The bounds on the access unit and on the fragments, and the size that is kept.
abbrev pub IsBounded : Depacketizer → Type 0
IsBounded d =
    (d.au_bytes ≡ total d.au_nalus)
    × (d.au_bytes ≤ max_access_unit_bytes)
    × (length d.au_nalus ≤ max_access_unit_nalus)
    × (length d.fu_buf ≤ max_access_unit_bytes)

-- Finished access units, and one for an access unit with NAL units in it.
abbrev pub load : Depacketizer → ℕ
load d = length d.ready + in_progress d.au_nalus

-- Bounded, with at most `r` finished access units, and a load of at most `k`.
abbrev pub Holds : ℕ → ℕ → Depacketizer → Type 0
Holds r k d = IsBounded d × (length d.ready ≤ r) × (load d ≤ k)

in_progress-eq-one : (ns : List Bytes) → length ns ≢ 0 → in_progress ns ≡ 1
unfolding in_progress
in_progress-eq-one [] h = absurd (h refl)
in_progress-eq-one (n ∷ ns) h = refl

close_au-Holds : {r k : ℕ} (d : Depacketizer) → Holds r k d → Holds k k (close_au d)
unfolding close_au total in_progress
close_au-Holds d h = ground (
  arith,
  in_progress-eq-one d.au_nalus,
  length-append d.ready (record { nalus = d.au_nalus; received_at = d.au_received_at } ∷ []),
)

pub maybe_close-Holds :
    {r : ℕ} (hdr : RtpHeader) (d : Depacketizer)
    → Holds r (r + 1) d
    → Holds (r + 1) (r + 1) (maybe_close_on_marker hdr d)
unfolding maybe_close_on_marker
maybe_close-Holds {r} hdr d h =
    if-rule (Holds (r + 1) (r + 1)) hdr.marker (λ _. close_au-Holds d h) (λ _. omega arith)

store_nalu-Holds :
    (r : ℕ) (n : Bytes) (d : Depacketizer)
    → IsBounded d
    → length d.ready ≤ r
    → Holds r (r + 1) (store_nalu n d)
unfolding store_nalu abandon_oversized_au total in_progress
store_nalu-Holds r n d h k = ground (
  arith,
  total-snoc d.au_nalus n,
  length-append d.au_nalus (n ∷ []),
  in_progress-le d.au_nalus,
  in_progress-le (d.au_nalus ++ (n ∷ [])),
)

pub append_nalu-Holds :
    {r : ℕ} (n : Bytes) (timestamp recv_at : ℕ) (d : Depacketizer)
    → IsBounded d
    → length d.ready ≤ r
    → Holds r (r + 1) (append_nalu n timestamp recv_at d)
unfolding append_nalu open_au
append_nalu-Holds {r} n timestamp recv_at d h k =
    store_nalu-Holds r n (open_au timestamp recv_at d) (ground arith) (ground arith)

pub append_nalus-Holds :
    {r : ℕ} (ns : List Bytes) (timestamp recv_at : ℕ) (d : Depacketizer)
    → IsBounded d
    → length d.ready ≤ r
    → Holds r (r + 1) (append_nalus ns timestamp recv_at d)
unfolding append_nalus
append_nalus-Holds [] timestamp recv_at d h k = (h, k, omega (arith, in_progress-le d.au_nalus))
append_nalus-Holds (n ∷ ns) timestamp recv_at d h k =
    let step = append_nalu-Holds n timestamp recv_at d h k in
    append_nalus-Holds ns timestamp recv_at (append_nalu n timestamp recv_at d) step.0 step.1

fua_end-Holds :
    (hdr : RtpHeader) (recv_at : ℕ) (d : Depacketizer)
    → IsBounded d
    → length d.ready ≤ 1
    → Holds 2 2 (fua_end hdr recv_at d)
unfolding fua_end reassembly_error
fua_end-Holds hdr recv_at d h k =
    if-rule (Holds 2 2) (not d.fu_active)
      (λ _.
        maybe_close-Holds {r = 1} hdr (reassembly_error d)
          (omega (arith, in_progress-le d.au_nalus)))
      (λ _. maybe_close-Holds {r = 1} hdr _ (
        append_nalu-Holds (d.fu_nal_header ++ d.fu_buf) hdr.timestamp recv_at
          (record d { fu_active = false; fu_buf = [] }) (omega arith) k))

-- Where the end bit is still to be looked at, no access unit was closed.
abbrev pub Stored : Depacketizer × Bool → Type 0
Stored p = Holds 2 2 p.0 × (p.1 ≡ true → length p.0.ready ≤ 1)

fua_store-Stored :
    (ind header : ℕ) (body : Bytes) (hdr : RtpHeader) (d : Depacketizer)
    → length body ≤ max_access_unit_bytes
    → IsBounded d
    → length d.ready ≤ 1
    → Stored (fua_store ind header body hdr d)
unfolding fua_store reassembly_error abandon_oversized_au total in_progress
fua_store-Stored ind header body hdr d small h k =
    if-rule Stored (bit_set header 0x80) (λ _. ground (arith, in_progress-le d.au_nalus))
      λ _.
        if-rule Stored (not d.fu_active)
          (λ _. (
            maybe_close-Holds {r = 1} hdr (reassembly_error d)
                (omega (arith, in_progress-le d.au_nalus)),
            λ e. cc,
          ))
          λ _.
            if-rule Stored (ltb max_access_unit_bytes (length d.fu_buf + length body))
              (λ _. (maybe_close-Holds {r = 1} hdr _ (omega arith), λ e. cc))
              (λ fits. ground (arith, in_progress-le d.au_nalus, length-append d.fu_buf body))

take_stapa-Holds :
    (parsed : Result StapaError (List Bytes)) (hdr : RtpHeader) (recv_at : ℕ) (d : Depacketizer)
    → IsBounded d
    → length d.ready ≤ 1
    → Holds 2 2 (take_stapa parsed hdr recv_at d)
unfolding take_stapa reassembly_error
take_stapa-Holds (err e) hdr recv_at d h k =
    maybe_close-Holds {r = 1} hdr (reassembly_error d) (omega (arith, in_progress-le d.au_nalus))
take_stapa-Holds (ok nalus) hdr recv_at d h k =
    maybe_close-Holds {r = 1} hdr _ (append_nalus-Holds nalus hdr.timestamp recv_at d h k)

pop_from-Holds :
    (d : Depacketizer) (aus : List AccessUnit)
    → Holds 2 2 (record d { ready = aus })
    → Holds 1 1 (pop_from (record d { ready = aus }) aus).0
unfolding pop_from
pop_from-Holds d [] h = omega (arith, in_progress-le d.au_nalus)
pop_from-Holds d (au ∷ aus) h = omega arith

handle_fua-Holds :
    (payload : Bytes) (hdr : RtpHeader) (recv_at : ℕ) (d : Depacketizer)
    → length payload ≤ max_access_unit_bytes + 2
    → IsBounded d
    → length d.ready ≤ 1
    → Holds 2 2 (handle_fua payload hdr recv_at d)
unfolding handle_fua reassembly_error
handle_fua-Holds [] hdr recv_at d small h k = omega (arith, in_progress-le d.au_nalus)
handle_fua-Holds (b ∷ []) hdr recv_at d small h k = omega (arith, in_progress-le d.au_nalus)
handle_fua-Holds (ind ∷ header ∷ body) hdr recv_at d small h k =
    let stored = fua_store-Stored ind header body hdr d (omega arith) h k in
    if-rule (Holds 2 2) ((fua_store ind header body hdr d).1 && bit_set header 0x40)
      (λ goes_on.
        fua_end-Holds hdr recv_at (fua_store ind header body hdr d).0 stored.0.0
          (stored.1 (ground arith)))
      (λ _. stored.0)

take_payload-Holds :
    (nal_type : ℕ) (payload : Bytes) (hdr : RtpHeader) (recv_at : ℕ) (d : Depacketizer)
    → length payload ≤ max_access_unit_bytes + 2
    → IsBounded d
    → length d.ready ≤ 1
    → Holds 2 2 (take_payload nal_type payload hdr recv_at d)
unfolding take_payload
take_payload-Holds nal_type payload hdr recv_at d small h k =
    if-rule (Holds 2 2) (nal_type == 24)
      (λ _. take_stapa-Holds (parse_stapa payload) hdr recv_at d h k)
      λ _.
        if-rule (Holds 2 2) (nal_type == 28) (λ _. handle_fua-Holds payload hdr recv_at d small h k)
          λ _.
            if-rule (Holds 2 2) (leb 1 nal_type && leb nal_type 23)
              (λ _.
                maybe_close-Holds {r = 1} hdr _
                  (append_nalu-Holds payload hdr.timestamp recv_at d h k))
              (λ _. maybe_close-Holds {r = 1} hdr _ (omega (arith, in_progress-le d.au_nalus)))

pop_ready-Holds : (d : Depacketizer) → Holds 2 2 d → Holds 1 1 (pop_ready d).0
unfolding pop_ready
pop_ready-Holds d h = pop_from-Holds d d.ready h

on_sequence-Holds :
    (hdr : RtpHeader) (d : Depacketizer) → Holds 1 1 d → Holds 1 1 (on_sequence hdr d)
unfolding on_sequence
on_sequence-Holds hdr d h = ground arith

on_timestamp-Holds :
    (hdr : RtpHeader) (d : Depacketizer) → Holds 1 1 d → Holds 1 1 (on_timestamp hdr d)
unfolding on_timestamp
on_timestamp-Holds hdr d h =
    if-rule (Holds 1 1) (d.au_open && not (hdr.timestamp == d.au_timestamp))
      (λ _. close_au-Holds d h) (λ _. h)

-- `Push` keeps the bounds, where the payload has at most 8 MiB and 2 bytes.
abbrev pub KeepsBounds : PushPacket → Type 0
KeepsBounds push_packet =
    (hdr : RtpHeader) (payload : Bytes) (recv_at : ℕ) (d : Depacketizer)
    → length payload ≤ max_access_unit_bytes + 2
    → IsBounded d × (load d ≤ 1)
    → IsBounded (push_packet hdr payload recv_at d).0
      × (load (push_packet hdr payload recv_at d).0 ≤ 1)

pub ignored_packet :
    (d : Depacketizer)
    → IsBounded d × (load d ≤ 1)
    → IsBounded (pop_ready (reassembly_error d)).0 × (load (pop_ready (reassembly_error d)).0 ≤ 1)
unfolding reassembly_error
ignored_packet d h =
    let after = pop_ready-Holds (reassembly_error d) (omega arith) in (after.0, after.2)

-- A packet whose payload is looked at, once `take` keeps the bounds.
pub taken_packet :
    (hdr : RtpHeader) (take : Depacketizer → Depacketizer) (d : Depacketizer)
    → ((d' : Depacketizer) → IsBounded d' → length d'.ready ≤ 1 → Holds 2 2 (take d'))
    → IsBounded d × (load d ≤ 1)
    → IsBounded (pop_ready (take (on_timestamp hdr (on_sequence hdr d)))).0
      × (load (pop_ready (take (on_timestamp hdr (on_sequence hdr d)))).0 ≤ 1)
taken_packet hdr take d takes h =
    let before = on_timestamp-Holds hdr _ (on_sequence-Holds hdr d (omega arith)) in
    let after = pop_ready-Holds _ (takes _ before.0 before.1) in (after.0, after.2)

pub push-KeepsBounds : KeepsBounds push
unfolding push
push-KeepsBounds hdr [] recv_at d small h = ignored_packet d h
push-KeepsBounds hdr (b ∷ bs) recv_at d small h =
    taken_packet hdr (take_payload (bit_and b 0x1F) (b ∷ bs) hdr recv_at) d
      (λ d'. take_payload-Holds (bit_and b 0x1F) (b ∷ bs) hdr recv_at d' small) h

-- Packets whose payloads `Push` is given at a bounded size.
abbrev pub AreSmall : List Packet → Type 0
AreSmall [] = Unit {0}
AreSmall (p ∷ ps) = (length p.payload ≤ max_access_unit_bytes + 2) × AreSmall ps

push_all_keeps :
    (push_packet : PushPacket) (ps : List Packet) (d : Depacketizer)
    → KeepsBounds push_packet
    → AreSmall ps
    → IsBounded d × (load d ≤ 1)
    → IsBounded (push_all push_packet ps d).0 × (load (push_all push_packet ps d).0 ≤ 1)
unfolding push_all
push_all_keeps push_packet [] d keeps small h = h
push_all_keeps push_packet (p ∷ ps) d keeps small h =
    push_all_keeps push_packet ps _ keeps small.1 (keeps p.header p.payload p.recv_at d small.0 h)

pub push_all-keeps :
    (push_packet : PushPacket) (ps : List Packet)
    → KeepsBounds push_packet
    → AreSmall ps
    → IsBounded (push_all push_packet ps new_depacketizer).0
      × (load (push_all push_packet ps new_depacketizer).0 ≤ 1)
unfolding total in_progress
push_all-keeps push_packet ps keeps small =
    push_all_keeps push_packet ps new_depacketizer keeps small (omega arith)
