-- ===== src/Processing/Reassembly.antt =====
-- internal/processing/pipeline.go: the depacketizer of a camera's codec, over any packets.
use monitoreoedgeis.Prelude.{ℕ, ◌≤◌, ◌≡◌, List, [], ◌∷◌}
use monitoreoedgeis.Processing.Depacketizer.{
  Depacketizer, Packet, PushPacket, push, push_all, new_depacketizer,
}
use monitoreoedgeis.Processing.Depacketizer.Memory.{
  IsBounded, load, AreSmall, KeepsBounds, push-KeepsBounds, push_all-keeps,
}
use monitoreoedgeis.Processing.Depacketizer.Loss.{
  LosesPacket, AreOneUnit, DiscardsLoss, push-DiscardsLoss, push_all-discards,
}
use monitoreoedgeis.Processing.H265.{push_h265}
use monitoreoedgeis.Processing.H265.Memory.{push_h265-KeepsBounds}
use monitoreoedgeis.Processing.H265.Loss.{push_h265-DiscardsLoss}

pub data Codec : Type 0 where
  h264 h265 : Codec

-- The `RTPDepacketizer` that the pipeline chooses.
unfoldable pub push_of : Codec → PushPacket
push_of h264 = push
push_of h265 = push_h265

-- The shortest payload that `Push` looks at.
abbrev pub shortest_payload : Codec → ℕ
shortest_payload h264 = 1
shortest_payload h265 = 2

push_of-KeepsBounds : (codec : Codec) → KeepsBounds (push_of codec)
unfolding push_of
push_of-KeepsBounds h264 = push-KeepsBounds
push_of-KeepsBounds h265 = push_h265-KeepsBounds

push_of-DiscardsLoss : (codec : Codec) → DiscardsLoss (push_of codec) (shortest_payload codec)
unfolding push_of
push_of-DiscardsLoss h264 = push-DiscardsLoss
push_of-DiscardsLoss h265 = push_h265-DiscardsLoss

-- Whatever packets a new depacketizer of either codec is pushed, in whatever order, with payloads of
-- at most 8 MiB and 2 bytes: its access unit holds at most 8 MiB in at most 4096 NAL units, with the
-- size counted right, its fragments at most 8 MiB, and at most one access unit is finished and not yet
-- returned or has NAL units in it, never both.
pub push_all-IsBounded :
    (codec : Codec) (ps : List Packet)
    → AreSmall ps
    → IsBounded (push_all (push_of codec) ps new_depacketizer).0
      × (load (push_all (push_of codec) ps new_depacketizer).0 ≤ 1)
push_all-IsBounded codec ps small =
    push_all-keeps (push_of codec) ps (push_of-KeepsBounds codec) small

-- A lost packet costs its whole access unit, with either codec: where an access unit is open and none
-- waits, and the next packet of the same timestamp has a payload that `Push` looks at and a sequence
-- number that does not follow, or an earlier one of the unit had, then neither it nor such further
-- packets of that timestamp up to the marker make `Push` return an access unit.
pub push_all-LosesPacket :
    (codec : Codec) (p : Packet) (ps : List Packet) (d : Depacketizer)
    → LosesPacket p.header d
    → AreOneUnit (shortest_payload codec) p.header.timestamp (p ∷ ps)
    → (push_all (push_of codec) (p ∷ ps) d).1 ≡ []
push_all-LosesPacket codec p ps d =
    push_all-discards (push_of codec) (shortest_payload codec) (push_of-DiscardsLoss codec) p ps d
