-- ===== src/Processing/Rtp.antt =====
-- internal/processing/rtp.go: the RTP packet header.
pub mod Bounds
use Prim.Native.Nat.{bit_and}
use monitoreoedgeis.Prelude.{
  ℕ, zero, suc, ◌+◌, ◌-◌, ◌*◌, ◌/◌, ◌^◌, Bool, not, ◌||◌, List, [], ◌∷◌, length, ltb, ◌==◌,
  if◌then◌else◌,
}
use monitoreoedgeis.Processing.{Bytes, Run, done, refused, ◌>>=◌, at}

-- `CSRC` is a list; `payload_start` and `payload_end` bound the payload in the packet.
pub record RtpHeader : Type 0 where
  pub version : ℕ
  pub padding : Bool
  pub extension : Bool
  pub csrc_count : ℕ
  pub marker : Bool
  pub payload_type : ℕ
  pub sequence_number : ℕ
  pub timestamp : ℕ
  pub ssrc : ℕ
  pub csrc : List ℕ
  pub payload_start : ℕ
  pub payload_end : ℕ

-- The errors of `ParseRTPHeader`, with the numbers that their messages name.
pub data RtpError : Type 0 where
  too_short : ℕ → RtpError
  unsupported_version : ℕ → RtpError
  short_csrc : ℕ → RtpError
  short_extension : RtpError
  short_extension_length : RtpError
  offset_exceeds : ℕ → ℕ → RtpError
  padding_without_payload : RtpError
  invalid_padding : ℕ → RtpError

abbrev pub fixed_header_len : ℕ
fixed_header_len = 12

-- `b & mask != 0`.
abbrev pub bit_set : ℕ → ℕ → Bool
bit_set b mask = not (bit_and b mask == 0)

-- Big-endian numbers; the bytes do not overlap, so `|` is `+`.
unfoldable pub read16 : {E : Type 0} → Bytes → ℕ → Run E ℕ
read16 packet o = do hi ← at packet o; lo ← at packet (o + 1); done (hi * 2 ^ 8 + lo)

unfoldable pub read32 : {E : Type 0} → Bytes → ℕ → Run E ℕ
read32 packet o = do
  b0 ← at packet o
  b1 ← at packet (o + 1)
  b2 ← at packet (o + 2)
  b3 ← at packet (o + 3)
  done (b0 * 2 ^ 24 + b1 * 2 ^ 16 + b2 * 2 ^ 8 + b3)

-- The fixed fields, before the version is looked at.
unfoldable pub fixed_header : Bytes → Run RtpError RtpHeader
fixed_header packet = do
  b0 ← at packet 0
  b1 ← at packet 1
  seq ← read16 packet 2
  timestamp ← read32 packet 4
  ssrc ← read32 packet 8
  done (record {
    version = b0 / 2 ^ 6;
    padding = bit_set b0 0x20;
    extension = bit_set b0 0x10;
    csrc_count = bit_and b0 0x0F;
    marker = bit_set b1 0x80;
    payload_type = bit_and b1 0x7F;
    sequence_number = seq;
    timestamp = timestamp;
    ssrc = ssrc;
    csrc = [];
    payload_start = 0;
    payload_end = 0;
  })

-- The loop over the CSRC entries, from offset `o` on.
unfoldable pub csrc_entries : Bytes → ℕ → ℕ → Run RtpError (List ℕ)
csrc_entries packet o zero = done []
csrc_entries packet o (suc n) = do
  entry ← read32 packet o
  entries ← csrc_entries packet (o + 4) n
  done (entry ∷ entries)

-- The header extension: the offset behind it.
unfoldable pub skip_extension : Bytes → Bool → ℕ → Run RtpError ℕ
skip_extension packet extension offset =
    if extension
    then if ltb (length packet) (offset + 4) then refused short_extension else (do
      ext_len_words ← read16 packet (offset + 2)
      if ltb (length packet) (offset + (4 + ext_len_words * 4))
          then refused short_extension_length
          else done (offset + (4 + ext_len_words * 4)))
    else done offset

-- The end of the payload, less the padding.
unfoldable pub trim_padding : Bytes → Bool → ℕ → Run RtpError ℕ
trim_padding packet padding offset =
    if padding
    then if length packet == offset then refused padding_without_payload else (do
      pad_len ← at packet (length packet - 1)
      if pad_len == 0 || ltb (length packet) (offset + pad_len)
          then refused (invalid_padding pad_len)
          else done (length packet - pad_len))
    else done (length packet)

-- What follows the check of the version.
unfoldable pub variable_header : Bytes → RtpHeader → Run RtpError RtpHeader
variable_header packet h =
    if ltb (length packet) (fixed_header_len + h.csrc_count * 4)
    then refused (short_csrc h.csrc_count)
    else do
      csrc ← csrc_entries packet fixed_header_len h.csrc_count
      offset ← skip_extension packet h.extension (fixed_header_len + h.csrc_count * 4)
      if ltb (length packet) offset then refused (offset_exceeds offset (length packet)) else do
        end ← trim_padding packet h.padding offset
        done (record h { csrc = csrc; payload_start = offset; payload_end = end })

-- `ParseRTPHeader`.
unfoldable pub parse_rtp_header : Bytes → Run RtpError RtpHeader
parse_rtp_header packet =
    if ltb (length packet) fixed_header_len then refused (too_short (length packet)) else do
      h ← fixed_header packet
      if not (h.version == 2)
          then refused (unsupported_version h.version)
          else variable_header packet h
