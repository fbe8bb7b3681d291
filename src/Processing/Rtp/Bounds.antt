-- ===== src/Processing/Rtp/Bounds.antt =====
-- internal/processing/rtp.go: no read is out of range, and the payload lies in the packet.
use monitoreoedgeis.Prelude.{
  ℕ, zero, suc, ◌+◌, ◌-◌, ◌*◌, ◌≤◌, ◌<◌, ◌≡◌, refl, Bool, true, false, not, ◌||◌, [], ◌∷◌, length,
  ltb, ◌==◌, if◌then◌else◌, arith, if-rule,
}
use monitoreoedgeis.Processing.{Bytes, Run, Returns, Returns->>=, at}
use monitoreoedgeis.Processing.Rtp.{
  RtpHeader, RtpError, read16, read32, fixed_header, csrc_entries, skip_extension, trim_padding,
  variable_header, parse_rtp_header,
}

abbrev Any {ℓ} : {A : Type ℓ} → A → Type 0
Any a = Unit {0}

at_in : (packet : Bytes) (i : ℕ) → i < length packet → Returns (at {E = RtpError} packet i) Any
unfolding at
at_in [] i h = elim h [ ]
at_in (b ∷ bs) zero h = tt
at_in (b ∷ bs) (suc i) h = at_in bs i (omega arith)

read16_in :
    (packet : Bytes) (o : ℕ) → o + 2 ≤ length packet → Returns (read16 {E = RtpError} packet o) Any
unfolding read16
read16_in packet o h =
    Returns->>= Any _ (at packet o) _ (at_in packet o (omega arith)) λ hi _.
      Returns->>= Any _ (at packet (o + 1)) _ (at_in packet (o + 1) (omega arith)) λ lo _. tt

read32_in :
    (packet : Bytes) (o : ℕ) → o + 4 ≤ length packet → Returns (read32 {E = RtpError} packet o) Any
unfolding read32
read32_in packet o h = Returns->>= Any _ (at packet o) _ (at_in packet o (omega arith)) λ b0 _.
    Returns->>= Any _ (at packet (o + 1)) _ (at_in packet (o + 1) (omega arith)) λ b1 _.
      Returns->>= Any _ (at packet (o + 2)) _ (at_in packet (o + 2) (omega arith)) λ b2 _.
        Returns->>= Any _ (at packet (o + 3)) _ (at_in packet (o + 3) (omega arith)) λ b3 _. tt

fixed_header_in : (packet : Bytes) → 12 ≤ length packet → Returns (fixed_header packet) Any
unfolding fixed_header
fixed_header_in packet h = Returns->>= Any _ (at packet 0) _ (at_in packet 0 (omega arith)) λ b0 _.
    Returns->>= Any _ (at packet 1) _ (at_in packet 1 (omega arith)) λ b1 _.
      Returns->>= Any _ (read16 {E = RtpError} packet 2) _ (read16_in packet 2 (omega arith))
        λ seq _.
          Returns->>= Any _ (read32 {E = RtpError} packet 4) _ (read32_in packet 4 (omega arith))
            λ ts _.
              Returns->>= Any _ (read32 {E = RtpError} packet 8) _
                (read32_in packet 8 (omega arith)) λ ssrc _. tt

csrc_entries_in :
    (packet : Bytes) (o n : ℕ)
    → o + n * 4 ≤ length packet
    → Returns (csrc_entries packet o n) (λ entries. length entries ≡ n)
unfolding csrc_entries
csrc_entries_in packet o zero h = refl
csrc_entries_in packet o (suc n) h =
    Returns->>= Any _ (read32 {E = RtpError} packet o) _ (read32_in packet o (omega arith))
      λ entry _.
        Returns->>= _ _ (csrc_entries packet (o + 4) n) _
          (csrc_entries_in packet (o + 4) n (omega arith)) λ entries e. omega arith

-- From the offset on, inside the packet.
abbrev Between : Bytes → ℕ → ℕ → Type 0
Between packet offset o = (offset ≤ o) × (o ≤ length packet)

Returns-if :
    {A : Type 0} (P : A → Type 0) (b : Bool) (x y : Run RtpError A)
    → (b ≡ true → Returns x P)
    → (b ≡ false → Returns y P)
    → Returns (if b then x else y) P
Returns-if P b x y = if-rule (λ r. Returns r P) b {x = x} {y = y}

skip_extension_in :
    (packet : Bytes) (extension : Bool) (offset : ℕ)
    → offset ≤ length packet
    → Returns (skip_extension packet extension offset) (Between packet offset)
unfolding skip_extension
skip_extension_in packet false offset h = (omega arith, h)
skip_extension_in packet true offset h =
    Returns-if (Between packet offset) (ltb (length packet) (offset + 4)) _ _ (λ _. tt)
      λ long.
        Returns->>= Any _ (read16 {E = RtpError} packet (offset + 2)) _
          (read16_in packet (offset + 2) (ground arith))
          λ words _.
            Returns-if (Between packet offset) (ltb (length packet) (offset + (4 + words * 4))) _ _
              (λ _. tt) λ fits. ground arith

trim_padding_in :
    (packet : Bytes) (padding : Bool) (offset : ℕ)
    → 12 ≤ offset
    → offset ≤ length packet
    → Returns (trim_padding packet padding offset) (Between packet offset)
unfolding trim_padding
trim_padding_in packet false offset h k = (k, omega arith)
trim_padding_in packet true offset h k =
    Returns-if (Between packet offset) (length packet == offset) _ _ (λ _. tt)
      λ some_left.
        Returns->>= Any _ (at packet (length packet - 1)) _
          (at_in packet (length packet - 1) (omega arith))
          λ pad_len _.
            Returns-if (Between packet offset)
              (pad_len == 0 || ltb (length packet) (offset + pad_len)) _ _ (λ _. tt)
              λ fits. ground arith

-- The payload lies in the packet, behind the fixed header and the CSRC entries.
abbrev pub IsInPacket : Bytes → RtpHeader → Type 0
IsInPacket packet h =
    (12 + h.csrc_count * 4 ≤ h.payload_start)
    × (h.payload_start ≤ h.payload_end)
    × (h.payload_end ≤ length packet)
    × (length h.csrc ≡ h.csrc_count)
    × (h.version ≡ 2)

variable_header_in :
    (packet : Bytes) (h : RtpHeader)
    → h.version ≡ 2
    → Returns (variable_header packet h) (IsInPacket packet)
unfolding variable_header
variable_header_in packet h v =
    Returns-if (IsInPacket packet) (ltb (length packet) (12 + h.csrc_count * 4)) _ _ (λ _. tt)
      λ fits.
        Returns->>= _ _ (csrc_entries packet 12 h.csrc_count) _
          (csrc_entries_in packet 12 h.csrc_count (ground arith))
          λ csrc counted.
            Returns->>= (Between packet (12 + h.csrc_count * 4)) _
              (skip_extension packet h.extension (12 + h.csrc_count * 4)) _
              (skip_extension_in packet h.extension (12 + h.csrc_count * 4) (ground arith))
              λ offset inside.
                Returns-if (IsInPacket packet) (ltb (length packet) offset) _ _ (λ _. tt)
                  λ _.
                    Returns->>= (Between packet offset) _ (trim_padding packet h.padding offset) _
                      (trim_padding_in packet h.padding offset (omega arith) (omega arith))
                      λ end bounded. (inside.0, bounded.0, bounded.1, counted, v)

-- Parsing a header never indexes the packet out of range, whatever its bytes are, and where it
-- succeeds the version is 2, the declared CSRC entries are read in full, and the payload starts
-- behind the fixed header and those entries and ends inside the packet.
pub parse_rtp_header-IsInPacket :
    (packet : Bytes) → Returns (parse_rtp_header packet) (IsInPacket packet)
unfolding parse_rtp_header
parse_rtp_header-IsInPacket packet =
    Returns-if (IsInPacket packet) (ltb (length packet) 12) _ _ (λ _. tt)
      λ long.
        Returns->>= Any _ (fixed_header packet) _ (fixed_header_in packet (ground arith)) λ h _.
          Returns-if (IsInPacket packet) (not (h.version == 2)) _ _ (λ _. tt)
            λ v. variable_header_in packet h (ground arith)
