-- ===== src/Processing/Depacketizer/Bits.antt =====
-- The bits of an FU-A fragment's first two bytes, for every header byte of a NAL unit.
use Prim.Native.Nat.{bit_and, bit_or}
use monitoreoedgeis.Prelude.{
  Bool-cases, ==_iff, inl, inr, ◌≤◌, if◌then◌else◌, ℕ, zero, suc, ◌<◌, ◌≡◌, refl, Bool, true, false,
  not, ◌&&◌, ◌==◌, if◌then◌else◌, arith,
}
use monitoreoedgeis.Processing.Rtp.{bit_set}

-- The two bytes in front of a fragment of a NAL unit with header byte `h`; `flags` are its start and
-- end bits.
abbrev pub fu_indicator : ℕ → ℕ
fu_indicator h = bit_or (bit_and h 0xE0) 28

abbrev pub fu_header : ℕ → ℕ → ℕ
fu_header flags h = bit_or flags (bit_and h 0x1F)

-- The test passes for a byte and for all smaller ones.
passes_to : (ℕ → Bool) → ℕ → Bool
passes_to test zero = test 0
passes_to test (suc top) = if test (suc top) then passes_to test top else false

passes_to-at :
    (test : ℕ → Bool) (top byte : ℕ) → byte ≤ top → passes_to test top ≡ true → test byte ≡ true
unfolding passes_to
passes_to-at test zero zero le passed = passed
passes_to-at test zero (suc byte) le passed = absurd (omega arith)
passes_to-at test (suc top) byte le passed = elim (Bool-cases (byte == suc top)) [
  | inl last ↦ ground (arith, ==_iff byte (suc top))
  | inr earlier ↦ passes_to-at test top byte (ground arith) (ground arith)
]

abbrev keeps_header : ℕ → ℕ → Bool
keeps_header flags h =
    bit_or (bit_and (fu_indicator h) 0xE0) (bit_and (fu_header flags h) 0x1F) == h

abbrev is_fua : ℕ → Bool
is_fua h = bit_and (fu_indicator h) 0x1F == 28

abbrev has_bits : Bool → Bool → ℕ → ℕ → Bool
has_bits start end flags h =
    (if start then bit_set (fu_header flags h) 0x80 else not (bit_set (fu_header flags h) 0x80))
    && (if end then bit_set (fu_header flags h) 0x40 else not (bit_set (fu_header flags h) 0x40))

abbrev bits_checked : ℕ → Bool
bits_checked h =
    keeps_header 0x80 h
    && is_fua h
    && has_bits true false 0x80 h
    && has_bits false false 0 h
    && has_bits false true 0x40 h

bits_table : passes_to bits_checked 255 ≡ true
unfolding passes_to
bits_table = refl

pub bits_lem :
    (h : ℕ)
    → h < 256
    → (bit_or (bit_and (fu_indicator h) 0xE0) (bit_and (fu_header 0x80 h) 0x1F) ≡ h)
      × (bit_and (fu_indicator h) 0x1F ≡ 28)
      × (bit_set (fu_header 0x80 h) 0x80 ≡ true)
      × (bit_set (fu_header 0x80 h) 0x40 ≡ false)
      × (bit_set (fu_header 0 h) 0x80 ≡ false)
      × (bit_set (fu_header 0 h) 0x40 ≡ false)
      × (bit_set (fu_header 0x40 h) 0x80 ≡ false)
      × (bit_set (fu_header 0x40 h) 0x40 ≡ true)
bits_lem h lt = ground (arith, passes_to-at bits_checked 255 h (omega arith) bits_table)
