-- ===== src/Prelude/Text.antt =====
-- Go's strings, which may be cut in the middle of a rune.
use Prim.Native.Nat.{ℕ}
use Prim.Native.String.{String}

-- The whole runes, and how many bytes of the next one follow. encoding/json writes U+FFFD for each of
-- these bytes, whichever they are.
pub record GoString : Type 0 where
  pub text : String
  pub partial : ℕ

abbrev pub whole : String → GoString
whole s = record { text = s; partial = 0 }
