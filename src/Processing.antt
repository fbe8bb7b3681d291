-- ===== src/Processing.antt =====
-- internal/processing: RTP packets into access units, and the buffer of decoded frames.
-- A packet or a NAL unit is the list of its bytes.
pub mod Rtp
pub mod Stapa
pub mod Depacketizer
pub mod H265
pub mod Reassembly
pub mod RingBuffer
mod Tests
use monitoreoedgeis.Prelude.{ℕ, zero, suc, Option, none, some, List, [], ◌∷◌}

abbrev pub Bytes : Type 0
Bytes = List ℕ

-- What code that indexes a slice does: it ends with a value, it returns an error, or an index is
-- out of range and Go panics.
pub data Run {ℓ} (E : Type 0) (A : Type ℓ) : Type ℓ where
  done : A → Run E A
  refused : E → Run E A
  out_of_bounds : Run E A

infixl 5 ◌>>=◌
abbrev pub ◌>>=◌ {ℓ κ} : {E : Type 0} {A : Type ℓ} {B : Type κ} → Run E A → (A → Run E B) → Run E B
done a >>= f = f a
refused e >>= f = refused e
out_of_bounds >>= f = out_of_bounds

-- The run does not panic, and a value that it ends with satisfies `P`.
abbrev pub Returns {ℓ} : {E : Type 0} {A : Type ℓ} → Run E A → (A → Type 0) → Type 0
Returns (done a) P = P a
Returns (refused e) P = Unit {0}
Returns out_of_bounds P = ⊥

pub Returns->>= {ℓ κ} :
    {E : Type 0} {A : Type ℓ} {B : Type κ} (P : A → Type 0) (Q : B → Type 0) (m : Run E A)
    (f : A → Run E B)
    → Returns m P
    → ((a : A) → P a → Returns (f a) Q)
    → Returns (m >>= f) Q
Returns->>= P Q (done a) f h k = k a h
Returns->>= P Q (refused e) f h k = tt
Returns->>= P Q out_of_bounds f h k = absurd h

-- `packet[i]`.
unfoldable pub at : {E : Type 0} → Bytes → ℕ → Run E ℕ
at [] i = out_of_bounds
at (b ∷ bs) zero = done b
at (b ∷ bs) (suc i) = at bs i
