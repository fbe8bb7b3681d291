-- ===== src/Processing/Stapa.antt =====
-- internal/processing/depacketizer.go: `parseSTAPA`.
use mathlib.Core.WellFounded.{Acc}
use mathlib.Core.List.{append_assoc, append-nil}
use monitoreoedgeis.Prelude.{
  ℕ, zero, suc, ◌+◌, ◌*◌, ◌/◌, ◌%◌, ◌<◌, ◌≤◌, ◌^◌, ◌≡◌, ◌≢◌, refl, sym, ap, subst, ◌∙◌, List, [],
  ◌∷◌, ◌++◌, length, length-drop, length-append, take, drop, ltb, ◌==◌, ◌||◌, if◌then◌else◌,
  if-rule, Result, ok, err, arith,
}
use monitoreoedgeis.Processing.{Bytes}

pub data StapaError : Type 0 where
  stapa_bounds : StapaError
  stapa_empty : StapaError

unfoldable pub nonempty : List Bytes → Result StapaError (List Bytes)
nonempty [] = err stapa_empty
nonempty (n ∷ ns) = ok (n ∷ ns)

-- The relation on which the loop's offset advances.
abbrev pub IsShorter : Bytes → Bytes → Type 0
IsShorter xs ys = length xs < length ys

shorter-Acc : (k : ℕ) (xs : Bytes) → length xs < k → Acc IsShorter xs
shorter-Acc zero xs h = elim h [ ]
shorter-Acc (suc k) xs h = Acc.intro xs (λ ys hy. shorter-Acc k ys (omega arith))

unfoldable pub all_shorter : (xs : Bytes) → Acc IsShorter xs
unfolding shorter-Acc
all_shorter xs = shorter-Acc (suc (length xs)) xs (omega arith)

pub drop_shorter : (size hi lo : ℕ) (rest : Bytes) → IsShorter (drop size rest) (hi ∷ lo ∷ rest)
drop_shorter size hi lo rest = omega (arith, length-drop size rest)

-- The loop, on the bytes from `offset` on.
unfoldable pub parse_loop :
    (rest : Bytes) → Acc IsShorter rest → List Bytes → Result StapaError (List Bytes)
parse_loop [] w nalus = nonempty nalus
parse_loop (b ∷ []) w nalus = nonempty nalus
parse_loop (hi ∷ lo ∷ rest) (Acc.intro _ inner) nalus =
    let size = hi * 2 ^ 8 + lo in
    let later =
      parse_loop (drop size rest) (inner (drop size rest) (drop_shorter size hi lo rest))
        (nalus ++ (take size rest ∷ [])) in
    if size == 0 || ltb (length rest) size then err stapa_bounds else later

unfoldable pub parse_stapa : Bytes → Result StapaError (List Bytes)
unfolding parse_loop nonempty all_shorter
parse_stapa payload = parse_loop (drop 1 payload) (all_shorter (drop 1 payload)) []

-- How a sender aggregates NAL units: each behind its length, as a big-endian uint16.
unfoldable pub aggregate : List Bytes → Bytes
aggregate [] = []
aggregate (n ∷ ns) = (length n / 2 ^ 8) ∷ (length n % 2 ^ 8) ∷ (n ++ aggregate ns)

-- NAL units that a STAP-A packet can carry.
abbrev pub AreSized : List Bytes → Type 0
AreSized [] = Unit {0}
AreSized (n ∷ ns) = (0 < length n) × (length n < 2 ^ 16) × AreSized ns

take_front : (n rest : Bytes) → take (length n) (n ++ rest) ≡ n
take_front [] rest = refl
take_front (b ∷ bs) rest = ap (λ xs. b ∷ xs) (take_front bs rest)

drop_front : (n rest : Bytes) → drop (length n) (n ++ rest) ≡ rest
drop_front [] rest = refl
drop_front (b ∷ bs) rest = drop_front bs rest

-- Where the loop goes on behind the next NAL unit.
abbrev GoesOn : Bytes → List Bytes → List Bytes → ℕ → Type 0
GoesOn rest nalus out size =
    (w : Acc IsShorter (drop size rest))
    → parse_loop (drop size rest) w (nalus ++ (take size rest ∷ [])) ≡ ok out

parse_step :
    (hi lo : ℕ) (rest : Bytes) (w : Acc IsShorter (hi ∷ lo ∷ rest)) (nalus out : List Bytes)
    → 0 < hi * 2 ^ 8 + lo
    → hi * 2 ^ 8 + lo ≤ length rest
    → GoesOn rest nalus out (hi * 2 ^ 8 + lo)
    → parse_loop (hi ∷ lo ∷ rest) w nalus ≡ ok out
unfolding parse_loop
parse_step hi lo rest (Acc.intro _ inner) nalus out h l k =
    if-rule (λ r. r ≡ ok out) (hi * 2 ^ 8 + lo == 0 || ltb (length rest) (hi * 2 ^ 8 + lo))
      (λ refused. absurd (ground arith))
      (λ _. k (inner (drop (hi * 2 ^ 8 + lo) rest) (drop_shorter (hi * 2 ^ 8 + lo) hi lo rest)))

nonempty-ok : (ns : List Bytes) → ns ≢ [] → nonempty ns ≡ ok ns
unfolding nonempty
nonempty-ok [] h = absurd (h refl)
nonempty-ok (n ∷ ns) h = refl

snoc-ne-nil : (ns : List Bytes) (n : Bytes) → ns ++ (n ∷ []) ≢ []
snoc-ne-nil [] n e = cc
snoc-ne-nil (m ∷ ns) n e = cc

goes_on :
    (n rest : Bytes) (nalus out : List Bytes)
    → ((w : Acc IsShorter rest) → parse_loop rest w (nalus ++ (n ∷ [])) ≡ ok out)
    → GoesOn (n ++ rest) nalus out (length n)
goes_on n rest nalus out k = rw (take_front n rest, drop_front n rest) k

parse_loop-aggregate :
    (ns : List Bytes) (w : Acc IsShorter (aggregate ns)) (nalus : List Bytes)
    → AreSized ns
    → nalus ++ ns ≢ []
    → parse_loop (aggregate ns) w nalus ≡ ok (nalus ++ ns)
unfolding aggregate parse_loop
parse_loop-aggregate [] w nalus h k =
    nonempty-ok nalus (λ e. k (append-nil nalus ∙ e)) ∙ ap ok (sym (append-nil nalus))
parse_loop-aggregate (n ∷ ns) w nalus h k =
    parse_step (length n / 2 ^ 8) (length n % 2 ^ 8) (n ++ aggregate ns) w nalus (nalus ++ (n ∷ ns))
      (omega arith) (omega (arith, length-append n (aggregate ns)))
      (subst (GoesOn (n ++ aggregate ns) nalus (nalus ++ (n ∷ ns))) (omega arith) (
        goes_on n (aggregate ns) nalus (nalus ++ (n ∷ ns)) λ w'.
          parse_loop-aggregate ns w' (nalus ++ (n ∷ [])) h.2
            (λ e. k (sym (append_assoc nalus (n ∷ []) ns) ∙ e))
          ∙ ap ok (append_assoc nalus (n ∷ []) ns)))

-- Unpacking a STAP-A packet returns, in order, exactly the NAL units that the sender aggregated,
-- where there is at least one and each is 1 to 65535 bytes long.
pub parse_stapa-aggregate :
    (header : ℕ) (ns : List Bytes)
    → AreSized ns
    → ns ≢ []
    → parse_stapa (header ∷ aggregate ns) ≡ ok ns
unfolding parse_stapa
parse_stapa-aggregate header ns h k = parse_loop-aggregate ns (all_shorter (aggregate ns)) [] h k
