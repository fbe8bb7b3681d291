-- ===== src/Processing/RingBuffer/Refinement.antt =====
-- internal/processing/ringbuffer.go: the circular slice implements the list of the newest frames.
use native.Mathlib.Nat.{mod-lt, mod-eq_of_lt, mod-eq-sub-mod, mod-add-mod, mod-mod, add-mod_right}
use monitoreoedgeis.Prelude.{
  ℕ, zero, suc, ◌+◌, ◌-◌, ◌%◌, ◌<◌, ◌≤◌, ◌≡◌, ◌≢◌, refl, ap, sym, ◌∙◌, List, [], ◌∷◌, ◌++◌, length,
  length-append, length-set, length-drop, get_or, get_or-set_self, get_or-set_ne, set, drop, ltb,
  if-rule, arith,
}
use monitoreoedgeis.Processing.RingBuffer.{RingBuffer, frames_from, snapshot, push}

abbrev pub IsValid : {F : Type 0} → RingBuffer F → Type 0
IsValid r =
    (0 < r.capacity) × (length r.buf ≡ r.capacity) × (r.head < r.capacity) × (r.count ≤ r.capacity)

-- Positions less than a turn apart are different places of the slice.
mod_distinct : (a b c : ℕ) → a < b → b < a + c → b < c + c → a % c ≢ b % c
mod_distinct a b c lt near below e = ground (
  arith,
  mod-eq_of_lt {n = a} {m = c},
  mod-eq_of_lt {n = b} {m = c},
  mod-eq-sub-mod {n = a} {m = c},
  mod-eq-sub-mod {n = b} {m = c},
  mod-eq_of_lt {n = a - c} {m = c},
  mod-eq_of_lt {n = b - c} {m = c},
)

module _ {F : Type 0} where
  -- The newest `c` frames of a list, oldest first.
  unfoldable pub newest : ℕ → List F → List F
  newest c xs = drop (length xs - c) xs

  drop-append : (k : ℕ) (xs ys : List F) → k ≤ length xs → drop k (xs ++ ys) ≡ drop k xs ++ ys
  drop-append zero xs ys h = refl
  drop-append (suc k) [] ys h = absurd (omega arith)
  drop-append (suc k) (x ∷ xs) ys h = drop-append k xs ys (omega arith)

  drop-nil : (n : ℕ) → drop {A = F} n [] ≡ []
  drop-nil zero = refl
  drop-nil (suc n) = refl

  drop-drop : (a k m : ℕ) (xs : List F) → k + a ≡ m → drop a (drop k xs) ≡ drop m xs
  drop-drop a zero m xs e = let e' : a ≡ m = omega arith in rw e' refl
  drop-drop a (suc k) zero xs e = absurd (omega arith)
  drop-drop a (suc k) (suc m) [] e = drop-nil a
  drop-drop a (suc k) (suc m) (x ∷ xs) e = drop-drop a k m xs (omega arith)

  newest-append : (c : ℕ) (xs ys : List F) → newest c (newest c xs ++ ys) ≡ newest c (xs ++ ys)
  unfolding newest
  newest-append c xs ys = rw (← drop-append (length xs - c) xs ys (omega arith)) (
      drop-drop (length (drop (length xs - c) (xs ++ ys)) - c) (length xs - c)
        (length (xs ++ ys) - c) (xs ++ ys)
        (omega (arith, length-drop (length xs - c) (xs ++ ys), length-append xs ys)))

  pub newest-small : (c : ℕ) (xs : List F) → length xs ≤ c → newest c xs ≡ xs
  unfolding newest
  newest-small c xs h = let none_out : length xs - c ≡ 0 = omega arith in rw none_out refl

  newest-full :
      (c : ℕ) (xs : List F) (f : F)
      → length xs ≡ c
      → 0 < c
      → newest c (xs ++ (f ∷ [])) ≡ drop 1 xs ++ (f ∷ [])
  unfolding newest
  newest-full c xs f e h =
      let one_out : length (xs ++ (f ∷ [])) - c ≡ 1 = omega (arith, length-append xs (f ∷ [])) in
      rw one_out (drop-append 1 xs (f ∷ []) (omega arith))

module _ {F : Type 0} (z : F) where
  frames_from-snoc :
      (buf : List F) (c s n : ℕ)
      → frames_from z buf c s (suc n) ≡ frames_from z buf c s n ++ (get_or buf ((s + n) % c) z ∷ [])
  unfolding frames_from
  frames_from-snoc buf c s zero = ap (λ (k : ℕ). get_or buf (k % c) z ∷ []) (omega arith)
  frames_from-snoc buf c s (suc n) =
      ap (λ xs. get_or buf (s % c) z ∷ xs)
        (frames_from-snoc buf c (s + 1) n
          ∙ ap (λ (k : ℕ). frames_from z buf c (s + 1) n ++ (get_or buf (k % c) z ∷ []))
              (omega arith))

  -- A write behind the window, less than a turn from its start, is not seen in it.
  frames_from-set :
      (buf : List F) (c s n j : ℕ) (f : F)
      → s + n ≤ j
      → j < s + c
      → j < c + c
      → frames_from z (set buf (j % c) f) c s n ≡ frames_from z buf c s n
  unfolding frames_from
  frames_from-set buf c s zero j f h near below = refl
  frames_from-set buf c s (suc n) j f h near below = ground (
    arith,
    get_or-set_ne buf f z (λ e. mod_distinct s j c (omega arith) near below (sym e)),
    frames_from-set buf c (s + 1) n j f (omega arith) (omega arith) below,
  )

  frames_from-mod :
      (buf : List F) (c s t n : ℕ)
      → s % c ≡ t % c
      → frames_from z buf c s n ≡ frames_from z buf c t n
  unfolding frames_from
  frames_from-mod buf c s t zero e = refl
  frames_from-mod buf c s t (suc n) e = ground (
    arith,
    frames_from-mod buf c (s + 1) (t + 1) n
        (sym (mod-add-mod s c 1) ∙ ap (λ (k : ℕ). (k + 1) % c) e ∙ mod-add-mod t c 1),
  )

  pub length-frames_from : (buf : List F) (c s n : ℕ) → length (frames_from z buf c s n) ≡ n
  unfolding frames_from
  length-frames_from buf c s zero = refl
  length-frames_from buf c s (suc n) = ap suc (length-frames_from buf c (s + 1) n)

  pub drop-frames_from :
      (buf : List F) (c s t k n m : ℕ)
      → k + n ≡ m
      → s + k ≡ t
      → drop k (frames_from z buf c s m) ≡ frames_from z buf c t n
  unfolding frames_from
  drop-frames_from buf c s t zero n m e g =
      let m_eq : m ≡ n = omega arith in let s_eq : s ≡ t = omega arith in rw (m_eq, s_eq) refl
  drop-frames_from buf c s t (suc k) n zero e g = absurd (omega arith)
  drop-frames_from buf c s t (suc k) n (suc m) e g =
      drop-frames_from buf c (s + 1) t k n m (omega arith) (omega arith)

  pub length-snapshot : (r : RingBuffer F) → length (snapshot z r) ≡ r.count
  unfolding snapshot
  length-snapshot r = length-frames_from r.buf r.capacity r.head r.count

  frames_from-append :
      (buf : List F) (c h n : ℕ) (f : F)
      → length buf ≡ c
      → h + n < c + c
      → n < c
      → frames_from z (set buf ((h + n) % c) f) c h (suc n) ≡ frames_from z buf c h n ++ (f ∷ [])
  frames_from-append buf c h n f e hc nc =
      frames_from-snoc (set buf ((h + n) % c) f) c h n
      ∙ ap (λ xs. xs ++ (get_or (set buf ((h + n) % c) f) ((h + n) % c) z ∷ []))
          (frames_from-set buf c h n (h + n) f (omega arith) (omega arith) (omega arith))
      ∙ ap (λ x. frames_from z buf c h n ++ (x ∷ []))
          (get_or-set_self buf ((h + n) % c) f z
            (omega (arith, mod-lt (h + n) {m = c} (omega arith))))

  frames_from-overwrite :
      (buf : List F) (c h m : ℕ) (f : F)
      → length buf ≡ c
      → c ≡ suc m
      → h < c
      → frames_from z (set buf h f) c ((h + 1) % c) c ≡ drop 1 (frames_from z buf c h c) ++ (f ∷ [])
  frames_from-overwrite buf c h m f e ce hc =
      let here : (h + 1 + m) % c ≡ h = omega (
        arith,
        ap (λ (k : ℕ). k % c) (let sum : h + 1 + m ≡ h + c = omega arith in sum),
        add-mod_right h c,
        mod-eq_of_lt {n = h} {m = c} hc,
      ) in
      frames_from-mod (set buf h f) c ((h + 1) % c) (h + 1) c (mod-mod (h + 1) c)
      ∙ ap (λ (k : ℕ). frames_from z (set buf h f) c (h + 1) k) ce
      ∙ ap (λ (k : ℕ). frames_from z (set buf k f) c (h + 1) (suc m)) (sym here)
      ∙ frames_from-append buf c (h + 1) m f e (omega arith) (omega arith)
      ∙ ap (λ xs. xs ++ (f ∷ []))
          (sym (drop-frames_from buf c h (h + 1) 1 m c (omega arith) (omega arith)))

  -- `Push` keeps the newest frames, with the new one behind them.
  pub snapshot-push :
      (f : F) (r : RingBuffer F)
      → IsValid r
      → IsValid (push f r) × (snapshot z (push f r) ≡ newest r.capacity (snapshot z r ++ (f ∷ [])))
  unfolding push snapshot
  snapshot-push f r v =
      if-rule (λ r'. IsValid r' × (snapshot z r' ≡ newest r.capacity (snapshot z r ++ (f ∷ []))))
        (ltb r.count r.capacity)
        (λ room. (
          ground (arith, length-set r.buf ((r.head + r.count) % r.capacity) f),
          frames_from-append r.buf r.capacity r.head r.count f v.1 (ground arith) (ground arith)
              ∙ sym (
                  newest-small r.capacity (snapshot z r ++ (f ∷ []))
                    (ground (arith, length-append (snapshot z r) (f ∷ []), length-snapshot r))),
        ))
        (λ full. (
          ground (arith, length-set r.buf r.head f, mod-lt (r.head + 1) {m = r.capacity}),
          full_step (ground arith),
        ))
    where
      full_step :
          r.count ≡ r.capacity
          → frames_from z (set r.buf r.head f) r.capacity ((r.head + 1) % r.capacity) r.count
            ≡ newest r.capacity (snapshot z r ++ (f ∷ []))
      full_step e = rw e (
          frames_from-overwrite r.buf r.capacity r.head (r.capacity - 1) f v.1 (omega arith) v.2
          ∙ sym (
              newest-full r.capacity (frames_from z r.buf r.capacity r.head r.capacity) f
                (length-frames_from r.buf r.capacity r.head r.capacity) v.0))
