-- ===== src/Control/Ledger/Bounds.antt =====
-- The bound of the ledger of internal/control/ledger.go, its map and its order.
use monitoreoedgeis.Prelude.{
  ℕ, zero, suc, ◌-◌, ◌≤◌, ◌≡◌, refl, sym, ◌∙◌, inl, inr, ◌++◌, true, false, String, str_eq, eq_iff,
  List, [], ◌∷◌, arith, length, length-drop, drop, ltb, if◌then◌else◌, is_some, Bool-cases, if-rule,
}
use monitoreoedgeis.Prelude.Map.{Map, lookup, delete, contains, lookup-insert, lookup-delete}
use monitoreoedgeis.Durable.{Disk}
use monitoreoedgeis.Control.Ledger.{
  Execution, Ledger, delete_first, prune, put, begin, complete, save_locked,
}

-- No id twice.
abbrev pub Distinct : List String → Type 0
Distinct [] = Unit {0}
Distinct (x ∷ xs) = (contains x xs ≡ false) × Distinct xs

contains-append :
    (id x : String) (xs : List String)
    → contains id (xs ++ (x ∷ [])) ≡ (if str_eq x id then true else contains id xs)
unfolding contains
contains-append id x [] = refl
contains-append id x (y ∷ xs) = ground (arith, contains-append id x xs)

Distinct-append :
    (x : String) (xs : List String)
    → contains x xs ≡ false
    → Distinct xs
    → Distinct (xs ++ (x ∷ []))
unfolding contains
Distinct-append x [] h d = (refl, tt)
Distinct-append x (y ∷ xs) h d =
    ground (arith, contains-append y x xs, eq_iff x y, eq_iff y x, Distinct-append x xs)

Distinct-drop : (n : ℕ) (order : List String) → Distinct order → Distinct (drop n order)
Distinct-drop zero order d = d
Distinct-drop (suc n) [] d = d
Distinct-drop (suc n) (x ∷ order) d = Distinct-drop n order d.1

module _ {V : Type 0} where
  -- The map has exactly the ids of the order.
  abbrev pub Agree : Map (Execution V) → List String → Type 0
  Agree m order = (id : String) → is_some (lookup id m) ≡ contains id order

  pub record IsValid (l : Ledger V) : Type 0 where
    pub distinct : Distinct l.order
    pub agree : Agree l.commands l.order

  delete_first-Agree :
      (n : ℕ) (order : List String) (m : Map (Execution V))
      → Distinct order
      → Agree m order
      → Agree (delete_first n order m) (drop n order)
  unfolding delete_first contains
  delete_first-Agree zero order m d a = a
  delete_first-Agree (suc n) [] m d a = a
  delete_first-Agree (suc n) (x ∷ order) m d a =
      delete_first-Agree n order (delete x m) d.1
        λ id. ground (arith, lookup-delete id x m, a id, eq_iff x id, d.0)

  prune-IsValid : (l : Ledger V) → IsValid l → IsValid (prune l)
  unfolding prune
  prune-IsValid l v =
      if-rule IsValid (ltb l.max_entries (length l.order))
        (λ _. record {
          distinct = Distinct-drop (length l.order - l.max_entries) l.order v.distinct;
          agree =
              delete_first-Agree (length l.order - l.max_entries) l.order l.commands v.distinct
                v.agree;
        })
        (λ _. v)

  prune_bound : (l : Ledger V) → length (prune l).order ≤ (prune l).max_entries
  unfolding prune
  prune_bound l =
      if-rule (λ (l' : Ledger V). length l'.order ≤ l'.max_entries)
        (ltb l.max_entries (length l.order))
        (λ h. omega (arith, length-drop (length l.order - l.max_entries) l.order))
        (λ h. ground arith)

  put-IsValid :
      (l : Ledger V) (id : String) (exec : Execution V) → IsValid l → IsValid (put l id exec)
  unfolding put
  put-IsValid l id exec v = elim (Bool-cases (is_some (lookup id l.commands))) [
    | inl old ↦ record {
      distinct = rw old v.distinct;
      agree = λ j.
          rw old (ground (arith, lookup-insert j id exec l.commands, v.agree j, old, eq_iff id j));
    }
    | inr new ↦ record {
      distinct = rw new (Distinct-append id l.order (sym (v.agree id) ∙ new) v.distinct);
      agree = λ j. rw new (
          ground
            (arith, lookup-insert j id exec l.commands, v.agree j, contains-append j id l.order));
    }
  ]

  save_locked-IsValid : (disk : Disk) (l : Ledger V) → IsValid l → IsValid (save_locked disk l).0
  unfolding save_locked
  save_locked-IsValid disk l v = record { distinct = v.distinct; agree = v.agree }

  -- `Begin` and `Complete` keep the map and the order in agreement, with no id twice, and leave at
  -- most `max_entries` ids, whether or not the save works.
  pub ledger-IsValid :
      (disk : Disk) (now : String) (l : Ledger V) (id : String) (exec : Execution V)
      → IsValid l
      → IsValid (begin disk now l id).0
        × (length (begin disk now l id).0.order ≤ (begin disk now l id).0.max_entries)
        × IsValid (complete disk now l id exec).0
        × (length (complete disk now l id exec).0.order
            ≤ (complete disk now l id exec).0.max_entries)
  unfolding begin complete save_locked
  ledger-IsValid disk now l id exec v = (
    save_locked-IsValid disk _ (prune-IsValid _ (put-IsValid l id _ v)),
    prune_bound _,
    save_locked-IsValid disk _ (prune-IsValid _ (put-IsValid l id _ v)),
    prune_bound _,
  )
