-- ===== src/Control/Ledger/Reads.antt =====
-- What `Get` of internal/control/ledger.go finds after `Begin` and `Complete`.
use monitoreoedgeis.Prelude.{
  ℕ, zero, suc, ◌+◌, ◌-◌, ◌≤◌, ◌<◌, ◌≡◌, refl, sym, ◌∙◌, ap, inl, inr, ◌++◌, false, none, some,
  String, eq_refl, List, [], ◌∷◌, arith, length, length-append, take, ltb, is_some, Bool-cases,
  if-rule, ok,
}
use monitoreoedgeis.Prelude.Map.{Map, lookup, delete, contains, lookup-insert, lookup-delete}
use monitoreoedgeis.Durable.{Disk, read_back, save_cases}
use monitoreoedgeis.Control.Ledger.{
  Execution, Ledger, delete_first, prune, put, begin, complete, save_locked, get, stamped,
  status_executing, open_ledger,
}
use monitoreoedgeis.Control.Ledger.Bounds.{IsValid, ledger-IsValid}

-- At most one id is pruned, and not the one at the end.
not_pruned :
    (max : ℕ) (id : String) (order : List String)
    → 0 < max
    → length order ≤ max
    → contains id order ≡ false
    → contains id (take (length (order ++ (id ∷ [])) - max) (order ++ (id ∷ []))) ≡ false
unfolding contains
not_pruned max id [] p h c = let e : 1 - max ≡ 0 = omega arith in rw e refl
not_pruned max id (x ∷ order) p h c = elim (Bool-cases (ltb (length order + 1) max)) [
  | inl room ↦
      let e : suc (length (order ++ (id ∷ []))) - max ≡ 0 =
        ground (arith, length-append order (id ∷ [])) in
      rw e refl
  | inr full ↦
      let e : suc (length (order ++ (id ∷ []))) - max ≡ 1 =
        ground (arith, length-append order (id ∷ [])) in
      rw e (ground arith)
]

module _ {V : Type 0} where
  lookup-delete_first :
      (n : ℕ) (id : String) (order : List String) (m : Map (Execution V))
      → contains id (take n order) ≡ false
      → lookup id (delete_first n order m) ≡ lookup id m
  unfolding delete_first contains
  lookup-delete_first zero id order m h = refl
  lookup-delete_first (suc n) id [] m h = refl
  lookup-delete_first (suc n) id (x ∷ order) m h =
      ground (arith, lookup-delete_first n id order (delete x m), lookup-delete id x m)

  lookup-prune :
      (l : Ledger V) (id : String)
      → contains id (take (length l.order - l.max_entries) l.order) ≡ false
      → lookup id (prune l).commands ≡ lookup id l.commands
  unfolding prune
  lookup-prune l id h =
      if-rule (λ (l' : Ledger V). lookup id l'.commands ≡ lookup id l.commands)
        (ltb l.max_entries (length l.order))
        (λ _. lookup-delete_first (length l.order - l.max_entries) id l.order l.commands h)
        (λ _. refl)

  put_unpruned :
      (l : Ledger V) (id : String) (exec : Execution V)
      → IsValid l
      → 0 < l.max_entries
      → length l.order ≤ l.max_entries
      → let order = (put l id exec).order in
        contains id (take (length order - l.max_entries) order) ≡ false
  unfolding put contains
  put_unpruned l id exec v p h = elim (Bool-cases (is_some (lookup id l.commands))) [
    | inl old ↦ let e : length l.order - l.max_entries ≡ 0 = omega arith in rw old (rw e refl)
    | inr new ↦ rw new (not_pruned l.max_entries id l.order p h (sym (v.agree id) ∙ new))
  ]

  put_survives :
      (l : Ledger V) (id : String) (exec : Execution V)
      → IsValid l
      → 0 < l.max_entries
      → length l.order ≤ l.max_entries
      → lookup id (prune (put l id exec)).commands ≡ some exec
  unfolding put
  put_survives l id exec v p h =
      lookup-prune (put l id exec) id (put_unpruned l id exec v p h)
      ∙ (lookup-insert id id exec l.commands ∙ (rw (eq_refl id)))

  -- In a ledger within its bound, `Begin` leaves the command "executing" and `Complete` leaves it with
  -- the given outcome: neither is evicted by its own pruning. The error of a failed save is returned
  -- besides.
  pub get-begin-complete :
      (disk : Disk) (now : String) (l : Ledger V) (id : String) (exec : Execution V)
      → IsValid l
      → 0 < l.max_entries
      → length l.order ≤ l.max_entries
      → (get (begin disk now l id).0 id
          ≡ some (record {
            status = status_executing;
            result = none;
            error_code = "";
            completed_at = now;
          }))
        × (get (complete disk now l id exec).0 id ≡ some (stamped now exec))
  unfolding get begin complete save_locked
  get-begin-complete disk now l id exec v p h =
      (put_survives l id _ v p h, put_survives l id _ v p h)

  save_locked-reopened :
      (disk : Disk) (l r : Ledger V) (ids : List String) (max : ℕ)
      → (save_locked disk l).1 ≡ none
      → open_ledger (save_locked disk l).0.file (read_back (save_locked disk l).0.file) ids max
        ≡ ok r
      → r.commands ≡ l.commands
  unfolding save_locked open_ledger
  save_locked-reopened disk l r ids max saved opened =
      elim (save_cases disk l.file
        (record { commands = l.commands; order = l.order; max_entries = l.max_entries })) [
          | inl (_, p) ↦ ground arith
          | inr (e, p, _) ↦ cc (p, saved)
        ]

  -- A restart over the file of a `Begin` that was saved finds the command "executing".
  pub get-open_ledger-begin :
      (disk : Disk) (now : String) (l r : Ledger V) (id : String) (ids : List String) (max : ℕ)
      → IsValid l
      → 0 < l.max_entries
      → length l.order ≤ l.max_entries
      → (begin disk now l id).1 ≡ none
      → open_ledger (begin disk now l id).0.file (read_back (begin disk now l id).0.file) ids max
        ≡ ok r
      → get r id
        ≡ some (record {
          status = status_executing;
          result = none;
          error_code = "";
          completed_at = now;
        })
  unfolding begin get
  get-open_ledger-begin disk now l r id ids max v p h saved opened =
      ap (lookup id) (save_locked-reopened disk _ r ids max saved opened)
      ∙ put_survives l id _ v p h

  pub max_entries-begin :
      (disk : Disk) (now : String) (l : Ledger V) (id : String)
      → (begin disk now l id).0.max_entries ≡ l.max_entries
  unfolding begin save_locked prune put
  max_entries-begin disk now l id = ground arith

-- A ledger as `OpenLedger` makes it and the operations keep it: sound, and within a positive bound.
pub record IsReady {V : Type 0} (l : Ledger V) : Type 0 where
  pub valid : IsValid l
  pub positive : 0 < l.max_entries
  pub bounded : length l.order ≤ l.max_entries

pub begin-IsReady :
    {V : Type 0} (disk : Disk) (now : String) (l : Ledger V) (id : String)
    → IsReady l
    → IsReady (begin disk now l id).0
begin-IsReady disk now l id ready =
    let (valid, bounded, _, _) =
      ledger-IsValid disk now l id
        (record { status = ""; result = none; error_code = ""; completed_at = "" }) ready.valid in
    record {
      valid = valid;
      positive = rw (max_entries-begin disk now l id) ready.positive;
      bounded = bounded;
    }
