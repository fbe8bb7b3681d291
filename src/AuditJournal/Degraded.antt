-- ===== src/AuditJournal/Degraded.antt =====
-- What becomes of a journal of internal/auditjournal/journal.go that goes on behind a truncated write.
use Prim.Native.String.{◌++◌ as ◌++ₛ◌}
use text.Mathlib.TextLemmas.{nil-append}
use monitoreoedgeis.Prelude.{
  ◌≡◌, refl, sym, ◌∙◌, ap, subst, ◌⊎◌, inl, inr, false, not, ◌&&◌, Option, none, some, String,
  str_eq, List, [], ◌∷◌, ◌++◌, arith, if◌then◌else◌, is_some, Result, ok, err,
}
use monitoreoedgeis.AuditJournal.Record.{AuditRecord}
use monitoreoedgeis.AuditJournal.Verify.{
  Environment, compute_record_hash, corrupt, FailureReason, VerifyResult, Progress, outcome,
  check_hash, check_record, check_line, is_empty, verify_from, start, verify_lines,
}
use monitoreoedgeis.AuditJournal.Journal.{
  File, non_empty, scan, Journal, corrupt_journal, WriteOutcome, write_line, open_verified,
  open_journal, append,
}
use monitoreoedgeis.AuditJournal.Chain.{Codec, append_ok, non_empty-append}

-- The results by which the walk can end early, other than on the last line.
check_hash_err :
    (p : Progress) (rec : AuditRecord) (h : Result String String) (v : VerifyResult)
    → check_hash p rec h ≡ err v
    → v.status ≡ corrupt
unfolding check_hash outcome
check_hash_err p rec (err e) v h = ground arith
check_hash_err p rec (ok hash) v h = ground arith

check_record_err :
    (env : Environment) (p : Progress) (rec : AuditRecord) (v : VerifyResult)
    → check_record env p rec ≡ err v
    → v.status ≡ corrupt
unfolding check_record outcome
check_record_err env p rec v h =
    ground (arith, check_hash_err p rec (compute_record_hash env p.prev_hash rec) v)

check_line_err :
    (env : Environment) (p : Progress) (o : Option AuditRecord) (v : VerifyResult)
    → check_line env false p o ≡ err v
    → v.status ≡ corrupt
unfolding check_line outcome
check_line_err env p none v h = ground arith
check_line_err env p (some rec) v h = check_record_err env p rec v h

Result-cases : {E A : Type 0} (r : Result E A) → ((e : E) × (r ≡ err e)) ⊎ ((a : A) × (r ≡ ok a))
Result-cases (err e) = inl (e, refl)
Result-cases (ok a) = inr (a, refl)

is_empty-append :
    (xs : List String) (y : String) (ys : List String) → is_empty (xs ++ (y ∷ ys)) ≡ false
unfolding is_empty
is_empty-append [] y ys = refl
is_empty-append (x ∷ xs) y ys = refl

-- A line that is no record and stands before another one makes the walk end as corrupt.
verify_from-interior :
    (env : Environment) (scan_error : Option String) (p : Progress) (xs : List String)
    (bad y : String)
    → env.decode bad ≡ none
    → (verify_from env scan_error p (xs ++ (bad ∷ y ∷ []))).status ≡ corrupt
unfolding verify_from check_line is_empty outcome
verify_from-interior env scan_error p [] bad y h = rw (h, verify_from) refl
verify_from-interior env scan_error p (x ∷ xs) bad y h =
    let last = is_empty (xs ++ (bad ∷ y ∷ [])) && not (is_some scan_error) in
    let inner : last ≡ false =
      ap (λ b. b && not (is_some scan_error)) (is_empty-append xs bad (y ∷ [])) in
    elim (Result-cases (check_line env last p (env.decode x))) [
      | inl (v, e) ↦
          rw (e, verify_from)
            (check_line_err env p (env.decode x) v
              (subst (λ b. check_line env b p (env.decode x) ≡ err v) inner e))
      | inr (q, e) ↦ rw (e, verify_from) (verify_from-interior env scan_error q xs bad y h)
    ]

-- A file whose walk ends as corrupt is not opened.
open_corrupt :
    (f : File) (v : VerifyResult)
    → v.status ≡ corrupt
    → open_verified f v ≡ err (corrupt_journal v.failure_reason)
unfolding open_verified
open_corrupt f v h = ground arith

snoc-snoc : (xs : List String) (x y : String) → (xs ++ (x ∷ [])) ++ (y ∷ []) ≡ xs ++ (x ∷ y ∷ [])
snoc-snoc [] x y = refl
snoc-snoc (z ∷ xs) x y = ap (λ l. z ∷ l) (snoc-snoc xs x y)

non_empty-snoc :
    (xs : List String) (l : String)
    → str_eq l "" ≡ false
    → non_empty (xs ++ (l ∷ [])) ≡ non_empty xs ++ (l ∷ [])
non_empty-snoc xs l h =
    non_empty-append xs l ∙ ap (λ b. if b then non_empty xs else non_empty xs ++ (l ∷ [])) h

scan_twice :
    (f : File) (l l' : String)
    → str_eq (f.tail ++ₛ l) "" ≡ false
    → str_eq l' "" ≡ false
    → scan (write_line (write_line f l) l') ≡ non_empty f.lines ++ ((f.tail ++ₛ l) ∷ l' ∷ [])
unfolding scan write_line
scan_twice f l l' h h' =
    let first = f.lines ++ ((f.tail ++ₛ l) ∷ []) in
    non_empty-append (first ++ (("" ++ₛ l') ∷ [])) ""
    ∙ ap (λ t. non_empty (first ++ (t ∷ []))) (nil-append l')
    ∙ non_empty-snoc first l' h'
    ∙ ap (λ k. k ++ (l' ∷ [])) (non_empty-snoc f.lines (f.tail ++ₛ l) h)
    ∙ snoc-snoc (non_empty f.lines) (f.tail ++ₛ l) l'

-- A journal that appends behind the rest of a truncated write, where that rest and the first line
-- after it are no record together and `json` reads back what it writes: after two appends that return
-- records, the file is refused as corrupt by the next `Open`.
pub append-behind_tail :
    (env : Environment) (v w : WriteOutcome) (j : Journal) (rec rec' a a' : AuditRecord)
    (line : String)
    → Codec env
    → (append env v j rec).1 ≡ ok a
    → (append env w (append env v j rec).0 rec').1 ≡ ok a'
    → env.encode a ≡ ok line
    → env.decode (j.file.tail ++ₛ line) ≡ none
    → str_eq (j.file.tail ++ₛ line) "" ≡ false
    → (reason : FailureReason) × (open_journal env none
          (append env w (append env v j rec).0 rec').0.file
        ≡ err (corrupt_journal reason))
unfolding open_journal verify_lines
append-behind_tail env v w j rec rec' a a' line codec h h' e bad some_text =
    let j₁ = (append env v j rec).0 in
    let (_, _, _, (line₁, e₁, file₁, _, _)) = append_ok env v j rec a h in
    let (_, _, _, (line₂, e₂, file₂, _, _)) = append_ok env w j₁ rec' a' h' in
    let same : line₁ ≡ line = ground (arith, e₁, e) in
    let file : (append env w j₁ rec').0.file ≡ write_line (write_line j.file line) line₂ =
      file₂ ∙ ap (λ (f : File). write_line f line₂) (file₁ ∙ ap (write_line j.file) same) in
    let lines =
      ap scan file ∙ scan_twice j.file line line₂ some_text (codec.not_empty a' line₂ e₂) in
    let f = (append env w j₁ rec').0.file in
    let broken : (verify_from env none start (scan f)).status ≡ corrupt =
      subst (λ l. (verify_from env none start l).status ≡ corrupt) (sym lines)
        (verify_from-interior env none start (non_empty j.file.lines) (j.file.tail ++ₛ line) line₂
          bad) in
    (_, open_corrupt f (verify_from env none start (scan f)) broken)
