-- ===== src/AuditJournal/Chain.antt =====
-- The chain of internal/auditjournal: what journal.go appends, and what verify.go makes of it.
use Prim.Native.String.{◌++◌ as ◌++ₛ◌}
use text.Mathlib.TextLemmas.{nil-append}
use monitoreoedgeis.Prelude.{
  ℕ, suc, ◌≡◌, refl, sym, ◌∙◌, ap, subst, Bool, true, false, not, ◌&&◌, Option, none, some, String,
  str_eq, eq_iff, eq_refl, List, [], ◌∷◌, ◌++◌, arith, ◌==◌, if◌then◌else◌, if-rule, Result, ok,
  err,
}
use monitoreoedgeis.AuditJournal.Record.{AuditRecord}
use monitoreoedgeis.AuditJournal.Verify.{
  Environment, compute_record_hash, pass, VerifyResult, Progress, no_failure, outcome, check_hash,
  next_sequence, check_record, check_line, is_empty, conclude, verify_from, start, verify_lines,
}
use monitoreoedgeis.AuditJournal.Journal.{
  healthy, File, non_empty, scan, Journal, WriteOutcome, written, write_fails, sync_fails,
  write_line, open_verified, open_journal, fail, place, written_line, encoded, hashed, append,
}

-- `json` reads back the records that it writes, where their reason ends with a whole rune, and writes
-- no empty line.
pub record Codec (env : Environment) : Type 0 where
  pub decode-encode :
      (r : AuditRecord) (line : String)
      → r.safe_reason.partial ≡ 0
      → env.encode r ≡ ok line
      → env.decode line ≡ some r
  pub not_empty :
      (r : AuditRecord) (line : String) → env.encode r ≡ ok line → str_eq line "" ≡ false

-- The walk accepts every line.
abbrev pub Walks : Environment → Progress → List String → Progress → Type 0
Walks env p [] q = p ≡ q
Walks env p (line ∷ lines) q =
    (rec : AuditRecord) × (p' : Progress) × (env.decode line ≡ some rec)
    × (check_record env p rec ≡ ok p')
    × Walks env p' lines q

Walks-append :
    (env : Environment) (p q r : Progress) (lines : List String) (line : String) (rec : AuditRecord)
    → Walks env p lines q
    → env.decode line ≡ some rec
    → check_record env q rec ≡ ok r
    → Walks env p (lines ++ (line ∷ [])) r
Walks-append env p q r [] line rec w d c = (rec, r, d, ap (λ x. check_record env x rec) w ∙ c, refl)
Walks-append env p q r (x ∷ lines) line rec (rec', p', d', c', w) d c =
    (rec', p', d', c', Walks-append env p' q r lines line rec w d c)

check_line-some :
    (env : Environment) (last : Bool) (p p' : Progress) (o : Option AuditRecord) (rec : AuditRecord)
    → o ≡ some rec
    → check_record env p rec ≡ ok p'
    → check_line env last p o ≡ ok p'
unfolding check_line
check_line-some env last p p' none rec h c = cc h
check_line-some env last p p' (some r) rec h c =
    let e : r ≡ rec = ground arith in ap (check_record env p) e ∙ c

verify_from-Walks :
    (env : Environment) (p q : Progress) (lines : List String)
    → Walks env p lines q
    → verify_from env none p lines ≡ conclude none q
unfolding verify_from
verify_from-Walks env p q [] w = ap (conclude none) w
verify_from-Walks env p q (line ∷ lines) (rec, p', d, c, w) =
    rw
      (
        check_line-some env (is_empty lines && not false) p p' (env.decode line) rec d c,
        verify_from,
      )
      (verify_from-Walks env p' q lines w)

pub non_empty-append :
    (xs : List String) (l : String)
    → non_empty (xs ++ (l ∷ [])) ≡ (if str_eq l "" then non_empty xs else non_empty xs ++ (l ∷ []))
unfolding non_empty
non_empty-append [] l = ground arith
non_empty-append (x ∷ xs) l = ground (arith, non_empty-append xs l)

-- What an `Append` that returns a record has done.
abbrev pub Appended : Environment → Journal → Journal → AuditRecord → Type 0
Appended env j j' a =
    (line : String) × (env.encode a ≡ ok line)
    × (j'.file ≡ write_line j.file line)
    × (j'.last_hash ≡ a.record_hash)
    × (j'.last_seq ≡ a.sequence)

encoded_ok :
    (env : Environment) (w : WriteOutcome) (j : Journal) (r a : AuditRecord)
    (e : Result String String)
    → (encoded env w j r e).1 ≡ ok a
    → (r ≡ a)
      × ((line : String) × (e ≡ ok line)
          × ((encoded env w j r e).0.file ≡ write_line j.file line)
          × ((encoded env w j r e).0.last_hash ≡ r.record_hash)
          × ((encoded env w j r e).0.last_seq ≡ r.sequence))
unfolding encoded written_line fail
encoded_ok env w j r a (err e) h = cc h
encoded_ok env written j r a (ok line) h = (ground arith, (line, refl, refl, refl, refl))
encoded_ok env (write_fails n cause) j r a (ok line) h = cc h
encoded_ok env (sync_fails cause) j r a (ok line) h = cc h

hashed_ok :
    (env : Environment) (w : WriteOutcome) (j : Journal) (r a : AuditRecord)
    (e : Result String String)
    → (hashed env w j r e).1 ≡ ok a
    → (hash : String) × (e ≡ ok hash)
      × (record r { record_hash = hash } ≡ a)
      × Appended env j (hashed env w j r e).0 a
unfolding hashed fail
hashed_ok env w j r a (err e) h = cc h
hashed_ok env w j r a (ok hash) h =
    let r' = record r { record_hash = hash } in
    let (same, (line, e, file, last, seq)) = encoded_ok env w j r' a (env.encode r') h in
    (
      hash,
      refl,
      same,
      (
        line,
        ap env.encode (sym same) ∙ e,
        file,
        last ∙ ap (λ (x : AuditRecord). x.record_hash) same,
        seq ∙ ap (λ (x : AuditRecord). x.sequence) same,
      ),
    )

pub append_ok :
    (env : Environment) (w : WriteOutcome) (j : Journal) (rec a : AuditRecord)
    → (append env w j rec).1 ≡ ok a
    → (a.sequence ≡ next_sequence j.last_seq)
      × (a.prev_hash ≡ j.last_hash)
      × (compute_record_hash env j.last_hash a ≡ ok a.record_hash)
      × Appended env j (append env w j rec).0 a
unfolding append place compute_record_hash
append_ok env w j rec a h =
    let r = place env j rec in
    let (hash, e, same, appended) =
      hashed_ok env w j r a (compute_record_hash env j.last_hash r) h in
    subst
      (λ (x : AuditRecord).
        (x.sequence ≡ next_sequence j.last_seq)
        × (x.prev_hash ≡ j.last_hash)
        × (compute_record_hash env j.last_hash x ≡ ok x.record_hash)
        × Appended env j (append env w j rec).0 x)
      same (refl, refl, e, subst (Appended env j (append env w j rec).0) (sym same) appended)

-- The journal stands at the end of a chain that its file holds whole.
abbrev pub IsChained : Environment → Journal → Type 0
IsChained env j =
    (j.file.tail ≡ "")
    × ((p : Progress) × Walks env start (non_empty j.file.lines) p
        × (p.prev_hash ≡ j.last_hash)
        × (p.last_seq ≡ j.last_seq))

check_record_ok :
    (env : Environment) (p : Progress) (a : AuditRecord)
    → a.sequence ≡ next_sequence p.last_seq
    → a.prev_hash ≡ p.prev_hash
    → compute_record_hash env p.prev_hash a ≡ ok a.record_hash
    → (q : Progress) × (check_record env p a ≡ ok q)
      × (q.prev_hash ≡ a.record_hash)
      × (q.last_seq ≡ a.sequence)
      × (q.count ≡ suc p.count)
unfolding check_record check_hash
check_record_ok env p a s h c =
    let first = if p.count == 0 then a.sequence else p.first_seq in
    let q : Progress = record {
      prev_hash = a.record_hash;
      count = suc p.count;
      first_seq = first;
      last_seq = a.sequence;
    } in
    let same : (a.sequence == next_sequence p.last_seq) ≡ true = ground (arith, s) in
    let linked : str_eq a.prev_hash p.prev_hash ≡ true =
      ground (arith, h, eq_iff a.prev_hash p.prev_hash) in
    let hash : str_eq a.record_hash a.record_hash ≡ true = eq_refl a.record_hash in
    (q, simp (same, linked, c, hash), refl, refl, refl)

conclude_pass :
    (q : Progress) (n : ℕ) → q.count ≡ suc n → conclude none q ≡ outcome q pass no_failure
unfolding conclude
conclude_pass q n h = ground arith

verify_lines-Walks :
    (env : Environment) (f : File) (p : Progress)
    → f.tail ≡ ""
    → Walks env start (non_empty f.lines) p
    → verify_lines env none (scan f) ≡ conclude none p
unfolding verify_lines scan
verify_lines-Walks env f p closed walks =
    let lines : non_empty (f.lines ++ (f.tail ∷ [])) ≡ non_empty f.lines =
      subst (λ t. non_empty (f.lines ++ (t ∷ [])) ≡ non_empty f.lines) (sym closed)
        (non_empty-append f.lines "") in
    ap (verify_from env none start) lines ∙ verify_from-Walks env start p (non_empty f.lines) walks

-- The file of a journal at the end of its chain is opened as healthy, at the end of the chain, with
-- the same last sequence and hash.
pub open_journal-IsChained :
    (env : Environment) (j : Journal)
    → IsChained env j
    → (k : Journal) × (open_journal env none j.file ≡ ok k)
      × IsChained env k
      × (k.last_hash ≡ j.last_hash)
      × (k.last_seq ≡ j.last_seq)
      × (k.health ≡ healthy)
unfolding open_journal open_verified conclude outcome
open_journal-IsChained env j (closed, (p, walks, hash, seq)) =
    let k : Journal = record {
      file = j.file;
      last_hash = p.prev_hash;
      last_seq = p.last_seq;
      health = healthy;
      write_at = "";
    } in
    let opens : open_verified j.file (conclude none p) ≡ ok k =
      if-rule (λ v. open_verified j.file v ≡ ok k) (p.count == 0) (λ _. refl) (λ _. refl) in
    (
      k,
      ap (open_verified j.file) (verify_lines-Walks env j.file p closed walks) ∙ opens,
      (closed, (p, walks, refl, refl)),
      hash,
      seq,
      refl,
    )

-- `Append` keeps the journal at the end of an unbroken chain, where `json` reads back the records it
-- writes whose reason ends with a whole rune: after an `Append` that returns a record whose redacted
-- reason does, the record has the next sequence, and the verification of the whole file passes and
-- ends with the sequence and the hash of that record.
pub append-IsChained :
    (env : Environment) (w : WriteOutcome) (j : Journal) (rec a : AuditRecord)
    → Codec env
    → IsChained env j
    → (append env w j rec).1 ≡ ok a
    → a.safe_reason.partial ≡ 0
    → let j' = (append env w j rec).0 in
      let v = verify_lines env none (scan j'.file) in
      IsChained env j'
      × (v.status ≡ pass)
      × (v.last_sequence ≡ a.sequence)
      × (v.last_hash ≡ a.record_hash)
      × (a.sequence ≡ next_sequence j.last_seq)
unfolding write_line outcome
append-IsChained env w j rec a codec (closed, (p, walks, hash, seq)) h cut =
    let j' = (append env w j rec).0 in
    let (next, prev, c, (line, e, file, last, at)) = append_ok env w j rec a h in
    let (q, checked, q_hash, q_seq, q_count) =
      check_record_ok env p a (next ∙ ap next_sequence (sym seq)) (prev ∙ sym hash)
        (ap (λ x. compute_record_hash env x a) hash ∙ c) in
    let lines : j'.file.lines ≡ j.file.lines ++ (line ∷ []) =
      ap (λ (f : File). f.lines) file
      ∙ (ap (λ t. j.file.lines ++ ((t ++ₛ line) ∷ [])) closed
          ∙ ap (λ t. j.file.lines ++ (t ∷ [])) (nil-append line)) in
    let kept : non_empty (j.file.lines ++ (line ∷ [])) ≡ non_empty j.file.lines ++ (line ∷ []) =
      non_empty-append j.file.lines line
      ∙ ap (λ b. if b then non_empty j.file.lines else non_empty j.file.lines ++ (line ∷ []))
          (codec.not_empty a line e) in
    let walks' : Walks env start (non_empty j'.file.lines) q =
      subst (λ l. Walks env start l q) (sym (ap non_empty lines ∙ kept))
        (Walks-append env start p q (non_empty j.file.lines) line a walks
          (codec.decode-encode a line cut e) checked) in
    let closed' = ap (λ (f : File). f.tail) file in
    let verified : verify_lines env none (scan j'.file) ≡ outcome q pass no_failure =
      verify_lines-Walks env j'.file q closed' walks' ∙ conclude_pass q p.count q_count in
    (
      (closed', (q, walks', q_hash ∙ sym last, q_seq ∙ sym at)),
      ap (λ (v : VerifyResult). v.status) verified,
      ap (λ (v : VerifyResult). v.last_sequence) verified ∙ q_seq,
      ap (λ (v : VerifyResult). v.last_hash) verified ∙ q_hash,
      next,
    )
