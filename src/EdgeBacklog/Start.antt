-- ===== src/EdgeBacklog/Start.antt =====
-- internal/edgebacklog/backlog.go: `Open`, which loads the queue and the marks from the directories.
pub mod Complete
use Prim.Native.String.{◌++◌ as ◌++ₛ◌}
use monitoreoedgeis.Prelude.{
  ℕ, zero, suc, Bool, true, false, not, ◌&&◌, ◌||◌, Option, none, some, option_or, String, str_eq,
  List, [], ◌∷◌, ◌++◌, length, ltb, leb, ◌==◌, if◌then◌else◌, is_some, Result, ok, err,
}
use monitoreoedgeis.Prelude.Int.{ℤ, pos, ltb_ℤ}
use monitoreoedgeis.Prelude.Map.{Map, lookup, insert}
use monitoreoedgeis.EdgeBacklog.{Record, Config, Backlog, Fault, Fs}
use monitoreoedgeis.EdgeBacklog.Files.{record_persist_failure, enforce_quarantine_bound, sort_seqs}
use monitoreoedgeis.EdgeBacklog.Inactive.{cap_inactive}

-- An entry of pending/: a directory or a file with another ending, a temporary file, a file that
-- cannot be read, and one with its name and what `json.Unmarshal` makes of it.
pub data Entry (G : Type 0) : Type 0 where
  ignored temporary unreadable : Entry G
  file : String → Option (Record G) → Entry G

pub data OpenError : Type 0 where
  bad_limits : OpenError
  quarantine_unbounded : String → OpenError

abbrev second : ℕ
second = 1_000_000_000

abbrev minute : ℕ
minute = 60_000_000_000

abbrev pub default_inactive_retention : ℕ
default_inactive_retention = 604_800_000_000_000

-- The limits that `Open` fills in.
unfoldable pub with_defaults : Config → Config
with_defaults cfg =
    let base = if cfg.retry_base == 0 then second else cfg.retry_base in
    record cfg {
      retry_base = base;
      retry_max = if ltb cfg.retry_max base then minute else cfg.retry_max;
      inactive_retention =
          if cfg.inactive_retention == 0
          then default_inactive_retention
          else cfg.inactive_retention;
    }

-- The earlier of the mark that is known and a new one.
unfoldable pub mark_earlier : String → ℕ → Map ℕ → Map ℕ
mark_earlier key since marks =
    let known = lookup key marks in
    if not (is_some known) || ltb since (option_or known 0) then insert key since marks else marks

abbrev not_set_aside : String → Fault → Fault
not_set_aside name f = record f {
  message = "edgebacklog: quarantine corrupt pending record " ++ₛ (name ++ₛ (": " ++ₛ f.message));
}

module _ {G : Type 0} where
  unfoldable pub is_usable : Record G → Bool
  is_usable r = not (r.sequence == 0) && not (str_eq r.submission.event.event_uuid "")

  unfoldable pub note_recovered : Record G → Option ℕ → Backlog G → Backlog G
  unfolding mark_earlier
  note_recovered r none b = b
  note_recovered r (some since) b = record b {
    inactive_candidates = mark_earlier r.submission.event.candidate_key since b.inactive_candidates;
  }

  unfoldable pub load_record : Record G → Backlog G → Backlog G
  unfolding note_recovered
  load_record r b =
      let b₁ =
        note_recovered r r.inactive_since (record b {
          queue = b.queue ++ (r ∷ []);
          pending = b.pending ++ ((r.sequence, r) ∷ []);
        }) in
      if ltb b₁.counter r.sequence then record b₁ { counter = r.sequence } else b₁

  -- A record that cannot be used is moved to quarantine/, whose names are read afterwards.
  unfoldable pub set_aside : Fs → String → Backlog G → Backlog G
  unfolding record_persist_failure
  set_aside fs name b =
      let b₁ = record b { operations = suc b.operations } in
      elim (fs b.operations) [
        | none ↦ b₁
        | some f ↦ record_persist_failure b₁ (not_set_aside name f)
      ]

  unfoldable pub load_file : Fs → String → Option (Record G) → Backlog G → Backlog G
  unfolding is_usable load_record set_aside
  load_file fs name none b = set_aside fs name b
  load_file fs name (some r) b = if is_usable r then load_record r b else set_aside fs name b

  unfoldable pub load_entry : Fs → Entry G → Backlog G → Backlog G
  unfolding load_file
  load_entry fs ignored b = b
  load_entry fs unreadable b = b
  load_entry fs temporary b = record b { operations = suc b.operations }
  load_entry fs (file name content) b = load_file fs name content b

  -- The loop of `recover`.
  unfoldable pub load_entries : Fs → List (Entry G) → Backlog G → Backlog G
  unfolding load_entry
  load_entries fs [] b = b
  load_entries fs (e ∷ es) b = load_entries fs es (load_entry fs e b)

  -- `sort.Slice` of the queue by sequence.
  unfoldable pub insert_record : Record G → List (Record G) → List (Record G)
  insert_record r [] = r ∷ []
  insert_record r (x ∷ q) = if ltb x.sequence r.sequence then x ∷ insert_record r q else r ∷ x ∷ q

  unfoldable pub sort_records : List (Record G) → List (Record G)
  unfolding insert_record
  sort_records [] = []
  sort_records (r ∷ q) = insert_record r (sort_records q)

  -- The loop of `loadInactiveLocked`, over the first marks and last probes of inactive.json.
  unfoldable pub load_marks : Map (ℕ × ℕ) → Backlog G → Backlog G
  unfolding mark_earlier
  load_marks [] b = b
  load_marks ((key, (since, probe)) ∷ state) b = load_marks state (record b {
    inactive_candidates = mark_earlier key since b.inactive_candidates;
    inactive_probe_at =
        if probe == 0 then b.inactive_probe_at else insert key probe b.inactive_probe_at;
  })

  -- inactive.json where it can be read and parsed.
  unfoldable pub load_inactive : Option (Map (ℕ × ℕ)) → Backlog G → Backlog G
  unfolding load_marks cap_inactive
  load_inactive none b = b
  load_inactive (some state) b =
      cap_inactive (load_marks state (record b { inactive_file = some state }))

  unfoldable pub recover_pending :
      Fs → List (Entry G) → Option (Map (ℕ × ℕ)) → Backlog G → Backlog G
  unfolding load_entries sort_records load_inactive
  recover_pending fs entries state b =
      let b₁ = load_entries fs entries b in
      load_inactive state (record b₁ { queue = sort_records b₁.queue })

  -- `loadQuarantineLocked`, over the sequences that the names of its files have.
  unfoldable pub load_quarantine : Fs → List ℕ → Backlog G → Backlog G
  unfolding sort_seqs enforce_quarantine_bound
  load_quarantine fs seqs b =
      enforce_quarantine_bound fs (record b { quarantine_seqs = sort_seqs seqs })

  -- A backlog with nothing in it; of quarantine/ only the sequences are read, not the records.
  unfoldable pub fresh : Config → Backlog G
  fresh cfg = record {
    cfg = cfg;
    queue = [];
    counter = 0;
    last_success = none;
    last_error = "";
    degraded = false;
    drops = 0;
    inactive_candidates = [];
    inactive_drops = 0;
    inactive_expired = 0;
    inactive_probe_at = [];
    persist_errors = 0;
    disk_full = false;
    quarantine_evicted = 0;
    quarantine_seqs = [];
    pending = [];
    quarantine = [];
    inactive_file = none;
    operations = 0;
    synced = [];
    refused = [];
  }

  -- `Open` over the directories that it can read. It gives up where the bound of quarantine/ cannot be
  -- enforced, which is the failure that is counted then.
  unfoldable pub open_backlog :
      Fs → Config → List (Entry G) → Option (Map (ℕ × ℕ)) → List ℕ → Result OpenError (Backlog G)
  unfolding recover_pending load_quarantine
  open_backlog fs cfg entries state seqs =
      let b = recover_pending fs entries state (fresh (with_defaults cfg)) in
      let b' = load_quarantine fs seqs b in
      if cfg.max_operations == 0 || not (ltb_ℤ (pos 0) cfg.max_bytes)
      then err bad_limits
      else if b'.persist_errors == b.persist_errors
      then ok b'
      else err (quarantine_unbounded b'.last_error)
