-- ===== src/CloudSink/Entry.antt =====
-- internal/cloudsink/buffer.go: one spooled file, how it is written and how it is read.
pub mod RoundTrip
use monitoreoedgeis.Prelude.{
  ℕ, suc, Bool, false, Option, none, some, String, List, [], ◌∷◌, ◌++◌, length, ◌==◌, if◌then◌else◌,
  Result, ok, err,
}
use monitoreoedgeis.Prelude.Map.{Map, lookup, insert, delete}

abbrev pub Bytes : Type 0
Bytes = List ℕ

-- `G` holds what the buffer only stores: the score and the candidate's JSON.
pub record BufferedFrame (G : Type 0) : Type 0 where
  pub kind : String
  pub candidate_key : String
  pub seq : ℕ
  pub timestamp : ℕ
  pub jpeg : Bytes
  pub processing_mode : String
  pub candidate_reason : String
  pub candidate_score : G
  pub correlation_id : String
  pub anpr_candidate : G

-- `bufferMeta`, the header of a file.
pub record BufferMeta (G : Type 0) : Type 0 where
  pub kind : String
  pub candidate_key : String
  pub seq : ℕ
  pub timestamp : ℕ
  pub size : ℕ
  pub processing_mode : String
  pub candidate_reason : String
  pub candidate_score : G
  pub correlation_id : String
  pub anpr_candidate : G

-- `encoding/json` on the header.
pub record Json (G : Type 0) : Type 0 where
  pub marshal : BufferMeta G → Option Bytes
  pub unmarshal : Bytes → Option (BufferMeta G)

-- A failed file operation: `os.IsNotExist` and the message.
pub record Failure : Type 0 where
  pub not_exist : Bool
  pub message : String

-- The directory: its *.frame files and its *.tmp files, each under the name of the frame file, and
-- how many operations were made on it. `Faults` tells which of them fail.
pub record Directory : Type 0 where
  pub frames : Map Bytes
  pub temps : Map Bytes
  pub operations : ℕ

abbrev pub Faults : Type 0
Faults = ℕ → Option Failure

pub data WriteError : Type 0 where
  not_encoded : WriteError
  not_written : Failure → WriteError

pub data ReadError : Type 0 where
  unreadable : ReadError
  missing_header : ReadError
  invalid_header : ReadError
  size_mismatch : ℕ → ℕ → ReadError

abbrev newline : ℕ
newline = 10

module _ {G : Type 0} where
  unfoldable pub meta_of : BufferedFrame G → BufferMeta G
  meta_of f = record {
    kind = f.kind;
    candidate_key = f.candidate_key;
    seq = f.seq;
    timestamp = f.timestamp;
    size = length f.jpeg;
    processing_mode = f.processing_mode;
    candidate_reason = f.candidate_reason;
    candidate_score = f.candidate_score;
    correlation_id = f.correlation_id;
    anpr_candidate = f.anpr_candidate;
  }

  unfoldable pub frame_of : BufferMeta G → Bytes → BufferedFrame G
  frame_of meta payload = record {
    kind = meta.kind;
    candidate_key = meta.candidate_key;
    seq = meta.seq;
    timestamp = meta.timestamp;
    jpeg = payload;
    processing_mode = meta.processing_mode;
    candidate_reason = meta.candidate_reason;
    candidate_score = meta.candidate_score;
    correlation_id = meta.correlation_id;
    anpr_candidate = meta.anpr_candidate;
  }

-- `bytes.IndexByte` of the newline, and the bytes on its two sides.
unfoldable pub split_line : Bytes → Option (Bytes × Bytes)
split_line [] = none
split_line (b ∷ bs) =
    let later = split_line bs in
    if b == newline
    then some ([], bs)
    else elim later [ none ↦ none | some (line, rest) ↦ some (b ∷ line, rest) ]

-- An operation on the directory: what it does unless it fails, and what follows either way.
unfoldable pub count_operation : Directory → Directory
count_operation d = record d { operations = suc d.operations }

-- `fh.Close()` and `os.Remove(tmp)` behind a failure, whose own failures are ignored.
unfoldable pub discard_temp : Faults → String → Directory → Directory
unfolding count_operation
discard_temp faults path d = elim (faults d.operations) [
  | none ↦ record (count_operation d) { temps = delete path d.temps }
  | some f ↦ count_operation d
]

-- The operations of `writeAtomic`: create, write the header and the newline, write the JPEG, sync,
-- close and rename.
pub data Step : Type 0 where
  create_file : Step
  write_content : Bytes → Step
  sync_file : Step
  close_file : Step
  rename_file : Step

abbrev temp_content : Option Bytes → Bytes
temp_content none = []
temp_content (some content) = content

-- What a step does where it does not fail. `O_EXCL` refuses a temporary file that is there.
unfoldable pub perform : String → Step → Directory → Result Failure Directory
perform path create_file d = elim (lookup path d.temps) [
  | none ↦ ok (record d { temps = insert path [] d.temps })
  | some _ ↦ err (record { not_exist = false; message = "file exists" })
]
perform path (write_content bs) d =
    ok (record d { temps = insert path (temp_content (lookup path d.temps) ++ bs) d.temps })
perform path sync_file d = ok d
perform path close_file d = ok d
perform path rename_file d = ok (record d {
  frames = insert path (temp_content (lookup path d.temps)) d.frames;
  temps = delete path d.temps;
})

-- Behind a failure of a step: a file that was not created, or not renamed, is left as it is.
unfoldable pub clean_up : Faults → String → Step → Directory → Directory
clean_up faults path create_file d = d
clean_up faults path (write_content bs) d = discard_temp faults path d
clean_up faults path sync_file d = discard_temp faults path d
clean_up faults path close_file d = discard_temp faults path d
clean_up faults path rename_file d = d

unfoldable pub run_steps : Faults → String → List Step → Directory → Directory × Option WriteError
unfolding count_operation
run_steps faults path [] d = (d, none)
run_steps faults path (s ∷ steps) d = elim (faults d.operations) [
  | some f ↦ (clean_up faults path s (count_operation d), some (not_written f))
  | none ↦ elim (perform path s (count_operation d)) [
    | err f ↦ (clean_up faults path s (count_operation d), some (not_written f))
    | ok d' ↦ run_steps faults path steps d'
  ]
]

module _ {G : Type 0} (json : Json G) where
  -- `writeAtomic`.
  unfoldable pub write_atomic :
      Faults → String → BufferedFrame G → Directory → Directory × Option WriteError
  unfolding run_steps
  write_atomic faults path f d = elim (json.marshal (meta_of f)) [
    | none ↦ (d, some not_encoded)
    | some header ↦
        run_steps faults path
          (create_file
            ∷ write_content (header ++ (newline ∷ []))
            ∷ write_content f.jpeg
            ∷ sync_file
            ∷ close_file
            ∷ rename_file
            ∷ [])
          d
  ]

  unfoldable pub read_meta : Option (BufferMeta G) → Bytes → Result ReadError (BufferedFrame G)
  unfolding frame_of
  read_meta none payload = err invalid_header
  read_meta (some meta) payload =
      if length payload == meta.size
      then ok (frame_of meta payload)
      else err (size_mismatch meta.size (length payload))

  unfoldable pub read_bytes : Bytes → Result ReadError (BufferedFrame G)
  unfolding read_meta split_line
  read_bytes content = elim (split_line content) [
    | none ↦ err missing_header
    | some (line, payload) ↦ read_meta (json.unmarshal line) payload
  ]

  -- `readEntry`.
  unfoldable pub read_entry : Faults → String → Directory → Result ReadError (BufferedFrame G)
  unfolding read_bytes
  read_entry faults path d = elim (faults d.operations) [
    | some f ↦ err unreadable
    | none ↦ elim (lookup path d.frames) [
      | none ↦ err unreadable
      | some content ↦ read_bytes content
    ]
  ]
