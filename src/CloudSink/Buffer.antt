-- ===== src/CloudSink/Buffer.antt =====
-- internal/cloudsink/buffer.go: the bounded queue of spooled frames.
pub mod Bounds
pub mod Runs
pub mod Replay
use monitoreoedgeis.Prelude.{
  ℕ, suc, ◌+◌, ◌-◌, Bool, true, false, not, ◌&&◌, ◌||◌, Option, none, some, option_or, String,
  str_eq, List, [], ◌∷◌, ◌++◌, length, ltb, ◌==◌, if◌then◌else◌, is_some, Result, ok, err,
}
use monitoreoedgeis.Prelude.Map.{lookup, delete}
use monitoreoedgeis.CloudSink.Entry.{
  Bytes, BufferedFrame, Json, Failure, Directory, Faults, WriteError, ReadError, count_operation,
  discard_temp, write_atomic, read_entry,
}

-- `queuedEntry`.
pub record QueuedEntry : Type 0 where
  pub path : String
  pub candidate_key : String
  pub timestamp : ℕ
  pub size : ℕ

-- `Buffer`, with the directory that it spools to.
pub record Buffer : Type 0 where
  pub max_bytes : ℕ
  pub max_frames : ℕ
  pub max_age : ℕ
  pub queue : List QueuedEntry
  pub bytes : ℕ
  pub counter : ℕ
  pub replayed : ℕ
  pub dropped_full : ℕ
  pub corrupt_entries : ℕ
  pub dropped_age : ℕ
  pub dropped_over_capacity : ℕ
  pub directory : Directory

pub data EnqueueError : Type 0 where
  buffer_full : EnqueueError
  not_spooled : WriteError → EnqueueError

-- The file names: `fmt.Sprintf` of a counter, and `counterFromName`.
pub record Names : Type 0 where
  pub name_of : ℕ → String
  pub counter_from_name : String → Option ℕ

-- `os.Remove` of a frame file.
unfoldable pub remove_file : Faults → String → Directory → Directory × Option Failure
unfolding count_operation
remove_file faults path d = elim (faults d.operations) [
  | some f ↦ (count_operation d, some f)
  | none ↦ (record (count_operation d) { frames = delete path d.frames }, none)
]

-- `removeFrontLocked` of the entry `e` in front of `rest`, which ignores a failure.
unfoldable pub remove_front : Faults → QueuedEntry → List QueuedEntry → Buffer → Buffer
unfolding remove_file
remove_front faults e rest b = record b {
  queue = rest;
  bytes = b.bytes - e.size;
  directory = (remove_file faults e.path b.directory).0;
}

unfoldable pub discard_front : Faults → List QueuedEntry → Buffer → Buffer
unfolding remove_front
discard_front faults [] b = b
discard_front faults (e ∷ rest) b = remove_front faults e rest b

-- `Discard`.
unfoldable pub discard : Faults → Buffer → Buffer
unfolding discard_front
discard faults b = discard_front faults b.queue b

unfoldable pub advance_front : Faults → List QueuedEntry → Buffer → Buffer
advance_front faults [] b = b
advance_front faults (e ∷ rest) b =
    let b' = remove_front faults e rest b in record b' { replayed = suc b'.replayed }

-- `Advance`.
unfoldable pub advance : Faults → Buffer → Buffer
unfolding advance_front
advance faults b = advance_front faults b.queue b

unfoldable pub pending_in : String → List QueuedEntry → Bool
pending_in key [] = false
pending_in key (e ∷ q) = if str_eq e.candidate_key key then true else pending_in key q

-- `HasPending`.
unfoldable pub has_pending : Buffer → String → Bool
unfolding pending_in
has_pending b key = pending_in key b.queue

-- The loop of `enforceRecoveredBoundLocked`.
unfoldable pub trim : Faults → List QueuedEntry → Buffer → Buffer × Option Failure
trim faults [] b = (b, none)
trim faults (e ∷ rest) b =
    let (d, problem) = remove_file faults e.path b.directory in
    let more = trim faults rest (record b {
      queue = rest;
      bytes = b.bytes - e.size;
      dropped_over_capacity = suc b.dropped_over_capacity;
      directory = d;
    }) in
    if ltb b.max_frames (length (e ∷ rest)) || ltb b.max_bytes b.bytes
    then elim problem [
      | none ↦ more
      | some f ↦ if f.not_exist then more else (record b { directory = d }, some f)
    ]
    else (b, none)

unfoldable pub enforce_recovered_bound : Faults → Buffer → Buffer × Option Failure
unfolding trim
enforce_recovered_bound faults b = trim faults b.queue b

module _ {G : Type 0} (json : Json G) (names : Names) where
  unfoldable pub after_write :
      BufferedFrame G
      → String
      → Buffer
      → Directory × Option WriteError
      → Buffer × Option EnqueueError
  after_write f path b (d, some e) = (record b { directory = d }, some (not_spooled e))
  after_write f path b (d, none) = (
    record b {
      queue =
          b.queue
          ++ (record {
            path = path;
            candidate_key = f.candidate_key;
            timestamp = f.timestamp;
            size = length f.jpeg;
          }
              ∷ []);
      bytes = b.bytes + length f.jpeg;
      directory = d;
    },
    none,
  )

  -- `Enqueue`, with `writeFn` as `writeAtomic`.
  unfoldable pub enqueue : Faults → BufferedFrame G → Buffer → Buffer × Option EnqueueError
  unfolding after_write
  enqueue faults f b =
      if ltb b.max_frames (length b.queue + 1) || ltb b.max_bytes (b.bytes + length f.jpeg)
      then (record b { dropped_full = suc b.dropped_full }, some buffer_full)
      else let path = names.name_of (suc b.counter) in
        after_write f path (record b { counter = suc b.counter })
          (write_atomic json faults path f b.directory)

  -- The loop of `Peek`, with one reading of the clock; `reads` tells which reads of a file fail.
  unfoldable pub peek_from :
      Faults → Faults → ℕ → List QueuedEntry → Buffer → Buffer × Option (BufferedFrame G)
  unfolding remove_front
  peek_from faults reads now [] b = (b, none)
  peek_from faults reads now (e ∷ rest) b =
      let stale =
        peek_from faults reads now rest
          (remove_front faults e rest (record b { dropped_age = suc b.dropped_age })) in
      let corrupt =
        peek_from faults reads now rest
          (remove_front faults e rest (record b { corrupt_entries = suc b.corrupt_entries })) in
      if ltb 0 b.max_age && ltb (e.timestamp + b.max_age) now
      then stale
      else elim (read_entry json reads e.path b.directory) [
        | err problem ↦ corrupt
        | ok f ↦ (b, some f)
      ]

  -- `Peek`.
  unfoldable pub peek : Faults → Faults → ℕ → Buffer → Buffer × Option (BufferedFrame G)
  unfolding peek_from
  peek faults reads now b = peek_from faults reads now b.queue b

  unfoldable pub set_corrupt : Faults → String → Buffer → Buffer
  unfolding remove_file
  set_corrupt faults name b = record b {
    corrupt_entries = suc b.corrupt_entries;
    directory = (remove_file faults name b.directory).0;
  }

  -- The counter behind a recovered file.
  unfoldable pub greater_counter : Option ℕ → ℕ → ℕ
  greater_counter none counter = counter
  greater_counter (some c) counter = if ltb counter c then c else counter

  -- A file that was read: its size is that of the whole file.
  unfoldable pub recover_read :
      Faults → Faults → String → Result ReadError (BufferedFrame G) → Buffer → Buffer
  unfolding set_corrupt greater_counter
  recover_read faults stats name (err problem) b = set_corrupt faults name b
  recover_read faults stats name (ok f) b =
      let size = length (option_or (lookup name b.directory.frames) []) in
      if is_some (stats b.directory.operations) then set_corrupt faults name b else record b {
        queue =
            b.queue
            ++ (record {
              path = name;
              candidate_key = f.candidate_key;
              timestamp = f.timestamp;
              size = size;
            }
                ∷ []);
        bytes = b.bytes + size;
        counter = greater_counter (names.counter_from_name name) b.counter;
      }

  -- The loop of `recover` over the sorted names of the frame files; `stats` tells which calls of
  -- `os.Stat` fail.
  unfoldable pub recover_files : Faults → Faults → Faults → List String → Buffer → Buffer
  unfolding recover_read
  recover_files faults reads stats [] b = b
  recover_files faults reads stats (name ∷ rest) b =
      recover_files faults reads stats rest
        (recover_read faults stats name (read_entry json reads name b.directory) b)

  -- The loop of `recover` that deletes what an interrupted write has left.
  unfoldable pub sweep_temps : Faults → List String → Directory → Directory
  unfolding discard_temp
  sweep_temps faults [] d = d
  sweep_temps faults (name ∷ rest) d = sweep_temps faults rest (discard_temp faults name d)

  -- `OpenBuffer` of a directory that is there, with the names of its files.
  unfoldable pub open_buffer :
      Faults
      → Faults
      → Faults
      → ℕ
      → ℕ
      → ℕ
      → List String
      → List String
      → Directory
      → Buffer × Option Failure
  unfolding recover_files sweep_temps enforce_recovered_bound
  open_buffer faults reads stats max_bytes max_frames max_age temp_names frame_names d =
      enforce_recovered_bound faults (
        recover_files faults reads stats frame_names (record {
          max_bytes = max_bytes;
          max_frames = max_frames;
          max_age = max_age;
          queue = [];
          bytes = 0;
          counter = 0;
          replayed = 0;
          dropped_full = 0;
          corrupt_entries = 0;
          dropped_age = 0;
          dropped_over_capacity = 0;
          directory = sweep_temps faults temp_names d;
        }))
