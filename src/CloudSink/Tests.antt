-- ===== src/CloudSink/Tests.antt =====
-- internal/cloudsink/buffer.go: a spool of two frames, and the theorems about it.
use monitoreoedgeis.Prelude.{
  ℕ, zero, suc, ◌≡◌, refl, ◌⊎◌, true, false, none, some, String, List, [], ◌∷◌, str_eq, is_some, ok,
}
use monitoreoedgeis.Prelude.Map.{lookup, insert, delete}
use monitoreoedgeis.CloudSink.Entry.{
  BufferedFrame, Json, Directory, Faults, write_atomic, read_entry, meta_of, run_steps, perform,
  count_operation,
}
use monitoreoedgeis.CloudSink.Entry.RoundTrip.{write_atomic-read_entry}
use monitoreoedgeis.CloudSink.Buffer.{
  Buffer, Names, open_buffer, enqueue, peek, after_write, recover_files, enforce_recovered_bound,
  trim, sweep_temps,
}
use monitoreoedgeis.CloudSink.Buffer.Bounds.{IsWithin}
use monitoreoedgeis.CloudSink.Buffer.Runs.{
  Call, enqueues, peeks, advances, answer_all, open_buffer-answer_all-IsWithin,
}
use monitoreoedgeis.CloudSink.Buffer.Replay.{Peeks, peek-Peeks}

abbrev shot : ℕ → BufferedFrame ℕ
shot seq = record {
  kind = "";
  candidate_key = "cam1";
  seq = seq;
  timestamp = 100;
  jpeg = 1 ∷ 2 ∷ 3 ∷ [];
  processing_mode = "";
  candidate_reason = "";
  candidate_score = 0;
  correlation_id = "";
  anpr_candidate = 0;
}

-- A header of one byte, the sequence number above the newline.
abbrev tiny_json : Json ℕ
tiny_json = record {
  marshal = λ m. some (m.seq ∷ []);
  unmarshal = λ line. elim line [ [] ↦ none | b ∷ bs ↦ some (meta_of (shot b)) ];
}

abbrev two_names : Names
two_names = record {
  name_of = λ n. elim n [ zero ↦ "0" | suc m ↦ elim m [ zero ↦ "1" | suc _ ↦ "2" ] ];
  counter_from_name = λ name. none;
}

abbrev fine : Faults
fine n = none

abbrev empty_directory : Directory
empty_directory = record { frames = []; temps = []; operations = 0 }

abbrev opened : Buffer
opened = (open_buffer tiny_json two_names fine fine fine 5 2 50 [] [] empty_directory).0

-- The second frame would exceed five bytes.
one_fits : (enqueue tiny_json two_names fine (shot 12) opened).0.bytes ≡ 3
unfolding enqueue open_buffer after_write write_atomic run_steps meta_of perform lookup insert
    delete recover_files enforce_recovered_bound trim sweep_temps count_operation
one_fits = refl

write_atomic-read_entry_example :
    (((write_atomic tiny_json fine "1" (shot 12) empty_directory).1 ≡ none)
      × ((reads : Faults)
          → reads ((write_atomic tiny_json fine "1" (shot 12) empty_directory).0.operations) ≡ none
          → read_entry tiny_json reads "1"
              (write_atomic tiny_json fine "1" (shot 12) empty_directory).0
            ≡ ok (shot 12))
      × ((other : String)
          → str_eq "1" other ≡ false
          → lookup other (write_atomic tiny_json fine "1" (shot 12) empty_directory).0.frames
            ≡ lookup other empty_directory.frames))
    ⊎ ((is_some (write_atomic tiny_json fine "1" (shot 12) empty_directory).1 ≡ true)
        × ((write_atomic tiny_json fine "1" (shot 12) empty_directory).0.frames
            ≡ empty_directory.frames))
unfolding meta_of
write_atomic-read_entry_example =
    write_atomic-read_entry tiny_json fine "1" (shot 12) (12 ∷ []) empty_directory refl refl
      (refl, tt)

abbrev calls : List (Call ℕ)
calls = enqueues fine (shot 12) ∷ enqueues fine (shot 13) ∷ peeks fine fine 500 ∷ advances fine ∷ []

open_buffer-answer_all-IsWithin_example : IsWithin (answer_all tiny_json two_names calls opened)
unfolding open_buffer enforce_recovered_bound trim recover_files
open_buffer-answer_all-IsWithin_example =
    open_buffer-answer_all-IsWithin tiny_json two_names fine fine fine 5 2 50 [] [] empty_directory
      calls refl

abbrev holding : Buffer
holding = (enqueue tiny_json two_names fine (shot 12) opened).0

peek-Peeks_example :
    Peeks tiny_json two_names fine fine 120 holding.max_age holding holding.queue
      (peek tiny_json two_names fine fine 120 holding)
peek-Peeks_example = peek-Peeks tiny_json two_names fine fine 120 holding
