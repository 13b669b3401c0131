-- ===== src/Drill/Store.antt =====
-- pkg/backup/drill: the journal's file under its lock (journal.go) and the pinned adapter (adapter.go).
-- The world keeps the file, the requests that the adapter has run, and how often the clock and the
-- disk were used; what the clock, the disk and the adapter's process answer are parameters.
use cloud_ring.Prelude.{
  ℕ, suc, ◌+◌, ◌*◌, String, Bool, true, false, not, ◌||◌, Option, none, some, List, [], ◌∷◌, ◌++◌,
  ◌==◌, if◌then◌else◌, ltb, eqb,
}
use cloud_ring.Drill.Steps.{step_eq, approval_consumed}
use cloud_ring.Drill.Types.{AdapterRequest, AdapterResponse, JournalEntry}
use cloud_ring.Drill.Instant.{Instant}
use cloud_ring.Drill.Digest.{Digest, adapter_request_sha256}
use cloud_ring.Drill.Plans.{Error}
use cloud_ring.Drill.Responses.{validate_adapter_response}
use cloud_ring.Drill.Journal.{validate_journal_entries, validate_journal_entry, extends}

pub data Result (A : Type 0) : Type 0 where
  ok : A → Result A
  failed : Error → Result A

-- The file: its entries with its size in bytes, or content that does not decode.
pub data File : Type 0 where
  absent damaged : File
  readable : List JournalEntry → ℕ → File

-- What the disk does in one use: an access that does not write fails unless it is `fine`; a write is
-- done, refused, done with an error afterwards, or cut short.
pub data Disk : Type 0 where
  fine refused unsure torn : Disk

-- A pinned executable: what the n-th run's output decodes to, and `none` where the run fails or its
-- output is refused.
pub record Adapter : Type 0 where
  pub identity : String
  pub run : ℕ → AdapterRequest → Option AdapterResponse

pub record Env : Type 0 where
  pub digest : Digest
  pub clock : ℕ → Instant
  pub disk : ℕ → Disk
  pub encoded_size : JournalEntry → ℕ
  pub adapter : Option Adapter

pub record World : Type 0 where
  pub file : File
  pub requests : List AdapterRequest
  pub clock_reads : ℕ
  pub disk_uses : ℕ

-- What `invoke` returns: an error without a response, an error beside a response, or a response.
pub data Invocation : Type 0 where
  unanswered : Error → Invocation
  rejected : AdapterResponse → Error → Invocation
  accepted : AdapterResponse → Invocation

abbrev pub max_journal_bytes : ℕ
max_journal_bytes = 2097152

unfoldable pub is_fine : Disk → Bool
is_fine fine = true
is_fine _ = false

unfoldable pub read_clock : Env → World → World × Instant
read_clock env w = (record w { clock_reads = suc w.clock_reads }, env.clock w.clock_reads)

-- The size after which the n-th run is counted.
unfoldable pub run_count : List AdapterRequest → ℕ
run_count [] = 0
run_count (r ∷ rs) = suc (run_count rs)

unfoldable pub adapter_identity : Option Adapter → String
adapter_identity none = ""
adapter_identity (some adapter) = adapter.identity

unfoldable pub invoke : Env → AdapterRequest → World → World × Invocation
invoke env request w = elim env.adapter [
  | none ↦ (w, unanswered "backup drill adapter request identity is invalid")
  | some adapter ↦
      let w' : World = record w { requests = w.requests ++ request ∷ [] } in
      if not (adapter.identity == request.adapter_executable_sha256)
        || not (request.request_sha256 == adapter_request_sha256 env.digest request)
      then (w, unanswered "backup drill adapter request identity is invalid")
      else elim (adapter.run (run_count w.requests) request) [
        | none ↦ (w', unanswered "backup drill adapter execution failed")
        | some response ↦ elim (validate_adapter_response env.digest request response) [
          | some e ↦ (w', rejected response e)
          | none ↦ (w', accepted response)
        ]
      ]
]

-- decodeJournal, for the entries that the lines decode to.
unfoldable pub decode_journal : Digest → List JournalEntry → Result (List JournalEntry)
decode_journal digest entries = elim (validate_journal_entries digest entries) [
  | some e ↦ failed e
  | none ↦ ok entries
]

unfoldable pub load_file : Digest → File → Result (List JournalEntry × ℕ)
load_file digest absent = failed "backup drill journal transaction is unavailable"
load_file digest damaged = failed "backup drill journal contains invalid JSON"
load_file digest (readable entries size) =
    if ltb size 2 || ltb max_journal_bytes size
    then failed "backup drill journal input is invalid"
    else elim (decode_journal digest entries) [
      | failed e ↦ failed e
      | ok loaded ↦ ok (loaded, size)
    ]

abbrev pub used : World → World
used w = record w { disk_uses = suc w.disk_uses }

unfoldable pub load : Env → World → World × Result (List JournalEntry × ℕ)
load env w =
    if is_fine (env.disk w.disk_uses)
    then (used w, load_file env.digest w.file)
    else (used w, failed "backup drill journal changed or is truncated")

-- A write of `after` over the file, as the disk has it.
unfoldable pub write : Disk → File → World → World × Result Unit
write fine after w = (record (used w) { file = after }, ok tt)
write refused after w = (used w, failed "append backup drill journal")
write unsure after w = (record (used w) { file = after }, failed "sync backup drill journal")
write torn after w = (record (used w) { file = damaged }, failed "append backup drill journal")

-- The write of AppendJournal after a load.
unfoldable pub append_loaded :
    Env → JournalEntry → List JournalEntry × ℕ → World → World × Result Unit
append_loaded env entry (entries, size) w =
    let more = env.encoded_size entry in
    if not (extends env.digest entries entry)
    then (w, failed "backup drill journal append is not a valid transition")
    else if ltb (128 * 1024) more || ltb max_journal_bytes (size + more)
    then (w, failed "backup drill journal entry exceeds limit")
    else write (env.disk w.disk_uses) (readable (entries ++ entry ∷ []) (size + more)) w

unfoldable pub append : Env → JournalEntry → World → World × Result Unit
append env entry w =
    let (w', loaded) = load env w in
    elim loaded [
      | failed e ↦ (w', failed "load backup drill journal before append")
      | ok read ↦ append_loaded env entry read w'
    ]

-- CreateJournal: the file must be new.
unfoldable pub create_journal : Env → JournalEntry → World → World × Result Unit
create_journal env entry w =
    let created = write (env.disk w.disk_uses) (readable (entry ∷ []) (env.encoded_size entry)) w in
    if not (eqb entry.sequence 1)
      || not (step_eq entry.step approval_consumed)
      || not (entry.previous_entry_sha256 == "")
    then (w, failed "backup drill initial journal entry is invalid")
    else elim (validate_journal_entry env.digest entry none) [
      | some e ↦ (w, failed e)
      | none ↦ elim w.file [ absent ↦ created | _ ↦ (w, failed "backup drill journal exists") ]
    ]

-- openJournalTransaction: the lock is held until the operation returns.
unfoldable pub open_journal : Env → World → World × Result Unit
open_journal env w =
    if is_fine (env.disk w.disk_uses)
    then elim w.file [
      | absent ↦ (used w, failed "backup drill journal is not an exact owner-only regular file")
      | _ ↦ (used w, ok tt)
    ]
    else (used w, failed "open backup drill journal transaction")

-- AppendJournal and LoadJournal: one transaction each.
unfoldable pub append_journal : Env → JournalEntry → World → World × Result Unit
append_journal env entry w =
    let (w', opened) = open_journal env w in
    elim opened [ failed e ↦ (w', failed e) | ok _ ↦ append env entry w' ]

unfoldable pub load_journal : Env → World → World × Result (List JournalEntry × ℕ)
load_journal env w =
    let (w', opened) = open_journal env w in
    elim opened [ failed e ↦ (w', failed e) | ok _ ↦ load env w' ]
