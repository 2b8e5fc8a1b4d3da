-- ===== src/Scheduler/Persistence/Log.antt =====
-- src/scheduler/persistence.rs: `read_log` and `validate_checkpoint`. A log's checkpoints are
-- `root`, that of the header, and `later`, one for each record.
pub mod Lines
pub mod Laws
use netband.Base.{
  ℕ, zero, suc, ◌+◌, Bool, true, false, not, ◌||◌, Option, none, some, List, [], ◌∷◌, ◌++◌, String,
  str_eq, ◌==◌, get_elem?, if◌then◌else◌, inl, inr,
}
use netband.Scheduler.Store.{Result, ok, err}
use netband.Scheduler.Persistence.Format.{
  Checkpoint, Header, SchedulerStore, Record, Format, corrupt, ◌>>=◌, parsed, validate_store,
  checkpoint_eq, state_schema_version, default_store,
}
use Lines.{ends_with_newline, drop_last, split}

pub record Log : Type 0 where
  pub root : Checkpoint
  pub later : List Checkpoint
  pub states : List SchedulerStore

abbrev pub last_or {ℓ} : {A : Type ℓ} → A → List A → A
last_or a [] = a
last_or a (x ∷ xs) = last_or x xs

-- `log.checkpoints.last()`.
abbrev pub last_checkpoint : Log → Checkpoint
last_checkpoint log = last_or log.root log.later

-- `log.states.last().cloned().unwrap_or_default()`.
abbrev pub last_state : Log → SchedulerStore
last_state log = last_or default_store log.states

-- `log.checkpoints.get(index)`.
abbrev pub checkpoint_at : Log → ℕ → Option Checkpoint
checkpoint_at log zero = some log.root
checkpoint_at log (suc i) = get_elem? log.later i

abbrev pub is_some_checkpoint : Option Checkpoint → Bool
is_some_checkpoint none = false
is_some_checkpoint (some k) = true

module _ {B : Type 0} (w : Format B) (path : String) where
  -- The test of a record against the checkpoint before it.
  abbrev pub breaks_chain : Checkpoint → Record → Bool
  breaks_chain previous r =
      not (r.sequence == previous.sequence + 1)
      || not (str_eq r.previous_digest previous.digest)
      || not (r.state.schema_version == state_schema_version)
      || is_some_checkpoint r.state.checkpoint
      || not (str_eq r.digest (w.digest (w.content_json r.sequence r.previous_digest r.state)))

  abbrev pub push : Log → Record → Log
  push log r = record log {
    later =
        log.later ++ record (last_checkpoint log) { sequence = r.sequence; digest = r.digest } ∷ [];
    states = log.states ++ r.state ∷ [];
  }

  pub check_record : Log → Record → Result Log
  check_record log r =
      if breaks_chain (last_checkpoint log) r
      then corrupt path "accounting sequence, digest chain, or record schema is invalid"
      else do valid ← validate_store path r.state; ok (push log r)

  unfoldable pub read_record : Log → List B → Result Log
  unfolding check_record
  read_record log line = do r ← parsed path (w.parse_record line); check_record log r

  unfoldable pub read_records : Log → List (List B) → Result Log
  read_records log [] = ok log
  read_records log (line ∷ lines) = do next ← read_record log line; read_records next lines

  abbrev pub new_log : Header → List B → Log
  new_log header first = record {
    root = record {
      version = header.version;
      installation = header.installation;
      sequence = 0;
      digest = w.digest first;
    };
    later = [];
    states = [];
  }

  pub check_header : Header → List B → Result Log
  check_header header first =
      if not (header.version == state_schema_version) || not (w.is_identity header.installation)
      then corrupt path "unsupported accounting header or invalid installation identity"
      else ok (new_log header first)

  unfoldable pub read_header : List B → Result Log
  unfolding check_header
  read_header first = do header ← parsed path (w.parse_header first); check_header header first

  unfoldable pub read_lines : List B × List (List B) → Result Log
  read_lines (first, rest) = do log ← read_header first; read_records log rest

  unfoldable pub read_log : List B → Result Log
  read_log bytes =
      if ends_with_newline w bytes
      then read_lines (split w (drop_last bytes))
      else corrupt path "accounting log has an incomplete final record"

  matches : Checkpoint → Option Checkpoint → Result (Unit {0})
  matches k none = corrupt path "accounting log does not match the committed checkpoint"
  matches k (some found) =
      if checkpoint_eq found k
      then ok tt
      else corrupt path "accounting log does not match the committed checkpoint"

  unfoldable pub validate_checkpoint : Checkpoint → Log → Result (Unit {0})
  unfolding matches
  validate_checkpoint k log = matches k (checkpoint_at log k.sequence)
