-- ===== src/Examples/Disks.antt =====
-- Files of one symbol for each document, and a process that has just created them.
use netband.Base.{
  ℕ, ◌*◌, ◌+◌, ◌==◌, ◌&&◌, ◌≡◌, refl, Bool, true, false, none, some, List, [], ◌∷◌, String, ◌⊎◌,
  inl, inr, arith,
}
use netband.Scheduler.Types.{ProviderState, SchedulerError, IoErrorKind}
use netband.Scheduler.Store.{Result, ok, err}
use netband.Scheduler.Persistence.Format.{
  Checkpoint, Header, SchedulerStore, Record, Format, IsFormat, default_store,
}
use netband.Scheduler.Persistence.Commit.{Paths, Disk, Faults, unchanged, written, no_faults}
use netband.Scheduler.Persistence.Recover.{Opening}
use netband.Scheduler.Persistence.Restart.{Opened}
use netband.Examples.Fixtures.{idle, second}

pub data Symbol : Type 0 where
  newline : Symbol
  of_header : Header → Symbol
  of_checkpoint : Checkpoint → Symbol
  of_record : Record → Symbol
  of_store : SchedulerStore → Symbol

abbrev code : Symbol → ℕ
code newline = 0
code (of_header h) = 1
code (of_checkpoint k) = 2 + k.sequence
code (of_record r) = 1
code (of_store s) = 1

abbrev same_codes : List Symbol → List Symbol → Bool
same_codes [] [] = true
same_codes [] (y ∷ ys) = false
same_codes (x ∷ xs) [] = false
same_codes (x ∷ xs) (y ∷ ys) = code x == code y && same_codes xs ys

abbrev ends_line : Symbol → Bool
ends_line newline = true
ends_line (of_header h) = false
ends_line (of_checkpoint k) = false
ends_line (of_record r) = false
ends_line (of_store s) = false

abbrev header_of : List Symbol → String ⊎ Header
header_of (of_header h ∷ []) = inr h
header_of _ = inl "no header"

abbrev checkpoint_of : List Symbol → String ⊎ Checkpoint
checkpoint_of (of_checkpoint k ∷ []) = inr k
checkpoint_of _ = inl "no checkpoint"

abbrev record_of : List Symbol → String ⊎ Record
record_of (of_record r ∷ []) = inr r
record_of _ = inl "no record"

abbrev store_of : List Symbol → String ⊎ SchedulerStore
store_of (of_store s ∷ []) = inr s
store_of _ = inl "no store"

abbrev pub symbols : Format Symbol
symbols = record {
  newline = newline;
  is_newline = ends_line;
  header_json = λ h. of_header h ∷ [];
  checkpoint_json = λ k. of_checkpoint k ∷ [];
  record_json = λ r. of_record r ∷ [];
  store_json = λ s. of_store s ∷ [];
  content_json = λ n previous s. of_store s ∷ [];
  parse_header = header_of;
  parse_checkpoint = checkpoint_of;
  parse_record = record_of;
  parse_json_store = store_of;
  digest = λ bytes. "d";
  same_bytes = same_codes;
  is_identity = λ text. true;
}

same_codes_refl : (bytes : List Symbol) → same_codes bytes bytes ≡ true
same_codes_refl [] = refl
same_codes_refl (b ∷ bytes) = ground (arith, same_codes_refl bytes)

pub symbols-IsFormat : IsFormat symbols
symbols-IsFormat = record {
  newline_iff = refl;
  record-parse = λ r. refl;
  record_line = λ r. (refl, tt);
  header-parse = λ h. refl;
  header_line = λ h. (refl, tt);
  checkpoint-parse = λ k. refl;
  store-parse = λ s. refl;
  same-refl = same_codes_refl;
}

abbrev pub paths : Paths
paths = record {
  primary = "s.json";
  marker = "s.initialized";
  ledger = "s.accounting.jsonl";
  backup = "s.bak";
  lock = "s.lock";
}

abbrev pub first_header : Header
first_header = record { version = 1; installation = "00" }

abbrev pub no_records : Checkpoint
no_records = record { version = 1; installation = "00"; sequence = 0; digest = "d" }

abbrev pub one_record : Checkpoint
one_record = record { version = 1; installation = "00"; sequence = 1; digest = "d" }

-- The provider has started once.
abbrev pub ran : ProviderState
ran = record idle { runs = second ∷ []; last_started_at_utc = some second }

abbrev pub ran_store : SchedulerStore
ran_store = record default_store { providers = ("p", ran) ∷ [] }

-- A header, the marker and no snapshot; the store in memory holds a start.
abbrev pub installed : List Faults → Disk Symbol
installed faults = record {
  files = record {
    primary = none;
    marker = some (of_checkpoint no_records ∷ []);
    ledger = some (of_header first_header ∷ newline ∷ []);
    backup = none;
  };
  memory = record {
    checkpoint = no_records;
    committed = default_store;
    snapshot_digest = none;
    ledger_len = 2;
    poisoned = false;
  };
  store = ran_store;
  faults = faults;
}

abbrev pub no_space : SchedulerError
no_space = SchedulerError.io "s.json.tmp" IoErrorKind.other

-- The log takes the line, and the snapshot cannot be written.
abbrev pub late_fault : Faults
late_fault = record no_faults { snapshot = unchanged no_space }

abbrev pub no_trouble : Opening
no_trouble = record {
  lock = none;
  read_primary = none;
  read_marker = none;
  read_ledger = none;
  find_backup = none;
  identity = inr "00";
  ledger = written;
  marker = written;
  stat_ledger = none;
}

-- What is opened after the start was written.
abbrev pub reopened : Opened
reopened = record {
  memory = record {
    checkpoint = one_record;
    committed = ran_store;
    snapshot_digest = some "d";
    ledger_len = 4;
    poisoned = false;
  };
  store = record ran_store { checkpoint = some one_record };
  recovered = false;
}

abbrev pub two_records : Checkpoint
two_records = record { version = 1; installation = "00"; sequence = 2; digest = "d" }

abbrev pub ran_twice : ProviderState
ran_twice = record idle {
  runs = second ∷ 20 * second ∷ [];
  last_started_at_utc = some (20 * second);
}

abbrev pub ran_twice_store : SchedulerStore
ran_twice_store = record default_store { providers = ("p", ran_twice) ∷ [] }

abbrev pub first_record : Record
first_record = record { sequence = 1; previous_digest = "d"; state = ran_store; digest = "d" }

abbrev pub second_record : Record
second_record = record {
  sequence = 2;
  previous_digest = "d";
  state = ran_twice_store;
  digest = "d";
}

-- The first start is in the snapshot, and the store in memory holds the second.
abbrev pub saved : List Faults → Disk Symbol
saved faults = record {
  files = record {
    primary = some (of_store (record ran_store { checkpoint = some one_record }) ∷ []);
    marker = some (of_checkpoint one_record ∷ []);
    ledger = some (of_header first_header ∷ newline ∷ of_record first_record ∷ newline ∷ []);
    backup = none;
  };
  memory = reopened.memory;
  store = ran_twice_store;
  faults = faults;
}

-- What is opened after the log took the second start and the snapshot did not.
abbrev pub replayed : Opened
replayed = record {
  memory = record {
    checkpoint = two_records;
    committed = ran_twice_store;
    snapshot_digest = some "d";
    ledger_len = 6;
    poisoned = false;
  };
  store = record ran_twice_store { checkpoint = some two_records };
  recovered = true;
}

abbrev pub opened_of : Result Opened → Opened
opened_of (ok o) = o
opened_of (err e) = reopened
