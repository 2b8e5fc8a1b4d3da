-- ===== src/Scheduler/Persistence/Format.antt =====
-- src/scheduler/persistence.rs: the documents that the files hold, `validate_store`, and the
-- serialization of serde_json and the digest of sha2, which are an interface over the bytes.
use netband.Base.{
  ℕ, ◌≡◌, Bool, true, false, ◌||◌, Option, none, List, [], ◌∷◌, String, ◌⊎◌, inl, inr,
  if◌then◌else◌, All, str_eq, ◌==◌, ◌&&◌,
}
use netband.Scheduler.Types.{SchedulerError}
use netband.Scheduler.Store.{Result, ok, err, Providers}
use netband.Scheduler.Change.Validity.{is_invalid}

abbrev pub state_schema_version : ℕ
state_schema_version = 1

pub record Checkpoint : Type 0 where
  pub version : ℕ
  pub installation : String
  pub sequence : ℕ
  pub digest : String

pub record Header : Type 0 where
  pub version : ℕ
  pub installation : String

pub record SchedulerStore : Type 0 where
  pub schema_version : ℕ
  pub checkpoint : Option Checkpoint
  pub providers : Providers

-- `SchedulerStore::default()`.
abbrev pub default_store : SchedulerStore
default_store = record { schema_version = state_schema_version; checkpoint = none; providers = [] }

pub record Record : Type 0 where
  pub sequence : ℕ
  pub previous_digest : String
  pub state : SchedulerStore
  pub digest : String

-- Over bytes `B`: what the code uses of serde_json, sha2 and `==` on byte strings. A parse gives
-- the value or the text of an error.
pub record Format (B : Type 0) : Type 0 where
  pub newline : B
  pub is_newline : B → Bool
  pub header_json : Header → List B
  pub checkpoint_json : Checkpoint → List B
  pub record_json : Record → List B
  pub store_json : SchedulerStore → List B
  pub content_json : ℕ → String → SchedulerStore → List B  -- the tuple of `computed_digest`
  pub parse_header : List B → String ⊎ Header
  pub parse_checkpoint : List B → String ⊎ Checkpoint
  pub parse_record : List B → String ⊎ Record
  pub parse_json_store : List B → String ⊎ SchedulerStore
  pub digest : List B → String
  pub same_bytes : List B → List B → Bool
  pub is_identity : String → Bool  -- 32 hexadecimal digits

-- A document is parsed back, and is written on one line.
pub record IsFormat {B : Type 0} (w : Format B) : Type 0 where
  pub newline_iff : w.is_newline w.newline ≡ true
  pub record-parse : (r : Record) → w.parse_record (w.record_json r) ≡ inr r
  pub record_line : (r : Record) → All (λ b. w.is_newline b ≡ false) (w.record_json r)
  pub header-parse : (h : Header) → w.parse_header (w.header_json h) ≡ inr h
  pub header_line : (h : Header) → All (λ b. w.is_newline b ≡ false) (w.header_json h)
  pub checkpoint-parse : (k : Checkpoint) → w.parse_checkpoint (w.checkpoint_json k) ≡ inr k
  pub store-parse : (s : SchedulerStore) → w.parse_json_store (w.store_json s) ≡ inr s
  pub same-refl : (bs : List B) → w.same_bytes bs bs ≡ true

abbrev pub corrupt : {A : Type 0} → String → String → Result A
corrupt path message = err (SchedulerError.corrupt path message)

infixl 5 ◌>>=◌
abbrev pub ◌>>=◌ : {A B : Type 0} → Result A → (A → Result B) → Result B
ok a >>= f = f a
err e >>= f = err e

-- `parse`.
abbrev pub parsed : {A : Type 0} → String → String ⊎ A → Result A
parsed path (inl message) = corrupt path message
parsed path (inr a) = ok a

abbrev pub any_invalid : Providers → Bool
any_invalid [] = false
any_invalid ((id, state) ∷ rest) = is_invalid id state || any_invalid rest

unfoldable pub validate_store : String → SchedulerStore → Result (Unit {0})
validate_store path store =
    if any_invalid store.providers
    then corrupt path "invalid provider accounting or scheduling state"
    else ok tt

abbrev supported : String → SchedulerStore → Result SchedulerStore
supported path store =
    if store.schema_version == state_schema_version
    then (do valid ← validate_store path store; ok store)
    else err (SchedulerError.unsupported_schema store.schema_version)

unfoldable pub parse_store : {B : Type 0} → Format B → String → List B → Result SchedulerStore
parse_store w path bytes = do store ← parsed path (w.parse_json_store bytes); supported path store

abbrev pub checkpoint_eq : Checkpoint → Checkpoint → Bool
checkpoint_eq a b =
    a.version == b.version
    && str_eq a.installation b.installation
    && a.sequence == b.sequence
    && str_eq a.digest b.digest

-- `Record::new`, with `computed_digest`.
unfoldable pub new_record : {B : Type 0} → Format B → ℕ → String → SchedulerStore → Record
new_record w sequence previous state = record {
  sequence = sequence;
  previous_digest = previous;
  state = state;
  digest = w.digest (w.content_json sequence previous state);
}
