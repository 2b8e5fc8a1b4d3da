-- ===== src/Scheduler/Persistence/Log/Laws.antt =====
-- What is appended to a log, and what a log that was read holds.
use mathlib.Core.List.{append_assoc, append-nil}
use netband.Base.{
  suc, ◌+◌, ◌≡◌, refl, sym, ap, subst, ◌∙◌, true, false, Bool-cases, inl, inr, none, some, List, [],
  ◌∷◌, ◌++◌, String, arith, length, get_elem?, str_eq_iff, ◌⊎◌,
}
use netband.Scheduler.Store.{ok}
use netband.Scheduler.Persistence.Format.{
  SchedulerStore, Record, Format, IsFormat, ◌>>=◌, parsed, validate_store, default_store,
  new_record, state_schema_version,
}
use netband.Scheduler.Persistence.Binds.{>>=-eq-ok, >>=_ok, >>=_assoc, >>=_cong}
use netband.Scheduler.Persistence.Log.{
  Log, last_checkpoint, last_state, last_or, breaks_chain, push, new_log, check_record, read_record,
  read_records, check_header, read_header, read_lines, read_log,
}
use netband.Scheduler.Persistence.Log.Lines.{
  ends_with_newline, drop_last, split, NoNewline, Torn, split-append, ends-append_last,
  drop_last-append,
}

pub last_or-append : {A : Type 0} (a : A) (xs : List A) (x : A) → last_or a (xs ++ x ∷ []) ≡ x
last_or-append a [] x = refl
last_or-append a (y ∷ xs) x = last_or-append y xs x

length-append_one : {A : Type 0} (xs : List A) (x : A) → length (xs ++ x ∷ []) ≡ suc (length xs)
length-append_one [] x = refl
length-append_one (y ∷ xs) x = omega (arith, length-append_one xs x)

pub get_elem?-last :
    {A : Type 0} (a x : A) (xs : List A)
    → get_elem? (x ∷ xs) (length xs) ≡ some (last_or a (x ∷ xs))
get_elem?-last a x [] = refl
get_elem?-last a x (y ∷ xs) = get_elem?-last x y xs

-- Checkpoints and states are in step, the last checkpoint counts the records, and the last state
-- has the schema of the code.
pub record Counted (log : Log) : Type 0 where
  pub paired : length log.later ≡ length log.states
  pub counted : (last_checkpoint log).sequence ≡ length log.states
  pub schema : (last_state log).schema_version ≡ state_schema_version

module _ {B : Type 0} (w : Format B) (path : String) where
  push-Counted :
      (log : Log) (r : Record)
      → Counted log
      → breaks_chain w path (last_checkpoint log) r ≡ false
      → Counted (push w path log r)
  push-Counted log r v chained = record {
    paired = omega (
      arith,
      length-append_one log.later
          (record (last_checkpoint log) { sequence = r.sequence; digest = r.digest }),
      length-append_one log.states r.state,
      v.paired,
    );
    counted = rw last_or-append (ground (arith, length-append_one log.states r.state, v.counted));
    schema =
        ap (λ s. s.schema_version) (last_or-append default_store log.states r.state)
        ∙ ground (arith, chained);
  }

  check_record-Counted :
      (log next : Log) (r : Record)
      → Counted log
      → check_record w path log r ≡ ok next
      → Counted next
  unfolding check_record validate_store
  check_record-Counted log next r v h =
      elim (Bool-cases (breaks_chain w path (last_checkpoint log) r)) [
        | inl broken ↦ absurd (ground arith)
        | inr chained ↦ subst Counted (ground arith) (push-Counted log r v chained)
      ]

  read_record-Counted :
      (log next : Log) (line : List B)
      → Counted log
      → read_record w path log line ≡ ok next
      → Counted next
  unfolding read_record check_record validate_store
  read_record-Counted log next line v h =
      let step = >>=-eq-ok (parsed path (w.parse_record line)) (check_record w path log) next h in
      check_record-Counted log next step.0 v step.2

  read_records-Counted :
      (log next : Log) (lines : List (List B))
      → Counted log
      → read_records w path log lines ≡ ok next
      → Counted next
  unfolding read_records
  read_records-Counted log next [] v h = subst Counted (ground arith) v
  read_records-Counted log next (l ∷ lines) v h =
      let step =
        >>=-eq-ok (read_record w path log l) (λ log. read_records w path log lines) next h in
      read_records-Counted step.0 next lines (read_record-Counted log step.0 l v step.1) step.2

  read_records-append :
      (log : Log) (lines : List (List B)) (line : List B)
      → read_records w path log (lines ++ line ∷ [])
        ≡ (read_records w path log lines >>= λ next. read_record w path next line)
  unfolding read_records
  read_records-append log [] line = >>=_ok (read_record w path log line)
  read_records-append log (l ∷ lines) line =
      >>=_cong (read_record w path log l) _ _ (λ next. read_records-append next lines line)
      ∙ sym (>>=_assoc (read_record w path log l) (λ next. read_records w path next lines) _)

  read_lines-append :
      (first line : List B) (rest : List (List B))
      → read_lines w path (first, rest ++ line ∷ [])
        ≡ (read_lines w path (first, rest) >>= λ log. read_record w path log line)
  unfolding read_lines
  read_lines-append first line rest =
      >>=_cong (read_header w path first) _ _ (λ log. read_records-append log rest line)
      ∙ sym (>>=_assoc (read_header w path first) (λ log. read_records w path log rest) _)

  read_header-Counted :
      (first : List B) (log : Log) → read_header w path first ≡ ok log → Counted log
  unfolding read_header check_header
  read_header-Counted first log h =
      let step =
        >>=-eq-ok (parsed path (w.parse_header first)) (λ k. check_header w path k first) log h in
      let started : new_log w path step.0 first ≡ log = ground (arith, step.2) in
      subst Counted started (record { paired = refl; counted = refl; schema = refl })

  read_log-ends :
      (bytes : List B) (log : Log)
      → read_log w path bytes ≡ ok log
      → ends_with_newline w bytes ≡ true
  unfolding read_log
  read_log-ends bytes log h = ground arith

  -- The log that was read counts its records.
  pub read_log-Counted : (bytes : List B) (log : Log) → read_log w path bytes ≡ ok log → Counted log
  unfolding read_log read_lines
  read_log-Counted bytes log h =
      let lines = split w (drop_last bytes) in
      let ends = read_log-ends bytes log h in
      let read : read_lines w path lines ≡ ok log = ground arith in
      let step =
        >>=-eq-ok (read_header w path lines.0) (λ log. read_records w path log lines.1) log read in
      read_records-Counted step.0 log lines.1 (read_header-Counted lines.0 step.0 step.1) step.2

  pub read_log-append :
      (laws : IsFormat w) (bytes line : List B) (log : Log)
      → read_log w path bytes ≡ ok log
      → NoNewline w line
      → read_log w path (bytes ++ (line ++ w.newline ∷ [])) ≡ read_record w path log line
  unfolding read_log
  read_log-append laws bytes line log h plain =
      let ends = read_log-ends bytes log h in
      let whole = sym (append_assoc bytes line (w.newline ∷ [])) in
      let lines = split w (drop_last bytes) in
      let read : read_lines w path lines ≡ ok log = ground arith in
      rw
        (
          whole,
          read_log,
          ends-append_last w (bytes ++ line) w.newline,
          laws.newline_iff,
          drop_last-append (bytes ++ line) w.newline,
          split-append w bytes line ends plain,
          read_lines-append lines.0 line lines.1,
          read,
        )
        refl

  -- The record that `persist` makes for a valid state follows a log.
  pub read_record-new_record :
      (laws : IsFormat w) (log : Log) (state : SchedulerStore)
      → validate_store path state ≡ ok tt
      → state.schema_version ≡ state_schema_version
      → state.checkpoint ≡ none
      → let r =
          new_record w ((last_checkpoint log).sequence + 1) (last_checkpoint log).digest state in
        read_record w path log (w.record_json r) ≡ ok (push w path log r)
  unfolding read_record check_record new_record
  read_record-new_record laws log state valid schema bare =
      let last = last_checkpoint log in
      let r = new_record w (last.sequence + 1) last.digest state in
      let chained : breaks_chain w path last r ≡ false =
        ground (arith, str_eq_iff r.previous_digest last.digest, str_eq_iff r.digest r.digest) in
      rw (read_record, laws.record-parse r, check_record, chained, valid) refl

  -- A record that is read after a log is added to it.
  pub read_record-eq-ok :
      (laws : IsFormat w) (log next : Log) (r : Record)
      → read_record w path log (w.record_json r) ≡ ok next
      → push w path log r ≡ next
  unfolding read_record check_record validate_store
  read_record-eq-ok laws log next r h = ground (arith, laws.record-parse r)

  -- A log with the first part of a line at its end is the log, the log with the line, or is refused.
  pub read_log_cut :
      (laws : IsFormat w) (bytes line part : List B) (log after : Log)
      → read_log w path bytes ≡ ok log
      → NoNewline w line
      → Torn w line part
      → read_log w path (bytes ++ part) ≡ ok after
      → (bytes ++ part ≡ bytes) ⊎ (read_record w path log line ≡ ok after)
  read_log_cut laws bytes line part log after h plain (inl nothing) again =
      inl (rw nothing (append-nil bytes))
  read_log_cut laws bytes line part log after h plain (inr (inl whole)) again = inr (
      sym (read_log-append laws bytes line log h plain)
      ∙ subst (λ p. read_log w path (bytes ++ p) ≡ ok after) whole again)
  read_log_cut laws bytes line part log after h plain (inr (inr (begin, b, e, inside))) again =
      let same : bytes ++ part ≡ (bytes ++ begin) ++ b ∷ [] =
        ap (λ p. bytes ++ p) e ∙ sym (append_assoc bytes begin (b ∷ [])) in
      let ends : ends_with_newline w (bytes ++ part) ≡ false =
        ap (λ l. ends_with_newline w l) same ∙ (ends-append_last w (bytes ++ begin) b ∙ inside) in
      absurd (ground (arith, read_log-ends (bytes ++ part) after again))
