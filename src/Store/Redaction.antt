-- ===== src/Store/Redaction.antt =====
-- Redacting the content of an event, under an audit that targets it: redact_event_content of
-- src/cognition/stores/evidence.py.
use cognition.Prelude.{
  ℕ, ◌≡◌, refl, Bool, false, not, ◌||◌, Option, none, some, arith, ◌==◌, str_eq, str_eq_iff,
  is_some, find, update, find-update_self, find-update_ne, Bool-cases, inl, inr, if◌then◌else◌,
}
use cognition.Store.Result.{
  Result, ok, Error, ◌>>=◌, ◌>>◌, >>=-elim, require, raise_if, require-eq-ok, raise_if-eq-ok,
}
use cognition.Store.Rows.{Event, AdminAudit}
use cognition.Store.Db.{Db, find_event}

abbrev find_audit : ℕ → Db → Option AdminAudit
find_audit a db = find (λ r. r.audit_id == a) db.admin_audits

-- The audit is of another target, or of another individual.
abbrev unrelated : AdminAudit → ℕ → Event → Bool
unrelated audit e event =
    not (str_eq audit.target.kind "event")
    || not (audit.target.id == e)
    || not (audit.individual_id == event.individual_id)

abbrev pub redacted : ℕ → ℕ → Event → Event
redacted a now r = record r {
  content = record r.content {
    payload = none;
    text = none;
    blob_ref = none;
    redacted_at = some now;
    redaction_audit_id = some a;
  };
}

unfoldable pub redact_event_content : ℕ → ℕ → ℕ → Db → Result Db
redact_event_content e a now db = do
  audit ← require (find_audit a db) Error.value_error
  event ← require (find_event e db) Error.value_error
  raise_if (unrelated audit e event) Error.value_error
  if is_some event.content.redacted_at
      then ok db
      else ok (record db { events = update (λ r. r.event_id == e) (redacted a now) db.events })

module _ (e a now : ℕ) (row : Event) (db db' : Db) where
  -- A redacted event: an audit of this event of this individual was there, the event's envelope and
  -- the description of its content stay, the content itself is gone, and nothing else changes.
  pub record IsRedacted : Type 0 where
    pub audit : AdminAudit
    pub listed : find_audit a db ≡ some audit
    pub targets_it : (audit.target.kind ≡ "event") × (audit.target.id ≡ e)
    pub same_individual : audit.individual_id ≡ row.individual_id
    pub event : Event
    pub stored : find_event e db' ≡ some event
    pub emptied :
        (event.content.payload ≡ none)
        × (event.content.text ≡ none)
        × (event.content.blob_ref ≡ none)
    pub marked :
        (event.content.redacted_at ≡ some now) × (event.content.redaction_audit_id ≡ some a)
    pub described :
        (event.content.content_type ≡ row.content.content_type)
        × (event.content.content_hash ≡ row.content.content_hash)
        × (event.content.sensitivity ≡ row.content.sensitivity)
        × (event.content.retention_class ≡ row.content.retention_class)
        × (event.content.retain_until ≡ row.content.retain_until)
    pub envelope_kept : event ≡ record row { content = event.content }
    pub others : (i : ℕ) → (i == e) ≡ false → find_event i db' ≡ find_event i db
    pub rest_kept : db' ≡ record db { events = db'.events }

  -- The audit that a redaction asks for.
  abbrev Warranted : Type 0
  Warranted =
      (audit : AdminAudit) × (find_audit a db ≡ some audit)
      × (audit.target.kind ≡ "event")
      × (audit.target.id ≡ e)
      × (audit.individual_id ≡ row.individual_id)

  related_audit :
      (audit : AdminAudit)
      → unrelated audit e row ≡ false
      → (audit.target.kind ≡ "event")
        × (audit.target.id ≡ e)
        × (audit.individual_id ≡ row.individual_id)
  related_audit audit h = ground (arith, str_eq_iff audit.target.kind "event", h)

  warrant : find_event e db ≡ some row → redact_event_content e a now db ≡ ok db' → Warranted
  unfolding redact_event_content
  warrant found h = >>=-elim (require (find_audit a db) Error.value_error) _ h λ audit e1 h1.
      >>=-elim (require (find_event e db) Error.value_error) _ h1 λ event e2 h2.
        >>=-elim (raise_if (unrelated audit e event) Error.value_error) _ h2 λ _ e3 h3.
          let same : event ≡ row = cc (found, require-eq-ok _ _ e2) in
          let related = related_audit audit (rw same at (raise_if-eq-ok _ _ e3)) in
          (audit, require-eq-ok _ _ e1, related.0, related.1, related.2)

  redacted_events :
      find_event e db ≡ some row
      → is_some row.content.redacted_at ≡ false
      → redact_event_content e a now db ≡ ok db'
      → db' ≡ record db { events = update (λ r. r.event_id == e) (redacted a now) db.events }
  unfolding redact_event_content
  redacted_events found fresh h =
      >>=-elim (require (find_audit a db) Error.value_error) _ h λ audit e1 h1.
        >>=-elim (require (find_event e db) Error.value_error) _ h1 λ event e2 h2.
          >>=-elim (raise_if (unrelated audit e event) Error.value_error) _ h2 λ _ e3 h3.
            let same : event ≡ row = cc (found, require-eq-ok _ _ e2) in
            let done = rw (same, fresh) at h3 in cc

  redacted_row :
      find_event e db ≡ some row
      → is_some row.content.redacted_at ≡ false
      → redact_event_content e a now db ≡ ok db'
      → find_event e db' ≡ some (redacted a now row)
  redacted_row found fresh h = rw (redacted_events found fresh h) (
      find-update_self (λ (r : Event). r.event_id == e) (redacted a now) (λ r. refl) db.events
        {r = row} found)

  -- For an event that still has its content: where redact_event_content succeeds, the audit
  -- exists and targets this event of this individual; payload, text and blob reference of the
  -- event are gone, moment and audit of the redaction are set, and the rest of its content and
  -- its envelope stay; the other events and all other tables are as they were.
  pub redact_event_content-IsRedacted :
      find_event e db ≡ some row
      → is_some row.content.redacted_at ≡ false
      → redact_event_content e a now db ≡ ok db'
      → IsRedacted
  redact_event_content-IsRedacted found fresh h =
      let same = redacted_events found fresh h in
      let (audit, listed, kind, id, mine) = warrant found h in
      record {
        audit = audit;
        listed = listed;
        targets_it = (kind, id);
        same_individual = mine;
        event = redacted a now row;
        stored = redacted_row found fresh h;
        emptied = (refl, refl, refl);
        marked = (refl, refl);
        described = (refl, refl, refl, refl, refl);
        envelope_kept = refl;
        others = λ i ne. rw same (
            find-update_ne (λ (r : Event). r.event_id == i) (λ r. r.event_id == e) (redacted a now)
              (λ r. refl) (λ r h. ground (arith, ne, h)) db.events);
        rest_kept = rw same refl;
      }

-- After a redact_event_content that succeeded, another one of the same event under the same
-- audit, at whatever moment, succeeds and changes nothing.
pub redact_event_content-redact_event_content :
    (e a now later : ℕ) (db db' : Db)
    → redact_event_content e a now db ≡ ok db'
    → redact_event_content e a later db' ≡ ok db'
unfolding redact_event_content
redact_event_content-redact_event_content e a now later db db' h =
    >>=-elim (require (find_audit a db) Error.value_error) _ h λ audit e1 h1.
      >>=-elim (require (find_event e db) Error.value_error) _ h1 λ event e2 h2.
        >>=-elim (raise_if (unrelated audit e event) Error.value_error) _ h2 λ _ e3 h3.
          let listed = require-eq-ok (find_audit a db) _ e1 in
          let found = require-eq-ok (find_event e db) _ e2 in
          let related = raise_if-eq-ok _ _ e3 in
          elim (Bool-cases (is_some event.content.redacted_at)) [
            | inl old ↦
                let same : ok db ≡ ok db' = rw old at h3 in
                let back : db' ≡ db = cc in rw (back, listed, found, related, old) refl
            | inr fresh ↦
                let whole : redact_event_content e a now db ≡ ok db' =
                  unfold redact_event_content in h in
                let audits : db'.admin_audits ≡ db.admin_audits =
                  rw (redacted_events e a now event db db' found fresh whole) refl in
                let emptied = redacted_row e a now event db db' found fresh whole in
                rw (audits, listed, emptied, related) refl
          ]
