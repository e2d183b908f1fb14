-- ===== src/Admin/Effects.antt =====
-- What a successful administrative operation changed, and what it left as evidence.
use cognition.Prelude.{
  ℕ, ◌+◌, ◌≡◌, refl, ap, ◌∙◌, true, false, not, Option, none, some, String, [], ◌∷◌, ◌++◌, arith,
  ◌==◌, str_eq, str_eq_iff, find-update_self, find-update_ne, update, Option-cases, inl, inr,
}
use cognition.Policy.Governance.{
  AdminOperation, emergency_block, admin_operation, transition, next_operational_status,
  require_admin,
}
use cognition.Store.Result.{ok, Error, >>=-elim, require-eq-ok, raise_if-eq-ok, require, raise_if}
use cognition.Store.Rows.{
  OperationalStatus, Individual, Governance, AdminPrincipal, AdminAudit, Event, administered,
}
use cognition.Store.Db.{Db, new_id, append_event, find_individual, find_governance}
use cognition.Store.Identity.{
  load_individual, load_governance, set_operational_status, update_governance, changed,
  GovernanceChange, find_admin_principal, record_admin_audit, with_status,
}
use cognition.Admin.{
  AuthenticatedPrincipal, AdminOperationResult, change_state, change_status, is_blank, view,
  admin_event, administer, apply_admin_operation,
}

-- What an operation does to the individual and to its governance row.
abbrev pub Blocks : Individual → Governance → Individual → Governance → Type 0
Blocks p g p' g' =
    (p' ≡ p) × (g' ≡ record g { external_actions_blocked = true; revision = g.revision + 1 })

abbrev pub Moves : AdminOperation → Individual → Governance → Individual → Governance → Type 0
Moves operation p g p' g' =
    (g' ≡ g)
    × (transition p.operational_status operation ≡ some p'.operational_status)
    × (p' ≡ record p { operational_status = p'.operational_status; revision = p.revision + 1 })

abbrev pub Changes : AdminOperation → Individual → Governance → Individual → Governance → Type 0
Changes emergency_block p g p' g' = Blocks p g p' g'
Changes operation p g p' g' = Moves operation p g p' g'

abbrev block : GovernanceChange
block = record {
  external_actions_blocked = some true;
  inference_blocked = none;
  reconciliation_required = none;
}

-- What an administrative operation leaves alone: the rows of the other individuals and of their
-- governance, and all tables of wakes, cycles and administrators.
pub record Apart (i : ℕ) (db db' : Db) : Type 0 where
  pub others : (j : ℕ) → (i == j) ≡ false → find_individual j db' ≡ find_individual j db
  pub other_governance : (j : ℕ) → (i == j) ≡ false → find_governance j db' ≡ find_governance j db
  pub wakes_kept : db'.wakes ≡ db.wakes
  pub cognition_kept : db'.cognition ≡ db.cognition
  pub principals_kept : db'.admin_principals ≡ db.admin_principals

-- The rows of the individual before and after, and the tables that a change of state leaves alone.
record ChangedTo (i : ℕ) (p p' : Individual) (g g' : Governance) (db db' : Db) : Type 0 where
  pub person_stored : find_individual i db' ≡ some p'
  pub governance_stored : find_governance i db' ≡ some g'
  pub events_kept : db'.events ≡ db.events
  pub audits_kept : db'.admin_audits ≡ db.admin_audits
  pub apart : Apart i db db'

-- A change of the governance row of one individual.
governed-Apart :
    (i : ℕ) (c : GovernanceChange) (db : Db)
    → Apart i db
        (record db { governance = update (λ r. r.individual_id == i) (changed c) db.governance })
governed-Apart i c db = record {
  others = λ j ne. refl;
  other_governance = λ j ne.
      find-update_ne (λ (r : Governance). r.individual_id == j) (λ r. r.individual_id == i)
        (changed c) (λ x. refl) (λ x hx. ground (arith, ne, hx)) db.governance;
  wakes_kept = refl;
  cognition_kept = refl;
  principals_kept = refl;
}

-- A change of the status of one individual.
moved-Apart :
    (i : ℕ) (s : OperationalStatus) (db : Db)
    → Apart i db (record db {
      individuals = update (λ r. r.individual_id == i) (with_status s) db.individuals;
    })
moved-Apart i s db = record {
  others = λ j ne.
      find-update_ne (λ (r : Individual). r.individual_id == j) (λ r. r.individual_id == i)
        (with_status s) (λ x. refl) (λ x hx. ground (arith, ne, hx)) db.individuals;
  other_governance = λ j ne. refl;
  wakes_kept = refl;
  cognition_kept = refl;
  principals_kept = refl;
}

-- Neither the identities drawn before an operation nor its evidence touch any of these.
Apart-evidence :
    (i : ℕ) (db mid : Db)
    → Apart i (new_id (new_id db).1).1 mid
    → (event : Event) (audit : AdminAudit)
    → Apart i db (record (append_event event mid) { admin_audits = mid.admin_audits ++ audit ∷ [] })
Apart-evidence i db mid h event audit = record {
  others = h.others;
  other_governance = h.other_governance;
  wakes_kept = h.wakes_kept;
  cognition_kept = h.cognition_kept;
  principals_kept = h.principals_kept;
}

module _ (i : ℕ) (p : Individual) (g : Governance) (db : Db) (hp : find_individual i db ≡ some p)
    (hg : find_governance i db ≡ some g) where
  block_changes :
      (p' : Individual) (g' : Governance) (db' : Db)
      → change_state i emergency_block p g db ≡ ok (p', g', db')
      → Blocks p g p' g' × ChangedTo i p p' g g' db db'
  unfolding change_state update_governance
  block_changes p' g' db' h = ground (
    arith,
    hp,
    hg,
    find-update_self (λ (r : Governance). r.individual_id == i) (changed block) (λ x. refl)
        db.governance {r = g},
    governed-Apart i block db,
  )

  move_changes :
      (op : AdminOperation) (p' : Individual) (g' : Governance) (db' : Db)
      → change_status i op p g db ≡ ok (p', g', db')
      → Moves op p g p' g' × ChangedTo i p p' g g' db db'
  unfolding change_status next_operational_status set_operational_status
  move_changes op p' g' db' h = elim (Option-cases (transition p.operational_status op)) [
    | inl e ↦ ground arith
    | inr (s, e) ↦ ground (
      arith,
      hp,
      hg,
      find-update_self (λ (r : Individual). r.individual_id == i) (with_status s) (λ x. refl)
          db.individuals {r = p},
      moved-Apart i s db,
    )
  ]

  change_state-Changes :
      (op : AdminOperation) (p' : Individual) (g' : Governance) (db' : Db)
      → change_state i op p g db ≡ ok (p', g', db')
      → Changes op p g p' g' × ChangedTo i p p' g g' db db'
  unfolding change_state
  change_state-Changes emergency_block p' g' db' h = block_changes p' g' db' h
  change_state-Changes op p' g' db' h = move_changes op p' g' db' h

-- Everything that a successful operation did, the event and the audit that it left included.
pub record Administered (i : ℕ) (principal : AuthenticatedPrincipal) (name reason : String)
    (db db' : Db) (r : AdminOperationResult) : Type 0 where
  pub operation : AdminOperation
  pub administrator : AdminPrincipal
  pub p : Individual
  pub p' : Individual
  pub g : Governance
  pub g' : Governance
  pub event : Event
  pub audit : AdminAudit
  pub named : admin_operation name ≡ some operation
  pub local : principal.authn_provider ≡ "local_os"
  pub found : find_admin_principal db i "local_os" principal.subject ≡ some administrator
  pub standing : (administrator.revoked_at ≡ none) × (administrator.role ≡ "admin")
  pub stored_before : (find_individual i db ≡ some p) × (find_governance i db ≡ some g)
  pub stored_after : (find_individual i db' ≡ some p') × (find_governance i db' ≡ some g')
  pub change : Changes operation p g p' g'
  pub apart : Apart i db db'
  pub reported : r.operational_status ≡ p'.operational_status
  pub one_event : db'.events ≡ db.events ++ event ∷ []
  pub one_audit : db'.admin_audits ≡ db.admin_audits ++ audit ∷ []
  pub evidence :
      event.content.payload ≡ some (administered name reason audit.before_state audit.after_state)
  pub status_before : audit.before_state.operational_status ≡ p.operational_status
  pub blocked_before : audit.before_state.external_actions_blocked ≡ g.external_actions_blocked
  pub status_after : audit.after_state.operational_status ≡ p'.operational_status
  pub blocked_after : audit.after_state.external_actions_blocked ≡ g'.external_actions_blocked
  pub described :
      (audit.operation ≡ name)
      × (audit.reason ≡ reason)
      × (audit.individual_id ≡ i)
      × (event.individual_id ≡ i)
  pub linked :
      (audit.event_id ≡ event.event_id)
      × (audit.admin_principal_id ≡ administrator.admin_principal_id)

require_admin-eq-ok :
    (o : Option AdminPrincipal) {a : AdminPrincipal}
    → require_admin o ≡ ok a
    → (o ≡ some a) × (a.revoked_at ≡ none) × (a.role ≡ "admin")
unfolding require_admin
require_admin-eq-ok none h = cc
require_admin-eq-ok (some p) h = ground (arith, str_eq_iff p.role "admin")

record_admin_audit-eq-ok :
    (a : AdminAudit) (db : Db) {db' : Db}
    → record_admin_audit a db ≡ ok db'
    → db' ≡ record db { admin_audits = db.admin_audits ++ a ∷ [] }
unfolding record_admin_audit
record_admin_audit-eq-ok a db h = ground arith

-- The transaction's own part, for an operation that the checks before it let through.
administer-Administered :
    (i : ℕ) (principal : AuthenticatedPrincipal) (op : AdminOperation) (name reason : String)
    (now : ℕ) (db db' : Db) (r : AdminOperationResult)
    → admin_operation name ≡ some op
    → principal.authn_provider ≡ "local_os"
    → administer i principal op name reason now db ≡ ok (r, db')
    → Administered i principal name reason db db' r
unfolding administer load_individual load_governance admin_event find_admin_principal
administer-Administered i principal op name reason now db db' r named local h =
    >>=-elim (require (find_individual i db) Error.lookup_error) _ h λ p h_p h1.
      >>=-elim (require_admin _) _ h1 λ a h_a h2.
        >>=-elim (require (find_governance i db) Error.lookup_error) _ h2 λ g h_g h3.
          >>=-elim (change_state i op p g _) _ h3 λ c h_c h4.
            >>=-elim (record_admin_audit _ _) _ h4 λ db2 h_u h5.
              let drawn = (new_id (new_id db).1).1 in
              let (changes, kept) =
                change_state-Changes i p g drawn (require-eq-ok _ _ h_p) (require-eq-ok _ _ h_g) op
                  c.0 c.1 c.2 h_c in
              let (found, unrevoked, admin_role) = require_admin-eq-ok _ h_a in
              let event =
                admin_event (new_id db).0 (new_id (new_id db).1).0 a.admin_principal_id op name i
                  now reason (view p g) (view c.0 c.1) in
              let audit : AdminAudit = record {
                audit_id = (new_id (new_id db).1).0;
                individual_id = i;
                admin_principal_id = a.admin_principal_id;
                operation = name;
                target = record { kind = "individual"; id = i };
                reason = reason;
                before_state = view p g;
                after_state = view c.0 c.1;
                created_at = now;
                event_id = (new_id db).0;
              } in
              let written = record_admin_audit-eq-ok audit (append_event event c.2) h_u in
              let final : db' ≡ db2 = cc in
              record {
                operation = op;
                administrator = a;
                p = p;
                p' = c.0;
                g = g;
                g' = c.1;
                event = event;
                audit = audit;
                named = named;
                local = local;
                found = rw local at found;
                standing = (unrevoked, admin_role);
                stored_before = (require-eq-ok _ _ h_p, require-eq-ok _ _ h_g);
                stored_after = (
                  ap (find_individual i) (final ∙ written) ∙ kept.person_stored,
                  ap (find_governance i) (final ∙ written) ∙ kept.governance_stored,
                );
                change = changes;
                apart = rw (final ∙ written) (Apart-evidence i db c.2 kept.apart event audit);
                reported = cc;
                one_event =
                    ap (λ (d : Db). d.events) (final ∙ written)
                    ∙ ap (λ es. es ++ event ∷ []) kept.events_kept;
                one_audit =
                    ap (λ (d : Db). d.admin_audits) (final ∙ written)
                    ∙ ap (λ es. es ++ audit ∷ []) kept.audits_kept;
                evidence = refl;
                status_before = refl;
                blocked_before = refl;
                status_after = refl;
                blocked_after = refl;
                described = (refl, refl, refl, refl);
                linked = (refl, refl);
              }

-- Where apply_admin_operation succeeds, the operation exists, a local administrator of the
-- individual in good standing asked for it, the individual and its governance changed as the
-- operation says, no other individual and no governance of another did, wakes, cycles and
-- administrators are as they were, the status is reported, and one event and one audit were
-- added, linked to each other and to the administrator, that hold the state before and after.
pub apply_admin_operation-Administered :
    (i : ℕ) (principal : AuthenticatedPrincipal) (name reason : String) (now : ℕ) (db db' : Db)
    (r : AdminOperationResult)
    → apply_admin_operation i principal name reason now db ≡ ok (r, db')
    → Administered i principal name reason db db' r
unfolding apply_admin_operation
apply_admin_operation-Administered i principal name reason now db db' r h =
    >>=-elim (require (admin_operation name) Error.value_error) _ h λ op h_op h1.
      >>=-elim (raise_if (is_blank reason) Error.value_error) _ h1 λ _ h_blank h2.
        >>=-elim
          (raise_if (not (str_eq principal.authn_provider "local_os")) Error.permission_error) _ h2
          λ _ h_local h3.
            administer-Administered i principal op name reason now db db' r (require-eq-ok _ _ h_op)
              (ground
                (arith, raise_if-eq-ok _ _ h_local, str_eq_iff principal.authn_provider "local_os"))
              h3
