-- ===== src/Protocol/Social.antt =====
-- The operations that src/cognition/protocols/cognition_v2.py adds.
use cognition.Prelude.{ℕ, Bool, ◌&&◌, Option, String, List, is_some}
use cognition.Protocol.Ref.{Ref, has_text, valid_refs}
use cognition.Protocol.Operations.{GoalStatus, ChangeOp}

pub data RelationshipThreadStatus : Type 0 where
  opened resolved abandoned : RelationshipThreadStatus

pub data ReviseOp : Type 0 where
  create revise : ReviseOp

coherent_revision : ReviseOp → Bool → Bool → Bool
coherent_revision ReviseOp.create fresh known = fresh
coherent_revision ReviseOp.revise fresh known = known

coherent_status_change : ChangeOp → Bool → Bool → Bool → Bool
coherent_status_change ChangeOp.create fresh known status = fresh
coherent_status_change ChangeOp.revise fresh known status = known
coherent_status_change ChangeOp.set_status fresh known status = known && status

pub record EntityOperation : Type 0 where
  pub operation_id : ℕ
  pub op : ReviseOp
  pub entity_id : Option ℕ
  pub kind : Option String
  pub display_name : Option String
  pub evidence_refs : List Ref
  pub rationale : String

unfoldable pub coherent_entity : EntityOperation → Bool
unfolding coherent_revision
coherent_entity o =
    coherent_revision o.op (has_text o.kind && has_text o.display_name) (is_some o.entity_id)
    && valid_refs o.evidence_refs

pub record ProjectOperation : Type 0 where
  pub operation_id : ℕ
  pub op : ChangeOp
  pub project_id : Option ℕ
  pub title : Option String
  pub desired_state : Option String
  pub requested_status : Option GoalStatus
  pub evidence_refs : List Ref
  pub rationale : String

unfoldable pub coherent_project : ProjectOperation → Bool
unfolding coherent_status_change
coherent_project o =
    coherent_status_change o.op (has_text o.title && has_text o.desired_state)
      (is_some o.project_id) (is_some o.requested_status)
    && valid_refs o.evidence_refs

pub record RelationshipOperation : Type 0 where
  pub operation_id : ℕ
  pub op : ReviseOp
  pub relationship_id : Option ℕ
  pub entity_id : Option ℕ
  pub narrative : Option String
  pub evidence_refs : List Ref
  pub rationale : String

unfoldable pub coherent_relationship : RelationshipOperation → Bool
unfolding coherent_revision
coherent_relationship o =
    coherent_revision o.op (is_some o.entity_id && has_text o.narrative) (is_some o.relationship_id)
    && valid_refs o.evidence_refs

pub record RelationshipThreadOperation : Type 0 where
  pub operation_id : ℕ
  pub op : ChangeOp
  pub thread_id : Option ℕ
  pub relationship_id : Option ℕ
  pub title : Option String
  pub summary : Option String
  pub commitment_id : Option ℕ
  pub requested_status : Option RelationshipThreadStatus
  pub evidence_refs : List Ref
  pub rationale : String

unfoldable pub coherent_thread : RelationshipThreadOperation → Bool
unfolding coherent_status_change
coherent_thread o =
    coherent_status_change o.op
      (is_some o.relationship_id && has_text o.title && has_text o.summary) (is_some o.thread_id)
      (is_some o.requested_status)
    && valid_refs o.evidence_refs
