-- ===== src/Protocol/Operations.antt =====
-- The personal operations of src/cognition/protocols/cognition_v1.py with their validators. A
-- moment is a number of microseconds, since every contract normalizes it to UTC.
use cognition.Prelude.{
  ℕ, Bool, true, false, not, ◌&&◌, Option, some, String, List, [], ◌∷◌, leb, is_some, any,
}
use cognition.Json.{Fields}
use cognition.Protocol.Ref.{Ref, nonempty, has_text, valid_refs}

pub data GoalStatus : Type 0 where
  active paused blocked completed abandoned : GoalStatus

pub data GoalOrigin : Type 0 where
  self_generated founding_orientation interest_derived external_request_adopted
        relationship_commitment project_dependency :
      GoalOrigin

pub data CommitmentStatus : Type 0 where
  proposed active fulfilled released broken disputed : CommitmentStatus

pub data BeliefStatus : Type 0 where
  tentative accepted disputed superseded withdrawn : BeliefStatus

pub data SalienceFactor : Type 0 where
  consequence novelty active_commitment relationship self_change unresolved : SalienceFactor

-- `op`, which three kinds of operation share
pub data ChangeOp : Type 0 where
  create revise set_status : ChangeOp

pub data BeliefOp : Type 0 where
  create set_status supersede : BeliefOp

pub record GoalOperation : Type 0 where
  pub operation_id : ℕ
  pub op : ChangeOp
  pub goal_id : Option ℕ
  pub title : Option String
  pub desired_state : Option String
  pub project_id : Option ℕ
  pub requested_status : Option GoalStatus
  pub origin : Option GoalOrigin
  pub rationale : String
  pub evidence_refs : List Ref

-- The three-way validator: what a creation needs, the identity that a change needs, and whether a
-- status is asked for.
coherent_change : ChangeOp → Bool → Bool → Bool → Bool
coherent_change ChangeOp.create fresh known status = fresh
coherent_change ChangeOp.revise fresh known status = known
coherent_change ChangeOp.set_status fresh known status = known && status

unfoldable pub coherent_goal : GoalOperation → Bool
unfolding coherent_change
coherent_goal o =
    coherent_change o.op (has_text o.title && has_text o.desired_state) (is_some o.goal_id)
      (is_some o.requested_status)
    && valid_refs o.evidence_refs

pub record CommitmentOperation : Type 0 where
  pub operation_id : ℕ
  pub op : ChangeOp
  pub commitment_id : Option ℕ
  pub counterparty_entity_id : Option ℕ
  pub title : Option String
  pub terms : Option String
  pub requested_status : Option CommitmentStatus
  pub due_at : Option ℕ
  pub rationale : String
  pub evidence_refs : List Ref

unfoldable pub coherent_commitment : CommitmentOperation → Bool
unfolding coherent_change
coherent_commitment o =
    coherent_change o.op (has_text o.title && has_text o.terms) (is_some o.commitment_id)
      (is_some o.requested_status)
    && valid_refs o.evidence_refs

pub record BeliefOperation : Type 0 where
  pub operation_id : ℕ
  pub op : BeliefOp
  pub belief_id : Option ℕ
  pub proposition : Option String
  pub subject_entity_id : Option ℕ
  pub topic : Option String
  pub requested_status : Option BeliefStatus
  pub supporting_evidence : List Ref
  pub contradicting_evidence : List Ref
  pub supersedes_belief_id : Option ℕ
  pub rationale : String

coherent_belief_op : BeliefOp → BeliefOperation → Bool
coherent_belief_op BeliefOp.create o = has_text o.proposition
coherent_belief_op BeliefOp.set_status o = is_some o.belief_id && is_some o.requested_status
coherent_belief_op BeliefOp.supersede o = has_text o.proposition && is_some o.supersedes_belief_id

unfoldable pub coherent_belief : BeliefOperation → Bool
unfolding coherent_belief_op
coherent_belief o =
    coherent_belief_op o.op o
    && valid_refs o.supporting_evidence
    && valid_refs o.contradicting_evidence

pub record EpisodeOperation : Type 0 where
  pub operation_id : ℕ
  pub summary : String
  pub starts_at : Option ℕ
  pub ends_at : Option ℕ
  pub evidence_refs : List Ref
  pub entity_refs : List ℕ
  pub project_refs : List ℕ
  pub salience_factors : List SalienceFactor

same_factor : SalienceFactor → SalienceFactor → Bool
same_factor SalienceFactor.consequence SalienceFactor.consequence = true
same_factor SalienceFactor.novelty SalienceFactor.novelty = true
same_factor SalienceFactor.active_commitment SalienceFactor.active_commitment = true
same_factor SalienceFactor.relationship SalienceFactor.relationship = true
same_factor SalienceFactor.self_change SalienceFactor.self_change = true
same_factor SalienceFactor.unresolved SalienceFactor.unresolved = true
same_factor _ _ = false

-- `len(factors) == len(set(factors))`
unique_factors : List SalienceFactor → Bool
unfolding same_factor
unique_factors [] = true
unique_factors (x ∷ xs) = not (any (same_factor x) xs) && unique_factors xs

ordered_span : Option ℕ → Option ℕ → Bool
ordered_span (some s) (some e) = leb s e
ordered_span _ _ = true

unfoldable pub coherent_episode : EpisodeOperation → Bool
unfolding unique_factors ordered_span
coherent_episode o =
    nonempty o.summary
    && unique_factors o.salience_factors
    && ordered_span o.starts_at o.ends_at
    && valid_refs o.evidence_refs

pub data InterestOp : Type 0 where
  create_candidate establish set_dormant retire : InterestOp

pub record InterestOperation : Type 0 where
  pub operation_id : ℕ
  pub op : InterestOp
  pub interest_id : Option ℕ
  pub topic : Option String
  pub summary : Option String
  pub evidence_refs : List Ref
  pub rationale : String

coherent_interest_op : InterestOp → InterestOperation → Bool
coherent_interest_op InterestOp.create_candidate o = has_text o.topic && has_text o.summary
coherent_interest_op _ o = is_some o.interest_id

unfoldable pub coherent_interest : InterestOperation → Bool
unfolding coherent_interest_op
coherent_interest o = coherent_interest_op o.op o && valid_refs o.evidence_refs

pub data PreferenceOp : Type 0 where
  create_tentative establish retire : PreferenceOp

pub record PreferenceOperation : Type 0 where
  pub operation_id : ℕ
  pub op : PreferenceOp
  pub preference_id : Option ℕ
  pub context : Option String
  pub statement : Option String
  pub evidence_refs : List Ref
  pub rationale : String

coherent_preference_op : PreferenceOp → PreferenceOperation → Bool
coherent_preference_op PreferenceOp.create_tentative o = has_text o.context && has_text o.statement
coherent_preference_op _ o = is_some o.preference_id

unfoldable pub coherent_preference : PreferenceOperation → Bool
unfolding coherent_preference_op
coherent_preference o = coherent_preference_op o.op o && valid_refs o.evidence_refs

pub data SelfLayer : Type 0 where
  current_identity self_belief current_value narrative : SelfLayer

-- `str | JsonObject`
pub data Content : Type 0 where
  text : String → Content
  fields : Fields → Content

pub record SelfModelOperation : Type 0 where
  pub operation_id : ℕ
  pub layer : SelfLayer
  pub proposed_content : Content
  pub evidence_refs : List Ref
  pub rationale : String

unfoldable pub coherent_self_model : SelfModelOperation → Bool
coherent_self_model o = valid_refs o.evidence_refs
