-- ===== src/Context/Birth.antt =====
-- What of an individual's birth is shown to the model: `_event_section` of
-- src/cognition/runtime/context.py on an event of the type `individual.born`.
use cognition.Prelude.{
  ◌≡◌, ◌≢◌, refl, sym, ◌∙◌, true, false, Option, none, some, String, List, [], ◌∷◌, arith, any,
  str_eq, str_eq_iff, if◌then◌else◌, Bool-cases, inl, inr,
}
use cognition.Json.{Json, Fields, null, object, end, field}
use cognition.Protocol.Operations.{Content}
use cognition.Protocol.Model.{ContextSection}
use cognition.Store.Rows.{Event, Payload}
use cognition.Context.{Rendering, StoredEvent, lookup}
use cognition.Context.Events.{
  public_fields, public_key, event_fields, event_section, is_birth, omission,
}

-- The documented public fields of a birth.
abbrev pub documented : List String
documented =
    "individual_id" ∷ "birth_at" ∷ "birth_name" ∷ "founding_orientation" ∷ "temperament_seed"
    ∷ "founding_value_seed" ∷ "parent_individual_id" ∷ "fork_event_id" ∷ "config_revision_id" ∷ []

-- The fields of a JSON object, and none of another value.
abbrev pub fields_of : Option Json → Fields
fields_of (some (object f)) = f
fields_of _ = end

abbrev pub section_fields : ContextSection → Fields
section_fields s = elim s.content [ Content.fields f ↦ f | _ ↦ end ]

-- The `content` of a section, and its `payload`.
abbrev pub shown_part : ContextSection → Fields
shown_part s = fields_of (lookup "content" (section_fields s))

abbrev pub shown_payload : ContextSection → Fields
shown_payload s = fields_of (lookup "payload" (shown_part s))

public_key-documented : (key : String) → public_key key ≡ any (λ name. str_eq key name) documented
public_key-documented key = ground arith

lookup-public_fields :
    (key : String) (f : Fields)
    → lookup key (public_fields f) ≡ (if public_key key then lookup key f else none)
lookup-public_fields key end = ground arith
lookup-public_fields key (field k v rest) = elim (Bool-cases (str_eq k key)) [
  | inl same ↦
      let named : k ≡ key = (str_eq_iff k key).0 same in
      rw named (elim (Bool-cases (public_key key)) [
        | inl shown ↦ rw (shown, (str_eq_iff key key).1 refl) refl
        | inr kept ↦ rw kept (lookup-public_fields key rest ∙ rw kept refl)
      ])
  | inr other ↦ ground (arith, lookup-public_fields key rest)
]

shown-omission :
    (e : Event)
    → e.content.redacted_at ≡ none
    → e.content.sensitivity ≢ "sensitive"
    → e.source_kind ≢ "admin"
    → omission e ≡ none
shown-omission e fresh insensitive other =
    let mild : str_eq e.content.sensitivity "sensitive" ≡ false =
      not_same e.content.sensitivity "sensitive" insensitive in
    let unprivileged : str_eq e.source_kind "admin" ≡ false =
      not_same e.source_kind "admin" other in
    rw (fresh, mild, unprivileged) refl
  where
    not_same : (a b : String) → a ≢ b → str_eq a b ≡ false
    not_same a b h = elim (Bool-cases (str_eq a b)) [
      | inl same ↦ absurd (h ((str_eq_iff a b).0 same))
      | inr apart ↦ apart
    ]

-- For a birth that is neither redacted nor sensitive nor an administrator's, with a payload: in
-- its section, the payload shown has under each of the nine documented names what the payload
-- has, and nothing under any other name, and the text is null.
pub event_section-birth :
    (g : Rendering) (s : StoredEvent) (p : Payload) (key : String)
    → s.envelope.event_type ≡ "individual.born"
    → s.envelope.content.redacted_at ≡ none
    → s.envelope.content.sensitivity ≢ "sensitive"
    → s.envelope.source_kind ≢ "admin"
    → s.envelope.content.payload ≡ some p
    → (lookup key (shown_payload (event_section g s)) ≡ (
        if any (λ name. str_eq key name) documented then lookup key (g.payload_json p) else none))
      × (lookup "text" (shown_part (event_section g s)) ≡ some null)
unfolding event_section event_fields
event_section-birth g s p key born fresh insensitive other stored =
    let shown = shown-omission s.envelope fresh insensitive other in
    let birth : is_birth s.envelope ≡ true =
      (str_eq_iff s.envelope.event_type "individual.born").1 born in
    rw (shown, birth, stored, sym (public_key-documented key))
      (lookup-public_fields key (g.payload_json p), refl)
