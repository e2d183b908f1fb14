-- ===== src/Protocol/Contract.antt =====
-- Requests read again, and their executive contract: parse_request and validate_request_contract of
-- src/cognition/protocols/executive.py, with the validators of ModelRequestV1 and ModelRequestV2.
use cognition.Prelude.{
  ℕ, ◌≡◌, sym, refl, ap, ◌∙◌, arith, ==_iff, ==_self, Bool, true, false, not, ◌&&◌, ◌||◌, Option,
  none, some, ◌==◌, all,
}
use cognition.Protocol.Ref.{nonempty, valid_refs}
use cognition.Protocol.Model.{
  ModelRequest, ContextSection, EffectiveCapabilityView, supported_contract,
}
use cognition.Store.Result.{Result, ok, err, Error, ◌>>=◌, ◌>>◌, raise_if, >>=-elim, raise_if-eq-ok}

abbrev valid_section : ContextSection → Bool
valid_section s = nonempty s.name && valid_refs s.refs

abbrev valid_capability : EffectiveCapabilityView → Bool
valid_capability c = nonempty c.key && nonempty c.version && all nonempty c.allowed_operations

-- What the model of the request's version accepts.
unfoldable pub valid_request : ModelRequest → Bool
valid_request q =
    q.cognition_protocol_version == q.schema_version
    && nonempty q.runtime_contract_version
    && all valid_section q.context_sections
    && all valid_capability q.capabilities
    && nonempty q.output_schema

abbrev known_version : ℕ → Bool
known_version n = n == 1 || n == 2

unfoldable pub parse_request : ModelRequest → Result ModelRequest
unfolding valid_request
parse_request q = do
  raise_if (not (known_version q.schema_version)) Error.incompatible
  raise_if (not (valid_request q)) Error.value_error
  ok q

-- `except (ValueError, TypeError)`: the request's version or its validation.
abbrev as_incompatible {ℓ} : {R : Type ℓ} → Result R → Result R
as_incompatible (ok r) = ok r
as_incompatible (err e) = err Error.incompatible

abbrev configured_otherwise : Option ℕ → ℕ → Bool
configured_otherwise none version = false
configured_otherwise (some configured) version = not (configured == version)

unfoldable pub validate_request_contract : ModelRequest → Option ℕ → Option ℕ → Result (Unit {0})
unfolding parse_request supported_contract
validate_request_contract q config_schema_version configured_protocol = do
  checked ← as_incompatible (parse_request q)
  raise_if (not (supported_contract checked)) Error.incompatible
  raise_if
      (configured_otherwise config_schema_version checked.schema_version
        || configured_otherwise configured_protocol checked.schema_version)
      Error.incompatible
  ok tt

pub parse_request-ok : (q : ModelRequest) {q' : ModelRequest} → parse_request q ≡ ok q' → q' ≡ q
unfolding parse_request
parse_request-ok q {q'} h =
    >>=-elim (raise_if (not (known_version q.schema_version)) Error.incompatible) _ h λ _ _ h1.
      >>=-elim (raise_if (not (valid_request q)) Error.value_error) _ h1 λ _ _ h2. sym (cc h2)

-- What a validation that did not raise has found.
pub record Fits (q : ModelRequest) (config_schema_version configured_protocol : ℕ) : Type 0 where
  pub parsed : parse_request q ≡ ok q
  pub supported : supported_contract q ≡ true
  pub schema : config_schema_version ≡ q.schema_version
  pub protocol : configured_protocol ≡ q.schema_version

as_incompatible-ok {ℓ} : {R : Type ℓ} (r : Result R) {a : R} → as_incompatible r ≡ ok a → r ≡ ok a
as_incompatible-ok (ok r) h = h
as_incompatible-ok (err e) h = absurd (cc h)

pub validate_request_contract-ok :
    (q : ModelRequest) (c p : ℕ) {u : Unit {0}}
    → validate_request_contract q (some c) (some p) ≡ ok u
    → Fits q c p
unfolding validate_request_contract
validate_request_contract-ok q c p {u} h =
    >>=-elim (as_incompatible (parse_request q)) _ h λ q' e1 h1.
      >>=-elim (raise_if (not (supported_contract q')) Error.incompatible) _ h1 λ _ e2 h2.
        >>=-elim
          (raise_if
            (configured_otherwise (some c) q'.schema_version
              || configured_otherwise (some p) q'.schema_version)
            Error.incompatible)
          _ h2
          λ _ e3 h3.
            let parsed = as_incompatible-ok (parse_request q) {a = q'} e1 in
            let same = parse_request-ok q {q' = q'} parsed in
            let known = raise_if-eq-ok (not (supported_contract q')) Error.incompatible e2 in
            let fit =
              raise_if-eq-ok
                (configured_otherwise (some c) q'.schema_version
                  || configured_otherwise (some p) q'.schema_version)
                Error.incompatible e3 in
            record {
              parsed = parsed ∙ ap ok same;
              supported = rw (sym same) (ground (arith, known));
              schema = rw (sym same) (ground (arith, fit, ==_iff c q'.schema_version));
              protocol = rw (sym same) (ground (arith, fit, ==_iff p q'.schema_version));
            }

-- The validation has no other condition.
pub validate_request_contract-Fits :
    (q : ModelRequest) (c p : ℕ)
    → Fits q c p
    → validate_request_contract q (some c) (some p) ≡ ok tt
unfolding validate_request_contract
validate_request_contract-Fits q c p f =
    rw (f.parsed, f.supported, f.schema, f.protocol, ==_self q.schema_version) refl

-- A supported contract has a known version.
pub parse_request-supported :
    (q : ModelRequest)
    → supported_contract q ≡ true
    → valid_request q ≡ true
    → parse_request q ≡ ok q
unfolding parse_request supported_contract
parse_request-supported q contract valid =
    let known : known_version q.schema_version ≡ true = ground (arith, contract) in
    rw (known, valid) refl
