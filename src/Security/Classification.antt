-- ===== src/Security/Classification.antt =====
-- `SecurityClassificationBinding` and `evaluate_classification_change` of pmiri/security.py.
use ragsistemi.Prelude.{
  String, ◌≡◌, refl, ◌↔◌, ◌≢◌, Bool, true, false, not, ◌&&◌, ◌||◌, List, [], ◌∷◌, ◌++◌, none, some,
  Option, if◌then◌else◌, ◌==◌, string_eq, contains, truthy, text_ne, concat, arith,
}
use ragsistemi.Host.{Host}
use ragsistemi.Canonical.{sha256_json}
use ragsistemi.Canonical.Serial.{str, object, string_list, optional}
use ragsistemi.Canonical.Time.{valid_open_interval}

abbrev pub classifications : List String
classifications = "PUBLIC" ∷ "CLOUD_OK" ∷ "RESTRICTED" ∷ "LOCAL_ONLY" ∷ []

pub record ClassificationBinding : Type 0 where
  pub binding_id : String
  pub target_kind : String
  pub target_id : String
  pub classification : String
  pub assigning_authority_ref : String
  pub policy_basis_ref : String
  pub provenance_ref : String
  pub valid_from : String
  pub valid_until : Option String

pub record ClassificationChange : Type 0 where
  pub target_ref : String
  pub prior_binding_ref : Option String
  pub requested_binding_ref : String
  pub authorized_actor_ref : String
  pub policy_basis_version : String
  pub result : String
  pub reason_codes : List String
  pub recorded_at : String
  pub fingerprint : String

-- `if test: reasons.append(code)`
append_if : Bool → String → List String → List String
append_if true code reasons = reasons ++ code ∷ []
append_if false code reasons = reasons

prior_ref : Option ClassificationBinding → Option String
prior_ref none = none
prior_ref (some p) = some p.binding_id

-- the target that a prior binding had is another one
target_differs : Option ClassificationBinding → ClassificationBinding → Bool
target_differs none requested = false
target_differs (some p) requested =
    not (p.target_kind == requested.target_kind) || not (p.target_id == requested.target_id)

result_of : List String → String
result_of [] = "ACCEPT"
result_of (r ∷ reasons) =
    if contains (r ∷ reasons) "AUTHORITY_MISSING" then "DENY" else "INDETERMINATE"

or_none : List String → List String
or_none [] = "NONE" ∷ []
or_none (r ∷ reasons) = r ∷ reasons

-- The four tests, in the order of the source.
unfoldable pub reasons_if : Bool → Bool → Bool → Bool → List String
unfolding append_if
reasons_if unknown missing invalid mismatch = append_if mismatch "TARGET_MISMATCH" (
    append_if invalid "VALIDITY_INVALID"
      (append_if missing "AUTHORITY_MISSING" (append_if unknown "CLASSIFICATION_UNKNOWN" [])))

other_results : ◌≢◌ {A = String} "DENY" "ACCEPT" × ◌≢◌ {A = String} "INDETERMINATE" "ACCEPT"
other_results = (text_ne "DENY" "ACCEPT" refl, text_ne "INDETERMINATE" "ACCEPT" refl)

-- only no reason at all is an acceptance
result_of-accept :
    (a b c d : Bool)
    → (result_of (reasons_if a b c d) ≡ "ACCEPT")
      ↔ ((a ≡ false) × (b ≡ false) × (c ≡ false) × (d ≡ false))
unfolding result_of reasons_if string_eq
result_of-accept false false false false = (λ h. (refl, refl, refl, refl), λ h. refl)
result_of-accept true false false false = ground (arith, other_results)
result_of-accept true false false true = ground (arith, other_results)
result_of-accept true false true false = ground (arith, other_results)
result_of-accept true false true true = ground (arith, other_results)
result_of-accept true true c d = ground (arith, other_results)
result_of-accept false true c d = ground (arith, other_results)
result_of-accept false false true d = ground (arith, other_results)
result_of-accept false false false true = ground (arith, other_results)

-- `classification in CLASSIFICATIONS`
unfoldable pub is_known : String → Bool
is_known c = contains classifications c

module _ (host : Host) where
  -- `SecurityClassificationBinding.is_valid`
  unfoldable pub is_valid : ClassificationBinding → String → Bool
  is_valid b now =
      is_known b.classification && valid_open_interval host b.valid_from b.valid_until now

  unfoldable pub reasons_for :
      Option ClassificationBinding → ClassificationBinding → String → String → String → List String
  unfolding target_differs
  reasons_for prior requested actor version now =
      reasons_if (not (is_known requested.classification))
        (not (truthy actor) || not (truthy version)) (not (is_valid requested now))
        (target_differs prior requested)

  unfoldable pub evaluate_classification_change :
      Option ClassificationBinding
      → ClassificationBinding
      → (authorized_actor_ref policy_basis_version now : String) → ClassificationChange
  unfolding result_of or_none prior_ref
  evaluate_classification_change prior requested actor version now =
      let reasons = reasons_for prior requested actor version now in
      record {
        target_ref = concat (requested.target_kind ∷ "://" ∷ requested.target_id ∷ []);
        prior_binding_ref = prior_ref prior;
        requested_binding_ref = requested.binding_id;
        authorized_actor_ref = actor;
        policy_basis_version = version;
        result = result_of reasons;
        reason_codes = or_none reasons;
        recorded_at = now;
        fingerprint = sha256_json host (
            object (
              ("requested", str requested.binding_id)
              ∷ ("prior", optional (prior_ref prior))
              ∷ ("result", str (result_of reasons))
              ∷ ("reasons", string_list reasons)
              ∷ []));
      }

  -- A change is to the target that the prior binding had, if there was one.
  abbrev pub SameTarget : Option ClassificationBinding → ClassificationBinding → Type 0
  SameTarget none requested = Unit
  SameTarget (some p) requested =
      (p.target_kind ≡ requested.target_kind) × (p.target_id ≡ requested.target_id)

  -- A classification change is accepted exactly when an actor and a policy version are named, the
  -- requested binding is valid now, and it keeps the target of the prior binding.
  pub accept_iff :
      (prior : Option ClassificationBinding) (requested : ClassificationBinding)
      (actor version now : String)
      → ((evaluate_classification_change prior requested actor version now).result ≡ "ACCEPT") ↔ (
          (truthy actor ≡ true)
          × (truthy version ≡ true)
          × (is_valid requested now ≡ true)
          × SameTarget prior requested)
  unfolding evaluate_classification_change reasons_for is_valid
  accept_iff none requested actor version now = ground (
    arith,
    result_of-accept (not (is_known requested.classification))
        (not (truthy actor) || not (truthy version)) (not (is_valid requested now)) false,
  )
  accept_iff (some p) requested actor version now = ground (
    arith,
    result_of-accept (not (is_known requested.classification))
        (not (truthy actor) || not (truthy version)) (not (is_valid requested now))
        (target_differs (some p) requested),
  )
