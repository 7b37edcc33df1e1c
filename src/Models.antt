-- ===== src/Models.antt =====
-- `QueryRequest` of pmiri/models.py; the records of the answer stand in the children.
pub mod Evidence
pub mod Artifact
use ragsistemi.Prelude.{
  String, Bool, true, false, not, ◌||◌, ◌≡◌, refl, sym, ◌↔◌, ◌≤◌, ℕ, [], ◌∷◌, ltb, Result, ok, err,
  Error, is_value_error, value_error, ◌>>◌, raise_if, raise_if_passed, ok_injective, truthy,
  is_blank, arith,
}
use ragsistemi.Prelude.Int.{ℤ, pos, negsuc, is_below}
use ragsistemi.Canonical.Serial.{Json, str, num, object}

pub record QueryRequest : Type 0 where
  pub request_id : String
  pub project_constraint : String
  pub query : String
  pub purpose : String
  pub max_results : ℤ

-- `i > k`
abbrev is_above : ℤ → ℕ → Bool
is_above (pos n) k = ltb k n
is_above (negsuc n) k = false

-- `asdict(self)`
unfoldable pub as_dict : QueryRequest → Json
as_dict r = object (
    ("request_id", str r.request_id)
    ∷ ("project_constraint", str r.project_constraint)
    ∷ ("query", str r.query)
    ∷ ("purpose", str r.purpose)
    ∷ ("max_results", num r.max_results)
    ∷ [])

-- `QueryRequest.normalized`
unfoldable pub normalized : QueryRequest → Result Json
normalized r = do
  raise_if (not (truthy r.request_id) || not (truthy r.project_constraint) || is_blank r.query)
      (value_error "request_requires_id_project_and_query")
  raise_if (is_below r.max_results 1 || is_above r.max_results 1000)
      (value_error "max_results_out_of_bounds")
  ok (as_dict r)

-- A request that can be normalized.
pub record IsWellFormed (r : QueryRequest) : Type 0 where
  pub has_id : truthy r.request_id ≡ true
  pub has_project : truthy r.project_constraint ≡ true
  pub has_query : is_blank r.query ≡ false
  pub in_bounds : (n : ℕ) × (r.max_results ≡ pos n) × (1 ≤ n) × (n ≤ 1000)

bounds :
    (i : ℤ)
    → (is_below i 1 || is_above i 1000) ≡ false
    → (n : ℕ) × (i ≡ pos n) × (1 ≤ n) × (n ≤ 1000)
bounds (pos n) h = (n, refl, ground arith, ground arith)
bounds (negsuc n) h = cc

normalized-ok :
    (r : QueryRequest) (j : Json) → normalized r ≡ ok j → (j ≡ as_dict r) × IsWellFormed r
unfolding normalized
normalized-ok r j h =
    let missing =
      not (truthy r.request_id) || not (truthy r.project_constraint) || is_blank r.query in
    let (present, h1) = raise_if_passed missing _ _ h in
    let (inside, h2) =
      raise_if_passed (is_below r.max_results 1 || is_above r.max_results 1000) _ _ h1 in
    (
      sym (ok_injective h2),
      record {
        has_id = ground arith;
        has_project = ground arith;
        has_query = ground arith;
        in_bounds = bounds r.max_results inside;
      },
    )

IsWellFormed-normalized : (r : QueryRequest) → IsWellFormed r → normalized r ≡ ok (as_dict r)
unfolding normalized
IsWellFormed-normalized r w = ground arith

-- A request is normalized, to its own fields, exactly when it names an id, a project and a query
-- that is not blank, and asks for 1 to 1000 results.
pub normalized_iff : (r : QueryRequest) → (normalized r ≡ ok (as_dict r)) ↔ IsWellFormed r
normalized_iff r = (λ h. (normalized-ok r (as_dict r) h).1, IsWellFormed-normalized r)

-- The exceptions of `normalized` are ValueErrors.
pub raises-normalized :
    (r : QueryRequest) (e : Error) → normalized r ≡ err e → is_value_error e ≡ true
unfolding normalized
raises-normalized r e h = ground arith

-- What is normalized is the request's own dictionary.
pub normalized-as_dict : (r : QueryRequest) (j : Json) → normalized r ≡ ok j → j ≡ as_dict r
normalized-as_dict r j h = (normalized-ok r j h).0
