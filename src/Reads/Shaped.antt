-- ===== src/Reads/Shaped.antt =====
-- What the projections of pmiri/disclosure.py and pmiri/read_projection.py hold.
use ragsistemi.Prelude.{
  String, Bool, true, false, ◌≡◌, refl, sym, ◌∙◌, ap, List, [], ◌∷◌, Option, none, some,
  if◌then◌else◌, string_eq, ok, bind-eq-ok, ok_injective,
}
use ragsistemi.Prelude.Dict.{Dict}
use ragsistemi.Host.{Host}
use ragsistemi.Canonical.{sha256_json}
use ragsistemi.Canonical.Serial.{Json, str, obj, Fields, object, dict, string_list}
use ragsistemi.Decisions.{get}
use ragsistemi.Models.{QueryRequest, normalized}
use ragsistemi.Models.Evidence.{coverage_value, disposition_value, item_refs}
use ragsistemi.Models.Artifact.{QueryResult, structured, result_entry}
use ragsistemi.Disclosure.{
  empty_fields, empty_projection, full_fields, full_projection, project_query_result,
}
use ragsistemi.Auth.Service.{Binding}
use ragsistemi.Auth.Service.Integrity.{public_lineage}
use ragsistemi.Reads.Projection.{
  server_binding, merged, fields_of, text_fields, bound_to, continuation, binding_or,
}
use ragsistemi.Reads.Emitted.{HasShape, get-put}

-- What a projection shows before it is bound.
pub record IsShown (p : Fields) : Type 0 where
  pub result : Fields
  pub lineage : Fields
  pub result_is : get "result" p ≡ obj result
  pub lineage_is : get "lineage" p ≡ obj lineage
  pub disposition : String
  pub disposition_is : get "disposition" result ≡ str disposition
  pub coverage : String
  pub coverage_is : get "coverage" result ≡ str coverage
  pub refs : List String
  pub refs_are : get "evidence_refs" lineage ≡ string_list refs

-- the three entries of a binding
abbrev entries : String → String → String → Dict String
entries x y z = ("authorization_ref", x) ∷ ("request_fingerprint", y) ∷ ("scope", z) ∷ []

module _ (host : Host) where
  pub empty_fields-IsShown : (r : QueryResult) → IsShown (empty_fields host r)
  unfolding empty_fields get dict string_eq string_list object
  empty_fields-IsShown r = record {
    result = _;
    lineage = _;
    result_is = refl;
    lineage_is = refl;
    disposition = "EMPTY";
    disposition_is = refl;
    coverage = "unknown";
    coverage_is = refl;
    refs = [];
    refs_are = refl;
  }

  pub full_fields-IsShown :
      (r : QueryResult) (whole : Fields)
      → structured host r ≡ ok whole
      → IsShown (full_fields host r whole)
  unfolding structured full_fields result_entry get dict string_eq string_list object
  full_fields-IsShown r whole h =
      let (j, made, h1) = bind-eq-ok (normalized r.request) _ h in
      rw (← ok_injective h1) (record {
        result = _;
        lineage = _;
        result_is = refl;
        lineage_is = refl;
        disposition = disposition_value r.disposition;
        disposition_is = refl;
        coverage = coverage_value r.coverage;
        coverage_is = refl;
        refs = item_refs r.evidence;
        refs_are = refl;
      })

  pub project_query_result-IsShown :
      (r : QueryResult) (authorized : Bool) (p : Fields)
      → project_query_result host r authorized ≡ ok p
      → IsShown p
  unfolding project_query_result
  project_query_result-IsShown r authorized p h = shown _ h
    where
      shown :
          (b : Bool)
          → (if b then empty_projection host r else full_projection host r) ≡ ok p
          → IsShown p
      shown true k =
          let (j, made, k1) = bind-eq-ok (normalized r.request) _ (unfold empty_projection in k) in
          rw (← ok_injective k1) (empty_fields-IsShown r)
      shown false k =
          let (whole, made, k1) = bind-eq-ok (structured host r) _ (unfold full_projection in k) in
          rw (← ok_injective k1) (full_fields-IsShown r whole made)

  pub merged-evidence_refs :
      (x y z : String) (d : Fields)
      → get "evidence_refs" (merged d (text_fields (entries x y z))) ≡ get "evidence_refs" d
  unfolding merged text_fields string_eq
  merged-evidence_refs x y z d =
      get-put "evidence_refs" "scope" (str z) _
      ∙ (get-put "evidence_refs" "request_fingerprint" (str y) _
          ∙ get-put "evidence_refs" "authorization_ref" (str x) d)

  pub merged-authorization_ref :
      (x y z : String) (d : Fields)
      → get "authorization_ref" (merged d (text_fields (entries x y z))) ≡ str x
  unfolding merged text_fields string_eq
  merged-authorization_ref x y z d =
      get-put "authorization_ref" "scope" (str z) _
      ∙ (get-put "authorization_ref" "request_fingerprint" (str y) _
          ∙ get-put "authorization_ref" "authorization_ref" (str x) d)

  pub bound_to-HasShape :
      (x y z : String) (p : Fields) → IsShown p → HasShape (bound_to host (entries x y z) p)
  unfolding bound_to string_eq fields_of
  bound_to-HasShape x y z p h = record {
    result = h.result;
    lineage = merged h.lineage (text_fields (entries x y z));
    result_is =
        get-put "result" "continuation" _ _ ∙ (get-put "result" "lineage" _ p ∙ h.result_is);
    lineage_is =
        get-put "lineage" "continuation" _ _
        ∙ (get-put "lineage" "lineage" _ p
            ∙ ap (λ (v : Json). obj (merged (fields_of v) (text_fields (entries x y z))))
                h.lineage_is);
    disposition = h.disposition;
    disposition_is = h.disposition_is;
    coverage = h.coverage;
    coverage_is = h.coverage_is;
    ref = x;
    ref_is = merged-authorization_ref x y z h.lineage;
    refs = h.refs;
    refs_are = merged-evidence_refs x y z h.lineage ∙ h.refs_are;
  }

  pub bound_to-continuation :
      (x y z : String) (p : Fields)
      → get "continuation" (bound_to host (entries x y z) p)
        ≡ str (continuation host (text_fields (entries x y z)) p)
  unfolding bound_to string_eq
  bound_to-continuation x y z p = get-put "continuation" "continuation" _ _

  -- An answer that the fence can take.
  pub record IsAnswer (a : Fields) : Type 0 where
    pub shape : HasShape a
    pub base : String
    pub base_is : get "continuation" a ≡ str base

  pub IsEntries : Dict String → Type 0
  IsEntries es = (x : String) × (y : String) × (z : String) × (es ≡ entries x y z)

  pub public_lineage-IsEntries : (b : Binding) → IsEntries (public_lineage host b)
  unfolding IsEntries public_lineage
  public_lineage-IsEntries b = (_, b.request_fingerprint, b.project_constraint, refl)

  pub server_binding-IsEntries :
      (r : QueryRequest) (es : Dict String) → server_binding host r ≡ ok es → IsEntries es
  unfolding IsEntries server_binding
  server_binding-IsEntries r es h =
      let (j, made, h1) = bind-eq-ok (normalized r) _ h in
      (_, sha256_json host j, r.project_constraint, sym (ok_injective h1))

  pub bound_to-IsAnswer :
      (es : Dict String) (p : Fields) → IsEntries es → IsShown p → IsAnswer (bound_to host es p)
  unfolding IsEntries
  bound_to-IsAnswer es p (x, y, z, e) h = rw e (record {
    shape = bound_to-HasShape x y z p h;
    base = continuation host (text_fields (entries x y z)) p;
    base_is = bound_to-continuation x y z p;
  })

  pub binding_or-IsEntries :
      (given : Option (Dict String)) (r : QueryRequest) (es : Dict String)
      → ((fs : Dict String) → given ≡ some fs → IsEntries fs)
      → binding_or host given r ≡ ok es
      → IsEntries es
  unfolding binding_or
  binding_or-IsEntries none r es known h = server_binding-IsEntries r es h
  binding_or-IsEntries (some fs) r es known h = rw (← ok_injective h) (known fs refl)
