-- ===== src/Egress/Emission.antt =====
-- When a context that was compiled may leave, by the fence of pmiri/egress.py.
use ragsistemi.Prelude.{
  text_ne, String, Bool, false, not, ◌||◌, ◌≡◌, refl, sym, List, [], ◌∷◌, ◌==◌, string_eq, ◌⊎◌, inl,
  inr, ◌↔◌, ok, arith, raise_if_passed, raise_if_last, ok_injective,
}
use ragsistemi.Host.{Host}
use ragsistemi.Models.Evidence
use ragsistemi.Models.Evidence.{
  EvidenceItem, EvidenceSet, Coverage, complete, partial, unknown, not_applicable, Disposition,
  empty_, degraded, conflict, partial_, supported, disposition_of,
}
use ragsistemi.Models.Artifact.{Omission, ContextArtifact, artifact_fingerprint}
use ragsistemi.Context
use ragsistemi.Context.{Compiler, compile, final_disposition}
use ragsistemi.Egress.{ProviderEnvelope, action_of, envelope_for, compile_provider_neutral, emit}

-- Evidence that is there, without conflict, of known coverage, and wholly in the context.
pub record IsWhole (items : List EvidenceItem) (groups : List String) (coverage : Coverage)
    (ledger : List Omission) : Type 0 where
  pub some_item : (i : EvidenceItem) × (rest : List EvidenceItem) × (items ≡ i ∷ rest)
  pub agreed : groups ≡ []
  pub known : (coverage ≡ complete) ⊎ (coverage ≡ not_applicable)
  pub nothing_omitted : ledger ≡ []

sendable :
    (items : List EvidenceItem) (groups : List String) (coverage : Coverage)
    (ledger : List Omission)
    → (action_of (final_disposition (disposition_of items groups coverage) ledger) ≡ "LOCAL_ONLY")
      ↔ IsWhole items groups coverage ledger
unfolding action_of final_disposition disposition_of
sendable [] groups coverage ledger = (
  λ h. absurd (text_ne "DENY" "LOCAL_ONLY" refl h),
  λ w. (let (i, rest, e) = w.some_item in cc e),
)
sendable (i ∷ items) (g ∷ groups) coverage [] =
    (λ h. absurd (text_ne "REQUIRE_REVIEW" "LOCAL_ONLY" refl h), λ w. cc (w.agreed))
sendable (i ∷ items) (g ∷ groups) coverage (o ∷ ledger) =
    (λ h. absurd (text_ne "REQUIRE_REVIEW" "LOCAL_ONLY" refl h), λ w. cc (w.agreed))
sendable (i ∷ items) [] complete [] = (
  λ h. record {
    some_item = (i, items, refl);
    agreed = refl;
    known = inl refl;
    nothing_omitted = refl;
  },
  λ w. refl,
)
sendable (i ∷ items) [] not_applicable [] = (
  λ h. record {
    some_item = (i, items, refl);
    agreed = refl;
    known = inr refl;
    nothing_omitted = refl;
  },
  λ w. refl,
)
sendable (i ∷ items) [] unknown [] = (
  λ h. absurd (text_ne "REQUIRE_REVIEW" "LOCAL_ONLY" refl h),
  λ w. elim w.known [ inl e ↦ cc e | inr e ↦ cc e ],
)
sendable (i ∷ items) [] partial [] = (
  λ h. absurd (text_ne "REQUIRE_REVIEW" "LOCAL_ONLY" refl h),
  λ w. elim w.known [ inl e ↦ cc e | inr e ↦ cc e ],
)
sendable (i ∷ items) [] complete (o ∷ ledger) =
    (λ h. absurd (text_ne "REQUIRE_REVIEW" "LOCAL_ONLY" refl h), λ w. cc (w.nothing_omitted))
sendable (i ∷ items) [] not_applicable (o ∷ ledger) =
    (λ h. absurd (text_ne "REQUIRE_REVIEW" "LOCAL_ONLY" refl h), λ w. cc (w.nothing_omitted))
sendable (i ∷ items) [] unknown (o ∷ ledger) =
    (λ h. absurd (text_ne "REQUIRE_REVIEW" "LOCAL_ONLY" refl h), λ w. cc (w.nothing_omitted))
sendable (i ∷ items) [] partial (o ∷ ledger) =
    (λ h. absurd (text_ne "REQUIRE_REVIEW" "LOCAL_ONLY" refl h), λ w. cc (w.nothing_omitted))

same_text : (s t : String) → not (s == t) ≡ false → s ≡ t
same_text s t h = ground arith

either_false : (a b : Bool) → (a || b) ≡ false → (a ≡ false) × (b ≡ false)
either_false a b h = ground arith

other_text : (s t : String) → s ≡ t → not (s == t) ≡ false
other_text s t e = ground arith

-- the fence, on any envelope
fence_iff :
    (p : ProviderEnvelope) (current destination : String)
    → (emit p current destination ≡ ok tt) ↔ (
        (destination ≡ p.destination)
        × (destination ≡ "LOCAL_ONLY")
        × (p.context_fingerprint ≡ current)
        × (p.action_result ≡ "LOCAL_ONLY"))
unfolding emit
fence_iff p current destination = (
  λ sent.
      let (there, h1) = raise_if_passed _ _ _ sent in
      let (fresh, h2) = raise_if_passed _ _ _ h1 in
      let (own, local) = either_false _ _ there in
      (
        same_text _ _ own,
        same_text _ _ local,
        same_text _ _ fresh,
        same_text _ _ (raise_if_last _ _ h2),
      ),
  λ (own, local, fresh, action).
      rw
        (
          other_text destination p.destination own,
          other_text destination "LOCAL_ONLY" local,
          other_text p.context_fingerprint current fresh,
          other_text p.action_result "LOCAL_ONLY" action,
        )
        refl,
)

module _ (host : Host) where
  compiled_for :
      (c : ContextArtifact) (destination : String) (p : ProviderEnvelope)
      → compile_provider_neutral host c destination ≡ ok p
      → p ≡ envelope_for host c destination
  unfolding compile_provider_neutral
  compiled_for c destination p h =
      let (local, h1) = raise_if_passed _ _ _ h in sym (ok_injective h1)

  compiled_at :
      (c : ContextArtifact) (destination : String)
      → destination ≡ "LOCAL_ONLY"
      → compile_provider_neutral host c destination ≡ ok (envelope_for host c destination)
  unfolding compile_provider_neutral
  compiled_at c destination local = rw (other_text destination "LOCAL_ONLY" local) refl

  -- What a compiler makes of evidence can be compiled for a provider and pass the fence exactly when
  -- the destination is local, the context has not changed since, and the context is whole: the
  -- evidence has an item, no conflict, and a coverage that is complete or not applicable, and nothing
  -- was left out under the bound.
  pub emit-compile_iff :
      (k : Compiler) (e : EvidenceSet) (current destination : String)
      → ((p : ProviderEnvelope) × (compile_provider_neutral host (compile k e) destination ≡ ok p)
          × (emit p current destination ≡ ok tt))
        ↔ ((destination ≡ "LOCAL_ONLY")
            × (artifact_fingerprint host (compile k e) ≡ current)
            × IsWhole e.items e.conflict_groups e.coverage (compile k e).omission_ledger)
  unfolding compile Context.artifact_of Evidence.disposition
  emit-compile_iff k e current destination = (
    λ (p, made, sent).
        let (own, local, fresh, action) =
          (fence_iff (envelope_for host (compile k e) destination) current destination).0
            (rw (← compiled_for (compile k e) destination p made) sent) in
        (local, fresh, (sendable e.items e.conflict_groups e.coverage _).0 action),
    λ (local, fresh, whole). (
      envelope_for host (compile k e) destination,
      compiled_at (compile k e) destination local,
      (fence_iff (envelope_for host (compile k e) destination) current destination).1
          (refl, local, fresh, (sendable e.items e.conflict_groups e.coverage _).1 whole),
    ),
  )
