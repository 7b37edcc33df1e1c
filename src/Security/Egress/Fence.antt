-- ===== src/Security/Egress/Fence.antt =====
-- What may leave: the fence opens exactly for a current, matching and sufficiently classified
-- decision in an unchanged context.
use ragsistemi.Prelude.{
  String, ◌≡◌, ◌≢◌, ◌↔◌, true, none, some, Option, option_eq, nat_eq, arith, ◌⊎◌,
}
use ragsistemi.Host.{Host}
use ragsistemi.Security.Classification
use ragsistemi.Security.Classification.{ClassificationBinding}
use ragsistemi.Security.Egress.{allows}

allows_iff :
    (r : String) → (allows r ≡ true) ↔ ((r ≡ "ALLOW_AS_IS") ⊎ (r ≡ "ALLOW_WITH_CONSTRAINTS"))
unfolding allows
allows_iff r = ground arith

module _ (host : Host) where
  -- A binding that may go to an external provider.
  abbrev pub MayLeave : String → Option ClassificationBinding → Type 0
  MayLeave now none = ⊥
  MayLeave now (some b) =
      (Classification.is_valid host b now ≡ true) × (b.classification ≢ "LOCAL_ONLY")
