-- ===== src/ControlPlane/Principals/Revoked.antt =====
-- A revocation is final.
use ragsistemi.Prelude.{ℕ, String, ◌≡◌, refl, true, Option, none, some, ok, arith, string_eq}
use ragsistemi.Prelude.Dict.{lookup, lookup-insert}
use ragsistemi.Host.{Host}
use ragsistemi.Auth.Principal.{Principal}
use ragsistemi.ControlPlane.Payload.{principal_payload}
use ragsistemi.ControlPlane.Principals
use ragsistemi.ControlPlane.Principals.{Row, Table, register, revoke, resolve}

-- The calls of the workers that write the table.
pub data Step : Table → Table → Type 0 where
  registered : {t t' : Table} → (p : Principal) → register p t ≡ ok t' → Step t t'
  revoked : {t : Table} → (ref : String) (now : ℕ) → Step t (revoke ref now t).1

pub data Steps : Table → Table → Type 0 where
  stop : {t : Table} → Steps t t
  step : {t mid t' : Table} → Step t mid → Steps mid t' → Steps t t'

-- The reference stands in the table, revoked.
abbrev pub IsRevoked : String → Table → Type 0
IsRevoked ref t = (row : Row) × (at : ℕ) × (lookup ref t ≡ some row) × (row.revoked_at ≡ some at)

Step-IsRevoked : (ref : String) {t t' : Table} → IsRevoked ref t → Step t t' → IsRevoked ref t'
unfolding register Principals.insert_new revoke Principals.mark
Step-IsRevoked ref {t} (row, at, known, gone) (registered p h) = (
  row,
  at,
  ground (
    arith,
    lookup-insert ref p.authentication_ref
        (record {
          principal_fingerprint = p.fingerprint;
          payload = principal_payload p;
          revoked_at = none;
        })
        t,
  ),
  gone,
)
Step-IsRevoked ref {t} (row, at, known, gone) (revoked other now) = marked (lookup other t) refl
  where
    marked :
        (found : Option Row)
        → lookup other t ≡ found
        → IsRevoked ref (Principals.mark other now found t).1
    marked none k = (row, at, known, gone)
    marked (some r) k = (
      row,
      at,
      ground (arith, lookup-insert ref other (record r { revoked_at = some now }) t),
      gone,
    )

Steps-IsRevoked : (ref : String) {t t' : Table} → IsRevoked ref t → Steps t t' → IsRevoked ref t'
Steps-IsRevoked ref r stop = r
Steps-IsRevoked ref r (step s rest) = Steps-IsRevoked ref (Step-IsRevoked ref r s) rest

revoke-IsRevoked :
    (ref : String) (now : ℕ) (t : Table)
    → (revoke ref now t).0 ≡ true
    → IsRevoked ref (revoke ref now t).1
unfolding revoke Principals.mark
revoke-IsRevoked ref now t h = marked (lookup ref t) h
  where
    marked :
        (found : Option Row)
        → (Principals.mark ref now found t).0 ≡ true
        → IsRevoked ref (Principals.mark ref now found t).1
    marked none k = cc
    marked (some r) k = (
      record r { revoked_at = some now },
      now,
      ground (arith, lookup-insert ref ref (record r { revoked_at = some now }) t),
      refl,
    )

IsRevoked-resolve :
    (host : Host) (ref : String) (t : Table) → IsRevoked ref t → resolve host (some ref) t ≡ none
unfolding resolve Principals.selected
IsRevoked-resolve host ref t (row, at, known, gone) = ground (arith, known, gone)

-- Once a reference has been revoked it never resolves again, whatever is registered and revoked
-- afterwards.
pub revoked_forever :
    (host : Host) (ref : String) (now : ℕ) (t t' : Table)
    → (revoke ref now t).0 ≡ true
    → Steps (revoke ref now t).1 t'
    → resolve host (some ref) t' ≡ none
revoked_forever host ref now t t' h steps =
    IsRevoked-resolve host ref t' (Steps-IsRevoked ref (revoke-IsRevoked ref now t h) steps)
