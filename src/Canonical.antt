-- ===== src/Canonical.antt =====
-- pmiri/canonical.py, and the timestamps of pmiri/request_auth.py, pmiri/security.py,
-- pmiri/credentials.py and pmiri/control_plane.py, which parse them alike.
pub mod Serial
pub mod Time
pub mod Equality
use Prim.Native.Char.{Char, code}
use Prim.Native.String
use ragsistemi.Prelude.{
  String, Bool, true, false, ◌&&◌, ◌||◌, ◌==◌, nat_eq, leb, List, [], ◌∷◌, concat, take_chars,
}
use ragsistemi.Host.{Host}
use Serial.{Json, canonical_json}

module _ (host : Host) where
  unfoldable pub sha256_json : Json → String
  sha256_json value = host.sha256 (canonical_json value)

  -- `_ref` of pmiri/security.py
  unfoldable pub ref : String → Json → String
  unfolding sha256_json concat take_chars
  ref kind value = concat (kind ∷ "://" ∷ take_chars 32 (sha256_json value) ∷ [])

is_hex : Char → Bool
is_hex c = let n = code c in leb b'0' n && leb n b'9' || leb b'a' n && leb n b'f'

all_hex : String → Bool
unfolding is_hex
all_hex String.[] = true
all_hex (String.◌∷◌ c s) = is_hex c && all_hex s

unfoldable pub is_sha256 : String → Bool
unfolding all_hex nat_eq
is_sha256 value = String.count value == 64 && all_hex value
