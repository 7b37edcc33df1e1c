-- ===== src/Host.antt =====
-- What the program takes from Python's standard library and does not implement: SHA-256 and the
-- parser of ISO-8601 timestamps. The wall clock is an argument of each call that reads it.
use ragsistemi.Prelude.{ℕ, String, Option}

-- A `datetime`: without a zone, or an instant in microseconds of UTC. A time whose instant in UTC
-- lies outside the years 1 to 9999, of which `astimezone` raises OverflowError, is left out.
pub data IsoTime : Type 0 where
  naive : IsoTime
  aware : ℕ → IsoTime

pub record Host : Type 0 where
  -- `hashlib.sha256(text.encode("utf-8")).hexdigest()`
  pub sha256 : String → String
  -- `datetime.fromisoformat(text)`; `none` is its ValueError
  pub from_iso_format : String → Option IsoTime
