-- ===== src/Examples/Hosts.antt =====
-- A host with one digest, which reads six timestamps.
use ragsistemi.Prelude.{String, Option, some, none, if◌then◌else◌, ◌==◌, string_eq}
use ragsistemi.Host.{Host, IsoTime, naive, aware}

abbrev pub read_time : String → Option IsoTime
read_time s =
    if s == "1970-01-01T00:00:00+00:00"
    then some (aware 0)
    else if s == "2026-01-01T00:00:00+00:00"
    then some (aware 1000000)
    else if s == "2026-01-01T00:00:05+00:00"
    then some (aware 6000000)
    else if s == "2026-01-01T00:00:09+00:00"
    then some (aware 10000000)
    else if s == "2026-01-01T00:01:00+00:00"
    then some (aware 61000000)
    else if s == "2026-01-01T00:00:00"
    then some naive
    else none

abbrev pub host : Host
host = record { sha256 = λ s. "digest"; from_iso_format = λ s. read_time s }

abbrev pub digest : String
digest = "00000000000000000000000000000000000000000000000000000000000000ff"

-- a host whose digest is spelled as one
abbrev pub hex_host : Host
hex_host = record { sha256 = λ s. digest; from_iso_format = λ s. read_time s }
