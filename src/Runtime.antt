-- ===== src/Runtime.antt =====
-- `LocalEvidenceRuntime` of pmiri/runtime.py: retrieval, then compilation.
use ragsistemi.Prelude.{String, List, Result, ok, ◌>>=◌}
use ragsistemi.Host.{Host}
use ragsistemi.Models.{QueryRequest}
use ragsistemi.Models.Evidence.{SourceRecord, EvidenceSet}
use ragsistemi.Models.Artifact.{QueryResult}
use ragsistemi.Retrieval.{Unicode, search_evidence}
use ragsistemi.Context.{Compiler, compile}

-- The store, by its `list_sources`, and the compiler.
pub record LocalRuntime : Type 0 where
  pub list_sources : String → Result (List SourceRecord)
  pub compiler : Compiler

unfoldable pub result_of : Compiler → QueryRequest → EvidenceSet → QueryResult
result_of c r e =
    let context = compile c e in
    record {
      request = r;
      disposition = context.disposition;
      coverage = context.coverage;
      evidence = e.items;
      authorization_lineage = e.authorization_lineage;
      context = context;
    }

module _ (host : Host) (unicode : Unicode) where
  -- `LocalEvidenceRuntime.query`
  unfoldable pub query : LocalRuntime → QueryRequest → Result QueryResult
  query runtime r = do
    evidence ← search_evidence host unicode runtime.list_sources r
    ok (result_of runtime.compiler r evidence)
