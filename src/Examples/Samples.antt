-- ===== src/Examples/Samples.antt =====
-- Findings, requests and models for the examples.
use repoauditor.Prelude.{none, some, List, [], ◌∷◌}
use repoauditor.Store.{low, medium, high, killed, unresolved, Finding}

abbrev pub by_lens : Finding
by_lens = record {
  id = some 1;
  repo_id = "shop";
  title = "SQL injection (CWE-89)";
  file = "app.py";
  line_start = 10;
  line_end = 14;
  citation_snippet = "cursor.execute(q)";
  identity_key = none;
  source_lens = some "injection";
  source_tool = none;
  confidence = 700000;
  severity = medium;
  falsification_status = unresolved;
  trust_boundary_id = none;
  entity_id = some 3;
  description = none;
  corroborated_by = [];
}

abbrev pub by_tool : Finding
by_tool = record by_lens {
  id = some 2;
  title = "Unsafe query cwe_89";
  line_start = 12;
  line_end = 12;
  source_lens = none;
  source_tool = some "semgrep";
  confidence = 600000;
  severity = high;
}

abbrev pub elsewhere : Finding
elsewhere = record by_lens { id = some 3; title = "Weak hash"; file = "auth.py"; severity = low }

abbrev pub settled : Finding
settled = record elsewhere { id = some 4; falsification_status = killed }

-- Another lens's view of the place of `by_lens`.
abbrev pub by_second_lens : Finding
by_second_lens = record by_lens { id = some 5; source_lens = some "secrets"; severity = high }

abbrev pub three : List Finding
three = by_lens ∷ by_tool ∷ elsewhere ∷ []
