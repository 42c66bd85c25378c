-- ===== src/Examples/Files.antt =====
-- A tree of four files, one of them a test.
use repoauditor.Prelude.{◌≡◌, List, [], ◌∷◌, length, Perm}
use repoauditor.Sources.Selection.{SourcePath, Digests, directory_diverse_order}
use repoauditor.Prelude.{true, refl}
use repoauditor.Sources.Distinct.{is_distinct}
use repoauditor.Sources.Rounds.{directory_diverse_order_perm}

abbrev pub listing : List SourcePath
listing =
    record { parents = []; stem = "main"; suffix = ".py" }
    ∷ record { parents = "src" ∷ "db" ∷ []; stem = "query"; suffix = ".py" }
    ∷ record { parents = "src" ∷ "db" ∷ []; stem = "schema"; suffix = ".py" }
    ∷ record { parents = "tests" ∷ []; stem = "test_query"; suffix = ".py" }
    ∷ []

abbrev pub digests : Digests
digests = record { of_path = λ p. length p.parents; of_directory = λ d. length d }

pub all_distinct : is_distinct listing ≡ true
all_distinct = refl

directory_diverse_order_perm_example : Perm (directory_diverse_order digests listing) listing
directory_diverse_order_perm_example = directory_diverse_order_perm digests listing
