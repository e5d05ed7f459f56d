-- ===== src/Examples/Text.antt =====
-- Runs and examples for the source lines of src/debugAdapter/stops.ts.
use stellar_debugger.Prelude.{ℕ, some, List, ◌≡◌, refl}
use stellar_debugger.Lines.{classify_line_role, codes}
use stellar_debugger.Stops.{signature, statement}

abbrev signature_line : List ℕ
signature_line = codes "pub(crate) async fn run("

signature_role : classify_line_role (some signature_line) ≡ signature
unfolding classify_line_role
signature_role = refl

use_role : classify_line_role (some (codes "  let x = 1;")) ≡ statement
unfolding classify_line_role
use_role = refl
