-- ===== src/Gate/Dedupe.antt =====
-- orchestrator/run/gate.go: `dedupeStrings`. The map of what was seen is a list.
pub mod Once
use rudp_bench.Common.{Bool, true, false, ◌||◌, String, List, [], ◌∷◌, str_eq, if◌then◌else◌}

unfoldable pub is_seen : String → List String → Bool
is_seen s [] = false
is_seen s (t ∷ seen) = str_eq t s || is_seen s seen

unfoldable pub dedupe_from : List String → List String → List String
unfolding is_seen
dedupe_from seen [] = []
dedupe_from seen (s ∷ strings) =
    let skipped = dedupe_from seen strings in
    let kept = dedupe_from (s ∷ seen) strings in
    if str_eq s "" || is_seen s seen then skipped else s ∷ kept

abbrev pub dedupe_strings : List String → List String
dedupe_strings strings = dedupe_from [] strings
