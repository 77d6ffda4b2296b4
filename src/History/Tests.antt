-- ===== src/History/Tests.antt =====
-- src/history.rs: examples of the journal.
use rgnix.Base.{Text, codes, ok, String, ◌≡◌, refl, ◌⊎◌, true, some, List, [], ◌∷◌, ◌++◌}
use rgnix.History.{Bundle, Revision, trim, last_is, record_snapshot}
use rgnix.History.Newest.{Keeps, record_snapshot-Keeps}

abbrev to_vec : Text → Text
to_vec nodes = nodes

abbrev bundle : String → Bundle Text
bundle s = record { nodes = codes s; assets = (codes "asset-0.rgl", codes "function") ∷ [] }

abbrev old : List (Revision Text)
old = record { version = 1; bundle = bundle "a" } ∷ []

abbrev new : Revision Text
new = record { version = 2; bundle = bundle "b" }

record_lem : record_snapshot to_vec 2 (some (bundle "b")) old ≡ ok (old ++ new ∷ [])
unfolding record_snapshot trim
record_lem = refl

record_snapshot-Keeps_example :
    ((last_is to_vec 2 old ≡ true) × (old ++ new ∷ [] ≡ old))
    ⊎ Keeps to_vec old new (old ++ new ∷ [])
record_snapshot-Keeps_example =
    record_snapshot-Keeps to_vec 2 (bundle "b") old (old ++ new ∷ []) refl record_lem
