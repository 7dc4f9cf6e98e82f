-- ===== src/Sorting.antt =====
-- `sort.Strings` of Go's standard library, as far as log.go and net.go use it.
pub mod Order
use srv_app.Base.{Bool, true, false, List, [], ◌∷◌, Text, ltb, ◌==◌, if◌then◌else◌}

-- The order of Go's strings.
unfoldable pub text_leb : Text → Text → Bool
text_leb [] t = true
text_leb (a ∷ s) [] = false
text_leb (a ∷ s) (b ∷ t) =
    let rest = text_leb s t in if ltb a b then true else if a == b then rest else false

unfoldable pub insert_sorted : Text → List Text → List Text
insert_sorted a [] = a ∷ []
insert_sorted a (x ∷ l) =
    let rest = insert_sorted a l in if text_leb a x then a ∷ x ∷ l else x ∷ rest

-- `sort.Strings`
unfoldable pub sort_strings : List Text → List Text
unfolding insert_sorted
sort_strings [] = []
sort_strings (x ∷ l) = insert_sorted x (sort_strings l)
