-- ===== src/Paths.antt =====
-- `path.Clean` of Go's standard library, and `filepath.Join` and `filepath.Abs` on Unix, as far as
-- the program uses them: in `cleanPath` (netXMux.go) and `serveStaticFile` (uriHandlers.go).
pub mod Elements
pub mod Canonical
pub mod Inside
mod Tests
use srv_app.Base.{
  ℕ, Bool, true, false, ◌&&◌, ◌||◌, not, List, [], ◌∷◌, ◌++◌, Option, none, some, Text, codes,
  text_eq, length, ◌==◌, if◌then◌else◌,
}
use srv_app.Mux.{slash, starts_slash}

abbrev pub dot : Text
dot = codes "."

abbrev pub dot_dot : Text
dot_dot = codes ".."

abbrev pub put_first : ℕ → List Text → List Text
put_first c [] = (c ∷ []) ∷ []
put_first c (w ∷ ws) = (c ∷ w) ∷ ws

-- The texts between the slashes; there is one more than there are slashes.
unfoldable pub split_slash : Text → List Text
split_slash [] = [] ∷ []
split_slash (c ∷ s) = let rest = split_slash s in if c == slash then [] ∷ rest else put_first c rest

-- `..` takes the last element away, if there is one to be taken, and is lost at the root.
abbrev pub back : Bool → List Text → List Text
back rooted [] = if rooted then [] else dot_dot ∷ []
back rooted (t ∷ st) = if text_eq t dot_dot then dot_dot ∷ t ∷ st else st

-- The elements so far, the last one first, and the next one.
unfoldable pub push_element : Bool → List Text → Text → List Text
push_element rooted st e =
    if length e == 0 || text_eq e dot
    then st
    else if text_eq e dot_dot
    then back rooted st
    else e ∷ st

unfoldable pub push_elements : Bool → List Text → List Text → List Text
push_elements rooted st [] = st
push_elements rooted st (e ∷ es) = push_elements rooted (push_element rooted st e) es

abbrev pub last_first : List Text → List Text
last_first [] = []
last_first (e ∷ es) = last_first es ++ e ∷ []

abbrev pub join_slash : List Text → Text
join_slash [] = []
join_slash (e ∷ []) = e
join_slash (e ∷ f ∷ es) = e ++ slash ∷ join_slash (f ∷ es)

-- The elements that are left of a path.
unfoldable pub elements : Text → List Text
unfolding push_elements push_element split_slash
elements p = last_first (push_elements (starts_slash p) [] (split_slash p))

abbrev pub print_path : Bool → List Text → Text
print_path true es = slash ∷ join_slash es
print_path false [] = dot
print_path false (e ∷ es) = join_slash (e ∷ es)

-- `path.Clean`
unfoldable pub clean : Text → Text
unfolding elements
clean p = print_path (starts_slash p) (elements p)

-- `filepath.Join` of two texts that are not empty.
unfoldable pub join : Text → Text → Text
unfolding clean
join dir file = clean (dir ++ slash ∷ file)

-- `filepath.Abs`, on the working directory; none where that is asked for and not known.
unfoldable pub abs : Option Text → Text → Option Text
unfolding join
abs cwd p =
    if starts_slash p
    then some (clean p)
    else elim cwd [ none ↦ none | some dir ↦ some (join dir p) ]
