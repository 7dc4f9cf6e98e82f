-- ===== src/Paths/Inside.antt =====
-- Joining a directory with a path of names stays inside the directory.
use srv_app.Base.{
  some-inj, ◌≡◌, ◌≢◌, refl, sym, ap, ◌∙◌, Bool, true, false, ◌||◌, List, [], ◌∷◌, ◌++◌, Option,
  none, some, Text, length, ◌==◌, if◌then◌else◌, arith, All, All-append, Bool-cases, inl, inr,
  append_assoc, append-nil,
}
use srv_app.Mux.{slash, starts_slash}
use srv_app.Paths.{
  split_slash, push_element, push_elements, last_first, elements, print_path, clean, join, abs,
}
use srv_app.Paths.Elements.{
  is_name, has_slash, AreNames, NoSlash, push_name, push_elements-append, split_slash-append,
  push_elements-print_path, elements-clean, elements-NoSlash, clean_idempotent,
}

abbrev pub is_plain : Text → Bool
is_plain w = (length w == 0) || is_name w

-- Between the slashes of the path there are names, or there is nothing.
abbrev pub IsPlain : Text → Type 0
IsPlain p = All (λ (w : Text). is_plain w ≡ true) (split_slash p)

abbrev names_in : List Text → List Text
names_in [] = []
names_in (w ∷ ws) = let rest = names_in ws in if length w == 0 then rest else w ∷ rest

-- The names of a path.
abbrev pub names : Text → List Text
names p = names_in (split_slash p)

names_in-AreNames :
    (ws : List Text) → All (λ (w : Text). is_plain w ≡ true) ws → AreNames (names_in ws)
names_in-AreNames [] h = tt
names_in-AreNames (w ∷ ws) (a, h) = elim (Bool-cases (length w == 0)) [
  | inl nothing ↦ rw nothing (names_in-AreNames ws h)
  | inr name ↦ rw name (ground arith, names_in-AreNames ws h)
]

pub names-AreNames : (p : Text) → IsPlain p → AreNames (names p)
names-AreNames p h = names_in-AreNames (split_slash p) h

-- Names are pushed one behind the other.
push_plain :
    (rooted : Bool) (st ws : List Text)
    → All (λ (w : Text). is_plain w ≡ true) ws
    → last_first (push_elements rooted st ws) ≡ last_first st ++ names_in ws
unfolding push_elements
push_plain rooted st [] h = sym (append-nil (last_first st))
push_plain rooted st (w ∷ ws) (a, h) = elim (Bool-cases (length w == 0)) [
  | inl nothing ↦
      let skipped : push_element rooted st w ≡ st = unfold push_element in rw nothing refl in
      rw (nothing, skipped) (push_plain rooted st ws h)
  | inr name ↦
      let pushed = push_name rooted st w (ground arith) in
      rw (name, pushed)
        (push_plain rooted (w ∷ st) ws h ∙ append_assoc (last_first st) (w ∷ []) (names_in ws))
]

starts_slash-append_any : (dir p : Text) → dir ≢ [] → starts_slash (dir ++ p) ≡ starts_slash dir
unfolding starts_slash
starts_slash-append_any [] p h = absurd (h refl)
starts_slash-append_any (c ∷ dir) p h = refl

-- The elements of a joined path.
elements-join :
    (dir file : Text)
    → dir ≢ []
    → elements (dir ++ slash ∷ file)
      ≡ last_first (
          push_elements
            (starts_slash dir)
            (push_elements (starts_slash dir) [] (split_slash dir))
            (split_slash file))
unfolding elements
elements-join dir file ne =
    rw (starts_slash-append_any dir (slash ∷ file) ne, split_slash-append dir file)
      (ap last_first
        (push_elements-append (starts_slash dir) [] (split_slash dir) (split_slash file)))

-- A path of names is put behind the elements of the directory.
pub join_plain :
    (dir file : Text)
    → dir ≢ []
    → IsPlain file
    → join dir file ≡ print_path (starts_slash dir) (elements dir ++ names file)
unfolding join clean
join_plain dir file ne plain =
    let r = starts_slash dir in
    let st = push_elements r [] (split_slash dir) in
    let made : elements (dir ++ slash ∷ file) ≡ elements dir ++ names file =
      elements-join dir file ne
      ∙ push_plain r st (split_slash file) plain
      ∙ (unfold elements in refl) in
    let start = starts_slash-append_any dir (slash ∷ file) ne in λ i. print_path (start i) (made i)

push_names :
    (rooted : Bool) (st ws : List Text)
    → AreNames ws
    → last_first (push_elements rooted st ws) ≡ last_first st ++ ws
unfolding push_elements
push_names rooted st [] h = sym (append-nil (last_first st))
push_names rooted st (w ∷ ws) (a, h) =
    rw (push_name rooted st w a)
      (push_names rooted (w ∷ st) ws h ∙ append_assoc (last_first st) (w ∷ []) ws)

-- A relative path that is joined, by its elements.
abbrev pushed : Text → List Text → List Text
pushed c es = push_elements (starts_slash c) (push_elements (starts_slash c) [] (split_slash c)) es

elements-join_print :
    (c : Text) (r : Bool) (es : List Text)
    → c ≢ []
    → NoSlash es
    → elements (c ++ slash ∷ print_path r es) ≡ last_first (pushed c es)
elements-join_print c r es ne plain =
    elements-join c (print_path r es) ne
    ∙ ap last_first (
        push_elements-print_path (starts_slash c) r
          (push_elements (starts_slash c) [] (split_slash c)) es plain)

pub AreNames-NoSlash : (ws : List Text) → AreNames ws → NoSlash ws
AreNames-NoSlash [] h = tt
AreNames-NoSlash (w ∷ ws) (a, h) = (ground arith, AreNames-NoSlash ws h)

-- Joining with more names is joining, and then the names.
elements-join_more :
    (c : Text) (r : Bool) (es ws : List Text)
    → c ≢ []
    → NoSlash es
    → AreNames ws
    → elements (c ++ slash ∷ print_path r (es ++ ws))
      ≡ elements (c ++ slash ∷ print_path r es) ++ ws
elements-join_more c r es ws ne plain named =
    let rc = starts_slash c in
    let st = push_elements rc [] (split_slash c) in
    elements-join_print c r (es ++ ws) ne
      (All-append (λ (w : Text). has_slash w ≡ false) es ws plain (AreNames-NoSlash ws named))
    ∙ ap last_first (push_elements-append rc st es ws)
    ∙ push_names rc (push_elements rc st es) ws named
    ∙ ap (λ (l : List Text). l ++ ws) (sym (elements-join_print c r es ne plain))

starts_slash-join : (c p : Text) → c ≢ [] → starts_slash (join c p) ≡ starts_slash c
unfolding join
starts_slash-join c p ne =
    (elements-clean (c ++ slash ∷ p)).0 ∙ starts_slash-append_any c (slash ∷ p) ne

elements-of_join : (c p : Text) → elements (join c p) ≡ elements (c ++ slash ∷ p)
unfolding join
elements-of_join c p = (elements-clean (c ++ slash ∷ p)).1

-- What lies in a directory: its elements, and names behind them.
abbrev pub inside : Text → List Text → Text
inside base ws = print_path (starts_slash base) (elements base ++ ws)

inside_rooted : (dir : Text) (ws : List Text) → inside (clean (clean dir)) ws ≡ inside dir ws
inside_rooted dir ws =
    let (start, same) = elements-clean dir in
    let (start', same') = elements-clean (clean dir) in
    λ i. print_path ((start' ∙ start) i) ((same' ∙ same) i ++ ws)

join_inside :
    (c dir : Text) (ws : List Text)
    → c ≢ []
    → AreNames ws
    → join c (inside dir ws) ≡ inside (join c (clean dir)) ws
unfolding clean
join_inside c dir ws ne named =
    let r = starts_slash dir in
    let start =
      starts_slash-append_any c (slash ∷ inside dir ws) ne
      ∙ sym (starts_slash-join c (clean dir) ne) in
    let same =
      elements-join_more c r (elements dir) ws ne (elements-NoSlash dir) named
      ∙ ap (λ (l : List Text). l ++ ws) (sym (elements-of_join c (clean dir))) in
    unfold join in λ i. print_path (start i) (same i)

abs_rooted : (cwd : Option Text) (p : Text) → starts_slash p ≡ true → abs cwd p ≡ some (clean p)
unfolding abs
abs_rooted cwd p h = rw h refl

abs_relative :
    (cwd : Option Text) (p : Text)
    → starts_slash p ≡ false
    → abs cwd p ≡ elim cwd [ none ↦ none | some c ↦ some (join c p) ]
unfolding abs
abs_relative cwd p h = rw h refl

-- The absolute path of a joined path lies in the absolute path of the cleaned directory.
pub abs-join :
    (cwd : Option Text) (dir file path : Text)
    → ((c : Text) → cwd ≡ some c → c ≢ [])
    → dir ≢ []
    → IsPlain file
    → abs cwd (join dir file) ≡ some path
    → (base : Text) × (abs cwd (clean dir) ≡ some base) × (path ≡ inside base (names file))
abs-join cwd dir file path known ne plain made = elim (Bool-cases (starts_slash dir)) [
  | inl rooted ↦
      let start = starts_slash-join dir file ne ∙ rooted in
      let found : clean (join dir file) ≡ path =
        some-inj (sym (abs_rooted cwd (join dir file) start) ∙ made) in
      let again : clean (join dir file) ≡ join dir file = unfold join in clean_idempotent _ in
      (
        clean (clean dir),
        abs_rooted cwd (clean dir) ((elements-clean dir).0 ∙ rooted),
        sym found ∙ again ∙ join_plain dir file ne plain ∙ sym (inside_rooted dir (names file)),
      )
  | inr relative ↦
      let start = starts_slash-join dir file ne ∙ relative in
      let from = (elements-clean dir).0 ∙ relative in
      beside cwd known (sym (abs_relative cwd (join dir file) start) ∙ made)
        (abs_relative cwd (clean dir) from)
]
  where
    beside :
        (o : Option Text)
        → ((c : Text) → o ≡ some c → c ≢ [])
        → elim o [ none ↦ none | some c ↦ some (join c (join dir file)) ] ≡ some path
        → abs cwd (clean dir) ≡ elim o [ none ↦ none | some c ↦ some (join c (clean dir)) ]
        → (base : Text) × (abs cwd (clean dir) ≡ some base) × (path ≡ inside base (names file))
    beside none held e base = cc
    beside (some c) held e base = (
      join c (clean dir),
      base,
      sym (some-inj e)
          ∙ ap (join c) (join_plain dir file ne plain)
          ∙ join_inside c dir (names file) (held c refl) (names-AreNames file plain),
    )
