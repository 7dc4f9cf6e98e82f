-- ===== src/Paths/Elements.antt =====
-- What is left of a path when it is cleaned.
use srv_app.Base.{
  ℕ, ◌≡◌, refl, sym, ap, ◌∙◌, ◌⊎◌, inl, inr, Bool, true, false, ◌&&◌, ◌||◌, not, List, [], ◌∷◌,
  ◌++◌, Text, text_eq, length, ◌==◌, arith, All, All-append, Bool-cases,
}
use srv_app.Mux.{slash, starts_slash}
use srv_app.Paths.{
  dot, dot_dot, put_first, split_slash, back, push_element, push_elements, last_first, join_slash,
  elements, print_path, clean,
}

abbrev pub has_slash : Text → Bool
has_slash [] = false
has_slash (c ∷ s) = (c == slash) || has_slash s

-- A name of a file: not empty, with no slash, and neither `.` nor `..`.
abbrev pub is_name : Text → Bool
is_name w =
    not (length w == 0) && (not (has_slash w) && (not (text_eq w dot) && not (text_eq w dot_dot)))

abbrev pub AreNames : List Text → Type 0
AreNames = All (λ (w : Text). is_name w ≡ true)

-- The elements that the loop keeps, the last one first: names, and `..` where it cannot go back.
abbrev pub IsStack : Bool → List Text → Type 0
IsStack rooted [] = Unit
IsStack rooted (t ∷ st) =
    ((is_name t ≡ true) ⊎ ((t ≡ dot_dot) × (back rooted st ≡ dot_dot ∷ st))) × IsStack rooted st

abbrev pub NoSlash : List Text → Type 0
NoSlash = All (λ (w : Text). has_slash w ≡ false)

put_first-NoSlash :
    (c : ℕ) (ws : List Text) → (c == slash) ≡ false → NoSlash ws → NoSlash (put_first c ws)
put_first-NoSlash c [] h _ = (rw h refl, tt)
put_first-NoSlash c (w ∷ ws) h (a, b) = (rw (h, a) refl, b)

split_slash-NoSlash : (p : Text) → NoSlash (split_slash p)
unfolding split_slash
split_slash-NoSlash [] = (refl, tt)
split_slash-NoSlash (c ∷ s) = elim (Bool-cases (c == slash)) [
  | inl here ↦ rw here (refl, split_slash-NoSlash s)
  | inr other ↦ rw other (put_first-NoSlash c (split_slash s) other (split_slash-NoSlash s))
]

back-IsStack :
    (rooted : Bool) (st : List Text) → IsStack rooted st → IsStack rooted (back rooted st)
back-IsStack true [] h = tt
back-IsStack false [] h = (inr (refl, refl), tt)
back-IsStack rooted (t ∷ st) h = elim (Bool-cases (text_eq t dot_dot)) [
  | inl up ↦
      let stays : back rooted (t ∷ st) ≡ dot_dot ∷ t ∷ st = rw up refl in
      rw up (inr (refl, stays), h)
  | inr other ↦ rw other h.1
]

push_element-IsStack :
    (rooted : Bool) (st : List Text) (e : Text)
    → has_slash e ≡ false
    → IsStack rooted st
    → IsStack rooted (push_element rooted st e)
unfolding push_element
push_element-IsStack rooted st e plain h = elim (Bool-cases (length e == 0 || text_eq e dot)) [
  | inl skipped ↦ rw skipped h
  | inr kept ↦ elim (Bool-cases (text_eq e dot_dot)) [
    | inl up ↦ rw (kept, up) (back-IsStack rooted st h)
    | inr name ↦ rw (kept, name) (inl (ground arith), h)
  ]
]

pub push_elements-IsStack :
    (rooted : Bool) (st es : List Text)
    → NoSlash es
    → IsStack rooted st
    → IsStack rooted (push_elements rooted st es)
unfolding push_elements
push_elements-IsStack rooted st [] plain h = h
push_elements-IsStack rooted st (e ∷ es) (a, plain) h =
    push_elements-IsStack rooted (push_element rooted st e) es plain
      (push_element-IsStack rooted st e a h)

pub push_elements-append :
    (rooted : Bool) (st xs ys : List Text)
    → push_elements rooted st (xs ++ ys) ≡ push_elements rooted (push_elements rooted st xs) ys
unfolding push_elements
push_elements-append rooted st [] ys = refl
push_elements-append rooted st (x ∷ xs) ys =
    push_elements-append rooted (push_element rooted st x) xs ys

pub push_name :
    (rooted : Bool) (st : List Text) (e : Text)
    → is_name e ≡ true
    → push_element rooted st e ≡ e ∷ st
unfolding push_element
push_name rooted st e h = ground arith

push_top :
    (rooted : Bool) (st : List Text) (t : Text)
    → IsStack rooted (t ∷ st)
    → push_element rooted st t ≡ t ∷ st
unfolding push_element text_eq
push_top rooted st t (inl name, _) = push_name rooted st t name
push_top rooted st t (inr (e, up), _) = rw e up

-- Pushing the elements of a stack gives the stack.
pub push_elements-last_first :
    (rooted : Bool) (st : List Text)
    → IsStack rooted st
    → push_elements rooted [] (last_first st) ≡ st
unfolding push_elements
push_elements-last_first rooted [] h = refl
push_elements-last_first rooted (t ∷ st) h =
    push_elements-append rooted [] (last_first st) (t ∷ [])
    ∙ ap (λ (s : List Text). push_element rooted s t) (push_elements-last_first rooted st h.1)
    ∙ push_top rooted st t h

split_slash_head : (p : Text) → (w : Text) × (ws : List Text) × (split_slash p ≡ w ∷ ws)
unfolding split_slash
split_slash_head [] = ([], [], refl)
split_slash_head (c ∷ s) = elim (Bool-cases (c == slash)) [
  | inl here ↦ ([], split_slash s, rw here refl)
  | inr other ↦ let (w, ws, e) = split_slash_head s in (c ∷ w, ws, rw (other, e) refl)
]

pub split_slash-append :
    (a b : Text) → split_slash (a ++ slash ∷ b) ≡ split_slash a ++ split_slash b
unfolding split_slash
split_slash-append [] b = refl
split_slash-append (c ∷ a) b =
    let rest = split_slash-append a b in
    let (w, ws, e) = split_slash_head a in
    elim (Bool-cases (c == slash)) [
      | inl here ↦ rw (here, rest) refl
      | inr other ↦ rw (other, rest, e) refl
    ]

pub split_slash_plain : (w : Text) → has_slash w ≡ false → split_slash w ≡ w ∷ []
unfolding split_slash
split_slash_plain [] h = refl
split_slash_plain (c ∷ s) h =
    let other : (c == slash) ≡ false = ground arith in
    let rest = split_slash_plain s (ground arith) in rw (other, rest) refl

-- The texts that are joined are those between the slashes.
pub split_slash-join_slash :
    (e : Text) (es : List Text) → NoSlash (e ∷ es) → split_slash (join_slash (e ∷ es)) ≡ e ∷ es
split_slash-join_slash e [] (h, _) = split_slash_plain e h
split_slash-join_slash e (f ∷ es) (h, plain) =
    split_slash-append e (join_slash (f ∷ es))
    ∙ ap (λ (ws : List Text). ws ++ split_slash (join_slash (f ∷ es))) (split_slash_plain e h)
    ∙ ap (λ (ws : List Text). e ∷ ws) (split_slash-join_slash f es plain)

IsStack-NoSlash : (rooted : Bool) (st : List Text) → IsStack rooted st → NoSlash st
IsStack-NoSlash rooted [] h = tt
IsStack-NoSlash rooted (t ∷ st) (inl name, h) = (ground arith, IsStack-NoSlash rooted st h)
IsStack-NoSlash rooted (t ∷ st) (inr (e, _), h) = (rw e refl, IsStack-NoSlash rooted st h)

pub All-last_first {ℓ} : (P : Text → Type ℓ) (es : List Text) → All P es → All P (last_first es)
All-last_first P [] h = tt
All-last_first P (e ∷ es) (a, h) =
    All-append P (last_first es) (e ∷ []) (All-last_first P es h) (a, tt)

-- A printed path is pushed as its elements are.
pub push_elements-print_path :
    (r rooted : Bool) (st es : List Text)
    → NoSlash es
    → push_elements r st (split_slash (print_path rooted es)) ≡ push_elements r st es
unfolding push_elements push_element split_slash text_eq
push_elements-print_path r true st [] plain = refl
push_elements-print_path r false st [] plain = refl
push_elements-print_path r true st (e ∷ es) plain =
    ap (push_elements r st) (split_slash-join_slash e es plain)
push_elements-print_path r false st (e ∷ es) plain =
    ap (push_elements r st) (split_slash-join_slash e es plain)

-- A text with no slash that is not empty.
abbrev IsSolid : Text → Type 0
IsSolid w = (has_slash w ≡ false) × ((length w == 0) ≡ false)

IsSolid-IsStack : (rooted : Bool) (st : List Text) → IsStack rooted st → All IsSolid st
IsSolid-IsStack rooted [] h = tt
IsSolid-IsStack rooted (t ∷ st) (inl name, h) =
    ((ground arith, ground arith), IsSolid-IsStack rooted st h)
IsSolid-IsStack rooted (t ∷ st) (inr (e, _), h) = (rw e (refl, refl), IsSolid-IsStack rooted st h)

start_of_solid :
    (rooted : Bool) (es : List Text) → All IsSolid es → starts_slash (print_path rooted es) ≡ rooted
unfolding starts_slash
start_of_solid true es h = refl
start_of_solid false [] h = refl
start_of_solid false ([] ∷ es) h = cc
start_of_solid false ((c ∷ e) ∷ []) h = ground arith
start_of_solid false ((c ∷ e) ∷ f ∷ es) h = ground arith

-- A printed stack begins with a slash exactly if it is rooted.
pub starts_slash-print_path :
    (rooted : Bool) (st : List Text)
    → IsStack rooted st
    → starts_slash (print_path rooted (last_first st)) ≡ rooted
starts_slash-print_path rooted st h =
    start_of_solid rooted (last_first st) (All-last_first IsSolid st (IsSolid-IsStack rooted st h))

-- What is printed has the elements that were printed.
pub elements-print_path :
    (rooted : Bool) (st : List Text)
    → IsStack rooted st
    → elements (print_path rooted (last_first st)) ≡ last_first st
unfolding elements
elements-print_path rooted st h =
    let p = print_path rooted (last_first st) in
    let plain = All-last_first (λ w. has_slash w ≡ false) st (IsStack-NoSlash rooted st h) in
    ap (λ (r : Bool). last_first (push_elements r [] (split_slash p)))
      (starts_slash-print_path rooted st h)
    ∙ ap last_first (
        push_elements-print_path rooted rooted [] (last_first st) plain
        ∙ push_elements-last_first rooted st h)

-- The stack of a path.
pub elements-IsStack :
    (p : Text) → (st : List Text) × IsStack (starts_slash p) st × (elements p ≡ last_first st)
unfolding elements
elements-IsStack p =
    let r = starts_slash p in
    (
      push_elements r [] (split_slash p),
      push_elements-IsStack r [] (split_slash p) (split_slash-NoSlash p) tt,
      refl,
    )

pub elements-NoSlash : (p : Text) → NoSlash (elements p)
elements-NoSlash p =
    let (st, h, e) = elements-IsStack p in
    rw e (All-last_first (λ w. has_slash w ≡ false) st (IsStack-NoSlash (starts_slash p) st h))

-- A cleaned path is rooted as the path was and has its elements.
pub elements-clean :
    (p : Text) → (starts_slash (clean p) ≡ starts_slash p) × (elements (clean p) ≡ elements p)
unfolding clean
elements-clean p =
    let (st, h, e) = elements-IsStack p in
    let r = starts_slash p in
    (
      ap (λ (es : List Text). starts_slash (print_path r es)) e ∙ starts_slash-print_path r st h,
      ap (λ (es : List Text). elements (print_path r es)) e ∙ elements-print_path r st h ∙ sym e,
    )

-- Cleaning a clean path changes nothing.
pub clean_idempotent : (p : Text) → clean (clean p) ≡ clean p
clean_idempotent p =
    let (start, same) = elements-clean p in unfold clean in (λ i. print_path (start i) (same i))

names_of_stack : (st : List Text) → IsStack true st → AreNames st
names_of_stack [] h = tt
names_of_stack (t ∷ st) (inl name, h) = (name, names_of_stack st h)
names_of_stack (t ∷ []) (inr (e, up), h) = cc
names_of_stack (t ∷ u ∷ st) (inr (e, up), h) =
    let rest = names_of_stack (u ∷ st) h in
    let other : text_eq u dot_dot ≡ false = ground (arith, rest.0) in
    let gone : st ≡ dot_dot ∷ u ∷ st = rw other at up in absurd (omega (arith, ap length gone))

-- The elements of a rooted path are names.
pub elements-AreNames : (p : Text) → starts_slash p ≡ true → AreNames (elements p)
elements-AreNames p rooted =
    let (st, h, e) = elements-IsStack p in
    let names = names_of_stack st (rw rooted at h) in
    rw e (All-last_first (λ w. is_name w ≡ true) st names)
