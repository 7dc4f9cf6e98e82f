-- ===== src/Sorting/Order.antt =====
-- The sorted list is in order, has the same strings, and does not depend on their order before.
use srv_app.Base.{
  ◌≡◌, refl, ◌∙◌, Bool, true, ◌&&◌, ◌||◌, List, [], ◌∷◌, Text, arith, Bool-cases, inl, inr,
}
use mathlib.Core.List.{Permᴰ}
use mathlib.Core.List.Permᴰ
use srv_app.Sorting.{text_leb, insert_sorted, sort_strings}

text_leb_total : (s t : Text) → text_leb s t || text_leb t s ≡ true
unfolding text_leb
text_leb_total [] t = ground arith
text_leb_total (a ∷ s) [] = ground arith
text_leb_total (a ∷ s) (b ∷ t) = ground (arith, text_leb_total s t)

text_leb_antisym : (s t : Text) → text_leb s t ≡ true → text_leb t s ≡ true → s ≡ t
unfolding text_leb
text_leb_antisym [] [] h k = refl
text_leb_antisym [] (b ∷ t) h k = cc
text_leb_antisym (a ∷ s) [] h k = cc
text_leb_antisym (a ∷ s) (b ∷ t) h k = ground (arith, text_leb_antisym s t)

text_leb_trans : (s t u : Text) → text_leb s t ≡ true → text_leb t u ≡ true → text_leb s u ≡ true
unfolding text_leb
text_leb_trans [] t u h k = refl
text_leb_trans (a ∷ s) [] u h k = cc
text_leb_trans (a ∷ s) (b ∷ t) [] h k = cc
text_leb_trans (a ∷ s) (b ∷ t) (c ∷ u) h k = ground (arith, text_leb_trans s t u)

insert_sorted_comm :
    (a b : Text) (l : List Text)
    → insert_sorted a (insert_sorted b l) ≡ insert_sorted b (insert_sorted a l)
unfolding insert_sorted
insert_sorted_comm a b [] = ground (arith, text_leb_total a b, text_leb_antisym a b)
insert_sorted_comm a b (x ∷ l) = ground (
  arith,
  insert_sorted_comm a b l,
  text_leb_total a b,
  text_leb_antisym a b,
  text_leb_trans a b x,
  text_leb_trans b a x,
)

pub sort_strings-perm : {l l' : List Text} → Permᴰ l l' → sort_strings l ≡ sort_strings l'
unfolding sort_strings
sort_strings-perm Permᴰ.nil = refl
sort_strings-perm (Permᴰ.cons e p) = λ i. insert_sorted (e i) (sort_strings-perm p i)
sort_strings-perm (Permᴰ.swap {a} {b} {a'} {b'} {l} e e') =
    insert_sorted_comm a b (sort_strings l)
    ∙ (λ i. insert_sorted (e' i) (insert_sorted (e i) (sort_strings l)))
sort_strings-perm (Permᴰ.trans p q) = sort_strings-perm p ∙ sort_strings-perm q

-- Every string is at most the one behind it.
abbrev pub leads : Text → List Text → Bool
leads a [] = true
leads a (b ∷ l) = text_leb a b

abbrev pub is_sorted : List Text → Bool
is_sorted [] = true
is_sorted (a ∷ l) = leads a l && is_sorted l

leads-insert_sorted :
    (a b : Text) (l : List Text)
    → text_leb a b ≡ true
    → leads a l ≡ true
    → leads a (insert_sorted b l) ≡ true
unfolding insert_sorted
leads-insert_sorted a b [] h k = h
leads-insert_sorted a b (x ∷ l) h k = ground arith

insert_sorted-is_sorted :
    (a : Text) (l : List Text) → is_sorted l ≡ true → is_sorted (insert_sorted a l) ≡ true
unfolding insert_sorted
insert_sorted-is_sorted a [] h = refl
insert_sorted-is_sorted a (x ∷ l) h =
    ground (arith, insert_sorted-is_sorted a l, leads-insert_sorted x a l, text_leb_total a x)

pub sort_strings-is_sorted : (l : List Text) → is_sorted (sort_strings l) ≡ true
unfolding sort_strings
sort_strings-is_sorted [] = refl
sort_strings-is_sorted (x ∷ l) =
    insert_sorted-is_sorted x (sort_strings l) (sort_strings-is_sorted l)

perm-insert_sorted : (a : Text) (l : List Text) → Permᴰ (a ∷ l) (insert_sorted a l)
unfolding insert_sorted
perm-insert_sorted a [] = Permᴰ.cons refl Permᴰ.nil
perm-insert_sorted a (x ∷ l) = elim (Bool-cases (text_leb a x)) [
  | inl le ↦ rw le (Permᴰ.refl (a ∷ x ∷ l))
  | inr above ↦
      rw above (Permᴰ.trans (Permᴰ.swap refl refl) (Permᴰ.cons refl (perm-insert_sorted a l)))
]

pub perm-sort_strings : (l : List Text) → Permᴰ l (sort_strings l)
unfolding sort_strings
perm-sort_strings [] = Permᴰ.nil
perm-sort_strings (x ∷ l) =
    Permᴰ.trans (Permᴰ.cons refl (perm-sort_strings l)) (perm-insert_sorted x (sort_strings l))
