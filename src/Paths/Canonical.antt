-- ===== src/Paths/Canonical.antt =====
-- `cleanPath` of netXMux.go with `path.Clean` for its parameter: the paths that it gives back are
-- those that it does not change.
use srv_app.Base.{
  ℕ, suc, ◌-◌, ◌≡◌, refl, ap, ◌∙◌, inl, inr, Bool, true, false, ◌&&◌, not, List, [], ◌∷◌, ◌++◌,
  Text, text_eq, length, ◌==◌, if◌then◌else◌, arith, Bool-cases,
}
use srv_app.Mux.{slash, starts_slash, ends_slash, clean_path}
use srv_app.Paths.{
  split_slash, push_element, push_elements, join_slash, elements, print_path, clean,
}
use srv_app.Paths.Elements.{
  has_slash, AreNames, push_elements-append, split_slash-append, elements-clean, clean_idempotent,
  elements-AreNames,
}

abbrev root : Text
root = slash ∷ []

ends_slash-cons : (c d : ℕ) (s : Text) → ends_slash (c ∷ d ∷ s) ≡ ends_slash (d ∷ s)
unfolding ends_slash
ends_slash-cons c d s =
    let at : suc (suc (length s)) - 1 ≡ suc (length s) = omega arith in
    let at' : suc (length s) - 1 ≡ length s = omega arith in rw (at, at') refl

pub ends_slash_snoc : (s : Text) → ends_slash (s ++ slash ∷ []) ≡ true
unfolding ends_slash
ends_slash_snoc [] = refl
ends_slash_snoc (c ∷ []) = refl
ends_slash_snoc (c ∷ d ∷ s) = ends_slash-cons c d (s ++ slash ∷ []) ∙ ends_slash_snoc (d ∷ s)

-- A slash in front does not matter unless it is all there is.
ends_slash_name : (w : Text) → has_slash w ≡ false → (length w == 0) ≡ false → ends_slash w ≡ false
unfolding ends_slash
ends_slash_name [] h e = cc
ends_slash_name (c ∷ []) h e = ground arith
ends_slash_name (c ∷ d ∷ s) h e =
    ends_slash-cons c d s ∙ ends_slash_name (d ∷ s) (ground arith) (ground arith)

ends_slash-append : (a : Text) (c : ℕ) (b : Text) → ends_slash (a ++ c ∷ b) ≡ ends_slash (c ∷ b)
ends_slash-append [] c b = refl
ends_slash-append (x ∷ []) c b = ends_slash-cons x c b
ends_slash-append (x ∷ y ∷ a) c b = ends_slash-cons x y (a ++ c ∷ b) ∙ ends_slash-append (y ∷ a) c b

pub ends_slash-join_slash :
    (x : ℕ) (e : Text) (es : List Text)
    → AreNames (e ∷ es)
    → ends_slash (x ∷ join_slash (e ∷ es)) ≡ false
ends_slash-join_slash x [] es (h, _) = absurd (cc h)
ends_slash-join_slash x (c ∷ e) [] (h, _) =
    ends_slash-cons x c e ∙ ends_slash_name (c ∷ e) (ground arith) (ground arith)
ends_slash-join_slash x (c ∷ e) (f ∷ es) (h, names) =
    ends_slash-append (x ∷ c ∷ e) slash (join_slash (f ∷ es))
    ∙ ends_slash-join_slash slash f es names

-- A path that `cleanPath` gives back: cleaned, or cleaned, not the root, and with a slash behind.
pub data IsCanonical (r : Text) : Type 0 where
  plain : (q : Text) → starts_slash q ≡ true → r ≡ clean q → IsCanonical r
  folder :
      (q : Text)
      → starts_slash q ≡ true
      → text_eq (clean q) root ≡ false
      → r ≡ clean q ++ slash ∷ []
      → IsCanonical r

pub clean_rooted : (q : Text) → starts_slash q ≡ true → clean q ≡ slash ∷ join_slash (elements q)
unfolding clean
clean_rooted q rooted = ap (λ (r : Bool). print_path r (elements q)) rooted

-- The end of `cleanPath`.
abbrev with_slash : Text → Text
with_slash q =
    if ends_slash q && not (text_eq (clean q) root) then clean q ++ slash ∷ [] else clean q

with_slash-IsCanonical : (q : Text) → starts_slash q ≡ true → IsCanonical (with_slash q)
with_slash-IsCanonical q rooted = elim (Bool-cases (ends_slash q && not (text_eq (clean q) root))) [
  | inl ends ↦ rw ends (folder q rooted (ground arith) refl)
  | inr other ↦ rw other (plain q rooted refl)
]

clean_path_rooted : (p : Text) → starts_slash p ≡ true → clean_path clean p ≡ with_slash p
unfolding clean_path
clean_path_rooted [] h = absurd (unfold starts_slash in cc)
clean_path_rooted (c ∷ p) h =
    let filled : (length (c ∷ p) == 0) ≡ false = ground arith in rw (filled, h) refl

clean_path_relative :
    (c : ℕ) (p : Text)
    → starts_slash (c ∷ p) ≡ false
    → clean_path clean (c ∷ p) ≡ with_slash (slash ∷ c ∷ p)
unfolding clean_path
clean_path_relative c p h =
    let filled : (length (c ∷ p) == 0) ≡ false = ground arith in rw (filled, h) refl

pub clean_path-IsCanonical : (p : Text) → IsCanonical (clean_path clean p)
clean_path-IsCanonical [] =
    let rooted : starts_slash root ≡ true = unfold starts_slash in refl in
    plain root rooted (unfold clean_path clean starts_slash in refl)
clean_path-IsCanonical (c ∷ p) = elim (Bool-cases (starts_slash (c ∷ p))) [
  | inl rooted ↦ rw (clean_path_rooted (c ∷ p) rooted) (with_slash-IsCanonical (c ∷ p) rooted)
  | inr other ↦
      let rooted : starts_slash (slash ∷ c ∷ p) ≡ true = unfold starts_slash in refl in
      rw (clean_path_relative c p other) (with_slash-IsCanonical (slash ∷ c ∷ p) rooted)
]

ends_slash-root :
    (es : List Text)
    → AreNames es
    → ends_slash (slash ∷ join_slash es) && not (text_eq (slash ∷ join_slash es) root) ≡ false
unfolding text_eq
ends_slash-root [] names = ground arith
ends_slash-root (e ∷ es) names = ground (arith, ends_slash-join_slash slash e es names)

-- A clean rooted path ends with a slash only if it is the root.
ends_slash-clean :
    (q : Text)
    → starts_slash q ≡ true
    → ends_slash (clean q) && not (text_eq (clean q) root) ≡ false
ends_slash-clean q rooted =
    rw (clean_rooted q rooted) (ends_slash-root (elements q) (elements-AreNames q rooted))

starts_slash-append : (x y : Text) → starts_slash x ≡ true → starts_slash (x ++ y) ≡ true
unfolding starts_slash
starts_slash-append [] y h = cc
starts_slash-append (c ∷ x) y h = h

-- A slash behind a path is dropped.
clean_folder : (x : Text) → starts_slash x ≡ true → clean (x ++ slash ∷ []) ≡ clean x
unfolding clean elements
clean_folder x rooted =
    let start = starts_slash-append x (slash ∷ []) rooted in
    let same : push_elements true [] (split_slash (x ++ slash ∷ []))
        ≡ push_elements true [] (split_slash x) =
      ap (push_elements true []) (split_slash-append x [])
      ∙ push_elements-append true [] (split_slash x) (split_slash [])
      ∙ (unfold push_elements push_element split_slash in refl) in
    rw (start, rooted, same) refl

clean_path_canonical : (r : Text) → IsCanonical r → clean_path clean r ≡ r
clean_path_canonical r (plain q rooted e) =
    let start = (elements-clean q).0 ∙ rooted in
    rw e
      (clean_path_rooted (clean q) start ∙ rw (clean_idempotent q, ends_slash-clean q rooted) refl)
clean_path_canonical r (folder q rooted other e) =
    let start = (elements-clean q).0 ∙ rooted in
    let dropped = clean_folder (clean q) start ∙ clean_idempotent q in
    rw e (
      clean_path_rooted (clean q ++ slash ∷ []) (starts_slash-append (clean q) (slash ∷ []) start)
      ∙ rw (dropped, ends_slash_snoc (clean q), other) refl)

-- `cleanPath` is idempotent: a request that was redirected to the path that it returns is not
-- redirected again.
clean_path_idempotent : (p : Text) → clean_path clean (clean_path clean p) ≡ clean_path clean p
clean_path_idempotent p = clean_path_canonical (clean_path clean p) (clean_path-IsCanonical p)
