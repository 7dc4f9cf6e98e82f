-- ===== src/Logs/Order.antt =====
-- The order of the fields of a message.
use srv_app.Base.{◌≡◌, refl, ap, ◌∙◌, Bool, true, false, List, [], ◌∷◌, ◌++◌, Text}
use mathlib.Core.List.{Permᴰ}
use srv_app.Dict.{lookup, keys}
use srv_app.Sorting.{sort_strings}
use srv_app.Sorting.Order.{sort_strings-perm}
use srv_app.Logs.Fields.{field_text, append_fields}

field_text-lookup :
    (first : Bool) (m m' : List (Text × Text)) (ks : List Text)
    → ((k : Text) → lookup k m ≡ lookup k m')
    → field_text first m ks ≡ field_text first m' ks
unfolding field_text
field_text-lookup first m m' [] same = refl
field_text-lookup first m m' (k ∷ ks) same =
    let rest = field_text-lookup false m m' ks same in rw (same k, rest) refl

-- Two maps of fields with the same keys and the same values give the same message, in whatever order
-- each of them is read.
pub append_fields_order :
    (m m' : List (Text × Text)) (msg : Text)
    → Permᴰ (keys m) (keys m')
    → ((k : Text) → lookup k m ≡ lookup k m')
    → append_fields m msg ≡ append_fields m' msg
unfolding append_fields
append_fields_order m m' msg p same =
    ap (λ (t : Text). msg ++ t)
      (field_text-lookup true m m' (sort_strings (keys m)) same
        ∙ ap (field_text true m') (sort_strings-perm p))
