-- ===== src/Base/Panics.antt =====
-- A call that returns or panics.
use mathlib.Core.Bool.{Bool, true, false}
use mathlib.Core.Path.{◌≡◌, refl}

pub data Panic : Type 0 where
  slice_bounds index_out_of_range invalid_pattern nil_handler multiple_registrations bad_route_path
        parse_failed :
      Panic

-- A Go call that gives a value of `R`.
pub data Result {ℓ} (R : Type ℓ) : Type ℓ where
  panic : Panic → Result R
  ok : R → Result R

module _ {ℓ κ} {R : Type ℓ} {S : Type κ} where
  -- A panic skips what follows.
  infixl 5 ◌>>=◌
  abbrev pub ◌>>=◌ : Result R → (R → Result S) → Result S
  panic p >>= next = panic p
  ok r >>= next = next r

  -- Inversion of a chain that returns.
  pub >>=-eq-ok :
      {s : S} (call : Result R) (next : R → Result S)
      → (call >>= next) ≡ ok s
      → (r : R) × (call ≡ ok r) × (next r ≡ ok s)
  >>=-eq-ok (panic p) next e = cc
  >>=-eq-ok (ok r) next e = (r, refl, e)

module _ {ℓ} {R : Type ℓ} where
  abbrev pub is_ok : Result R → Bool
  is_ok (panic p) = false
  is_ok (ok r) = true

  -- What the call gives, or another value where it panics.
  abbrev pub value_or : R → Result R → R
  value_or other (panic p) = other
  value_or other (ok r) = r

  -- A call that returns is known by that alone.
  pub ok-value_or :
      (other : R) (call : Result R) → is_ok call ≡ true → call ≡ ok (value_or other call)
  ok-value_or other (panic p) h = cc
  ok-value_or other (ok r) h = refl
