-- ===== src/HttpSrv/Body.antt =====
-- net.go: `ValidateRequestBody`, which reads the body of a request into a buffer.
mod Tests
use srv_app.Base.{
  ◌>>=◌, ◌<◌, ℕ, ◌≡◌, refl, ◌↔◌, ◌⊎◌, inl, inr, Bool, true, false, not, List, [], ◌∷◌, ◌++◌, Option,
  none, some, Text, ℤ, pos, negsuc, int_eq, int_eq_iff, is_positive, length, Result, ok, panic,
  Panic, ◌==◌, if◌then◌else◌, arith, Option-cases, some-inj, ap, ◌≢◌,
}

-- `body` is what can be read before the end or an error, and `body_fails` whether it is an error.
-- `content_length_header` is the entry of the header under Content-Length.
pub record BodyRequest : Type 0 where
  pub content_length : ℤ
  pub content_length_header : Option (List Text)
  pub body : List ℕ
  pub body_fails : Bool

-- The errors, in the order of the returns.
pub data BodyError : Type 0 where
  zero_length header_mismatch read_failed length_mismatch : BodyError

first_text : {s s' : Text} {l l' : List Text} → some (s ∷ l) ≡ some (s' ∷ l') → s ≡ s'
first_text e = cc (some-inj e)

module _ (parse_int : Text → Option ℤ) where
  -- Whether the header is read as another number. The entry is indexed without a test.
  unfoldable pub header_differs : Option (List Text) → ℤ → Result Bool
  header_differs none n = ok false
  header_differs (some []) n = panic Panic.index_out_of_range
  header_differs (some (s ∷ _)) n = ok (differs (parse_int s))
    where
      differs : Option ℤ → Bool
      differs none = false
      differs (some m) = not (int_eq m n)

  -- What follows the check of the header.
  unfoldable pub read_body : BodyRequest → List ℕ → List ℕ × Option BodyError
  read_body r buffer =
      let filled = buffer ++ r.body in
      if r.body_fails
      then (filled, some read_failed)
      else if not (int_eq (pos (length r.body)) r.content_length)
      then (filled, some length_mismatch)
      else (filled, none)

  -- The buffer, and the error or none.
  unfoldable pub validate_request_body : BodyRequest → List ℕ → Result (List ℕ × Option BodyError)
  unfolding header_differs read_body
  validate_request_body r buffer =
      if not (is_positive r.content_length) then ok (buffer, some zero_length) else do
        differs ← header_differs r.content_length_header r.content_length
        ok (if differs then (buffer, some header_mismatch) else read_body r buffer)

  validate_request_body_lem :
      (r : BodyRequest) (buffer buffer' : List ℕ)
      → (validate_request_body r buffer ≡ ok (buffer', none)) ↔ (
          (r.content_length ≡ pos (length r.body))
          × (0 < length r.body)
          × (header_differs r.content_length_header r.content_length ≡ ok false)
          × (r.body_fails ≡ false)
          × (buffer' ≡ buffer ++ r.body))
  unfolding validate_request_body read_body is_positive
  validate_request_body_lem r buffer buffer' =
      ground (arith, int_eq_iff (pos (length r.body)) r.content_length)

  -- The header has no entry, or one with a first text, which is no number or the number `n`.
  abbrev pub Agrees : Option (List Text) → ℤ → Type 0
  Agrees header n =
      (header ≢ some [])
      × ((s : Text) (rest : List Text) (m : ℤ)
          → header ≡ some (s ∷ rest)
          → parse_int s ≡ some m
          → m ≡ n)

  header_differs-Agrees :
      (header : Option (List Text)) (n : ℤ) → (header_differs header n ≡ ok false) ↔ Agrees header n
  unfolding header_differs
  header_differs-Agrees none n = (λ e. (λ none_there. cc, λ s rest m here. cc), λ h. refl)
  header_differs-Agrees (some []) n = (λ e. cc, λ h. absurd (h.0 refl))
  header_differs-Agrees (some (s ∷ l)) n = elim (Option-cases (parse_int s)) [
    | inl unread ↦
        let h : (s' : Text) (rest : List Text) (m : ℤ)
            → some (s ∷ l) ≡ some (s' ∷ rest)
            → parse_int s' ≡ some m
            → m ≡ n =
          λ s' rest m here read. absurd (ground (arith, ap parse_int (first_text here))) in
        (λ e. (λ empty. cc, h), λ a. ground arith)
    | inr (m, read) ↦ (
      λ e. (
        λ empty. cc,
        λ s' rest m' here read'. ground (arith, ap parse_int (first_text here), int_eq_iff m n),
      ),
      λ a. ground (arith, int_eq_iff m n, a.1 s l m refl read),
    )
  ]

  -- A body is accepted exactly if it can be read to its end, is not empty, has the announced length,
  -- and the header has no entry or one whose first text, if it can be read as a number, is that length;
  -- the buffer then holds the body behind what it held.
  pub validate_request_body_iff :
      (r : BodyRequest) (buffer buffer' : List ℕ)
      → (validate_request_body r buffer ≡ ok (buffer', none)) ↔ (
          (r.content_length ≡ pos (length r.body))
          × (0 < length r.body)
          × Agrees r.content_length_header r.content_length
          × (r.body_fails ≡ false)
          × (buffer' ≡ buffer ++ r.body))
  validate_request_body_iff r buffer buffer' =
      let (there, back) = validate_request_body_lem r buffer buffer' in
      let (agrees, same) = header_differs-Agrees r.content_length_header r.content_length in
      (
        λ e.
            let (n, some_byte, header, read, filled) = there e in
            (n, some_byte, agrees header, read, filled),
        λ (n, some_byte, header, read, filled). back (n, some_byte, same header, read, filled),
      )
