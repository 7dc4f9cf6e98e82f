-- ===== src/HttpSrv/Body/Tests.antt =====
-- Bodies of requests.
use srv_app.Base.{
  ◌≡◌, ◌<◌, ◌↔◌, refl, true, false, List, [], ◌∷◌, ◌++◌, Option, none, some, Text, codes, ℤ, pos,
  length, text_eq, int_eq, is_positive, ok, panic, Panic, if◌then◌else◌,
}
use srv_app.HttpSrv.Body.{
  BodyRequest, zero_length, header_mismatch, read_failed, length_mismatch, Agrees,
  validate_request_body, validate_request_body_iff,
}

-- `strconv.ParseInt` on two numbers.
abbrev parse_int : Text → Option ℤ
parse_int s =
    if text_eq s (codes "3")
    then some (pos 3)
    else if text_eq s (codes "4")
    then some (pos 4)
    else none

abbrev request : ℤ → Option (List Text) → BodyRequest
request n header = record {
  content_length = n;
  content_length_header = header;
  body = codes "abc";
  body_fails = false;
}

abbrev announced : BodyRequest
announced = request (pos 3) (some (codes "3" ∷ []))

accepted : validate_request_body parse_int announced (codes "x") ≡ ok (codes "xabc", none)
unfolding validate_request_body text_eq int_eq is_positive
accepted = refl

empty_length : validate_request_body parse_int (request (pos 0) none) [] ≡ ok ([], some zero_length)
unfolding validate_request_body is_positive
empty_length = refl

other_header :
    validate_request_body parse_int (request (pos 3) (some (codes "4" ∷ []))) []
    ≡ ok ([], some header_mismatch)
unfolding validate_request_body text_eq int_eq is_positive
other_header = refl

unread_header :
    validate_request_body parse_int (request (pos 3) (some (codes "many" ∷ []))) []
    ≡ ok (codes "abc", none)
unfolding validate_request_body text_eq int_eq is_positive
unread_header = refl

empty_header :
    validate_request_body parse_int (request (pos 3) (some [])) [] ≡ panic Panic.index_out_of_range
unfolding validate_request_body is_positive
empty_header = refl

short_body :
    validate_request_body parse_int (request (pos 4) none) []
    ≡ ok (codes "abc", some length_mismatch)
unfolding validate_request_body int_eq is_positive
short_body = refl

broken_body :
    validate_request_body parse_int (record announced { body_fails = true }) []
    ≡ ok (codes "abc", some read_failed)
unfolding validate_request_body text_eq int_eq is_positive
broken_body = refl

validate_request_body_iff_example :
    (validate_request_body parse_int announced (codes "x") ≡ ok (codes "xabc", none)) ↔ (
      (announced.content_length ≡ pos (length announced.body))
      × (0 < length announced.body)
      × Agrees parse_int announced.content_length_header announced.content_length
      × (announced.body_fails ≡ false)
      × (codes "xabc" ≡ codes "x" ++ announced.body))
validate_request_body_iff_example =
    validate_request_body_iff parse_int announced (codes "x") (codes "xabc")
