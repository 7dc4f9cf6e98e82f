-- ===== src/Mux.antt =====
-- netXMux.go: the request multiplexer. The lock `mu` is taken by every operation for its whole
-- duration, so an operation is one step of the state `XMux`.
pub mod Match
pub mod Keys
pub mod Register
pub mod Table
mod Tests
pub mod Serve
use srv_app.Base.{
  ℕ, zero, ◌-◌, Bool, true, false, ◌&&◌, ◌||◌, not, List, [], ◌∷◌, ◌++◌, Option, none, some, Text,
  codes, text_eq, length, take, get_or, ltb, leb, ◌==◌, if◌then◌else◌, is_none, Result, ok, panic,
  Panic, ◌>>=◌, ◌≡◌,
}
use srv_app.Dict.{lookup, insert, delete}

-- A `http.Handler`. A function of the application is named by a number: the multiplexer calls it
-- and looks at nothing else. `nil_handler` is the nil interface value; `redirect` is the value of
-- `http.RedirectHandler(url, code)`.
pub data Handler : Type 0 where
  nil_handler : Handler
  func : ℕ → Handler
  redirect : Text → ℕ → Handler

pub record UriHandler : Type 0 where
  pub method : Text
  pub handler : Handler
  pub pattern : Text
  pub required_access : ℕ

pub record MuxEntry : Type 0 where
  pub explicit : Bool
  pub h : UriHandler
  pub pattern : Text

pub record XMux : Type 0 where
  pub m : List (Text × MuxEntry)
  pub hosts : Bool
  pub tls_redirect : Bool
  pub honor_x_forwarded_for : Bool

unfoldable pub new_xmux : XMux
new_xmux = record { m = []; hosts = false; tls_redirect = false; honor_x_forwarded_for = false }

abbrev pub slash : ℕ
slash = b'/'

abbrev pub colon : ℕ
colon = b':'

-- `strings.Join([]string{method, pattern}, ":")`
abbrev pub make_key : Text → Text → Text
make_key method path = method ++ (colon ∷ path)

-- `p[len(p)-1] == '/'`, false on the empty text.
unfoldable pub ends_slash : Text → Bool
ends_slash p = get_or p (length p - 1) 0 == slash

-- `p[0] == '/'`, false on the empty text.
unfoldable pub starts_slash : Text → Bool
starts_slash p = get_or p 0 0 == slash

-- `p[0:len(p)-1]`, which panics on the empty text.
unfoldable pub drop_last : Text → Result Text
drop_last [] = panic Panic.slice_bounds
drop_last (c ∷ p) = ok (take (length p) (c ∷ p))

unfoldable pub path_match : Text → Text → Bool
path_match pattern path =
    if length pattern == 0
    then false
    else if not (ends_slash pattern)
    then text_eq pattern path
    else leb (length pattern) (length path) && text_eq (take (length pattern) path) pattern

-- `path_clean` is `path.Clean` of the standard library.
unfoldable pub clean_path : (Text → Text) → Text → Text
clean_path path_clean p =
    if length p == 0
    then slash ∷ []
    else let rooted = if starts_slash p then p else slash ∷ p in
      let np = path_clean rooted in
      if ends_slash rooted && not (text_eq np (slash ∷ [])) then np ++ (slash ∷ []) else np

-- The variables of the loop of `match`: the named results and `n`.
pub record Best : Type 0 where
  pub n : ℕ
  pub h : Option UriHandler
  pub pattern : Text

abbrev pub no_match : Best
no_match = record { n = 0; h = none; pattern = [] }

abbrev pub best_of : Text × MuxEntry → Best
best_of (k, v) = record { n = length k; h = some v.h; pattern = v.pattern }

-- One round of the loop.
unfoldable pub match_step : Text → Best → Text × MuxEntry → Best
match_step path b (k, v) =
    if not (path_match k path)
    then b
    else if is_none b.h || ltb b.n (length k)
    then best_of (k, v)
    else b

unfoldable pub match_from : Text → Best → List (Text × MuxEntry) → Best
match_from path b [] = b
match_from path b (e ∷ m) = match_from path (match_step path b e) m

unfoldable pub match : XMux → Text → Best
unfolding match_from
match mux path = match_from path no_match mux.m

-- The method `handler`: a pattern with the host first, then one without.
unfoldable pub find : XMux → Text → Text → Text → Best
find mux host method path =
    let hosted = if mux.hosts then match mux (host ++ make_key method path) else no_match in
    if is_none hosted.h then match mux (make_key method path) else hosted

-- The text from the first slash on: `p[strings.Index(p, "/"):]`.
unfoldable pub from_slash : Text → Text
from_slash [] = []
from_slash (c ∷ p) = if c == slash then c ∷ p else from_slash p

abbrev pub is_nil : Handler → Bool
is_nil nil_handler = true
is_nil _ = false

-- `mux.m[key].explicit`: the zero entry, which is not explicit, where the key is missing.
unfoldable pub is_explicit : Text → List (Text × MuxEntry) → Bool
is_explicit key m = elim (lookup key m) [ none ↦ false | some e ↦ e.explicit ]

abbrev pub check : Bool → Panic → Result (Unit {0})
check true p = panic p
check false p = ok tt

module _ (path_string : Text → Text) where
  -- `(&url.URL{Path: path}).String()` is `path_string path`.
  unfoldable pub helper : UriHandler → Text → UriHandler
  helper u trimmed = record {
    method = u.method;
    handler =
        redirect (path_string (if starts_slash u.pattern then u.pattern else from_slash u.pattern))
          301;
    pattern = trimmed;
    required_access = u.required_access;
  }

  -- What `Handle` does once its checks have passed.
  unfoldable pub add_entries : XMux → UriHandler → Text → XMux
  unfolding helper
  add_entries mux u trimmed =
      let key = make_key u.method u.pattern in
      let key_no_slash = make_key u.method trimmed in
      let m = insert key (record { explicit = true; h = u; pattern = u.pattern }) mux.m in
      let hosts = if starts_slash u.pattern then mux.hosts else true in
      let implicit : MuxEntry = record {
        explicit = false;
        h = helper u trimmed;
        pattern = u.pattern;
      } in
      record mux {
        m =
            if ends_slash u.pattern && not (is_explicit key_no_slash m)
            then insert key_no_slash implicit m
            else m;
        hosts = hosts;
      }

  unfoldable pub handle : XMux → UriHandler → Result XMux
  handle mux u = do
    trimmed ← drop_last u.pattern
    _ ← check (length u.pattern == 0) Panic.invalid_pattern
    _ ← check (is_nil u.handler) Panic.nil_handler
    _ ← check (is_explicit (make_key u.method u.pattern) mux.m) Panic.multiple_registrations
    ok (add_entries mux u trimmed)

-- The part of `RemoveHandleFunc` behind the deletion of the pattern itself.
unfoldable pub delete_implicit : Text → List (Text × MuxEntry) → List (Text × MuxEntry)
delete_implicit key_no_slash m = if is_explicit key_no_slash m then m else delete key_no_slash m

unfoldable pub remove_handle_func : XMux → Text → Text → XMux
unfolding delete_implicit
remove_handle_func mux method pattern =
    let m = delete (make_key method pattern) mux.m in
    record mux {
      m =
          if ends_slash pattern
          then delete_implicit (make_key method (take (length pattern - 1) pattern)) m
          else m;
    }
