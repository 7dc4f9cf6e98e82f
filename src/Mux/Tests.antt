-- ===== src/Mux/Tests.antt =====
-- The multiplexer on concrete requests, and its theorems at them.
use srv_app.Base.{
  ℕ, ◌+◌, List, ◌≡◌, refl, inl, true, false, [], ◌∷◌, none, some, Memᴰ, Text, codes, text_eq, ok,
  panic, Panic, length,
}
use srv_app.Dict.{lookup, insert, delete, IsMap}
use srv_app.Mux.{
  func, redirect, UriHandler, MuxEntry, XMux, new_xmux, make_key, path_match, match, find, handle,
  remove_handle_func, clean_path, ends_slash, starts_slash, is_explicit, add_entries, match_step,
  drop_last,
}
use srv_app.Mux.Match.{match_longest, Chosen}
use srv_app.Mux.Register.{match-handle, remove-handle}
use srv_app.Mux.Serve.{Request, HttpLib, Guard, ReqStatus, Counter, client_host, route, serve_http}
use srv_app.Mux.Serve.Safety.{runs, IsAdmitted, serve-IsAdmitted}
use srv_app.Stats.{new_request_log}
use srv_app.Stats.Totals.{serve_all, total, events_with, tag, serve_all_agree}
use srv_app.Stats.Requests.{counter_of, log_events}

program : Unit {0}
unfolding lookup insert delete path_match match_step match handle drop_last add_entries is_explicit
    find remove_handle_func ends_slash starts_slash clean_path route client_host serve_http text_eq
    new_xmux serve_all log_events new_request_log
program = tt

abbrev get : Text
get = codes "GET"

abbrev tree : UriHandler
tree = record { method = get; handler = func 7; pattern = codes "/tree/"; required_access = 2 }

abbrev as_is : Text → Text
as_is p = p

-- `NewXMux`, then `Handle` twice.
abbrev tree_entry : MuxEntry
tree_entry = record { explicit = true; h = tree; pattern = tree.pattern }

abbrev bare_entry : MuxEntry
bare_entry = record {
  explicit = false;
  h = record {
    method = get;
    handler = redirect (codes "/tree/") 301;
    pattern = codes "/tree";
    required_access = 2;
  };
  pattern = tree.pattern;
}

abbrev with_tree : XMux
with_tree = record {
  m = (codes "GET:/tree/", tree_entry) ∷ (codes "GET:/tree", bare_entry) ∷ [];
  hosts = false;
  tls_redirect = false;
  honor_x_forwarded_for = false;
}

handle_test : handle as_is new_xmux tree ≡ ok with_tree
unfolding program
handle_test = refl

handle_again : handle as_is with_tree tree ≡ panic Panic.multiple_registrations
unfolding program
handle_again = refl

remove_test : (remove_handle_func with_tree get tree.pattern).m ≡ []
unfolding program
remove_test = refl

-- The longest pattern wins.
match_test :
    ((match with_tree (codes "GET:/tree/a")).h ≡ some tree)
    × ((match with_tree (codes "GET:/tree")).pattern ≡ tree.pattern)
    × ((match with_tree (codes "GET:/")).h ≡ none)
unfolding program
match_test = (refl, refl, refl)

-- The explicit registration replaces the redirect, and its removal does not bring it back.
redirect_lost :
    let bare : UriHandler = record {
      method = get;
      handler = func 9;
      pattern = codes "/tree";
      required_access = 0;
    } in
    handle as_is with_tree bare
    ≡ ok (record with_tree {
      m =
          (codes "GET:/tree/", tree_entry)
          ∷ (codes "GET:/tree", record { explicit = true; h = bare; pattern = bare.pattern })
          ∷ [];
    })
unfolding program
redirect_lost = refl

with_tree-IsMap : IsMap with_tree.m
unfolding program
with_tree-IsMap = (refl, (refl, tt))

match_longest_example :
    Chosen (codes "GET:/tree/a") with_tree.m (match with_tree (codes "GET:/tree/a"))
match_longest_example = match_longest with_tree (codes "GET:/tree/a")

turn : (e a b : Text × MuxEntry) → Memᴰ e (a ∷ b ∷ []) → Memᴰ e (b ∷ a ∷ [])
turn e a b (Memᴰ.head p) = Memᴰ.tail (Memᴰ.head p)
turn e a b (Memᴰ.tail (Memᴰ.head p)) = Memᴰ.head p
turn e a b (Memᴰ.tail (Memᴰ.tail m)) = elim m [ ]

match-handle_example :
    let b = match with_tree (make_key get tree.pattern) in
    (b.h ≡ some tree) × (b.pattern ≡ tree.pattern)
match-handle_example =
    match-handle as_is new_xmux with_tree tree (unfold new_xmux in tt) handle_test

remove-handle_example :
    lookup (codes "GET:/tree") (remove_handle_func with_tree get tree.pattern).m
    ≡ lookup (codes "GET:/tree") new_xmux.m
unfolding program
remove-handle_example =
    remove-handle as_is new_xmux with_tree tree (codes "GET:/tree") refl (inl refl) handle_test

abbrev lib : HttpLib
lib = record { path_clean = as_is; url_string = λ r p. p; split_host_port = λ a. some a }

-- Everybody is an administrator, and no country is asked for.
abbrev open_guard : Guard (Unit {0})
open_guard = record { access_level = λ host. 2; authorize = λ g host. (g, ([], true)) }

abbrev request : Request
request = record {
  method = get;
  host = codes "a.org";
  url_path = codes "/tree/a";
  tls = true;
  request_uri = codes "/tree/a";
  proto_at_least_1_1 = true;
  x_forwarded_for = [];
  remote_addr = codes "10.0.0.1";
}

serve_test : runs (serve_http lib open_guard with_tree tt request).1 ≡ func 7 ∷ []
unfolding program
serve_test = refl

serve-IsAdmitted_example : IsAdmitted lib open_guard with_tree tt request 7
serve-IsAdmitted_example = serve-IsAdmitted lib open_guard with_tree tt request 7 serve_test

-- The client is a user where an administrator is wanted.
abbrev user_guard : Guard (Unit {0})
user_guard = record { access_level = λ host. 1; authorize = λ g host. (g, ([], true)) }

abbrev two_requests : List (Request × ℕ)
two_requests = (request, 9) ∷ (record request { url_path = codes "/none" }, 10) ∷ []

missing_counted :
    total (tag Counter.not_found) (serve_all lib user_guard with_tree tt two_requests).1.0 ≡ 1
unfolding program
missing_counted = refl

serve_all_agree_example :
    let (cs, events) = (serve_all lib user_guard with_tree tt two_requests).1 in
    ((s : ReqStatus) → total (tag (counter_of s)) cs ≡ events_with (tag (counter_of s)) events)
    × (length cs ≡ total 0 cs + length events)
serve_all_agree_example = serve_all_agree lib user_guard with_tree tt two_requests
