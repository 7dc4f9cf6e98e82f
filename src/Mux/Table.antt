-- ===== src/Mux/Table.antt =====
-- netXMux.go: the map of the multiplexer as what its keys have, whatever the order of its entries;
-- and registrations in either order.
pub mod Order
mod Tests
use srv_app.Base.{ℕ, ◌≡◌, refl, ◌∙◌, sym, List, false, Memᴰ, Text}
use mathlib.Core.Quot
use mathlib.Core.Quot.{Quot}
use srv_app.Dict.{lookup, IsMap}
use srv_app.Dict.Laws.{mem_of_lookup, lookup_of_mem}
use srv_app.Mux.{MuxEntry, XMux, Best, match}
use srv_app.Mux.Match.{match_order}

-- A Go map, as a list of entries in some order.
abbrev pub Entries : Type 0
Entries = (m : List (Text × MuxEntry)) × IsMap m

-- Every key has the same.
abbrev pub Same : Entries → Entries → Type 0
Same a b = (key : Text) → lookup key a.0 ≡ lookup key b.0

abbrev pub Table : Type 0
Table = Quot Same

abbrev pub table : (mux : XMux) → IsMap mux.m → Table
table mux distinct = Quot.mk (mux.m, distinct)

abbrev with_entries : List (Text × MuxEntry) → XMux
with_entries m = record {
  m = m;
  hosts = false;
  tls_redirect = false;
  honor_x_forwarded_for = false;
}

Same-Memᴰ : (a b : Entries) → Same a b → (e : Text × MuxEntry) → Memᴰ e a.0 → Memᴰ e b.0
Same-Memᴰ (m, distinct) (m', distinct') same (key, v) listed =
    mem_of_lookup key v m' (sym (same key) ∙ lookup_of_mem key v m distinct listed)

match-Same :
    (path : Text) (a b : Entries)
    → Same a b
    → match (with_entries a.0) path ≡ match (with_entries b.0) path
match-Same path a b same =
    match_order (with_entries a.0) (with_entries b.0) path a.1 (Same-Memᴰ a b same)
      (Same-Memᴰ b a (λ key. sym (same key)))

Best-set : IsSet Best
Best-set = hlevel

-- The search, on a table.
pub match_in : Text → Table → Best
match_in path = Quot.lift Best-set (λ a. match (with_entries a.0) path) (match-Same path)

-- `match` is the search on the table of the multiplexer, so that it depends on nothing else.
pub match-match_in :
    (mux : XMux) (distinct : IsMap mux.m) (path : Text)
    → match mux path ≡ match_in path (table mux distinct)
unfolding match_in match
match-match_in mux distinct path = refl
