-- ===== src/Static/Confined.antt =====
-- Where the files lie that the static handlers serve.
use srv_app.Base.{
  ℕ, ◌≡◌, ◌≢◌, ◌↔◌, refl, sym, ap, ◌∙◌, ◌⊎◌, inl, inr, true, false, List, [], ◌∷◌, ◌++◌, Option,
  none, some, Text, text_eq, arith, All, All-append, append_assoc, subst,
}
use srv_app.Mux.{slash, ends_slash, clean_path, func}
use srv_app.Paths.{split_slash, join_slash, elements, clean, join, abs}
use srv_app.Paths.Elements.{AreNames, elements-AreNames, split_slash-append, split_slash-join_slash}
use srv_app.Paths.Canonical.{
  IsCanonical, plain, folder, clean_rooted, clean_path-IsCanonical, ends_slash_snoc,
  ends_slash-join_slash,
}
use srv_app.Paths.Inside.{
  IsPlain, is_plain, names, inside, names-AreNames, abs-join, AreNames-NoSlash,
}
use srv_app.Mux.Serve.{HttpLib, Guard, Request, connect, serve_http}
use srv_app.Mux.Serve.Safety.{runs, serve-IsAdmitted}
use srv_app.HttpSrv.{HttpSrv}
use srv_app.HttpSrv.Configure.{on_priv_static_srv_uri}
use srv_app.Static.{
  on_priv_static_srv, Disk, Answer, not_found, served, Stat, not_exist, stat_failed, dir, regular,
  no_abs_path, index_html, f_name, send_file, on_stat, serve_static_file, serve_static_dir,
}

abbrev ArePlain : List Text → Type 0
ArePlain = All (λ (w : Text). is_plain w ≡ true)

plain_names : (es : List Text) → AreNames es → ArePlain es
plain_names [] h = tt
plain_names (e ∷ es) (a, h) = (ground arith, plain_names es h)

-- Between the slashes of a printed rooted path.
split-rooted : (es : List Text) → AreNames es → ArePlain (split_slash (slash ∷ join_slash es))
unfolding split_slash
split-rooted [] h = (refl, (refl, tt))
split-rooted (e ∷ es) h =
    rw (split_slash-join_slash e es (AreNames-NoSlash (e ∷ es) h)) (refl, plain_names (e ∷ es) h)

index_plain : ArePlain (split_slash index_html)
unfolding split_slash text_eq
index_plain = (refl, tt)

f_name_folder : (p : Text) → ends_slash p ≡ true → f_name p ≡ p ++ index_html
unfolding f_name
f_name_folder p h = ground arith

f_name_file : (c : ℕ) (p : Text) → ends_slash (c ∷ p) ≡ false → f_name (c ∷ p) ≡ c ∷ p
unfolding f_name
f_name_file c p h = ground arith

-- A slash, a printed path, a slash and the name of the index.
with_index : (p : Text) → ArePlain (split_slash p) → IsPlain ((p ++ slash ∷ []) ++ index_html)
with_index p h =
    rw (append_assoc p (slash ∷ []) index_html, split_slash-append p index_html)
      (All-append (λ (w : Text). is_plain w ≡ true) (split_slash p) (split_slash index_html) h
        index_plain)

f_name-rooted : (es : List Text) → AreNames es → IsPlain (f_name (slash ∷ join_slash es))
f_name-rooted [] h =
    rw (f_name_folder (slash ∷ []) (unfold ends_slash in refl))
      (unfold split_slash text_eq in (refl, (refl, tt)))
f_name-rooted (e ∷ es) h =
    rw (f_name_file slash (join_slash (e ∷ es)) (ends_slash-join_slash slash e es h))
      (split-rooted (e ∷ es) h)

-- The name that is looked for under a canonical path has nothing but names between its slashes.
f_name-IsPlain : (p : Text) → IsCanonical p → IsPlain (f_name p)
f_name-IsPlain p (plain q rooted e) =
    rw (e, clean_rooted q rooted) (f_name-rooted (elements q) (elements-AreNames q rooted))
f_name-IsPlain p (folder q rooted other e) =
    rw (e, f_name_folder (clean q ++ slash ∷ []) (ends_slash_snoc (clean q)), clean_rooted q rooted)
      (with_index (slash ∷ join_slash (elements q))
        (split-rooted (elements q) (elements-AreNames q rooted)))

on_stat_served :
    (disk : Disk) (f_path a path mime : Text) (bytes : List ℕ) (s : Stat)
    → on_stat disk f_path a s ≡ served path mime bytes
    → (a ≡ path) × (s ≡ regular) × (disk.open_file a ≡ some bytes) × (disk.mime_type a ≡ mime)
unfolding send_file
on_stat_served disk f_path a path mime bytes not_exist e = cc
on_stat_served disk f_path a path mime bytes stat_failed e = cc
on_stat_served disk f_path a path mime bytes dir e = cc
on_stat_served disk f_path a path mime bytes regular e = ground arith

send_file_found :
    (disk : Disk) (path mime : Text) (bytes : List ℕ)
    → disk.open_file path ≡ some bytes
    → disk.mime_type path ≡ mime
    → send_file disk path ≡ served path mime bytes
unfolding send_file
send_file_found disk path mime bytes opened type = ground arith

-- A file is served exactly if its absolute path is known, it is a regular file and it can be
-- opened; all else is answered with 404.
serve_static_file_iff :
    (disk : Disk) (url_path src_dir path mime : Text) (bytes : List ℕ)
    → (serve_static_file disk url_path src_dir ≡ served path mime bytes) ↔ (
        (abs disk.cwd (join src_dir (f_name url_path)) ≡ some path)
        × (disk.stat path ≡ regular)
        × (disk.open_file path ≡ some bytes)
        × (disk.mime_type path ≡ mime))
unfolding serve_static_file
serve_static_file_iff disk url_path src_dir path mime bytes = (to (abs disk.cwd f_path) refl, from)
  where
    f_path : Text
    f_path = join src_dir (f_name url_path)

    answer : Option Text → Answer
    answer none = not_found no_abs_path
    answer (some a) = on_stat disk f_path a (disk.stat a)

    to :
        (o : Option Text)
        → abs disk.cwd f_path ≡ o
        → answer o ≡ served path mime bytes
        → (abs disk.cwd f_path ≡ some path)
          × (disk.stat path ≡ regular)
          × (disk.open_file path ≡ some bytes)
          × (disk.mime_type path ≡ mime)
    to none found e = cc
    to (some a) found e =
        let (here, kind, opened, type) =
          on_stat_served disk f_path a path mime bytes (disk.stat a) e in
        (
          found ∙ ap some here,
          ap disk.stat (sym here) ∙ kind,
          ap disk.open_file (sym here) ∙ opened,
          ap disk.mime_type (sym here) ∙ type,
        )

    from :
        (abs disk.cwd f_path ≡ some path)
          × (disk.stat path ≡ regular)
          × (disk.open_file path ≡ some bytes)
          × (disk.mime_type path ≡ mime)
        → serve_static_file disk url_path src_dir ≡ served path mime bytes
    from (found, kind, opened, type) =
        ap answer found
        ∙ ap (on_stat disk f_path path) kind
        ∙ send_file_found disk path mime bytes opened type

cleaned-IsCanonical :
    (lib : HttpLib) (r : Request)
    → lib.path_clean ≡ clean
    → r.method ≢ connect
    → (r.method ≡ connect) ⊎ (clean_path lib.path_clean r.url_path ≡ r.url_path)
    → IsCanonical r.url_path
cleaned-IsCanonical lib r unix other (inl same) = absurd (other same)
cleaned-IsCanonical lib r unix other (inr kept) =
    subst IsCanonical (ap (λ (f : Text → Text). clean_path f r.url_path) (sym unix) ∙ kept)
      (clean_path-IsCanonical r.url_path)

module _ (disk : Disk) (known : (c : Text) → disk.cwd ≡ some c → c ≢ []) where
  -- What a canonical path names is in the directory.
  serve_static_dir-inside :
      (url_path src_dir path mime : Text) (bytes : List ℕ)
      → IsCanonical url_path
      → serve_static_dir disk url_path src_dir ≡ served path mime bytes
      → (base : Text) × (ws : List Text) × (abs disk.cwd (clean src_dir) ≡ some base)
        × AreNames ws
        × (path ≡ inside base ws)
  unfolding serve_static_dir
  serve_static_dir-inside url_path [] path mime bytes canonical e = cc
  serve_static_dir-inside url_path (c ∷ src_dir) path mime bytes canonical e =
      let file : serve_static_file disk url_path (c ∷ src_dir) ≡ served path mime bytes =
        ground (arith, e) in
      let (found, _, _, _) =
        (serve_static_file_iff disk url_path (c ∷ src_dir) path mime bytes).0 file in
      let plain_name = f_name-IsPlain url_path canonical in
      let (base, known_base, in_base) =
        abs-join disk.cwd (c ∷ src_dir) (f_name url_path) path known (λ h. cc h) plain_name found in
      (
        base,
        names (f_name url_path),
        known_base,
        names-AreNames (f_name url_path) plain_name,
        in_base,
      )

  -- With `path.Clean` in the multiplexer, a request that is not CONNECT and runs the handler of the
  -- private directory is served no file but one in that directory: its path is the absolute path of
  -- the directory followed by names, none of them `..`. (The working directory, if it is known, is
  -- not the empty text.)
  pub on_priv_static_srv-inside :
      {G : Type 0} (lib : HttpLib) (guard : Guard G) (srv : HttpSrv) (g : G) (r : Request)
      (path mime : Text) (bytes : List ℕ)
      → lib.path_clean ≡ clean
      → r.method ≢ connect
      → runs (serve_http lib guard srv.private_side.mux g r).1 ≡ func on_priv_static_srv_uri ∷ []
      → on_priv_static_srv disk srv r.url_path ≡ served path mime bytes
      → (base : Text) × (ws : List Text) × (abs disk.cwd (clean srv.private_side.static_dir)
          ≡ some base)
        × AreNames ws
        × (path ≡ inside base ws)
  unfolding on_priv_static_srv
  on_priv_static_srv-inside lib guard srv g r path mime bytes unix other ran e =
      let a = serve-IsAdmitted lib guard srv.private_side.mux g r on_priv_static_srv_uri ran in
      serve_static_dir-inside r.url_path srv.private_side.static_dir path mime bytes
        (cleaned-IsCanonical lib r unix other a.canonical) e
