-- ===== src/Static.antt =====
-- uriHandlers.go: the handlers of the static directories, `serveStaticFile` among them, on Unix.
pub mod Confined
mod Tests
use srv_app.Base.{
  ℕ, Bool, true, false, ◌||◌, List, [], ◌∷◌, ◌++◌, Option, none, some, Text, codes, length, ◌==◌,
  if◌then◌else◌,
}
use srv_app.Mux.{ends_slash}
use srv_app.Paths.{join, abs}
use srv_app.HttpSrv.{HttpSrv}

-- What `os.Stat` answers.
pub data Stat : Type 0 where
  not_exist stat_failed dir regular : Stat

-- The files: the working directory, none where it is not known; `os.Stat`; `os.Open` with the bytes
-- that can be read, none on its error; and `mime.TypeByExtension` of the extension of a path.
pub record Disk : Type 0 where
  pub cwd : Option Text
  pub stat : Text → Stat
  pub open_file : Text → Option (List ℕ)
  pub mime_type : Text → Text

-- Why a request is answered with the status 404, with the path that the message names.
pub data Reason : Type 0 where
  no_dir no_abs_path stat_error open_error : Reason
  file_not_found : Text → Reason

-- `served` has the path of the file, its type and its bytes.
pub data Answer : Type 0 where
  not_found : Reason → Answer
  served : Text → Text → List ℕ → Answer

abbrev pub index_html : Text
index_html = codes "index.html"

unfoldable pub f_name : Text → Text
f_name path = if length path == 0 || ends_slash path then path ++ index_html else path

-- The part behind the look at the file.
unfoldable pub send_file : Disk → Text → Answer
send_file disk abs_path = elim (disk.open_file abs_path) [
  | none ↦ not_found open_error
  | some bytes ↦ served abs_path (disk.mime_type abs_path) bytes
]

abbrev pub on_stat : Disk → Text → Text → Stat → Answer
on_stat disk f_path abs_path not_exist = not_found (file_not_found f_path)
on_stat disk f_path abs_path stat_failed = not_found stat_error
on_stat disk f_path abs_path dir = not_found (file_not_found f_path)
on_stat disk f_path abs_path regular = send_file disk abs_path

unfoldable pub serve_static_file : Disk → Text → Text → Answer
unfolding f_name send_file
serve_static_file disk url_path src_dir =
    let f_path = join src_dir (f_name url_path) in
    elim (abs disk.cwd f_path) [
      | none ↦ not_found no_abs_path
      | some abs_path ↦ on_stat disk f_path abs_path (disk.stat abs_path)
    ]

-- What both handlers do with their directory.
unfoldable pub serve_static_dir : Disk → Text → Text → Answer
unfolding serve_static_file
serve_static_dir disk url_path src_dir =
    if length src_dir == 0 then not_found no_dir else serve_static_file disk url_path src_dir

unfoldable pub on_priv_static_srv : Disk → HttpSrv → Text → Answer
unfolding serve_static_dir
on_priv_static_srv disk srv url_path = serve_static_dir disk url_path srv.private_side.static_dir

unfoldable pub on_pub_static_srv : Disk → HttpSrv → Text → Answer
unfolding serve_static_dir
on_pub_static_srv disk srv url_path = serve_static_dir disk url_path srv.public_side.static_dir
