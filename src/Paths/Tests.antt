-- ===== src/Paths/Tests.antt =====
-- Runs on concrete paths.
use srv_app.Base.{◌≡◌, refl, codes, some, text_eq, []}
use srv_app.Mux.{starts_slash}
use srv_app.Paths.{clean, join, abs}

program : Unit {0}
unfolding clean join abs text_eq starts_slash
program = tt

clean_back : clean (codes "/a/./b//../c/") ≡ codes "/a/c"
unfolding program
clean_back = refl

clean_root : clean (codes "/../..") ≡ codes "/"
unfolding program
clean_root = refl

clean_relative : clean (codes "a/../../b/..") ≡ codes ".."
unfolding program
clean_relative = refl

clean_nothing : clean [] ≡ codes "."
unfolding program
clean_nothing = refl

join_test : join (codes "www/") (codes "/x/index.html") ≡ codes "www/x/index.html"
unfolding program
join_test = refl

abs_test : abs (some (codes "/srv")) (codes "../www") ≡ some (codes "/www")
unfolding program
abs_test = refl
