-- ===== src/Env/Tests.antt =====
-- Runs of the command line and of paths, and the theorems at concrete inputs.
use cor_reactor.Base.{◌≡◌, refl, ◌++◌, [], ◌∷◌, none, some, true, codes}
use cor_reactor.Http.{Text}
use cor_reactor.Env.{Env, init, get, has, cwd_of}
use cor_reactor.Env.Arguments.{Entry, words, get-init}

abbrev empty_env : Env
empty_env = record { exe = []; cwd = []; program = []; args = []; helps = [] }

-- `-d -c conf`
abbrev daemon : Entry
daemon = (codes "d", none)

abbrev config : Entry
config = (codes "c", some (codes "conf"))

finds_cwd : cwd_of (codes "/usr/bin/app") ≡ codes "/usr/bin/"
unfolding cwd_of
finds_cwd = refl

get-init_example :
    let r =
      init empty_env
        (codes "/usr/bin/app")
        (codes "app")
        (words ((daemon ∷ []) ++ (config ∷ []))) in
    (r.0 ≡ true) × (get r.1 (codes "c") [] ≡ codes "conf") × (has r.1 (codes "c") ≡ true)
get-init_example =
    get-init empty_env (codes "/usr/bin/app") (codes "app") (codes "c") (codes "conf") []
      (daemon ∷ []) (refl, ((refl, refl), tt))

abbrev app : Text
app = codes "/usr/app"
