-- ===== src/Tests/Config.antt =====
-- The settings from a small environment and a file .env.
use iot_backend.Base.{String, [], ◌∷◌, none, some, ◌≡◌, ◌↔◌, refl}
use iot_backend.Text.{split}
use iot_backend.Dict.{lookup}
use iot_backend.Config.{Vars, Parsers, loaded, refused, no_secret, unknown_mode, load_dot_env, load}
use iot_backend.Config.Environment.{first_of, assigned, load_dot_env-lookup}
use iot_backend.Config.Valid.{IsValid, settings, load-IsValid}

abbrev parsers : Parsers
parsers = record {
  parse_bool = λ s. none;
  parse_duration = λ s. none;
  atoi = λ s. none;
  to_lower = λ s. s;
}

abbrev file : String
file = "# settings\nJWT_SECRET = \"x\"\nJWT_SECRET=y\nLOG_LEVEL=debug\n=z\n"

abbrev vars : Vars
vars = ("LOG_LEVEL", "warn") ∷ []

file_tests :
    (load_dot_env (some file) vars ≡ ("LOG_LEVEL", "warn") ∷ ("JWT_SECRET", "x") ∷ [])
    × (load parsers none vars ≡ refused no_secret)
    × (load parsers none (("AUTH_MODE", "none") ∷ []) ≡ refused unknown_mode)
unfolding load_dot_env load
file_tests = (refl, refl, refl)

load_dot_env-lookup_example :
    lookup "JWT_SECRET" (load_dot_env (some file) vars)
    ≡ first_of none (assigned "JWT_SECRET" (split 10 file))
unfolding lookup
load_dot_env-lookup_example = load_dot_env-lookup "JWT_SECRET" (λ e. cc e) (some file) vars

load-IsValid_example :
    (load parsers (some file) vars ≡ loaded (settings parsers (some file) vars))
    ↔ IsValid (settings parsers (some file) vars)
load-IsValid_example = load-IsValid parsers (some file) vars
