-- ===== src/Config/Valid.antt =====
-- The checks of Load of internal/config/config.go.
use iot_backend.Base.{
  String, Option, ◌||◌, ◌&&◌, str_eq, eq_iff, ◌≡◌, ◌≢◌, ◌⊎◌, ◌↔◌, refl, arith, Bool-cases, inl, inr,
}
use iot_backend.Text.Split.{unequal}
use iot_backend.Config.{
  Vars, Parsers, Config, loaded, load_dot_env, read_config, with_subscriber, validated, load,
}

-- Settings that the server can start with.
pub record IsValid (c : Config) : Type 0 where
  pub mode : (c.auth_mode ≡ "local") ⊎ (c.auth_mode ≡ "cognito")
  pub signed : c.auth_mode ≡ "local" → c.jwt_secret ≢ ""
  pub verified : c.auth_mode ≡ "cognito" → (c.jwt_jwks_url ≢ "") × (c.jwt_issuer ≢ "")

validated-IsValid : (c d : Config) → validated c ≡ loaded d → (c ≡ d) × IsValid c
unfolding validated
validated-IsValid c d e =
    elim (Bool-cases (str_eq c.auth_mode "local" || str_eq c.auth_mode "cognito")) [
      | inr bad ↦ cc (rw bad at e)
      | inl known ↦ elim (Bool-cases (str_eq c.auth_mode "local" && str_eq c.jwt_secret "")) [
        | inl bad ↦ cc (rw (known, bad) at e)
        | inr secret ↦
            elim (Bool-cases (
              str_eq c.auth_mode "cognito"
              && (str_eq c.jwt_jwks_url "" || str_eq c.jwt_issuer ""))) [
                | inl bad ↦ cc (rw (known, secret, bad) at e)
                | inr issuer ↦ (
                  cc (rw (known, secret, issuer) at e),
                  record {
                    mode = elim (Bool-cases (str_eq c.auth_mode "local")) [
                      | inl local ↦ inl ((eq_iff c.auth_mode "local").0 local)
                      | inr other ↦
                          inr ((eq_iff c.auth_mode "cognito").0 (ground (arith, known, other)))
                    ];
                    signed = λ local missing. cc (
                      secret,
                      (eq_iff c.auth_mode "local").1 local,
                      (eq_iff c.jwt_secret "").1 missing,
                    );
                    verified = λ cognito.
                        let m = (eq_iff c.auth_mode "cognito").1 cognito in
                        (
                          λ missing. cc (issuer, m, (eq_iff c.jwt_jwks_url "").1 missing),
                          λ missing.
                              let w = (eq_iff c.jwt_issuer "").1 missing in
                              ground (arith, issuer, m, w),
                        );
                  },
                )
              ]
      ]
    ]

IsValid-validated : (c : Config) → IsValid c → validated c ≡ loaded c
unfolding validated
IsValid-validated c h = elim h.mode [
  | inl local ↦ let secret = unequal c.jwt_secret "" (h.signed local) in rw (local, secret) refl
  | inr cognito ↦
      let (keys, issuer) = h.verified cognito in
      rw (cognito, unequal c.jwt_jwks_url "" keys, unequal c.jwt_issuer "" issuer) refl
]

module _ (p : Parsers) (file : Option String) (vars : Vars) where
  -- The settings before the checks.
  abbrev pub settings : Config
  settings = with_subscriber (read_config p (load_dot_env file vars))

  -- Load gives the settings of the environment and the file exactly where they are valid: the mode is
  -- "local" with a secret, or "cognito" with a key set and an issuer.
  pub load-IsValid : (load p file vars ≡ loaded settings) ↔ IsValid settings
  unfolding load
  load-IsValid = (λ e. (validated-IsValid settings settings e).1, λ h. IsValid-validated settings h)
