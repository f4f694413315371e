-- ===== src/Config/Laws.antt =====
-- What a configuration that Load of internal/config/config.go accepts is.
use dsh_fleet.Base.{
  ℕ, ◌-◌, ◌*◌, ◌≤◌, ◌≡◌, ◌≢◌, refl, ◌∙◌, ◌⊎◌, inl, inr, Bool, true, false, not, ◌&&◌, ◌||◌, [],
  Option, none, some, arith, if◌then◌else◌, Bool-cases, Bytes, codes, same, same_iff,
}
use dsh_fleet.Base.Result.{Result, ok, err, ℤ, pos, negsuc, Result-cases}
use dsh_fleet.Strings.{trim_space}
use dsh_fleet.Config.{
  Url, Config, ConfigError, bad_scheme, no_host, serves_tls, getenv, env_or, atoi, day, retention,
  with_days, with_url, the_config, checks, configured, load,
}

-- The retention is the days, while they fit; from 106752 days on it is negative or too short.
pub retention_lem :
    (days : ℕ)
    → (days ≤ 106751 → retention days ≡ pos (days * day))
      × (106752 ≤ days → days ≤ 213503 → (k : ℕ) × (retention days ≡ negsuc k))
unfolding retention
retention_lem days = (λ h. ground arith, λ h k. (18446744073709551615 - days * day, ground arith))

schemes :
    (s : Bytes)
    → (not (same s (codes "http")) && not (same s (codes "https"))) ≡ false
    → (s ≡ codes "http") ⊎ (s ≡ codes "https")
schemes s h = elim (Bool-cases (same s (codes "http"))) [
  | inl t ↦ inl ((same_iff s (codes "http")).0 t)
  | inr f ↦ inr ((same_iff s (codes "https")).0 (ground arith))
]

not_empty : (s : Bytes) → same s [] ≡ false → s ≢ []
not_empty s h e = cc (h, (same_iff s []).1 e)

pair_of_files :
    (cert key : Bytes)
    → not ((same cert [] && same key []) || (not (same cert []) && not (same key []))) ≡ false
    → ((not (same cert []) && not (same key [])) ≡ true) ⊎ ((cert ≡ []) × (key ≡ []))
pair_of_files cert key h = elim (Bool-cases (same cert [])) [
  | inl t ↦ inr ((same_iff cert []).0 t, (same_iff key []).0 (ground arith))
  | inr f ↦ inl (ground arith)
]

module _ (env : Bytes → Option Bytes) (parse : Bytes → Option Url) where
  -- The environment and the result of a Load that succeeds.
  pub record Valid (c : Config) : Type 0 where
    pub database : trim_space c.database_url ≢ []
    pub password : trim_space c.admin_password ≢ []
    pub origin : (c.public_url.scheme ≡ codes "http") ⊎ (c.public_url.scheme ≡ codes "https")
    pub host : c.public_url.host ≢ []
    pub tls : (serves_tls c ≡ true) ⊎ ((c.tls_cert ≡ []) × (c.tls_key ≡ []))
    pub days :
        (n : ℕ) × (atoi
            (trim_space (env_or env (codes "DSHF_TELEMETRY_RETENTION_DAYS") (codes "14")))
          ≡ some (pos n))
        × (c.telemetry_retention ≡ retention n)
        × (n ≤ 106751 → c.telemetry_retention ≡ pos (n * day))
        × (106752 ≤ n → n ≤ 213503 → (k : ℕ) × (c.telemetry_retention ≡ negsuc k))

  Served : Url × ℤ → Type 0
  Served (u, keep) =
      ((u.scheme ≡ codes "http") ⊎ (u.scheme ≡ codes "https"))
      × (u.host ≢ [])
      × ((n : ℕ) × (atoi
              (trim_space (env_or env (codes "DSHF_TELEMETRY_RETENTION_DAYS") (codes "14")))
            ≡ some (pos n))
          × (keep ≡ retention n))

  days-Served :
      (u : Url) (p : Url × ℤ) (text : Bytes) (o : Option ℤ)
      → atoi (trim_space (env_or env (codes "DSHF_TELEMETRY_RETENTION_DAYS") (codes "14"))) ≡ o
      → with_days env parse u text o ≡ ok p
      → (p.0 ≡ u) × ((n : ℕ) × (o ≡ some (pos n)) × (p.1 ≡ retention n))
  days-Served u p text none a e = cc e
  days-Served u p text (some (negsuc n)) a e = cc e
  days-Served u p text (some (pos n)) a e = (cc e, (n, refl, cc e))

  url-Served : (o : Option Url) (p : Url × ℤ) → with_url env parse o ≡ ok p → Served p
  unfolding Served
  url-Served none p e = cc e
  url-Served (some u) (v, keep) e =
      elim (Bool-cases
        (not (same u.scheme (codes "http")) && not (same u.scheme (codes "https")))) [
          | inl t ↦ let no : err (bad_scheme u.scheme) ≡ ok (v, keep) = rw t at e in cc no
          | inr f ↦ elim (Bool-cases (same u.host [])) [
            | inl t ↦ let no : err no_host ≡ ok (v, keep) = rw (f, t) at e in cc no
            | inr h ↦
                let (same_url, (n, a, k)) = days-Served u (v, keep) _ _ refl (rw (f, h) at e) in
                rw same_url (schemes u.scheme f, not_empty u.host h, (n, a, k))
          ]
        ]

  passed :
      (b : Bool) (e : ConfigError) (rest : Result ConfigError (Url × ℤ)) (p : Url × ℤ)
      → (if b then err e else rest) ≡ ok p
      → (b ≡ false) × (rest ≡ ok p)
  passed true e rest p h = cc h
  passed false e rest p h = (refl, h)

  accepted :
      (p : Url × ℤ) (c : Config)
      → checks env parse ≡ ok p
      → configured env parse (ok p) ≡ ok c
      → Valid c
  unfolding checks Served serves_tls
  accepted (u, keep) c h e =
      let same_config : the_config env parse u keep ≡ c = cc e in
      let (tls, h1) = passed _ _ _ (u, keep) h in
      let (database, h2) = passed _ _ _ (u, keep) h1 in
      let (password, h3) = passed _ _ _ (u, keep) h2 in
      let (public, h4) = passed _ _ _ (u, keep) h3 in
      let (scheme, host, days) =
        url-Served (parse (env_or env (codes "DSHF_PUBLIC_URL") [])) (u, keep) h4 in
      rw⁻¹ same_config (record {
        database = not_empty (trim_space (getenv env (codes "DSHF_DATABASE_URL"))) database;
        password = not_empty (trim_space (getenv env (codes "DSHF_ADMIN_PASSWORD"))) password;
        origin = scheme;
        host = host;
        tls =
            pair_of_files (getenv env (codes "DSHF_TLS_CERT")) (getenv env (codes "DSHF_TLS_KEY"))
              tls;
        days =
            let (n, set, kept) = days in
            let (fits, wraps) = retention_lem n in
            (n, set, kept, (λ h. kept ∙ fits h), λ h k. let (m, e) = wraps h k in (m, kept ∙ e));
      })

  -- Where Load succeeds, the database URL and the password are not blank, the public URL is http or https
  -- with a host, the server has both files of TLS or neither, and the retention is that of a number of
  -- days from the environment, fourteen by default: in nanoseconds as long as they fit an int64, and
  -- below zero from 106752 days to 213503, where it wraps.
  pub load-Valid : (c : Config) → load env parse ≡ ok c → Valid c
  unfolding load
  load-Valid c e = elim (Result-cases (checks env parse)) [
    | inr (why, h) ↦ let no : err why ≡ ok c = rw (h, load) at e in cc no
    | inl (p, h) ↦ accepted p c h (rw (h, load) at e)
  ]
