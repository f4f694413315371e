-- ===== src/Config.antt =====
-- internal/config/config.go. `env` is the process environment, `parse` is url.Parse as far as the code
-- reads its result. A duration is an int64 of nanoseconds.
pub mod Laws
use dsh_fleet.Base.{
  ℕ, zero, suc, ◌+◌, ◌-◌, ◌*◌, ◌%◌, Bool, true, false, not, ◌&&◌, ◌||◌, List, [], ◌∷◌, ◌++◌, Option,
  none, some, ltb, leb, ◌==◌, if◌then◌else◌, Bytes, codes, same,
}
use dsh_fleet.Base.Result.{Result, ok, err, ℤ, pos, negsuc}
use dsh_fleet.Strings.{trim_space}

-- url.URL
pub record Url : Type 0 where
  pub scheme : Bytes
  pub host : Bytes
  pub hostname : Bytes

pub record Config : Type 0 where
  pub database_url : Bytes
  pub listen : Bytes
  pub public_url : Url
  pub migrations_dir : Bytes
  pub admin_user : Bytes
  pub admin_password : Bytes
  pub tls_cert : Bytes
  pub tls_key : Bytes
  pub privileged_access : Bytes
  pub telemetry_retention : ℤ
  pub log_level : Bytes

pub data ConfigError : Type 0 where
  half_of_tls : ConfigError
  missing : Bytes → ConfigError
  bad_url : ConfigError
  bad_scheme : Bytes → ConfigError
  no_host : ConfigError
  bad_days : Bytes → ConfigError

-- Config.ServesTLS
unfoldable pub serves_tls : Config → Bool
serves_tls c = not (same c.tls_cert []) && not (same c.tls_key [])

-- os.Getenv
abbrev pub getenv : (Bytes → Option Bytes) → Bytes → Bytes
getenv env key = elim (env key) [ none ↦ [] | some value ↦ value ]

-- envOr
unfoldable pub env_or : (Bytes → Option Bytes) → Bytes → Bytes → Bytes
env_or env key fallback = elim (env key) [
  | none ↦ fallback
  | some value ↦ if not (same value []) then value else fallback
]

abbrev pub is_blank : Bytes → Bool
is_blank s = same (trim_space s) []

-- 2^63
abbrev pub int_limit : ℕ
int_limit = 9223372036854775808

-- The value of a run of digits, `none` at any other byte.
unfoldable pub digits : ℕ → Bytes → Option ℕ
digits v [] = some v
digits v (c ∷ cs) =
    let rest = digits (v * 10 + (c - b'0')) cs in if leb b'0' c && leb c b'9' then rest else none

-- The number of one digit or more.
abbrev pub number : Bytes → Option ℕ
number [] = none
number (c ∷ cs) = digits 0 (c ∷ cs)

abbrev pub positive : Option ℕ → Option ℤ
positive none = none
positive (some n) = if ltb n int_limit then some (pos n) else none

abbrev pub negative : Option ℕ → Option ℤ
negative none = none
negative (some zero) = some (pos 0)
negative (some (suc n)) = if ltb n int_limit then some (negsuc n) else none

-- strconv.Atoi
unfoldable pub atoi : Bytes → Option ℤ
unfolding digits
atoi [] = none
atoi (c ∷ cs) =
    if c == b'-'
    then negative (number cs)
    else if c == b'+'
    then positive (number cs)
    else positive (number (c ∷ cs))

-- 24 hours, in nanoseconds.
abbrev pub day : ℕ
day = 86400000000000

-- An int64 by its 64 bits.
abbrev pub wrapped : ℕ → ℤ
wrapped n =
    let bits = n % 18446744073709551616 in
    if ltb bits int_limit then pos bits else negsuc (18446744073709551615 - bits)

-- time.Duration(days) * 24 * time.Hour
unfoldable pub retention : ℕ → ℤ
retention days = wrapped (days * day)

module _ (env : Bytes → Option Bytes) (parse : Bytes → Option Url) where
  abbrev pub with_days : Url → Bytes → Option ℤ → Result ConfigError (Url × ℤ)
  with_days u keep (some (pos days)) = ok (u, retention days)
  with_days u keep _ = err (bad_days keep)

  abbrev pub retention_of : Url → Result ConfigError (Url × ℤ)
  retention_of u =
      let keep = env_or env (codes "DSHF_TELEMETRY_RETENTION_DAYS") (codes "14") in
      with_days u keep (atoi (trim_space keep))

  abbrev pub with_url : Option Url → Result ConfigError (Url × ℤ)
  with_url none = err bad_url
  with_url (some u) =
      if not (same u.scheme (codes "http")) && not (same u.scheme (codes "https"))
      then err (bad_scheme u.scheme)
      else if same u.host []
      then err no_host
      else retention_of u

  -- The checks of Load, in their order.
  unfoldable pub checks : Result ConfigError (Url × ℤ)
  checks =
      let cert = getenv env (codes "DSHF_TLS_CERT") in
      let key = getenv env (codes "DSHF_TLS_KEY") in
      let raw = env_or env (codes "DSHF_PUBLIC_URL") [] in
      if not ((same cert [] && same key []) || (not (same cert []) && not (same key [])))
      then err half_of_tls
      else if is_blank (getenv env (codes "DSHF_DATABASE_URL"))
      then err (missing (codes "DSHF_DATABASE_URL"))
      else if is_blank (getenv env (codes "DSHF_ADMIN_PASSWORD"))
      then err (missing (codes "DSHF_ADMIN_PASSWORD"))
      else if is_blank raw
      then err (missing (codes "DSHF_PUBLIC_URL"))
      else with_url (parse raw)

  -- The fields of Load, once the checks have passed.
  abbrev pub the_config : Url → ℤ → Config
  the_config u keep = record {
    database_url = getenv env (codes "DSHF_DATABASE_URL");
    listen = env_or env (codes "DSHF_LISTEN") (codes ":8080");
    public_url = u;
    migrations_dir = env_or env (codes "DSHF_MIGRATIONS_DIR") (codes "deploy/migrations");
    admin_user = env_or env (codes "DSHF_ADMIN_USER") (codes "admin");
    admin_password = getenv env (codes "DSHF_ADMIN_PASSWORD");
    tls_cert = getenv env (codes "DSHF_TLS_CERT");
    tls_key = getenv env (codes "DSHF_TLS_KEY");
    privileged_access = env_or env (codes "DSHF_PRIVILEGED_ACCESS") (codes "full");
    telemetry_retention = keep;
    log_level = env_or env (codes "DSHF_LOG_LEVEL") (codes "info");
  }

  abbrev pub configured : Result ConfigError (Url × ℤ) → Result ConfigError Config
  configured (err e) = err e
  configured (ok (u, keep)) = ok (the_config u keep)

  -- Load
  unfoldable pub load : Result ConfigError Config
  load = configured checks

  -- LoadDatabaseURL
  unfoldable pub load_database_url : Result ConfigError Bytes
  load_database_url =
      let dsn = getenv env (codes "DSHF_DATABASE_URL") in
      if is_blank dsn then err (missing (codes "DSHF_DATABASE_URL")) else ok dsn
