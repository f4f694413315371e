-- ===== src/Proxy/Gate.antt =====
-- The privilege gate of internal/proxy/http.go: access levels and the pinned method sets.
use dsh_fleet.Base.{
  Bool, true, false, ◌&&◌, ◌||◌, List, [], ◌∷◌, Option, none, some, if◌then◌else◌, Bytes, codes,
  same,
}
use dsh_fleet.Base.Result.{Result, ok, err}
use dsh_fleet.Strings.{to_lower, trim_space}

-- Access. The empty string is `unset`.
pub data Access : Type 0 where
  access_none access_read access_full unset : Access

-- ParseAccess; the error carries the value.
unfoldable pub parse_access : Bytes → Result Bytes Access
unfolding to_lower trim_space
parse_access value =
    let v = to_lower (trim_space value) in
    if same v []
    then ok access_full
    else if same v (codes "none")
    then ok access_none
    else if same v (codes "read")
    then ok access_read
    else if same v (codes "full")
    then ok access_full
    else err value

-- A lookup in one of the two sets.
unfoldable pub is_in : List Bytes → Bytes → Bool
is_in [] method = false
is_in (m ∷ ms) method = same m method || is_in ms method

abbrev pub privileged_read : List Bytes
privileged_read =
    codes "settings.describe" ∷ codes "credentials.describe" ∷ codes "agentPreset.read" ∷ []

abbrev pub privileged_write : List Bytes
privileged_write =
    codes "host.pickDirectory"
    ∷ codes "host.openPath"
    ∷ codes "settings.openDocument"
    ∷ codes "settings.update"
    ∷ codes "settings.replace"
    ∷ codes "settings.mutate"
    ∷ codes "credentials.set"
    ∷ codes "credentials.unset"
    ∷ codes "agentPreset.copy"
    ∷ codes "agentPreset.openDocument"
    ∷ codes "agentPreset.remove"
    ∷ codes "llm.discoverModels"
    ∷ []

-- The reason that the browser is given.
pub data Refusal : Type 0 where
  read_only no_settings : Refusal

abbrev pub is_full : Access → Bool
is_full access_full = true
is_full _ = false

abbrev pub is_none : Access → Bool
is_none access_none = true
is_none _ = false

-- Access.refuse
unfoldable pub refuse : Access → Bytes → Option Refusal
unfolding is_in
refuse a method =
    if is_full a
    then none
    else if is_in privileged_write method
    then some read_only
    else if is_in privileged_read method && is_none a
    then some no_settings
    else none

-- The level that ServeHTTP asks: the zero value is full.
abbrev pub level : Access → Access
level unset = access_full
level a = a
