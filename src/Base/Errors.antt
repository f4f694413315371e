-- ===== src/Base/Errors.antt =====
-- Go errors as the sentinels that errors.Is finds in them. An error with none is of another origin.
use mathlib.Core.Bool.{Bool, true, false, ◌||◌}
use mathlib.Core.List.{List, [], ◌∷◌}
use mathlib.Core.Option.{Option, none, some}

-- The sentinel errors of internal/nodes and internal/users.
pub data Sentinel : Type 0 where
  node_not_found node_revoked node_exists node_foreign node_has_own_token : Sentinel
  bad_credentials no_session username_exists account_not_found weak_password bad_token : Sentinel

abbrev pub GoError : Type 0
GoError = List Sentinel

abbrev pub same_sentinel : Sentinel → Sentinel → Bool
same_sentinel node_not_found node_not_found = true
same_sentinel node_revoked node_revoked = true
same_sentinel node_exists node_exists = true
same_sentinel node_foreign node_foreign = true
same_sentinel node_has_own_token node_has_own_token = true
same_sentinel bad_credentials bad_credentials = true
same_sentinel no_session no_session = true
same_sentinel username_exists username_exists = true
same_sentinel account_not_found account_not_found = true
same_sentinel weak_password weak_password = true
same_sentinel bad_token bad_token = true
same_sentinel _ _ = false

-- errors.Is
abbrev pub errors_is : GoError → Sentinel → Bool
errors_is [] s = false
errors_is (t ∷ e) s = same_sentinel t s || errors_is e s

-- h.S != nil && errors.Is(err, h.S)
abbrev pub is_set : GoError → Option Sentinel → Bool
is_set e none = false
is_set e (some s) = errors_is e s

-- An error that no sentinel names.
abbrev pub other_error : GoError
other_error = []
