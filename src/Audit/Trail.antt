-- ===== src/Audit/Trail.antt =====
-- internal/audit/query.go: reading the trail back, over the rows of audit_log with their ids and times,
-- and the page of internal/console/audit.go that asks for it. `lower` is the database's lower().
pub mod Laws
use dsh_fleet.Base.{
  ℕ, zero, suc, ◌+◌, Bool, true, false, not, ◌&&◌, ◌||◌, List, [], ◌∷◌, Option, none, some, ltb,
  leb, ◌==◌, if◌then◌else◌, Bytes, same, map,
}
use dsh_fleet.Base.Result.{Result, ok, err, ℤ, pos, negsuc}
use dsh_fleet.Base.Errors.{GoError, other_error}
use dsh_fleet.Users.{User, by_id}

-- A row of audit_log.
pub record Logged : Type 0 where
  pub id : ℕ
  pub ts : ℕ
  pub user_id : Option Bytes
  pub node_id : Option Bytes
  pub ns : Bytes
  pub path : Bytes
  pub allowed : Bool
  pub status : Option ℕ
  pub reason : Option Bytes

pub record Decision : Type 0 where
  pub at : ℕ
  pub user : Bytes
  pub node : Bytes
  pub ns : Bytes
  pub path : Bytes
  pub allowed : Bool
  pub status : ℕ
  pub reason : Bytes

pub record Filter : Type 0 where
  pub node : Bytes
  pub user : Bytes
  pub denied_only : Bool
  pub limit : ℤ

-- LEFT JOIN users u ON u.id = a.user_id
abbrev pub joined : List User → Option Bytes → Option Bytes
joined us none = none
joined us (some id) = elim (by_id us id) [ none ↦ none | some u ↦ some u.username ]

-- An equation with a column, which is not true of NULL.
abbrev pub equals : (Bytes → Bytes) → Option Bytes → Bytes → Bool
equals f none v = false
equals f (some c) v = same (f c) (f v)

abbrev or_empty : Option Bytes → Bytes
or_empty none = []
or_empty (some s) = s

abbrev or_zero : Option ℕ → ℕ
or_zero none = 0
or_zero (some n) = n

-- The WHERE clause that Recent puts together.
unfoldable pub matches : (Bytes → Bytes) → List User → Filter → Logged → Bool
matches lower us f a =
    (same f.node [] || equals (λ s. s) a.node_id f.node)
    && (same f.user [] || equals lower (joined us a.user_id) f.user)
    && (not f.denied_only || not a.allowed)

-- limit
unfoldable pub row_limit : ℤ → ℕ
row_limit (negsuc n) = 100
row_limit (pos n) = if n == 0 || ltb 1000 n then 100 else n

-- ORDER BY a.ts DESC, a.id DESC
abbrev pub newer : Logged → Logged → Bool
newer a b = ltb b.ts a.ts || (b.ts == a.ts && leb b.id a.id)

unfoldable pub insert_row : Logged → List Logged → List Logged
insert_row a [] = a ∷ []
insert_row a (b ∷ bs) = if newer a b then a ∷ b ∷ bs else b ∷ insert_row a bs

-- The rows of the result before LIMIT.
unfoldable pub selected : (Logged → Bool) → List Logged → List Logged
unfolding insert_row
selected p [] = []
selected p (a ∷ as') = let rest = selected p as' in if p a then insert_row a rest else rest

unfoldable pub take {ℓ} : {A : Type ℓ} → ℕ → List A → List A
take zero xs = []
take (suc n) [] = []
take (suc n) (x ∷ xs) = x ∷ take n xs

-- The columns of SELECT.
unfoldable pub decision : List User → Logged → Decision
decision us a = record {
  at = a.ts;
  user = or_empty (joined us a.user_id);
  node = or_empty a.node_id;
  ns = a.ns;
  path = a.path;
  allowed = a.allowed;
  status = or_zero a.status;
  reason = or_empty a.reason;
}

-- Recorder.Recent
unfoldable pub recent :
    (Bytes → Bytes) → Bool → List User → List Logged → Filter → Result GoError (List Decision)
unfolding matches selected take decision row_limit
recent lower up us rows f =
    if up
    then ok (map (decision us) (take (row_limit f.limit) (selected (matches lower us f) rows)))
    else err other_error

-- The limit that AuditPage.ServeHTTP asks for; `atoi` is the value that strconv.Atoi gives.
unfoldable pub page_limit : Option ℤ → ℤ
page_limit (some (pos n)) = if n == 0 then pos 200 else pos n
page_limit _ = pos 200

-- The page: 401, or the rows, none of them when the trail cannot be read.
unfoldable pub serve_audit :
    (Bytes → Bytes)
    → Bool
    → List User
    → List Logged
    → Option User
    → Bytes
    → Bool
    → Option ℤ
    → Option (Result GoError (List Decision))
unfolding recent page_limit
serve_audit lower up us rows none node denied atoi = none
serve_audit lower up us rows (some me) node denied atoi = some (
    recent lower up us rows
      (record { node = node; user = []; denied_only = denied; limit = page_limit atoi }))
