-- ===== src/Console/Account/Reveals.antt =====
-- That a minted token is shown once, by stash and collect of internal/console/account.go.
use dsh_fleet.Base.{
  ℕ, ◌+◌, ◌≤◌, ◌≡◌, refl, true, false, ◌&&◌, List, [], ◌∷◌, none, some, arith, leb, if◌then◌else◌,
  Bytes, same, same_iff, same_refl, Option-cases, Bool-cases, ◌⊎◌, inl, inr, All,
}
use dsh_fleet.Base.Dict.{Dict, find, put, delete, find-put, find-delete, find-put_self}
use dsh_fleet.Registry.Online.{Distinct, delete-Distinct, put-Distinct}
use dsh_fleet.Console.Account.{Reveal, reveal_lifetime, is_stale, sweep, stash, collect, nothing}

-- A call of stash or collect, with its time.
pub data Call : Type 0 where
  stashed : Bytes → ℕ → Bytes → Bytes → Bytes → Call
  collected : Bytes → ℕ → Bytes → Call

abbrev pub step : Dict Reveal → Call → Dict Reveal
step m (stashed key at owner token name) = stash key at m owner token name
step m (collected key at owner) = (collect at m key owner).1

unfoldable pub calls : Dict Reveal → List Call → Dict Reveal
calls m [] = m
calls m (c ∷ cs) = calls (step m c) cs

-- No call of the key, and none after `now`.
abbrev pub Elsewhere : Bytes → ℕ → Call → Type 0
Elsewhere key now (stashed k at owner token name) = (same k key ≡ false) × (at ≤ now)
Elsewhere key now (collected k at owner) = (same k key ≡ false) × (at ≤ now)

-- stash takes a new uuid every time.
abbrev pub NotStashed : Bytes → Call → Type 0
NotStashed key (stashed k at owner token name) = same k key ≡ false
NotStashed key (collected k at owner) = Unit

-- The key still has its reveal, or no longer and the reveal is stale at `now`.
abbrev Waiting : Bytes → ℕ → Reveal → Dict Reveal → Type 0
Waiting key now v m = (find key m ≡ some v) ⊎ ((find key m ≡ none) × (is_stale now v ≡ true))

find-sweep-none :
    (at : ℕ) (k : Bytes) (m : Dict Reveal) → find k m ≡ none → find k (sweep at m) ≡ none
unfolding find sweep
find-sweep-none at k [] h = refl
find-sweep-none at k ((j, v) ∷ m) h = ground (arith, find-sweep-none at k m)

find-sweep :
    (at : ℕ) (k : Bytes) (m : Dict Reveal) (v : Reveal)
    → Distinct m
    → find k m ≡ some v
    → find k (sweep at m) ≡ (if is_stale at v then none else some v)
unfolding find sweep
find-sweep at k [] v d h = ground arith
find-sweep at k ((j, w) ∷ m) v d h =
    ground (arith, same_iff j k, find-sweep at k m v d.1, find-sweep-none at k m)

sweep-Distinct : (at : ℕ) (m : Dict Reveal) → Distinct m → Distinct (sweep at m)
unfolding sweep
sweep-Distinct at [] d = tt
sweep-Distinct at ((k, v) ∷ m) d = elim (Bool-cases (is_stale at v)) [
  | inl e ↦ rw e (sweep-Distinct at m d.1)
  | inr e ↦ rw e (find-sweep-none at k m d.0, sweep-Distinct at m d.1)
]

-- collect leaves the map, or deletes the key.
collect_ind :
    (P : Dict Reveal → Type 0) (now : ℕ) (m : Dict Reveal) (key owner : Bytes)
    → P m
    → P (delete key m)
    → P (collect now m key owner).1
unfolding collect
collect_ind P now m key owner p q = elim (Option-cases (find key m)) [
  | inl e ↦ rw (e, collect) p
  | inr (v, e) ↦ rw (e, collect) q
]

step-Distinct : (m : Dict Reveal) (c : Call) → Distinct m → Distinct (step m c)
unfolding stash
step-Distinct m (stashed key at owner token name) d =
    put-Distinct key (record { owner = owner; token = token; name = name; at = at }) (sweep at m)
      (sweep-Distinct at m d)
step-Distinct m (collected key at owner) d =
    collect_ind Distinct at m key owner d (delete-Distinct key m d)

calls-Distinct : (m : Dict Reveal) (cs : List Call) → Distinct m → Distinct (calls m cs)
unfolding calls
calls-Distinct m [] d = d
calls-Distinct m (c ∷ cs) d = calls-Distinct (step m c) cs (step-Distinct m c d)

step-Waiting :
    (key : Bytes) (now : ℕ) (v : Reveal) (m : Dict Reveal) (c : Call)
    → Distinct m
    → Elsewhere key now c
    → Waiting key now v m
    → Waiting key now v (step m c)
unfolding stash
step-Waiting key now v m (stashed k at owner token name) d (other, early) (inl w) =
    elim (Bool-cases (is_stale at v)) [
      | inl old ↦
          inr
            (ground (arith, find-put k key new (sweep at m), find-sweep at key m v d), ground arith)
      | inr fresh ↦ inl (ground (arith, find-put k key new (sweep at m), find-sweep at key m v d))
    ]
  where
    new : Reveal
    new = record { owner = owner; token = token; name = name; at = at }
step-Waiting key now v m (stashed k at owner token name) d (other, early) (inr (w, old)) = inr (
  ground (
    arith,
    find-put k key (record { owner = owner; token = token; name = name; at = at }) (sweep at m),
    find-sweep-none at key m,
  ),
  old,
)
step-Waiting key now v m (collected k at owner) d (other, early) w =
    collect_ind (Waiting key now v) at m k owner w (ground (arith, find-delete k key m))

calls-Waiting :
    (key : Bytes) (now : ℕ) (v : Reveal) (m : Dict Reveal) (cs : List Call)
    → Distinct m
    → All (Elsewhere key now) cs
    → Waiting key now v m
    → Waiting key now v (calls m cs)
unfolding calls
calls-Waiting key now v m [] d h w = w
calls-Waiting key now v m (c ∷ cs) d h w =
    calls-Waiting key now v (step m c) cs (step-Distinct m c d) h.1
      (step-Waiting key now v m c d h.0 w)

step-gone :
    (key : Bytes) (m : Dict Reveal) (c : Call)
    → NotStashed key c
    → find key m ≡ none
    → find key (step m c) ≡ none
unfolding stash
step-gone key m (stashed k at owner token name) other h = ground (
  arith,
  find-put k key (record { owner = owner; token = token; name = name; at = at }) (sweep at m),
  find-sweep-none at key m,
)
step-gone key m (collected k at owner) other h =
    collect_ind (λ n. find key n ≡ none) at m k owner h (ground (arith, find-delete k key m))

calls-gone :
    (key : Bytes) (m : Dict Reveal) (cs : List Call)
    → All (NotStashed key) cs
    → find key m ≡ none
    → find key (calls m cs) ≡ none
unfolding calls
calls-gone key m [] h e = e
calls-gone key m (c ∷ cs) h e = calls-gone key (step m c) cs h.1 (step-gone key m c h.0 e)

collect_gone :
    (now : ℕ) (m : Dict Reveal) (key owner : Bytes)
    → find key m ≡ none
    → (collect now m key owner).0 ≡ nothing
unfolding collect
collect_gone now m key owner e = rw (e, collect)

collected-gone :
    (now : ℕ) (m : Dict Reveal) (key owner : Bytes) → find key (collect now m key owner).1 ≡ none
unfolding collect
collected-gone now m key owner = elim (Option-cases (find key m)) [
  | inl e ↦ rw (e, collect) e
  | inr (v, e) ↦ rw (e, collect) (ground (arith, find-delete key key m, same_refl key))
]

collect-Waiting :
    (now : ℕ) (m : Dict Reveal) (key owner token name asker : Bytes) (at : ℕ)
    → Waiting key now (record { owner = owner; token = token; name = name; at = at }) m
    → (collect now m key asker).0
      ≡ (if same owner asker && leb now (at + reveal_lifetime) then (token, name) else nothing)
unfolding collect
collect-Waiting now m key owner token name asker at (inl w) = rw (w, collect) (ground arith)
collect-Waiting now m key owner token name asker at (inr (w, old)) = rw (w, collect) (ground arith)

-- After a token is stashed under a fresh key, whatever else is stashed and collected, the first
-- collection of the key gives the token and its name exactly if its owner asks, within two minutes, and
-- every later collection gives nothing.
pub shown_once :
    (past before after : List Call) (key owner token name asker : Bytes) (at now : ℕ)
    → All (Elsewhere key now) before
    → All (NotStashed key) after
    → let got =
        collect now (calls (stash key at (calls [] past) owner token name) before) key asker in
      (got.0
        ≡ (if same owner asker && leb now (at + reveal_lifetime) then (token, name) else nothing))
      × ((later : ℕ) (other : Bytes) → (collect later (calls got.1 after) key other).0 ≡ nothing)
unfolding stash
shown_once past before after key owner token name asker at now b a =
    let v : Reveal = record { owner = owner; token = token; name = name; at = at } in
    let past_map = calls [] past in
    let start = put key v (sweep at past_map) in
    let d : Distinct start =
      put-Distinct key v (sweep at past_map)
        (sweep-Distinct at past_map (calls-Distinct [] past tt)) in
    let m = calls start before in
    (
      collect-Waiting now m key owner token name asker at (
          calls-Waiting key now v start before d b (inl (find-put_self key v (sweep at past_map)))),
      λ later other.
          collect_gone later _ key other
            (calls-gone key _ after a (collected-gone now m key asker)),
    )
