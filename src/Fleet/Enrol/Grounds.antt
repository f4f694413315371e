-- ===== src/Fleet/Enrol/Grounds.antt =====
-- What it takes to be let in: a machine's own token by internal/nodes/store.go, or a person's token by
-- internal/users/tokens.go with the claim of the machine.
use dsh_fleet.Base.{
  ◌≡◌, refl, ap, ◌∙◌, ◌⊎◌, inl, inr, Bool, true, false, ◌&&◌, List, [], ◌∷◌, Option, none, some,
  arith, if◌then◌else◌, Bool-cases, Option-cases, Bytes, same, same_iff,
}
use dsh_fleet.Base.Dict.{find, find-put_self}
use dsh_fleet.Base.Result.{Result, ok, err, Result-cases}
use dsh_fleet.Base.Errors.{GoError, other_error, node_not_found, node_revoked}
use dsh_fleet.Envelope.Frames.{Hello}
use dsh_fleet.Nodes
use dsh_fleet.Nodes.{Node, ensure_owned, new_node, null_if_empty, reclaimed, owned_by, put_node}
use dsh_fleet.Secret.{IdKey, Verdict, compared, malformed_hash, unsupported_hash, crashed, verify}
use dsh_fleet.Strings.{trim_space}
use dsh_fleet.Users
use dsh_fleet.Users.{User, Token, by_name}
use dsh_fleet.Users.Tokens.{by_username, try_tokens, is_live, matched, touch_in}
use dsh_fleet.Users.Tokens
use dsh_fleet.Fleet.Enrol.{Stores}

-- Some item has the property.
abbrev pub Any : {A : Type 0} → (A → Type 0) → List A → Type 0
Any P [] = ⊥
Any P (x ∷ xs) = P x ⊎ Any P xs

module _ (lower : Bytes → Bytes) (id_key : IdKey) where
  -- The machine's own token: the row is not revoked and has the hash that the token verifies against.
  pub record OwnToken (s s' : Stores) (hello : Hello) : Type 0 where
    pub node : Node
    pub found : find hello.node_id s.1.nodes ≡ some node
    pub live : node.revoked_at ≡ none
    pub hash : Bytes
    pub hashed : node.token_hash ≡ some hash
    pub verified : verify id_key hello.token hash ≡ compared true
    pub unchanged : s' ≡ s

  -- A person's token: the account has the name of the hello and is not disabled, the token verifies
  -- against the hash of a token of the account that is not revoked, and the machine is then a row that
  -- the account owns and that is not revoked.
  pub record PersonsToken (s s' : Stores) (hello : Hello) : Type 0 where
    pub user : User
    pub named : by_name lower s.0.users (trim_space hello.username) ≡ some user
    pub enabled : user.disabled_at ≡ none
    pub token :
        Any
          (λ t.
            (t.user_id ≡ user.id)
            × (t.revoked_at ≡ none)
            × (verify id_key hello.token t.token_hash ≡ compared true))
          s.0.tokens
    pub node : Node
    pub found : find hello.node_id s'.1.nodes ≡ some node
    pub owned : node.owner_id ≡ some user.id
    pub live : node.revoked_at ≡ none
    pub accounts : s'.0.users ≡ s.0.users

  abbrev pub Matches : Bytes → Bytes → Token → Type 0
  Matches user_id token t =
      (t.user_id ≡ user_id)
      × (t.revoked_at ≡ none)
      × (verify id_key token t.token_hash ≡ compared true)

  live_token :
      (x : Token) (user_id : Bytes)
      → (same x.user_id user_id && is_live x) ≡ true
      → (x.user_id ≡ user_id) × (x.revoked_at ≡ none)
  live_token x user_id h = (ground (arith, same_iff x.user_id user_id), ground arith)

  try_tokens-Any :
      (ts : List Token) (user_id token : Bytes) (t : Token)
      → try_tokens id_key ts user_id token ≡ ok t
      → Any (Matches user_id token) ts
  unfolding try_tokens
  try_tokens-Any [] user_id token t e = cc e
  try_tokens-Any (x ∷ ts) user_id token t e =
      elim (Bool-cases (same x.user_id user_id && is_live x)) [
        | inr f ↦ inr (try_tokens-Any ts user_id token t (rw (f, try_tokens) at e))
        | inl l ↦
            let mine = live_token x user_id l in
            tried mine (try_tokens-Any ts user_id token t) (verify id_key token x.token_hash) refl
              (rw (l, try_tokens) at e)
      ]
    where
      tried :
          (x.user_id ≡ user_id) × (x.revoked_at ≡ none)
          → (try_tokens id_key ts user_id token ≡ ok t → Any (Matches user_id token) ts)
          → (v : Verdict) → verify id_key token x.token_hash ≡ v
          → (elim v as (λ v. Result GoError Token) [
            | compared true ↦ ok x
            | compared false ↦ try_tokens id_key ts user_id token
            | _ ↦ err other_error
          ])
            ≡ ok t
          → Any (Matches user_id token) (x ∷ ts)
      tried mine later (compared true) h k = inl (mine.0, mine.1, h)
      tried mine later (compared false) h k = inr (later k)
      tried mine later malformed_hash h k = cc k
      tried mine later unsupported_hash h k = cc k
      tried mine later crashed h k = cc k

  by_username-Named :
      (up : Bool) (us : Users.Store) (name : Bytes) (u : User)
      → by_username lower up us name ≡ ok u
      → (by_name lower us.users (trim_space name) ≡ some u) × (u.disabled_at ≡ none)
  unfolding by_username
  by_username-Named up us name u e = ground arith

  judged_ok : (v : Verdict) → Nodes.judged v ≡ ok tt → v ≡ compared true
  judged_ok (compared true) e = refl
  judged_ok (compared false) e = cc e
  judged_ok malformed_hash e = cc e
  judged_ok unsupported_hash e = cc e
  judged_ok crashed e = cc e

  pub own_token :
      (up : Bool) (ns : Nodes.Store) (id token : Bytes)
      → Nodes.authenticate id_key up ns id token ≡ ok tt
      → (n : Node) × (find id ns.nodes ≡ some n)
        × (n.revoked_at ≡ none)
        × ((h : Bytes) × (n.token_hash ≡ some h) × (verify id_key token h ≡ compared true))
  unfolding Nodes.authenticate
  own_token false ns id token e = cc e
  own_token true ns id token e = elim (Option-cases (find id ns.nodes)) [
    | inl x ↦ let no : err (node_not_found ∷ []) ≡ ok tt = rw (x, Nodes.authenticate) at e in cc no
    | inr (n, x) ↦ elim (Option-cases n.revoked_at) [
      | inr (t, r) ↦
          let no : err (node_revoked ∷ []) ≡ ok tt = rw (x, Nodes.authenticate, r) at e in cc no
      | inl r ↦ elim (Option-cases n.token_hash) [
        | inl t ↦
            let no : err (node_not_found ∷ []) ≡ ok tt = rw (x, Nodes.authenticate, r, t) at e in
            cc no
        | inr (h, t) ↦
            let y : Nodes.judged (verify id_key token h) ≡ ok tt =
              rw (x, Nodes.authenticate, r, t) at e in
            (n, x, r, (h, t, judged_ok (verify id_key token h) y))
      ]
    ]
  ]

  put_found :
      (ns ns' : Nodes.Store) (id owner : Bytes) (n : Node)
      → put_node ns id n ≡ ns'
      → n.owner_id ≡ some owner
      → n.revoked_at ≡ none
      → (m : Node) × (find id ns'.nodes ≡ some m)
        × (m.owner_id ≡ some owner)
        × (m.revoked_at ≡ none)
  put_found ns ns' id owner n e o r = rw⁻¹ e (n, find-put_self id n ns.nodes, o, r)

  owner_lem :
      (o : Option Bytes) (owner : Bytes)
      → (elim o as (λ o. Bool) [ none ↦ false | some p ↦ same p owner ]) ≡ true
      → o ≡ some owner
  owner_lem none owner h = cc h
  owner_lem (some p) owner h = ap some ((same_iff p owner).0 h)

  pub claimed :
      (up up₂ : Bool) (ns ns' : Nodes.Store) (id owner label : Bytes)
      → ensure_owned up up₂ ns id owner label ≡ (ok tt, ns')
      → (n : Node) × (find id ns'.nodes ≡ some n)
        × (n.owner_id ≡ some owner)
        × (n.revoked_at ≡ none)
  unfolding ensure_owned
  claimed false up₂ ns ns' id owner label e = cc e
  claimed true up₂ ns ns' id owner label e = elim (Option-cases (find id ns.nodes)) [
    | inl x ↦
        let y : (ok tt, put_node ns id (new_node ns.now (null_if_empty label) none (some owner)))
            ≡ (ok tt, ns') =
          rw (x, ensure_owned) at e in
        put_found ns ns' id owner (new_node ns.now (null_if_empty label) none (some owner)) (cc y)
          refl refl
    | inr (n, x) ↦ elim (Bool-cases (owned_by n owner)) [
      | inl o ↦
          let y : (ok tt, put_node ns id (reclaimed n label)) ≡ (ok tt, ns') =
            rw (x, ensure_owned, o) at e in
          put_found ns ns' id owner (reclaimed n label) (cc y) (owner_lem n.owner_id owner o) refl
      | inr f ↦ let y = rw (x, ensure_owned, f) at e in cc y
    ]
  ]

  pub account_lem :
      (up up₂ up₃ : Bool) (us us' : Users.Store) (name token : Bytes) (u : User)
      → Tokens.authenticate_token lower id_key up up₂ up₃ us name token ≡ (ok u, us')
      → (by_name lower us.users (trim_space name) ≡ some u)
        × (u.disabled_at ≡ none)
        × Any (Matches u.id token) us.tokens
        × (us'.users ≡ us.users)
  unfolding Tokens.authenticate_token
  account_lem up up₂ up₃ us us' name token u e =
      elim (Result-cases (by_username lower up us name)) [
        | inr (why, x) ↦
            let no : (err why, us) ≡ (ok u, us') = rw (x, Tokens.authenticate_token) at e in cc no
        | inl (v, x) ↦
            let (named, enabled) = by_username-Named up us name v x in
            tried v named enabled up₂ (try_tokens id_key us.tokens v.id token) refl
              (rw (x, Tokens.authenticate_token) at e)
      ]
    where
      tried :
          (v : User)
          → by_name lower us.users (trim_space name) ≡ some v
          → v.disabled_at ≡ none
          → (up₂ : Bool) (o : Result GoError Token) → try_tokens id_key us.tokens v.id token ≡ o
          → (if up₂ then matched up₃ us v o else (err other_error, us)) ≡ (ok u, us')
          → (by_name lower us.users (trim_space name) ≡ some u)
            × (u.disabled_at ≡ none)
            × Any (Matches u.id token) us.tokens
            × (us'.users ≡ us.users)
      tried v n d false o x e = cc e
      tried v n d true (err why) x e = cc e
      tried v n d true (ok t) x e =
          let same_user : v ≡ u = cc e in
          let same_store : (if up₃
                then record us { tokens = touch_in us.now us.tokens t.id }
                else us)
              ≡ us' =
            cc e in
          (
            n ∙ ap some same_user,
            rw⁻¹ same_user d,
            rw⁻¹ same_user (try_tokens-Any us.tokens v.id token t x),
            rw⁻¹ same_store (users_kept up₃ t),
          )
        where
          users_kept :
              (b : Bool) (t : Token)
              → (if b then record us { tokens = touch_in us.now us.tokens t.id } else us).users
                ≡ us.users
          users_kept true t = refl
          users_kept false t = refl
