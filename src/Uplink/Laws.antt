-- ===== src/Uplink/Laws.antt =====
-- Who gets through the handshake of internal/uplink/handler.go, and what each refusal says.
use dsh_fleet.Base.{
  ℕ, ◌≡◌, ◌≢◌, refl, Bool, true, false, Option, none, some, arith, if◌then◌else◌, Bytes, same,
  Option-cases, if-cases, inl, inr, same_refl, [], ◌||◌, same_iff,
}
use dsh_fleet.Base.Dict.{find-delete}
use dsh_fleet.Base.Result.{Result, ok, err, is_count, ℤ, pos, negsuc}
use dsh_fleet.Base.Errors.{GoError, is_set}
use dsh_fleet.Envelope.{Message, garbled, untyped, malformed, frame}
use dsh_fleet.Envelope.Frames.{
  Hello, hello_frame, close_bad_token, close_unknown_node, protocol_version, close_bad_protocol,
  close_duplicate, close_auth_timeout,
}
use dsh_fleet.Registry.{Registry, Handle, already_connected, add, remove, get}
use dsh_fleet.Registry.Laws.{is_registered, Added, add_lem}
use dsh_fleet.Uplink.{
  Handler, Handshake, refused, admitted, read_hello, check_credential, close_code, handle_at,
  register, decide, status_internal_error, handshake, served, serve_http,
}

protocol_lem : (p : ℤ) → is_count p protocol_version ≡ true → p ≡ pos 1
protocol_lem (pos n) e = ground arith
protocol_lem (negsuc n) e = cc

protocol_lem_false : (p : ℤ) → is_count p protocol_version ≡ false → p ≢ pos 1
protocol_lem_false (pos n) e f = ground arith
protocol_lem_false (negsuc n) e f = cc

removed : (r : Registry) (c : Handle) → is_registered (remove r c) c ≡ false
unfolding is_registered remove get
removed r c = ground (arith, find-delete c.node_id c.node_id r.conns, same_refl c.node_id)

-- The first message of a socket is this hello, and names a node and a token.
abbrev pub Presents : Option Message → Hello → Type 0
Presents m h = (m ≡ some (frame (hello_frame h))) × (h.node_id ≢ []) × (h.token ≢ [])

abbrev Reading : Option Message → Option Hello → Type 0
Reading m none = (h : Hello) → Presents m h → ⊥
Reading m (some h) = Presents m h

named :
    (g : Hello) → Reading (some (frame (hello_frame g))) (read_hello (some (frame (hello_frame g))))
unfolding read_hello
named g =
    if-cases (Reading (some (frame (hello_frame g)))) (same g.node_id [] || same g.token []) _ _
      (λ t h p. missing h p t)
      λ f.
        (refl, λ e. ground (arith, same_iff g.node_id []), λ e. ground (arith, same_iff g.token []))
  where
    missing :
        (h : Hello)
        → Presents (some (frame (hello_frame g))) h
        → (same g.node_id [] || same g.token []) ≡ true
        → ⊥
    missing h (e, n, k) t =
        let same_hello : g ≡ h = cc in
        ground (arith, same_iff h.node_id [], same_iff h.token [], rw same_hello at t)

read_hello-Reading : (m : Option Message) → Reading m (read_hello m)
unfolding read_hello
read_hello-Reading none = λ h p. cc (p.0)
read_hello-Reading (some garbled) = λ h p. cc (p.0)
read_hello-Reading (some untyped) = λ h p. cc (p.0)
read_hello-Reading (some (malformed k)) = λ h p. cc (p.0)
read_hello-Reading (some (frame (hello_frame g))) = named g
read_hello-Reading (some (frame _)) = λ h p. cc (p.0)

one_hello : (m : Option Message) (g h : Hello) → Presents m g → Presents m h → g ≡ h
one_hello m g h p q = cc (p.0, q.0)

module _ {ℓ} {S : Type ℓ} where
  -- The close code of an error of the credential stores.
  pub data Denial (h : Handler S) (e : GoError) : ℕ → Type 0 where
    name_taken : (is_set e h.own_token || is_set e h.foreign) ≡ true → Denial h e close_unknown_node
    token_revoked :
        is_set e h.own_token ≡ false
        → is_set e h.foreign ≡ false
        → is_set e h.revoked ≡ true
        → Denial h e close_bad_token
    no_match :
        is_set e h.own_token ≡ false
        → is_set e h.foreign ≡ false
        → is_set e h.revoked ≡ false
        → is_set e h.not_found ≡ true
        → Denial h e close_unknown_node
    store_broken :
        is_set e h.own_token ≡ false
        → is_set e h.foreign ≡ false
        → is_set e h.revoked ≡ false
        → is_set e h.not_found ≡ false
        → Denial h e status_internal_error

  close_code-Denial : (h : Handler S) (e : GoError) → Denial h e (close_code h e)
  unfolding close_code
  close_code-Denial h e =
      if-cases (Denial h e) (is_set e h.own_token) _ _ (λ o. name_taken (rw o refl))
        λ o.
          if-cases (Denial h e) (is_set e h.foreign) _ _ (λ f. name_taken (rw (o, f) refl))
            λ f.
              if-cases (Denial h e) (is_set e h.revoked) _ _ (λ r. token_revoked o f r)
                λ r.
                  if-cases (Denial h e) (is_set e h.not_found) _ _ (λ n. no_match o f r n)
                    λ n. store_broken o f r n

  -- What the handshake promises of each ending.
  pub data Explains (h : Handler S) (r : Registry) (s : S) (address : ℕ) (message : Option Message)
      : Handshake S → Type ℓ where
    silent :
        ((hello : Hello) → Presents message hello → ⊥)
        → Explains h r s address message (refused close_auth_timeout r s)
    foreign_protocol :
        (hello : Hello)
        → Presents message hello
        → hello.protocol ≢ pos 1
        → Explains h r s address message (refused close_bad_protocol r s)
    bad_credential :
        (hello : Hello) (e : GoError) (s' : S) (code : ℕ)
        → Presents message hello
        → hello.protocol ≡ pos 1
        → check_credential h hello s ≡ (err e, s')
        → Denial h e code
        → Explains h r s address message (refused code r s')
    duplicate :
        (hello : Hello) (live : Handle) (s' : S)
        → Presents message hello
        → hello.protocol ≡ pos 1
        → check_credential h hello s ≡ (ok tt, s')
        → get r hello.node_id ≡ some live
        → Explains h r s address message (refused close_duplicate r s')
    joined :
        (hello : Hello) (s' : S) (r' : Registry)
        → Presents message hello
        → hello.protocol ≡ pos 1
        → check_credential h hello s ≡ (ok tt, s')
        → get r hello.node_id ≡ none
        → ((k : Bytes)
            → get r' k ≡ (if same hello.node_id k then some (handle_at address hello) else get r k))
        → Explains h r s address message (admitted hello r' s')

  registered :
      (h : Handler S) (r : Registry) (s : S) (address : ℕ) (message : Option Message)
      (hello : Hello) (s' : S)
      → Presents message hello
      → hello.protocol ≡ pos 1
      → check_credential h hello s ≡ (ok tt, s')
      → Explains h r s address message (register r s' hello (add r (handle_at address hello)))
  registered h r s address message hello s' e p k = elim (Option-cases (get r hello.node_id)) [
    | inl n ↦
        let (r', a, found) : Added r (handle_at address hello) none
            (add r (handle_at address hello)) =
          rw n at (add_lem r (handle_at address hello)) in
        rw a (joined hello s' r' e p k n found)
    | inr (live, l) ↦
        let a : add r (handle_at address hello) ≡ err already_connected =
          rw l at (add_lem r (handle_at address hello)) in
        rw a (duplicate hello live s' e p k l)
  ]

  decided :
      (h : Handler S) (r : Registry) (s : S) (address : ℕ) (message : Option Message)
      (hello : Hello)
      → Presents message hello
      → hello.protocol ≡ pos 1
      → (o : Result GoError (Unit {0}) × S) → check_credential h hello s ≡ o
      → Explains h r s address message (decide h r address hello o)
  decided h r s address message hello e p (ok _, s') k =
      registered h r s address message hello s' e p k
  decided h r s address message hello e p (err why, s') k =
      bad_credential hello why s' (close_code h why) e p k (close_code-Denial h why)

  -- The handshake refuses with the close code of the first check that fails, and leaves the registry
  -- alone, or all checks pass and the new connection is what the registry finds at the node id.
  pub handshake-Explains :
      (h : Handler S) (r : Registry) (s : S) (address : ℕ) (message : Option Message)
      → Explains h r s address message (handshake h r s address message)
  unfolding handshake
  handshake-Explains h r s address message = elim (Option-cases (read_hello message)) [
    | inl e ↦
        let none_there : Reading message none = rw e at (read_hello-Reading message) in
        rw (e, handshake) (silent none_there)
    | inr (hello, e) ↦
        let p : Reading message (some hello) = rw e at (read_hello-Reading message) in
        rw (e, handshake)
          (if-cases (Explains h r s address message) (is_count hello.protocol protocol_version) _ _
            (λ t.
              decided h r s address message hello p (protocol_lem hello.protocol t)
                (check_credential h hello s) refl)
            λ f. foreign_protocol hello p (protocol_lem_false hello.protocol f))
  ]

  left :
      (h : Handler S) (r : Registry) (s : S) (address : ℕ) (message : Option Message) (wire : Bool)
      (meanwhile : Registry → S → Registry × S) (hello : Hello) (o : Handshake S)
      → Presents message hello
      → is_registered r (handle_at address hello) ≡ false
      → Explains h r s address message o
      → is_registered (served h address wire meanwhile o).0 (handle_at address hello) ≡ false
  left h r s address message wire meanwhile hello _ e n (silent f) = n
  left h r s address message wire meanwhile hello _ e n (foreign_protocol _ f p) = n
  left h r s address message wire meanwhile hello _ e n (bad_credential _ w s' code f p k d) = n
  left h r s address message wire meanwhile hello _ e n (duplicate _ live s' f p k g) = n
  left h r s address message true meanwhile hello _ e n (joined hello' s' r' f p k g fnd) =
      let same_hello : hello ≡ hello' = one_hello message hello hello' e f in
      rw same_hello (removed _ (handle_at address hello'))
  left h r s address message false meanwhile hello _ e n (joined hello' s' r' f p k g fnd) =
      let same_hello : hello ≡ hello' = one_hello message hello hello' e f in
      rw same_hello (removed r' (handle_at address hello'))

  -- The connection is gone from the registry when ServeHTTP returns, whatever the other connections
  -- and the console did meanwhile, if it was not there before.
  pub serve_http_leaves :
      (h : Handler S) (r : Registry) (s : S) (address : ℕ) (message : Option Message) (wire : Bool)
      (meanwhile : Registry → S → Registry × S) (hello : Hello)
      → Presents message hello
      → is_registered r (handle_at address hello) ≡ false
      → is_registered (serve_http h r s address message wire meanwhile).0 (handle_at address hello)
        ≡ false
  unfolding serve_http
  serve_http_leaves h r s address message wire meanwhile hello e n =
      left h r s address message wire meanwhile hello (handshake h r s address message) e n
        (handshake-Explains h r s address message)
