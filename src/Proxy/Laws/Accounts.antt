-- ===== src/Proxy/Laws/Accounts.antt =====
-- What one request through internal/proxy/http.go sends to a machine and leaves in the audit log.
use dsh_fleet.Base.{
  ℕ, ◌≡◌, ◌≤◌, refl, Bool, true, false, not, ◌&&◌, List, [], Option, none, some, arith,
  if◌then◌else◌, if-cases, Bytes, codes, same, Bool-cases, Option-cases, inl, inr, All, length,
}
use dsh_fleet.Base.Result.{Result, ok, err, ℤ, pos}
use dsh_fleet.Base.Dict.{find}
use dsh_fleet.Registry.{Handle, get}
use dsh_fleet.Proxy.Laws.Headers.{is_needed, find-forwarded_headers}
use dsh_fleet.Conn.State.{Run, runs, panics}
use dsh_fleet.Proxy.Splice.{splice}
use dsh_fleet.Proxy.{
  Request, Handler, Effect, Decision, Answer, Forwarded, Reply, DoError, no_selection, too_large,
  unreachable, refused, failure, response, interim, aborted, unwritten, is_code, is_interim, header,
  bridged, not_upgraded, request, socket, of_node, of_uplink, read_body, max_body_bytes,
  max_document_bytes, classify, rest_of, record_decision, gate, gated, forward, bridge, exchange,
  answered, respond, fail, failure_status, spliced, read_document, is_document, copied_headers,
  is_upgrade, serve_http, Reason, none_given, not_connected, bridge_failed, withheld, node_code,
  error_text, no_stream,
}

-- The request as the machine gets it.
abbrev pub Carries : Request → Bytes → Forwarded → Type 0
Carries r ns (request ns' verb path headers body textual) =
    (ns' ≡ ns)
    × (verb ≡ r.verb)
    × (path ≡ rest_of r)
    × ((k : Bytes)
        → find k headers
          ≡ (if is_needed k && not (same (header r k) []) then some (header r k) else none))
    × (r.body ≡ some body)
    × (length body ≤ max_body_bytes)
Carries r ns (socket path) = path ≡ rest_of r

abbrev pub Permitted : Handler → Request → Bytes × Bytes → Handle × Forwarded → Type 0
Permitted h r (ns, method) (conn, f) =
    (get h.registry r.selected ≡ some conn) × (gate h ns method ≡ none) × Carries r ns f

-- The status that ServeHTTP writes; `pos 0` where it writes none itself.
abbrev pub status_of : Answer → ℤ
status_of no_selection = pos 0
status_of unreachable = pos 502
status_of (refused why) = pos 403
status_of (failure status text) = status
status_of (response status headers body) = status
status_of (interim status headers body) = status
status_of (aborted status headers) = status
status_of unwritten = pos 0
status_of bridged = pos 101
status_of not_upgraded = pos 0
status_of too_large = pos 413

abbrev pub is_refused : Answer → Bool
is_refused (refused why) = true
is_refused _ = false

-- A decision that says who asked which machine for which method, and what came of it.
abbrev pub Says : Handler → Request → Bytes × Bytes → Answer → Decision → Type 0
Says h r (ns, method) answer d =
    (d.user_id ≡ (if h.has_select_user then r.user else []))
    × (d.node_id ≡ r.selected)
    × (d.ns ≡ ns)
    × (d.method ≡ method)
    × (d.allowed ≡ not (is_refused answer))
    × (d.status ≡ status_of answer)

-- A request whose selection, body or upgrade fails leaves no decision, nor does one that the machine
-- answers with a status outside 100 to 999, every other leaves one.
abbrev pub Logged : Handler → Request → Bytes × Bytes → Answer → List Decision → Type 0
Logged h r p no_selection ds = ds ≡ []
Logged h r p too_large ds = ds ≡ []
Logged h r p not_upgraded ds = ds ≡ []
Logged h r p unwritten ds =
    (ds ≡ [])
    × ((conn : Handle) × (f : Forwarded) × (reply : Reply) × (h.uplink.do_request conn f ≡ ok reply)
        × (is_code reply.status ≡ false))
Logged h r p answer ds = (length ds ≡ (if h.has_audit then 1 else 0)) × All (Says h r p answer) ds

pub record Lawful (h : Handler) (r : Request) (p : Bytes × Bytes) (e : Effect) : Type 0 where
  pub permitted : All (Permitted h r p) e.sent
  pub logged : Logged h r p e.answer e.decisions

recorded :
    (h : Handler) (r : Request) (ns method : Bytes) (answer : Answer) (allowed : Bool) (status : ℤ)
    (reason : Reason)
    → allowed ≡ not (is_refused answer)
    → status ≡ status_of answer
    → (length (record_decision h r r.selected ns method allowed status reason)
        ≡ (if h.has_audit then 1 else 0))
      × All
          (Says h r (ns, method) answer)
          (record_decision h r r.selected ns method allowed status reason)
unfolding record_decision
recorded h r ns method answer allowed status reason a s = elim (Bool-cases h.has_audit) [
  | inl t ↦ rw (t, record_decision) (refl, ((refl, refl, refl, refl, a, s), tt))
  | inr f ↦ rw (f, record_decision) (refl, tt)
]

respond-cases :
    (lower : ℕ → ℕ) (h : Handler) (p : Reply) (P : Answer → Type 0)
    → ((headers : List (Bytes × Bytes)) (body : Bytes) → P (response p.status headers body))
    → ((headers : List (Bytes × Bytes)) (body : Bytes) → P (interim p.status headers body))
    → ((headers : List (Bytes × Bytes)) → P (aborted p.status headers))
    → P (respond lower h p)
unfolding respond
respond-cases lower h p P whole first cut =
    if-cases P (not (same h.inject []) && is_document p) _ _
      (λ t. document (read_document max_document_bytes p))
      λ f.
        if-cases P (is_interim p.status) _ _ (λ t. first (copied_headers p.headers) p.content)
          λ f. whole (copied_headers p.headers) p.content
  where
    tagged : (b : Run Bytes) → P (spliced p.status (copied_headers p.headers) b)
    tagged (runs body) = whole (copied_headers p.headers) body
    tagged panics = cut (copied_headers p.headers)

    document :
        (d : Option Bytes)
        → P (elim d [
          | some document ↦
              spliced p.status (copied_headers p.headers) (splice lower document h.inject)
          | none ↦ response p.status (copied_headers p.headers) []
        ])
    document none = whole (copied_headers p.headers) []
    document (some d) = tagged (splice lower d h.inject)

answered-Logged :
    (lower : ℕ → ℕ) (h : Handler) (r : Request) (ns method : Bytes) (conn : Handle) (f : Forwarded)
    (o : Result DoError Reply)
    → h.uplink.do_request conn f ≡ o
    → Logged h r (ns, method) (answered lower h r ns method o).0 (answered lower h r ns method o).1
unfolding answered fail
answered-Logged lower h r ns method conn f (ok p) e = elim (Bool-cases (is_code p.status)) [
  | inr n ↦ rw n (refl, (conn, f, p, e, n))
  | inl t ↦ rw t (
      respond-cases lower h p
        (λ a.
          Logged h r (ns, method) a
            (record_decision h r r.selected ns method true p.status none_given))
        (λ hs b. recorded h r ns method (response p.status hs b) true p.status none_given refl refl)
        (λ hs b. recorded h r ns method (interim p.status hs b) true p.status none_given refl refl)
        λ hs. recorded h r ns method (aborted p.status hs) true p.status none_given refl refl)
]
answered-Logged lower h r ns method conn f (err (of_node e)) q =
    recorded h r ns method (failure (failure_status e.code) e.message) true (failure_status e.code)
      (node_code e.code) refl refl
answered-Logged lower h r ns method conn f (err (of_uplink text)) q =
    recorded h r ns method (failure (pos 502) (codes "node request failed")) true (pos 502)
      (error_text text) refl refl

read_body_lem :
    (r : Request) (b : Bytes)
    → read_body r ≡ some b
    → (r.body ≡ some b) × (length b ≤ max_body_bytes)
unfolding read_body
read_body_lem r b e = ground arith

exchange-Lawful :
    (lower : ℕ → ℕ) (h : Handler) (r : Request) (conn : Handle) (ns method : Bytes)
    → get h.registry r.selected ≡ some conn
    → gate h ns method ≡ none
    → Lawful h r (ns, method) (exchange lower h r conn ns method (rest_of r))
unfolding exchange
exchange-Lawful lower h r conn ns method g p = elim (Option-cases (read_body r)) [
  | inl e ↦ rw (e, exchange) (record { permitted = tt; logged = refl })
  | inr (b, e) ↦
      rw (e, exchange)
        (record {
          permitted = (
            (
              g,
              p,
              (
                refl,
                refl,
                refl,
                (find-forwarded_headers r).0,
                (read_body_lem r b e).0,
                (read_body_lem r b e).1,
              ),
            ),
            tt,
          );
          logged = answered-Logged lower h r ns method conn _ (h.uplink.do_request conn _) refl;
        })
]

bridge-Lawful :
    (h : Handler) (r : Request) (conn : Handle) (ns method : Bytes)
    → get h.registry r.selected ≡ some conn
    → gate h ns method ≡ none
    → Lawful h r (ns, method) (bridge h r conn ns method (rest_of r))
unfolding bridge
bridge-Lawful h r conn ns method g p =
    if-cases (Lawful h r (ns, method)) (h.uplink.open_ws conn (socket (rest_of r))) _ _
      (λ o.
        if-cases (Lawful h r (ns, method)) h.accepts _ _
          (λ a. record {
            permitted = ((g, p, refl), tt);
            logged = recorded h r ns method bridged true (pos 101) none_given refl refl;
          })
          λ n. record { permitted = ((g, p, refl), tt); logged = refl })
      λ c. record {
        permitted = ((g, p, refl), tt);
        logged =
            recorded h r ns method (failure (pos 502) no_stream) true (pos 502) bridge_failed refl
              refl;
      }

forward-Lawful :
    (lower : ℕ → ℕ) (h : Handler) (r : Request) (ns method : Bytes)
    → gate h ns method ≡ none
    → Lawful h r (ns, method) (forward lower h r ns method (rest_of r))
unfolding forward
forward-Lawful lower h r ns method p = elim (Option-cases (get h.registry r.selected)) [
  | inl e ↦
      rw (e, forward)
        (record {
          permitted = tt;
          logged = recorded h r ns method unreachable true (pos 502) not_connected refl refl;
        })
  | inr (conn, e) ↦
      rw (e, forward)
        (if-cases (Lawful h r (ns, method)) (is_upgrade r) _ _
          (λ u. bridge-Lawful h r conn ns method e p)
          λ u. exchange-Lawful lower h r conn ns method e p)
]

gated-Lawful :
    (lower : ℕ → ℕ) (h : Handler) (r : Request) (p : Bytes × Bytes)
    → Lawful h r p (gated lower h r (rest_of r) p)
unfolding gated
gated-Lawful lower h r (ns, method) = elim (Option-cases (gate h ns method)) [
  | inl e ↦ rw (e, gated) (forward-Lawful lower h r ns method e)
  | inr (why, e) ↦
      rw (e, gated)
        (record {
          permitted = tt;
          logged = recorded h r ns method (refused why) false (pos 403) (withheld why) refl refl;
        })
]

-- ServeHTTP sends at most what the gate lets through, to the connection that the registry has for the
-- selected machine, with the path and query as they came, no headers but the five that a machine needs
-- and a body within its limit. And it leaves one decision, which names the account, the machine, the
-- method and the status that it writes, which for an informational status of the machine is not the
-- one the browser ends with. It leaves none if no machine is selected, the body is refused, the
-- browser's upgrade fails or the machine answers with a status outside 100 to 999, at which it panics,
-- or without an audit log.
pub serve_http-Lawful :
    (lower : ℕ → ℕ) (h : Handler) (r : Request)
    → Lawful h r (classify (rest_of r)) (serve_http lower h r)
unfolding serve_http
serve_http-Lawful lower h r =
    if-cases (Lawful h r (classify (rest_of r))) (same r.selected []) _ _
      (λ t. record { permitted = tt; logged = refl })
      λ f. gated-Lawful lower h r (classify (rest_of r))
