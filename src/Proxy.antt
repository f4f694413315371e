-- ===== src/Proxy.antt =====
-- internal/proxy/http.go: a browser's request on its way to the selected machine. The connection to
-- the machine is what the handler calls of it, and the audit log a list of decisions.
pub mod Gate
pub mod Splice
pub mod Laws
use mathlib.Core.List.{map}
use dsh_fleet.Base.{
  leb, ℕ, zero, suc, ◌*◌, ◌^◌, Bool, true, false, not, ◌&&◌, ◌||◌, List, [], ◌∷◌, ◌++◌, Option,
  none, some, ltb, ◌==◌, if◌then◌else◌, Bytes, codes, same, length,
}
use dsh_fleet.Base.Dict.{Dict, find, put}
use dsh_fleet.Base.Result.{Result, ok, err, ℤ, pos, negsuc, is_count}
use dsh_fleet.Envelope.Frames.{
  ns_dsh, ns_fleet, err_cancelled, err_unsupported, err_unavailable, err_denied,
}
use dsh_fleet.Registry.{Registry, Handle, get}
use dsh_fleet.Conn.State.{RequestError, Run, runs, panics}
use dsh_fleet.Proxy.Splice.{take, splice}
use dsh_fleet.Strings.{
  has_prefix, cut_prefix, trim_prefix, before, contains, to_lower, equal_fold, trim_space,
}
use dsh_fleet.Proxy.Gate.{Access, Refusal, read_only, no_settings, refuse, level}

-- The parts of *http.Request that the handler reads. `selected` and `user` are what SelectNode and
-- SelectUser answer; `headers` is keyed by lower-case names; `body` is `none` if reading it fails.
pub record Request : Type 0 where
  pub selected : Bytes
  pub user : Bytes
  pub verb : Bytes
  pub escaped_path : Bytes
  pub raw_query : Bytes
  pub headers : Dict Bytes
  pub body : Option Bytes

-- One call of RecordDecision. A reason is the text, or an error's.
pub data Reason : Type 0 where
  none_given not_connected bridge_failed : Reason
  withheld : Refusal → Reason
  node_code : Bytes → Reason
  error_text : Bytes → Reason

pub record Decision : Type 0 where
  pub user_id : Bytes
  pub node_id : Bytes
  pub ns : Bytes
  pub method : Bytes
  pub allowed : Bool
  pub status : ℤ
  pub reason : Reason

-- The arguments of conn.Do and of conn.OpenWS.
pub data Forwarded : Type 0 where
  request : Bytes → Bytes → Bytes → Dict Bytes → Bytes → Bool → Forwarded
  socket : Bytes → Forwarded

-- A response whose whole body is known: `broken` says that it ended with an error.
pub record Reply : Type 0 where
  pub status : ℤ
  pub headers : Dict Bytes
  pub content : Bytes
  pub broken : Bool

-- errors.As finds a *RequestError, or does not.
pub data DoError : Type 0 where
  of_node : RequestError → DoError
  of_uplink : Bytes → DoError

-- What a connection answers. An opened bridge is nothing more than that here.
pub record Link : Type 0 where
  pub do_request : Handle → Forwarded → Result DoError Reply
  pub open_ws : Handle → Forwarded → Bool

-- The fields of Handler.
pub record Handler : Type 0 where
  pub registry : Registry
  pub uplink : Link
  pub has_audit : Bool
  pub has_select_user : Bool
  pub privileged : Access
  pub inject : Bytes
  pub accepts : Bool

-- What the handler hands to the ResponseWriter, which leaves out a body where HTTP has none. `interim` is
-- a status of 1xx, after which the answer goes on with 200; `unwritten` is the panic of WriteHeader.
pub data Answer : Type 0 where
  no_selection unreachable too_large : Answer
  refused : Refusal → Answer
  failure : ℤ → Bytes → Answer
  response : ℤ → Dict Bytes → Bytes → Answer
  interim : ℤ → Dict Bytes → Bytes → Answer
  aborted : ℤ → Dict Bytes → Answer
  unwritten : Answer
  bridged not_upgraded : Answer

-- What one request causes.
pub record Effect : Type 0 where
  pub answer : Answer
  pub decisions : List Decision
  pub sent : List (Handle × Forwarded)

-- classify
unfoldable pub classify : Bytes → Bytes × Bytes
unfolding before trim_prefix cut_prefix
classify path =
    let clean = before b'?' (trim_prefix path (codes "/")) in
    elim (cut_prefix clean (codes "api/")) [
      | some rest ↦ (ns_dsh, rest)
      | none ↦ elim (cut_prefix clean (codes "fleet/")) [
        | some rest ↦ (ns_fleet, rest)
        | none ↦ (ns_dsh, clean)
      ]
    ]

-- r.Header.Get
unfoldable pub header : Request → Bytes → Bytes
header r name = elim (find name r.headers) [ none ↦ [] | some value ↦ value ]

-- isUpgrade
unfoldable pub is_upgrade : Request → Bool
unfolding header equal_fold contains to_lower
is_upgrade r =
    equal_fold (header r (codes "upgrade")) (codes "websocket")
    && contains (to_lower (header r (codes "connection"))) (codes "upgrade")

unfoldable pub content_type : Dict Bytes → Option Bytes
unfolding equal_fold
content_type [] = none
content_type ((key, value) ∷ rest) =
    if equal_fold key (codes "content-type") then some value else content_type rest

-- isDocument, on the headers in the order in which the range gives them
unfoldable pub is_document : Reply → Bool
unfolding content_type has_prefix to_lower trim_space
is_document p =
    if is_count p.status 200
    then elim (content_type p.headers) [
      | none ↦ false
      | some value ↦ has_prefix (to_lower (trim_space value)) (codes "text/html")
    ]
    else false

-- record
unfoldable pub record_decision :
    Handler → Request → Bytes → Bytes → Bytes → Bool → ℤ → Reason → List Decision
record_decision h r node_id ns method allowed status reason =
    if h.has_audit
    then record {
      user_id = if h.has_select_user then r.user else [];
      node_id = node_id;
      ns = ns;
      method = method;
      allowed = allowed;
      status = status;
      reason = reason;
    }
      ∷ []
    else []

-- The status that fail gives to an error of the node.
unfoldable pub failure_status : Bytes → ℤ
failure_status code =
    if same code err_unsupported
    then pos 501
    else if same code err_unavailable
    then pos 503
    else if same code err_denied
    then pos 403
    else if same code err_cancelled
    then pos 499
    else pos 502

-- fail
unfoldable pub fail : Handler → Request → Bytes → Bytes → DoError → Answer × List Decision
unfolding failure_status record_decision
fail h r ns method (of_node e) = (
  failure (failure_status e.code) e.message,
  record_decision h r r.selected ns method true (failure_status e.code) (node_code e.code),
)
fail h r ns method (of_uplink text) = (
  failure (pos 502) (codes "node request failed"),
  record_decision h r r.selected ns method true (pos 502) (error_text text),
)

-- The headers that cross to the node.
abbrev pub forwarded_names : List Bytes
forwarded_names =
    codes "content-type"
    ∷ codes "accept"
    ∷ codes "accept-language"
    ∷ codes "if-none-match"
    ∷ codes "range"
    ∷ []

unfoldable pub forwarded_headers : Request → List Bytes → Dict Bytes
unfolding header put
forwarded_headers r [] = []
forwarded_headers r (name ∷ names) =
    let rest = forwarded_headers r names in
    if same (header r name) [] then rest else put name (header r name) rest

-- The loop over the node's headers: framing is this server's to decide.
abbrev pub is_framing : Bytes → Bool
is_framing key =
    same key (codes "content-length")
    || same key (codes "transfer-encoding")
    || same key (codes "connection")

unfoldable pub copied_headers : Dict Bytes → Dict Bytes
unfolding to_lower
copied_headers [] = []
copied_headers ((key, value) ∷ rest) =
    let others = copied_headers rest in
    if is_framing (to_lower key) then others else (key, value) ∷ others

abbrev pub no_stream : Bytes
no_stream = codes "cannot reach the machine's event stream"

abbrev pub max_document_bytes : ℕ
max_document_bytes = 8 * 2 ^ 20

abbrev pub max_body_bytes : ℕ
max_body_bytes = 32 * 2 ^ 20

-- io.ReadAll(io.LimitReader(resp.Body, limit)): the limit is an end like any other, and hides an
-- error that comes after it.
unfoldable pub read_document : ℕ → Reply → Option Bytes
unfolding take
read_document limit p =
    if ltb (length p.content) limit
    then if p.broken then none else some p.content
    else some (take limit p.content)

-- io.ReadAll(http.MaxBytesReader(w, r.Body, 32<<20))
unfoldable pub read_body : Request → Option Bytes
read_body r = elim r.body [
  | none ↦ none
  | some b ↦ if ltb max_body_bytes (length b) then none else some b
]

-- The body of a page with the tag, if splice does not panic; by then the status is out.
abbrev pub spliced : ℤ → Dict Bytes → Run Bytes → Answer
spliced status headers (runs body) = response status headers body
spliced status headers panics = aborted status headers

-- The statuses that WriteHeader takes; at any other it panics.
abbrev pub is_code : ℤ → Bool
is_code (pos n) = leb 100 n && leb n 999
is_code (negsuc n) = false

-- The statuses after which WriteHeader waits for another: 1xx, but for 101.
abbrev pub is_interim : ℤ → Bool
is_interim (pos n) = leb 100 n && leb n 199 && not (n == 101)
is_interim (negsuc n) = false

-- The answer to a reply of the node. A document that cannot be read whole has been read when the loop
-- starts, and the loop finds the error again at once.
unfoldable pub respond : (ℕ → ℕ) → Handler → Reply → Answer
unfolding copied_headers is_document read_document splice
respond lower h p =
    if not (same h.inject []) && is_document p
    then elim (read_document max_document_bytes p) [
      | some document ↦ spliced p.status (copied_headers p.headers) (splice lower document h.inject)
      | none ↦ response p.status (copied_headers p.headers) []
    ]
    else if is_interim p.status
    then interim p.status (copied_headers p.headers) p.content
    else response p.status (copied_headers p.headers) p.content

unfoldable pub answered :
    (ℕ → ℕ) → Handler → Request → Bytes → Bytes → Result DoError Reply → Answer × List Decision
unfolding respond fail record_decision
answered lower h r ns method (ok p) =
    if is_code p.status
    then (respond lower h p, record_decision h r r.selected ns method true p.status none_given)
    else (unwritten, [])
answered lower h r ns method (err e) = fail h r ns method e

-- ServeHTTP from the body on, with what was sent to the machine.
unfoldable pub exchange : (ℕ → ℕ) → Handler → Request → Handle → Bytes → Bytes → Bytes → Effect
unfolding read_body forwarded_headers answered header has_prefix
exchange lower h r conn ns method rest = elim (read_body r) [
  | none ↦ record { answer = too_large; decisions = []; sent = [] }
  | some body ↦
      let textual = has_prefix (header r (codes "content-type")) (codes "application/json") in
      let f = request ns r.verb rest (forwarded_headers r forwarded_names) body textual in
      let (answer, decisions) = answered lower h r ns method (h.uplink.do_request conn f) in
      record { answer = answer; decisions = decisions; sent = (conn, f) ∷ [] }
]

-- bridge, as far as the upgrade
unfoldable pub bridge : Handler → Request → Handle → Bytes → Bytes → Bytes → Effect
unfolding record_decision
bridge h r conn ns method rest =
    let sent = (conn, socket rest) ∷ [] in
    if h.uplink.open_ws conn (socket rest)
    then if h.accepts
      then record {
        answer = bridged;
        decisions = record_decision h r r.selected ns method true (pos 101) none_given;
        sent = sent;
      }
      else record { answer = not_upgraded; decisions = []; sent = sent }
    else record {
      answer = failure (pos 502) no_stream;
      decisions = record_decision h r r.selected ns method true (pos 502) bridge_failed;
      sent = sent;
    }

-- The path and the query, as they go to the machine.
unfoldable pub rest_of : Request → Bytes
rest_of r =
    let path = if same r.escaped_path [] then codes "/" else r.escaped_path in
    if same r.raw_query [] then path else path ++ b'?' ∷ r.raw_query

unfoldable pub gate : Handler → Bytes → Bytes → Option Refusal
unfolding refuse
gate h ns method = if same ns ns_dsh then refuse (level h.privileged) method else none

-- ServeHTTP past the gate
unfoldable pub forward : (ℕ → ℕ) → Handler → Request → Bytes → Bytes → Bytes → Effect
unfolding bridge exchange is_upgrade record_decision
forward lower h r ns method rest = elim (get h.registry r.selected) [
  | none ↦ record {
    answer = unreachable;
    decisions = record_decision h r r.selected ns method true (pos 502) not_connected;
    sent = [];
  }
  | some conn ↦
      if is_upgrade r
      then bridge h r conn ns method rest
      else exchange lower h r conn ns method rest
]

-- ServeHTTP from the gate on, at the namespace and the method of the path.
unfoldable pub gated : (ℕ → ℕ) → Handler → Request → Bytes → Bytes × Bytes → Effect
unfolding gate forward record_decision
gated lower h r rest (ns, method) = elim (gate h ns method) [
  | some why ↦ record {
    answer = refused why;
    decisions = record_decision h r r.selected ns method false (pos 403) (withheld why);
    sent = [];
  }
  | none ↦ forward lower h r ns method rest
]

-- ServeHTTP
unfoldable pub serve_http : (ℕ → ℕ) → Handler → Request → Effect
unfolding rest_of classify gated
serve_http lower h r =
    if same r.selected []
    then record { answer = no_selection; decisions = []; sent = [] }
    else gated lower h r (rest_of r) (classify (rest_of r))
