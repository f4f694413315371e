-- ===== src/Witnesses/Uplinks.antt =====
-- Two machines at the registry and one at the handshake, for the theorems on
-- internal/uplink/registry.go and internal/uplink/handler.go.
use dsh_fleet.Base.{
  ℕ, ◌≡◌, refl, true, false, ◌&&◌, List, [], ◌∷◌, none, some, arith, Bytes, codes, same,
  if◌then◌else◌,
}
use dsh_fleet.Base.Dict.{find}
use dsh_fleet.Base.Result.{Result, ok, err, pos}
use dsh_fleet.Base.Errors.{GoError, node_not_found, node_revoked, node_foreign, node_has_own_token}
use dsh_fleet.Envelope.{frame}
use dsh_fleet.Envelope.Frames.{Hello, hello_frame}
use dsh_fleet.Registry.{Registry, Handle, new_registry, get, online}
use dsh_fleet.Registry.Laws.{is_registered}
use dsh_fleet.Registry.Online.{Ascending, contains, present}
use dsh_fleet.Registry.History.{Call, adds, removes, run, registered_stays, online-run}
use dsh_fleet.Uplink.{Handler, handle_at, handshake, serve_http}
use dsh_fleet.Uplink.Laws.{Explains, Presents, handshake-Explains, serve_http_leaves}

abbrev laptop : Handle
laptop = record { address = 1; node_id = codes "laptop" }

abbrev rival : Handle
rival = record { address = 2; node_id = codes "laptop" }

abbrev desk : Handle
desk = record { address = 3; node_id = codes "desk" }

abbrev two_up : Registry
two_up = record { conns = (codes "laptop", laptop) ∷ (codes "desk", desk) ∷ [] }

abbrev calls : List Call
calls = adds rival ∷ removes rival ∷ adds desk ∷ []

found : get two_up (codes "laptop") ≡ some laptop
unfolding get find
found = refl

registered_stays_example : get (run two_up calls) (codes "laptop") ≡ some laptop
registered_stays_example =
    registered_stays calls two_up (codes "laptop") laptop found
      (tt, ((λ e. omega (arith, e)), (tt, tt)))

online-run_example :
    Ascending (online (run new_registry calls))
    × ((k : Bytes)
        → contains k (online (run new_registry calls)) ≡ present (get (run new_registry calls) k))
online-run_example = online-run calls

-- A store with one machine, "laptop", whose token is "nt_a".
abbrev check : Bytes → Bytes → ℕ → Result GoError (Unit {0}) × ℕ
check id token s = (
  if same id (codes "laptop") && same token (codes "nt_a")
      then ok tt
      else err (node_not_found ∷ []),
  s,
)

abbrev handler : Handler ℕ
handler = record {
  auth = record { authenticate = check; record_hello = λ id d caps s. (ok tt, s) };
  enroller = none;
  not_found = some node_not_found;
  revoked = some node_revoked;
  foreign = some node_foreign;
  own_token = some node_has_own_token;
}

abbrev hello : Hello
hello = record {
  protocol = pos 1;
  node_id = codes "laptop";
  username = [];
  token = codes "nt_a";
  node = record {
    label = codes "My laptop";
    platform = codes "linux";
    arch = codes "x64";
    dsh_version = codes "1.0.0";
    plugin_version = codes "0.1.0";
    cwd = codes "/home/me";
  };
  caps = [];
}

handshake-Explains_example :
    Explains handler two_up 0 9
      (some (frame (hello_frame hello)))
      (handshake handler two_up 0 9 (some (frame (hello_frame hello))))
handshake-Explains_example =
    handshake-Explains handler two_up 0 9 (some (frame (hello_frame hello)))

abbrev meanwhile : Registry → ℕ → Registry × ℕ
meanwhile r s = (r, s)

presented : Presents (some (frame (hello_frame hello))) hello
presented = (refl, (λ e. cc), λ e. cc)

newcomer : is_registered new_registry (handle_at 9 hello) ≡ false
unfolding is_registered get find new_registry
newcomer = refl

serve_http_leaves_example :
    is_registered
      (serve_http handler new_registry 0 9 (some (frame (hello_frame hello))) true meanwhile).0
      (handle_at 9 hello)
    ≡ false
serve_http_leaves_example =
    serve_http_leaves handler new_registry 0 9 (some (frame (hello_frame hello))) true meanwhile
      hello presented newcomer
