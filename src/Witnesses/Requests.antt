-- ===== src/Witnesses/Requests.antt =====
-- Requests of a browser through internal/proxy/http.go, for the theorems on it.
use dsh_fleet.Base.{
  ℕ, ◌≡◌, refl, true, false, not, ◌&&◌, [], ◌∷◌, ◌++◌, none, some, arith, if◌then◌else◌, Bytes,
  codes, same,
}
use dsh_fleet.Base.Dict.{find}
use dsh_fleet.Base.Result.{ok, pos}
use dsh_fleet.Envelope.Frames.{ns_dsh}
use dsh_fleet.Registry.{Registry}
use dsh_fleet.Strings.{lower_byte}
use dsh_fleet.Utf8.Runes.{map_runes, decode_rune, encode_rune, follows}
use dsh_fleet.Utf8.{lead}
use dsh_fleet.Conn.State.{runs, panics}
use dsh_fleet.Proxy.Gate.{access_read, read_only, is_in, privileged_write}
use dsh_fleet.Proxy.Splice.{splice, marker}
use dsh_fleet.Proxy.{
  Handler, Request, Link, classify, rest_of, serve_http, refused, withheld, record_decision, header,
  forwarded_headers, forwarded_names,
}
use dsh_fleet.Proxy.Laws.Headers.{is_needed, find-forwarded_headers}
use dsh_fleet.Proxy.Laws.Gated.{write_is_refused}
use dsh_fleet.Proxy.Laws.Accounts.{Lawful, serve_http-Lawful}
use dsh_fleet.Proxy.Laws.Documents.{Placed, latin, splice_ascii, splice_panics}

abbrev lower : ℕ → ℕ
lower r = lower_byte r

abbrev laptop : Bytes
laptop = codes "laptop"

abbrev up : Registry
up = record { conns = (laptop, record { address = 1; node_id = laptop }) ∷ [] }

abbrev page : Link
page = record {
  do_request = λ c f. ok (record {
    status = pos 200;
    headers = (codes "Content-Type", codes "text/html") ∷ (codes "Content-Length", codes "13") ∷ [];
    content = codes "<body></body>";
    broken = false;
  });
  open_ws = λ c f. true;
}

abbrev handler : Handler
handler = record {
  registry = up;
  uplink = page;
  has_audit = true;
  has_select_user = true;
  privileged = access_read;
  inject = codes "<script></script>";
  accepts = true;
}

abbrev asking : Request
asking = record {
  selected = laptop;
  user = codes "u1";
  verb = codes "POST";
  escaped_path = codes "/api/settings.update";
  raw_query = [];
  headers = (codes "cookie", codes "session=1") ∷ (codes "accept", codes "*/*") ∷ [];
  body = some (codes "{}");
}

chosen : same asking.selected [] ≡ false
chosen = refl

pinned : is_in privileged_write (codes "settings.update") ≡ true
unfolding is_in
pinned = refl

write_is_refused_example :
    serve_http lower (record handler { registry = up; uplink = page }) asking ≡ record {
      answer = refused read_only;
      decisions =
          record_decision handler asking laptop ns_dsh
            (codes "settings.update")
            false
            (pos 403)
            (withheld read_only);
      sent = [];
    }
write_is_refused_example =
    write_is_refused lower handler up page asking (codes "settings.update") chosen refl pinned refl

serve_http-Lawful_example :
    Lawful handler asking (classify (rest_of asking)) (serve_http lower handler asking)
serve_http-Lawful_example = serve_http-Lawful lower handler asking

find-forwarded_headers_example :
    ((k : Bytes)
      → find k (forwarded_headers asking forwarded_names)
        ≡ (if is_needed k && not (same (header asking k) []) then some (header asking k) else none))
    × (find (codes "cookie") (forwarded_headers asking forwarded_names) ≡ none)
    × (find (codes "authorization") (forwarded_headers asking forwarded_names) ≡ none)
find-forwarded_headers_example = find-forwarded_headers asking

splice_ascii_example :
    (p s : Bytes) × (splice lower (codes "<BODY></BODY>") (codes "<script>")
      ≡ runs (p ++ codes "<script>" ++ s))
    × (p ++ s ≡ codes "<BODY></BODY>")
    × Placed (codes "<BODY></BODY>") s
splice_ascii_example = splice_ascii lower (codes "<BODY></BODY>") (codes "<script>") refl

kept : map_runes lower 0 marker ≡ marker
unfolding map_runes decode_rune encode_rune follows lead
kept = refl

splice_panics_example : splice lower (latin 4) (codes "<script>") ≡ panics
splice_panics_example = splice_panics lower 4 (codes "<script>") refl kept (omega arith)
