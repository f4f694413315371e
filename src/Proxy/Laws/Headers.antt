-- ===== src/Proxy/Laws/Headers.antt =====
-- The headers that internal/proxy/http.go lets through, from the browser and from the machine.
use dsh_fleet.Base.{
  ◌≡◌, refl, Bool, true, false, not, ◌&&◌, ◌||◌, codes, List, [], ◌∷◌, none, some, arith,
  if◌then◌else◌, Bytes, same, same_iff, if-cases,
}
use dsh_fleet.Base.Dict.{Dict, find, find-put}
use dsh_fleet.Strings.{to_lower}
use dsh_fleet.Proxy.Gate.{is_in}
use dsh_fleet.Proxy.{
  Request, header, forwarded_names, forwarded_headers, copied_headers, is_framing,
}

names_lem :
    (r : Request) (names : List Bytes) (k : Bytes)
    → find k (forwarded_headers r names)
      ≡ (if is_in names k && not (same (header r k) []) then some (header r k) else none)
unfolding forwarded_headers is_in find
names_lem r [] k = refl
names_lem r (name ∷ names) k = ground (
  arith,
  names_lem r names k,
  find-put name k (header r name) (forwarded_headers r names),
  same_iff name k,
)

-- The headers that a machine's own server needs to answer.
abbrev pub is_needed : Bytes → Bool
is_needed k =
    same (codes "content-type") k
    || same (codes "accept") k
    || same (codes "accept-language") k
    || same (codes "if-none-match") k
    || same (codes "range") k

five : (a b c d e : Bool) → (a || (b || (c || (d || (e || false))))) ≡ (a || b || c || d || e)
five true b c d e = ground arith
five false true c d e = ground arith
five false false c d e = ground arith

is_needed_lem : (k : Bytes) → is_in forwarded_names k ≡ is_needed k
unfolding is_in
is_needed_lem k =
    five (same (codes "content-type") k) (same (codes "accept") k)
      (same (codes "accept-language") k) (same (codes "if-none-match") k) (same (codes "range") k)

-- A header crosses to the machine exactly if its name is content-type, accept, accept-language,
-- if-none-match or range and the browser sent it, and then as the browser sent it; cookies and
-- authorization never do.
pub find-forwarded_headers :
    (r : Request)
    → ((k : Bytes)
        → find k (forwarded_headers r forwarded_names)
          ≡ (if is_needed k && not (same (header r k) []) then some (header r k) else none))
      × (find (codes "cookie") (forwarded_headers r forwarded_names) ≡ none)
      × (find (codes "authorization") (forwarded_headers r forwarded_names) ≡ none)
find-forwarded_headers r = (crosses, crosses (codes "cookie"), crosses (codes "authorization"))
  where
    crosses :
        (k : Bytes)
        → find k (forwarded_headers r forwarded_names)
          ≡ (if is_needed k && not (same (header r k) []) then some (header r k) else none)
    crosses k = rw⁻¹ (is_needed_lem k) (names_lem r forwarded_names k)

-- The step of the loop, with framing as any test that looks at the name only.
copied_step :
    (framing : Bytes → Bool) (key k value : Bytes) (rest copied : Dict Bytes)
    → find k copied ≡ (if framing k then none else find k rest)
    → find k (if framing key then copied else (key, value) ∷ copied)
      ≡ (if framing k then none else if same key k then some value else find k rest)
unfolding find
copied_step framing key k value rest copied h = ground (arith, h, same_iff key k, framing)

-- The browser gets the machine's headers, less those whose name is one of the three of framing in
-- whatever case.
pub find-copied_headers :
    (hs : Dict Bytes) (k : Bytes)
    → find k (copied_headers hs) ≡ (if is_framing (to_lower k) then none else find k hs)
unfolding copied_headers find
find-copied_headers [] k =
    if-cases (λ o. none ≡ o) (is_framing (to_lower k)) none none (λ t. refl) λ f. refl
find-copied_headers ((key, value) ∷ rest) k =
    copied_step (λ n. is_framing (to_lower n)) key k value rest (copied_headers rest)
      (find-copied_headers rest k)
