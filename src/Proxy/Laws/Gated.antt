-- ===== src/Proxy/Laws/Gated.antt =====
-- The privilege gate of internal/proxy/http.go on whole requests.
use dsh_fleet.Base.{
  ℕ, ◌≡◌, inl, inr, refl, ap, sym, ◌∙◌, true, false, List, [], ◌∷◌, ◌++◌, none, some, arith,
  if-cases, Bytes, codes, same, same→eq, Bool-cases, All,
}
use dsh_fleet.Base.Result.{pos}
use dsh_fleet.Envelope.Frames.{ns_dsh}
use dsh_fleet.Registry.{Registry}
use dsh_fleet.Strings.{has, before, cut_prefix, trim_prefix}
use dsh_fleet.Proxy.Gate.{
  Access, read_only, is_in, is_full, level, privileged_read, privileged_write, refuse,
}
use dsh_fleet.Proxy.{
  Request, Handler, Link, withheld, refused, classify, rest_of, record_decision, gate, gated,
  serve_http,
}

before_all : (b : ℕ) (s : Bytes) → has b s ≡ false → before b s ≡ s
unfolding before
before_all b [] h = refl
before_all b (a ∷ s) h = ground (arith, before_all b s)

before_query : (b : ℕ) (s q : Bytes) → has b s ≡ false → before b (s ++ b ∷ q) ≡ s
unfolding before
before_query b [] q h = ground arith
before_query b (a ∷ s) q h = ground (arith, before_query b s q)

-- A path below /api/ names its method, whatever the query.
classify_api : (s q : Bytes) → before b'?' s ≡ q → classify (codes "/api/" ++ s) ≡ (ns_dsh, q)
unfolding classify before trim_prefix cut_prefix
classify_api s q h = rw h refl

-- What ServeHTTP makes of the path and the query.
asked :
    (r : Request) (method : Bytes)
    → r.escaped_path ≡ codes "/api/" ++ method
    → has b'?' method ≡ false
    → classify (rest_of r) ≡ (ns_dsh, method)
unfolding rest_of
asked r method e n = rw e (
    if-cases (λ p. classify p ≡ (ns_dsh, method)) (same r.raw_query []) _ _
      (λ t. classify_api method method (before_all b'?' method n))
      λ f.
        classify_api (method ++ b'?' ∷ r.raw_query) method (before_query b'?' method r.raw_query n))

abbrev Free : ℕ → Bytes → Type 0
Free b s = has b s ≡ false

listed :
    (b : ℕ) (names : List Bytes) (m : Bytes) → All (Free b) names → is_in names m ≡ true → Free b m
unfolding is_in
listed b [] m h i = ground arith
listed b (n ∷ names) m h i = elim (Bool-cases (same n m)) [
  | inl t ↦ rw (sym (same→eq n m t)) h.0
  | inr f ↦ listed b names m h.1 (ground arith)
]

unlisted :
    (b : ℕ) (names : List Bytes) (m : Bytes)
    → All (Free b) names
    → has b m ≡ true
    → is_in names m ≡ false
unlisted b names m h p = elim (Bool-cases (is_in names m)) [
  | inl t ↦ absurd (cc (listed b names m h t, p))
  | inr f ↦ f
]

refuse_write :
    (a : Access) (method : Bytes)
    → is_full a ≡ false
    → is_in privileged_write method ≡ true
    → refuse a method ≡ some read_only
unfolding refuse
refuse_write a method f w = rw (f, w) refl

gated_write :
    (lower : ℕ → ℕ) (h : Handler) (r : Request) (rest method : Bytes)
    → refuse (level h.privileged) method ≡ some read_only
    → gated lower h r rest (ns_dsh, method) ≡ record {
      answer = refused read_only;
      decisions = record_decision h r r.selected ns_dsh method false (pos 403) (withheld read_only);
      sent = [];
    }
unfolding gated gate
gated_write lower h r rest method e = rw (e, gated) refl

-- A call of a pinned method that writes, with a machine selected and below full access: the browser gets
-- 403, nothing is sent to the machine, and the audit log has the refusal, whatever the query, and
-- whatever is registered and however a machine would answer.
pub write_is_refused :
    (lower : ℕ → ℕ) (h : Handler) (g : Registry) (u : Link) (r : Request) (method : Bytes)
    → same r.selected [] ≡ false
    → is_full (level h.privileged) ≡ false
    → is_in privileged_write method ≡ true
    → r.escaped_path ≡ codes "/api/" ++ method
    → serve_http lower (record h { registry = g; uplink = u }) r ≡ record {
      answer = refused read_only;
      decisions = record_decision h r r.selected ns_dsh method false (pos 403) (withheld read_only);
      sent = [];
    }
unfolding serve_http record_decision
write_is_refused lower h g u r method s f w e = rw s (
    ap (gated lower (record h { registry = g; uplink = u }) r (rest_of r))
      (asked r method e (listed b'?' privileged_write method plain w))
    ∙ gated_write lower (record h { registry = g; uplink = u }) r (rest_of r) method
        (refuse_write (level h.privileged) method f w))
  where
    plain : All (Free b'?') privileged_write
    plain = (
      refl,
      (refl, (refl, (refl, (refl, (refl, (refl, (refl, (refl, (refl, (refl, (refl, tt))))))))))),
    )

refuse_neither :
    (a : Access) (method : Bytes)
    → is_in privileged_write method ≡ false
    → is_in privileged_read method ≡ false
    → refuse a method ≡ none
unfolding refuse
refuse_neither a method w r =
    rw (w, r) (if-cases (λ o. o ≡ none) (is_full a) _ _ (λ t. refl) λ f. refl)

-- A method name with a percent sign in it passes the gate at every level, whatever it decodes to.
pub escaped_passes : (a : Access) (method : Bytes) → has b'%' method ≡ true → refuse a method ≡ none
escaped_passes a method p =
    refuse_neither a method
      (unlisted b'%' privileged_write method
        (
          refl,
          (
            refl,
            (refl, (refl, (refl, (refl, (refl, (refl, (refl, (refl, (refl, (refl, tt)))))))))),
          ),
        )
        p)
      (unlisted b'%' privileged_read method (refl, (refl, (refl, tt))) p)
