-- ===== src/Proxy/Laws/Documents.antt =====
-- Where splice of internal/proxy/http.go puts the tag, and what becomes of a page on its way.
use mathlib.Core.List.{map, append-nil}
use dsh_fleet.Base.{
  ℕ, zero, suc, ◌+◌, ◌*◌, ◌≡◌, ◌≤◌, ◌⊎◌, inl, inr, refl, ap, sym, ◌∙◌, true, false, ◌&&◌, [], ◌∷◌,
  ◌++◌, Option, none, some, arith, if◌then◌else◌, if-cases, leb, Bytes, codes, Option-cases, length,
}
use dsh_fleet.Strings.{has_prefix, contains, lower_byte}
use dsh_fleet.Utf8.{lead}
use dsh_fleet.Utf8.Runes.{
  rune_error, decode_rune, follows, encode_rune, all_ascii, map_runes, bytes_to_lower,
}
use dsh_fleet.Conn.State.{runs, panics}
use dsh_fleet.Proxy.Splice.{take, drop, last_index, marker, splice}

-- What LastIndex promises of a pattern that is not empty.
abbrev At : Bytes → Bytes → Option ℕ → Type 0
At s p none = contains s p ≡ false
At s p (some n) =
    (has_prefix (drop n s) p ≡ true) × (contains (drop (suc n) s) p ≡ false) × (n ≤ length s)

last_index-At : (s : Bytes) (c : ℕ) (p : Bytes) → At s (c ∷ p) (last_index s (c ∷ p))
unfolding last_index has_prefix contains drop
last_index-At [] c p = refl
last_index-At (a ∷ s) c p = step (last_index s (c ∷ p)) (last_index-At s c p)
  where
    step :
        (o : Option ℕ)
        → At s (c ∷ p) o
        → At (a ∷ s) (c ∷ p) (elim o [
          | some n ↦ some (suc n)
          | none ↦ if has_prefix (a ∷ s) (c ∷ p) then some 0 else none
        ])
    step (some n) h = (h.0, h.1, omega (arith, h.2))
    step none h =
        if-cases (At (a ∷ s) (c ∷ p)) (has_prefix (a ∷ s) (c ∷ p)) _ _ (λ t. (t, h, omega arith))
          λ f. rw (f, h) refl

take-drop : (n : ℕ) (s : Bytes) → take n s ++ drop n s ≡ s
unfolding take drop
take-drop zero s = refl
take-drop (suc n) [] = refl
take-drop (suc n) (a ∷ s) = ap (λ t. a ∷ t) (take-drop n s)

drop-map : (f : ℕ → ℕ) (n : ℕ) (s : Bytes) → drop n (map f s) ≡ map f (drop n s)
unfolding drop
drop-map f zero s = refl
drop-map f (suc n) [] = refl
drop-map f (suc n) (a ∷ s) = drop-map f n s

length-map : (f : ℕ → ℕ) (s : Bytes) → length (map f s) ≡ length s
length-map f [] = refl
length-map f (a ∷ s) = ap suc (length-map f s)

-- The place of the tag: before the last closing body tag in whatever case, or at the end of a
-- document without one.
abbrev pub Placed : Bytes → Bytes → Type 0
Placed document after =
    ((after ≡ []) × (contains (map lower_byte document) marker ≡ false))
    ⊎ ((has_prefix (map lower_byte after) marker ≡ true)
        × (contains (map lower_byte (drop 1 after)) marker ≡ false))

drop_one : (n : ℕ) (s : Bytes) → drop 1 (drop n s) ≡ drop (suc n) s
unfolding drop
drop_one zero s = refl
drop_one (suc n) [] = refl
drop_one (suc n) (a ∷ s) = drop_one n s

-- In a document of ASCII text splice puts the tag before the last closing body tag, in whatever case
-- that is, or at the end if there is none, and leaves the document as it is before and after the tag.
pub splice_ascii :
    (lower : ℕ → ℕ) (document tag : Bytes)
    → all_ascii document ≡ true
    → (p s : Bytes) × (splice lower document tag ≡ runs (p ++ tag ++ s))
      × (p ++ s ≡ document)
      × Placed document s
unfolding splice bytes_to_lower
splice_ascii lower document tag h =
    elim (Option-cases (last_index (map lower_byte document) marker)) [
      | inl e ↦
          let a : At (map lower_byte document) marker none = rw e at at_last in
          (
            document,
            [],
            rw (h, splice, e) (ap runs (sym (append-nil (document ++ tag)))),
            append-nil document,
            inl (refl, a),
          )
      | inr (n, e) ↦
          let a : At (map lower_byte document) marker (some n) = rw e at at_last in
          let fits : leb n (length document) ≡ true =
            ground (arith, a.2, length-map lower_byte document) in
          (
            take n document,
            drop n document,
            rw (h, splice, e, fits) refl,
            take-drop n document,
            inr (
              ap (λ t. has_prefix t marker) (sym (drop-map lower_byte n document)) ∙ a.0,
              ap (λ t. contains (map lower_byte t) marker) (drop_one n document)
                  ∙ ap (λ t. contains t marker) (sym (drop-map lower_byte (suc n) document))
                  ∙ a.1,
            ),
          )
    ]
  where
    at_last : At (map lower_byte document) marker (last_index (map lower_byte document) marker)
    at_last = last_index-At (map lower_byte document) b'<' (codes "/body>")

-- n bytes 0xE9, which is é in Latin-1 and no UTF-8.
abbrev pub latin : ℕ → Bytes
latin zero = marker
latin (suc n) = 0xE9 ∷ latin n

-- The same with each byte as the three of RuneError.
abbrev replaced : ℕ → Bytes
replaced zero = marker
replaced (suc n) = 0xEF ∷ 0xBF ∷ 0xBD ∷ replaced n

decode_bad :
    (a : ℕ) (cs : Bytes)
    → (leb 0x80 a && leb a 0xBF) ≡ false
    → decode_rune 0xE9 (a ∷ cs) ≡ (rune_error, 0)
unfolding decode_rune follows lead
decode_bad a cs h = rw (h, decode_rune) refl

latin_bad : (n : ℕ) → decode_rune 0xE9 (latin n) ≡ (rune_error, 0)
latin_bad zero = decode_bad b'<' (codes "/body>") refl
latin_bad (suc n) = decode_bad 0xE9 (latin n) refl

map_latin :
    (lower : ℕ → ℕ) (n : ℕ)
    → lower rune_error ≡ rune_error
    → map_runes lower 0 marker ≡ marker
    → map_runes lower 0 (latin n) ≡ replaced n
unfolding map_runes encode_rune
map_latin lower zero e m = m
map_latin lower (suc n) e m =
    rw (latin_bad n, map_runes, e) (ap (λ t. 0xEF ∷ 0xBF ∷ 0xBD ∷ t) (map_latin lower n e m))

index_replaced : (n : ℕ) → last_index (replaced n) marker ≡ some (3 * n)
unfolding last_index has_prefix
index_replaced zero = refl
index_replaced (suc n) = rw (index_replaced n, last_index) (ap some (omega arith))

length-latin : (n : ℕ) → length (latin n) ≡ n + 7
length-latin zero = refl
length-latin (suc n) = omega (arith, length-latin n)

-- A document that is not UTF-8 can make splice panic, if unicode.ToLower keeps RuneError and the
-- letters of the closing body tag: four or more bytes é of Latin-1 before that tag do, since the index
-- is one of the lower-case copy, where each of them has become three bytes.
pub splice_panics :
    (lower : ℕ → ℕ) (n : ℕ) (tag : Bytes)
    → lower rune_error ≡ rune_error
    → map_runes lower 0 marker ≡ marker
    → 4 ≤ n
    → splice lower (latin n) tag ≡ panics
unfolding splice bytes_to_lower
splice_panics lower zero tag e m l = absurd (omega (arith, l))
splice_panics lower (suc n) tag e m l =
    rw (map_latin lower (suc n) e m, splice, index_replaced (suc n), too_far) refl
  where
    too_far : leb (3 * suc n) (length (latin (suc n))) ≡ false
    too_far = ground (arith, length-latin (suc n))
