-- ===== src/Proxy/Splice.antt =====
-- splice of internal/proxy/http.go. `lower` is unicode.ToLower.
use dsh_fleet.Base.{
  ℕ, zero, suc, [], ◌∷◌, ◌++◌, Option, none, some, leb, if◌then◌else◌, Bytes, codes, length,
}
use dsh_fleet.Strings.{has_prefix}
use dsh_fleet.Utf8.Runes.{bytes_to_lower}
use dsh_fleet.Conn.State.{Run, runs, panics}

-- s[:n]
unfoldable pub take : ℕ → Bytes → Bytes
take zero s = []
take (suc n) [] = []
take (suc n) (a ∷ s) = a ∷ take n s

-- s[n:]
unfoldable pub drop : ℕ → Bytes → Bytes
drop zero s = s
drop (suc n) [] = []
drop (suc n) (a ∷ s) = drop n s

-- bytes.LastIndex(s, p); `none` for -1
unfoldable pub last_index : Bytes → Bytes → Option ℕ
unfolding has_prefix
last_index [] p = if has_prefix [] p then some 0 else none
last_index (a ∷ s) p = elim (last_index s p) [
  | some n ↦ some (suc n)
  | none ↦ if has_prefix (a ∷ s) p then some 0 else none
]

abbrev pub marker : Bytes
marker = codes "</body>"

-- splice; a slice of the document beyond its end panics.
unfoldable pub splice : (ℕ → ℕ) → Bytes → Bytes → Run Bytes
unfolding last_index bytes_to_lower take drop
splice lower document tag = elim (last_index (bytes_to_lower lower document) marker) [
  | none ↦ runs (document ++ tag)
  | some at ↦
      if leb at (length document)
      then runs (take at document ++ tag ++ drop at document)
      else panics
]
