-- ===== src/Vault/Html.antt =====
-- `htmlEscape` of vault.go, which puts an error's text on a page.
use vpnproxy.Go.Text.{has_prefix}
use vpnproxy.Base.{
  ℕ, zero, suc, false, ◌||◌, [], ◌∷◌, ◌++◌, ◌≡◌, Bytes, codes, ◌==◌, if◌then◌else◌, All,
}

-- The replacements of `strings.NewReplacer`.
abbrev pub escape : ℕ → Bytes
escape c =
    if c == b'&'
    then codes "&amp;"
    else if c == b'<'
    then codes "&lt;"
    else if c == b'>'
    then codes "&gt;"
    else if c == b'"'
    then codes "&quot;"
    else c ∷ []

unfoldable pub html_escape : Bytes → Bytes
html_escape [] = []
html_escape (c ∷ s) = escape c ++ html_escape s

-- How a page shows a text: each of the four references, spelled to its semicolon, as its character, and
-- every other byte as itself. `skipped` bytes of a reference are still to come.
unfoldable pub shown : ℕ → Bytes → Bytes
unfolding has_prefix
shown skipped [] = []
shown (suc skipped) (c ∷ s) = shown skipped s
shown zero (c ∷ s) =
    if has_prefix (c ∷ s) (codes "&amp;")
    then b'&' ∷ shown 4 s
    else if has_prefix (c ∷ s) (codes "&lt;")
    then b'<' ∷ shown 3 s
    else if has_prefix (c ∷ s) (codes "&gt;")
    then b'>' ∷ shown 3 s
    else if has_prefix (c ∷ s) (codes "&quot;")
    then b'"' ∷ shown 5 s
    else c ∷ shown zero s

-- No byte that begins or ends a tag, or an attribute's value.
abbrev pub IsInert : ℕ → Type 0
IsInert c = (c == b'<' || c == b'>' || c == b'"') ≡ false

module _ (rest : Bytes) where
  abbrev Shows : ℕ → Type 0
  Shows c = (shown zero (escape c ++ rest) ≡ c ∷ shown zero rest) × All IsInert (escape c)
