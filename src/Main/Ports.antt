-- ===== src/Main/Ports.antt =====
-- `parsePorts` of main.go.
pub mod Entries
use vpnproxy.Base.{
  ℕ, Bool, true, false, ◌||◌, List, [], ◌∷◌, ◌++◌, Option, none, some, Bytes, codes, ltb, ◌==◌,
  if◌then◌else◌,
}
use vpnproxy.Go.Text.{split, trim_space}
use vpnproxy.Go.Strconv.{ℤ, pos, negsuc, atoi}

-- The ports, or which error: the entry that is no port, or that there is none.
pub data Ports : Type 0 where
  ports : List ℕ → Ports
  invalid_port : Bytes → Ports
  no_port : Ports

-- `err != nil || n <= 0 || n > 65535` is an error.
abbrev pub port_of : Option ℤ → Option ℕ
port_of none = none
port_of (some (negsuc n)) = none
port_of (some (pos n)) = if n == 0 || ltb 65535 n then none else some n

-- `p = strings.TrimSpace(p); if p == "" { continue }`, then the append.
unfoldable pub parse_entries : List Bytes → List ℕ → Ports
parse_entries [] [] = no_port
parse_entries [] (n ∷ found) = ports (n ∷ found)
parse_entries (p ∷ ps) found = elim (trim_space p) [
  | [] ↦ parse_entries ps found
  | c ∷ s ↦ elim (port_of (atoi (c ∷ s))) [
    | none ↦ invalid_port (c ∷ s)
    | some n ↦ parse_entries ps (found ++ n ∷ [])
  ]
]

unfoldable pub parse_ports : Bytes → Ports
parse_ports s = parse_entries (split s (b',' ∷ [])) []
