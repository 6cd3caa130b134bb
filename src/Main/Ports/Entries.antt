-- ===== src/Main/Ports/Entries.antt =====
-- What `parsePorts` accepts.
use vpnproxy.Base.{
  ℕ, ◌≤◌, List, [], ◌∷◌, ◌++◌, append-nil, append_assoc, Option, none, some, ◌≡◌, ◌≢◌, inl, inr,
  refl, ap, sym, ◌∙◌, arith, Bytes, Option-cases,
}
use vpnproxy.Go.Text.{split, trim_space}
use vpnproxy.Go.Strconv.{ℤ, pos, negsuc, atoi}
use vpnproxy.Main.Ports.{Ports, ports, invalid_port, no_port, port_of, parse_entries, parse_ports}

abbrev pub IsPort : ℕ → Type 0
IsPort n = (1 ≤ n) × (n ≤ 65535)

port_of-IsPort : (z : Option ℤ) (n : ℕ) → port_of z ≡ some n → IsPort n × (z ≡ some (pos n))
port_of-IsPort none n e = cc
port_of-IsPort (some (negsuc m)) n e = cc
port_of-IsPort (some (pos m)) n e = ground arith

-- The entries name these ports, in order: each is blank, or a decimal number that is a port.
pub data Reads : List Bytes → List ℕ → Type 0 where
  done : Reads [] []
  blank :
      {p : Bytes} {ps : List Bytes} {ns : List ℕ}
      → trim_space p ≡ []
      → Reads ps ns
      → Reads (p ∷ ps) ns
  port :
      {p : Bytes} {ps : List Bytes} {n : ℕ} {ns : List ℕ}
      → atoi (trim_space p) ≡ some (pos n)
      → IsPort n
      → Reads ps ns
      → Reads (p ∷ ps) (n ∷ ns)

-- The first entry that is neither blank nor a port is `bad`, with its space trimmed.
pub data Refuses (bad : Bytes) : List Bytes → Type 0 where
  at_once :
      {p : Bytes} {ps : List Bytes}
      → trim_space p ≡ bad
      → bad ≢ []
      → ((n : ℕ) → IsPort n → atoi bad ≢ some (pos n))
      → Refuses bad (p ∷ ps)
  behind_blank :
      {p : Bytes} {ps : List Bytes} → trim_space p ≡ [] → Refuses bad ps → Refuses bad (p ∷ ps)
  behind_port :
      {p : Bytes} {ps : List Bytes} {n : ℕ}
      → atoi (trim_space p) ≡ some (pos n)
      → IsPort n
      → Refuses bad ps
      → Refuses bad (p ∷ ps)

port_of-none : (z : Option ℤ) (n : ℕ) → port_of z ≡ none → IsPort n → z ≢ some (pos n)
port_of-none none n e h eq = cc
port_of-none (some (negsuc m)) n e h eq = cc
port_of-none (some (pos m)) n e h eq = ground arith

-- What each result says of the entries, behind the ports found before.
abbrev pub Says : List Bytes → List ℕ → Ports → Type 0
Says ps found (ports ns) = (ms : List ℕ) × (ns ≡ found ++ ms) × (ns ≢ []) × Reads ps ms
Says ps found (invalid_port bad) = Refuses bad ps
Says ps found no_port = (found ≡ []) × Reads ps []

Says-blank :
    (p : Bytes) (ps : List Bytes) (found : List ℕ) (r : Ports)
    → trim_space p ≡ []
    → Says ps found r
    → Says (p ∷ ps) found r
Says-blank p ps found (ports ns) e (ms, eq, ne, r) = (ms, eq, ne, blank e r)
Says-blank p ps found (invalid_port bad) e r = behind_blank e r
Says-blank p ps found no_port e (eq, r) = (eq, blank e r)

snoc-ne-nil : (ns : List ℕ) (n : ℕ) → ns ++ n ∷ [] ≢ []
snoc-ne-nil [] n e = cc
snoc-ne-nil (m ∷ ns) n e = cc

Says-port :
    (p : Bytes) (ps : List Bytes) (found : List ℕ) (n : ℕ) (r : Ports)
    → atoi (trim_space p) ≡ some (pos n)
    → IsPort n
    → Says ps (found ++ n ∷ []) r
    → Says (p ∷ ps) found r
Says-port p ps found n (ports ns) e h (ms, eq, ne, r) =
    (n ∷ ms, eq ∙ append_assoc found (n ∷ []) ms, ne, port e h r)
Says-port p ps found n (invalid_port bad) e h r = behind_port e h r
Says-port p ps found n no_port e h (eq, r) = absurd (snoc-ne-nil found n eq)

parse_entries-Says : (ps : List Bytes) (found : List ℕ) → Says ps found (parse_entries ps found)
unfolding parse_entries
parse_entries-Says [] [] = (refl, done)
parse_entries-Says [] (n ∷ found) = ([], sym (append-nil (n ∷ found)), (λ e. cc), done)
parse_entries-Says (p ∷ ps) found =
    entry (trim_space p) refl (λ n. parse_entries-Says ps (found ++ n ∷ []))
      (parse_entries-Says ps found)
  where
    entry :
        (t : Bytes)
        → trim_space p ≡ t
        → ((n : ℕ) → Says ps (found ++ n ∷ []) (parse_entries ps (found ++ n ∷ [])))
        → Says ps found (parse_entries ps found)
        → Says (p ∷ ps) found (parse_entries (p ∷ ps) found)
    entry [] e later same = rw (parse_entries, e) (Says-blank p ps found _ e same)
    entry (c ∷ s) e later same = elim (Option-cases (port_of (atoi (c ∷ s)))) [
      | inl bad ↦
          rw (parse_entries, e, bad) (at_once e (λ x. cc) (λ n. port_of-none (atoi (c ∷ s)) n bad))
      | inr (n, good) ↦
          let (h, read) = port_of-IsPort (atoi (c ∷ s)) n good in
          rw (parse_entries, e, good) (Says-port p ps found n _ (ap atoi e ∙ read) h (later n))
    ]

-- The result says exactly what the list holds: ports, if every entry is blank or a port, and then
-- these ports in order, at least one; the first entry that is neither, trimmed; or that all are blank.
pub parse_ports-Says : (s : Bytes) → Says (split s (b',' ∷ [])) [] (parse_ports s)
unfolding parse_ports
parse_ports-Says s = parse_entries-Says (split s (b',' ∷ [])) []
