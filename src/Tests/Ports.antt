-- ===== src/Tests/Ports.antt =====
-- `parsePorts` on lists (main.go).
use vpnproxy.Base.{[], ◌∷◌, ◌≡◌, refl, codes}
use vpnproxy.Go.Text.{split, split_from, has_prefix, trim_space, trim_front}
use vpnproxy.Go.Strconv.{atoi, in_range, magnitude, scan}
use vpnproxy.Main.Ports.{ports, invalid_port, no_port, parse_entries, parse_ports}
use vpnproxy.Main.Ports.Entries.{Says, parse_ports-Says}

two_ports : parse_ports (codes " 443, 0080 ,,") ≡ ports (443 ∷ 80 ∷ [])
unfolding parse_ports parse_entries split split_from has_prefix trim_space trim_front atoi in_range
    magnitude scan
two_ports = refl

too_large : parse_ports (codes "443, 65536 ") ≡ invalid_port (codes "65536")
unfolding parse_ports parse_entries split split_from has_prefix trim_space trim_front atoi in_range
    magnitude scan
too_large = refl

all_blank : parse_ports (codes " ,") ≡ no_port
unfolding parse_ports parse_entries split split_from has_prefix trim_space trim_front atoi in_range
    magnitude scan
all_blank = refl

parse_ports-Says_example :
    Says (split (codes "443, x") (b',' ∷ [])) [] (parse_ports (codes "443, x"))
parse_ports-Says_example = parse_ports-Says (codes "443, x")
