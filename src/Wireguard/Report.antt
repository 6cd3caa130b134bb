-- ===== src/Wireguard/Report.antt =====
-- The report of a WireGuard device, as its `IpcGet` writes it (the configuration protocol of WireGuard's
-- cross-platform interface), and the status that it tells of each peer.
use vpnproxy.Base.{
  ℕ, zero, suc, ◌^◌, ◌<◌, false, List, [], ◌∷◌, ◌++◌, map, Option, none, some, ◌≡◌, Bytes, codes,
  All,
}
use vpnproxy.Go.Text.{equal}
use vpnproxy.Go.Text.Laws.{Lacks}
use vpnproxy.Go.Strconv.{itoa}
use vpnproxy.Wireguard.{Prefix, PeerStatus}

-- A line is a key and a value.
pub record Field : Type 0 where
  pub key : Bytes
  pub val : Bytes

abbrev pub field : Bytes → Bytes → Field
field key val = record { key = key; val = val }

abbrev pub line : Field → Bytes
line f = f.key ++ b'=' ∷ f.val

abbrev pub text : List Field → Bytes
text [] = []
text (f ∷ fs) = line f ++ b'\n' ∷ text fs

-- A line that starts no peer.
pub record IsField (f : Field) : Type 0 where
  pub key_ends : Lacks b'=' f.key
  pub no_peer : equal f.key (codes "public_key") ≡ false
  pub one_line : Lacks b'\n' (line f)

-- What a device knows of an allowed IP: its text and the prefix it stands for.
pub record Allowed : Type 0 where
  pub cidr : Bytes
  pub prefix : Prefix

-- What a device reports of a peer.
pub record Report : Type 0 where
  pub public_key : Bytes
  pub preshared_key : Bytes
  pub endpoint : Option Bytes
  pub seconds : ℕ
  pub nanoseconds : ℕ
  pub tx : ℕ
  pub rx : ℕ
  pub keepalive : ℕ
  pub allowed : List Allowed

abbrev pub endpoint_fields : Option Bytes → List Field
endpoint_fields none = []
endpoint_fields (some e) = field (codes "endpoint") e ∷ []

abbrev pub counter_fields : Report → List Field
counter_fields r =
    field (codes "last_handshake_time_sec") (itoa r.seconds)
    ∷ field (codes "last_handshake_time_nsec") (itoa r.nanoseconds)
    ∷ field (codes "tx_bytes") (itoa r.tx)
    ∷ field (codes "rx_bytes") (itoa r.rx)
    ∷ field (codes "persistent_keepalive_interval") (itoa r.keepalive)
    ∷ []

abbrev pub allowed_field : Allowed → Field
allowed_field a = field (codes "allowed_ip") a.cidr

-- The lines of a peer behind its first, in the order of the device.
abbrev pub peer_fields : Report → List Field
peer_fields r =
    field (codes "preshared_key") r.preshared_key
    ∷ field (codes "protocol_version") (codes "1")
    ∷ (endpoint_fields r.endpoint ++ (counter_fields r ++ map allowed_field r.allowed))

abbrev pub report_fields : Report → List Field
report_fields r = field (codes "public_key") r.public_key ∷ peer_fields r

abbrev pub reports : List Report → List Field
reports [] = []
reports (r ∷ rs) = report_fields r ++ reports rs

-- The status that a report tells.
abbrev pub endpoint_of : Option Bytes → Bytes
endpoint_of none = []
endpoint_of (some e) = e

abbrev pub time_of : ℕ → Option ℕ
time_of zero = none
time_of (suc n) = some (suc n)

abbrev pub status : Report → PeerStatus
status r = record {
  endpoint = endpoint_of r.endpoint;
  allowed_ips = map (λ a. a.prefix) r.allowed;
  last_handshake = time_of r.seconds;
  tx_bytes = r.tx;
  rx_bytes = r.rx;
}

module _ (parse_prefix : Bytes → Option Prefix) where
  -- A report of a device: no value holds a line end, the numbers have their types, and the prefixes
  -- are read.
  pub record IsReport (r : Report) : Type 0 where
    pub key_line : Lacks b'\n' r.public_key
    pub preshared_line : Lacks b'\n' r.preshared_key
    pub endpoint_line : Lacks b'\n' (endpoint_of r.endpoint)
    pub seconds_size : r.seconds < 2 ^ 63
    pub tx_size : r.tx < 2 ^ 64
    pub rx_size : r.rx < 2 ^ 64
    pub allowed_lines :
        All (λ a. Lacks b'\n' a.cidr × (parse_prefix a.cidr ≡ some a.prefix)) r.allowed
