-- ===== src/Tunnel/Windows/Bound/Agrees.antt =====
-- The socket options of both systems, compared (tunnel_windows.go, tunnel_darwin.go).
use vpnproxy.Base.{
  ℕ, ◌/◌, ◌%◌, ◌^◌, ◌<◌, false, [], ◌∷◌, ◌≡◌, refl, inl, inr, arith, Bytes, ◌==◌, Bool-cases,
}
use vpnproxy.Tunnel.{inet, inet6}
use vpnproxy.Tunnel.Windows.Bound.{
  is_ipv6_network, contains_6, put_uint32, load_uint32, store_uint32, bound_option,
  bound_option_darwin,
}

-- Only the last byte may be a 6, as in the networks of Go ("tcp", "tcp6", "udp4").
abbrev pub IsNetwork : Bytes → Type 0
IsNetwork [] = Unit
IsNetwork (c ∷ []) = Unit
IsNetwork (c ∷ d ∷ s) = ((c == b'6') ≡ false) × IsNetwork (d ∷ s)

contains_6-network :
    (network : Bytes) → IsNetwork network → contains_6 network ≡ is_ipv6_network network
unfolding contains_6 is_ipv6_network
contains_6-network [] h = refl
contains_6-network (c ∷ []) h = elim (Bool-cases (c == b'6')) [
  | inl e ↦ rw e refl
  | inr e ↦ rw e refl
]
contains_6-network (c ∷ d ∷ s) (e, h) = rw e (contains_6-network (d ∷ s) h)

store-load-put : (v : ℕ) → store_uint32 (load_uint32 (put_uint32 v)) ≡ put_uint32 v
unfolding store_uint32 load_uint32 put_uint32
store-load-put v =
    stored (v / 16_777_216 % 256) (v / 65_536 % 256) (v / 256 % 256) (v % 256) (omega arith)
      (omega arith) (omega arith) (omega arith)
  where
    four :
        {a b c d a' b' c' d' : ℕ}
        → a ≡ a'
        → b ≡ b'
        → c ≡ c'
        → d ≡ d'
        → ◌≡◌ {A = Bytes} (a ∷ b ∷ c ∷ d ∷ []) (a' ∷ b' ∷ c' ∷ d' ∷ [])
    four ea eb ec ed = cc

    stored :
        (a b c d : ℕ)
        → a < 256
        → b < 256
        → c < 256
        → d < 256
        → store_uint32 (load_uint32 (a ∷ b ∷ c ∷ d ∷ [])) ≡ a ∷ b ∷ c ∷ d ∷ []
    stored a b c d ha hb hc hd = four (omega arith) (omega arith) (omega arith) (omega arith)

-- For every network of Go (a 6 stands in it as its last byte only), the two systems choose the same
-- family. On macOS, and on Windows for IPv6, the option's value is the interface's index, as 32 bits; on
-- Windows for IPv4, its bytes in memory are those of the index in network byte order.
pub bound_option_agrees :
    (network : Bytes) (if_index : ℕ)
    → IsNetwork network
    → ((bound_option network if_index).family ≡ (bound_option_darwin network if_index).family)
      × ((bound_option_darwin network if_index).value ≡ if_index % 2 ^ 32)
      × ((bound_option network if_index).family ≡ inet6
          → (bound_option network if_index).value ≡ if_index % 2 ^ 32)
      × ((bound_option network if_index).family ≡ inet
          → store_uint32 (bound_option network if_index).value ≡ put_uint32 (if_index % 2 ^ 32))
unfolding bound_option bound_option_darwin
bound_option_agrees network if_index h =
    rw (contains_6-network network h) elim (Bool-cases (is_ipv6_network network)) [
      | inl six ↦ rw six (refl, refl, (λ e. refl), (λ e. absurd (cc e)))
      | inr four ↦
          rw four (refl, refl, (λ e. absurd (cc e)), λ e. store-load-put (if_index % 2 ^ 32))
    ]
