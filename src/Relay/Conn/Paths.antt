-- ===== src/Relay/Conn/Paths.antt =====
-- The paths through `relayConn`.
use vpnproxy.Base.{
  ℕ, ◌<◌, ◌⊎◌, All, Memᴰ, arith, Bool, true, false, List, [], ◌∷◌, ◌++◌, Option, none, some, ◌≡◌,
  ◌≢◌, inl, inr, refl, Bytes, Bool-cases, Option-cases,
}
use vpnproxy.Go.Net.{join_host_port}
use vpnproxy.Go.Strconv.{itoa}
use vpnproxy.Relay.Peek.{Reader, flat, content, peek_hostname}
use vpnproxy.Relay.Peek.Replay.{content-peek_hostname}
use vpnproxy.Relay.Conn.{
  Action, resolves, dials, splices, closes_upstream, closes_client, pick_host, dial_target,
  resolve_host, relay_conn,
}

module _ (resolve : Bytes → Option Bytes) (dial : Bytes → Bool) where
  -- The four ways in which a connection can go, each with the facts that lead to it.
  pub data Course (host : Bytes) (port : ℕ) (reader : Reader) : List Action → Type 0 where
    no_host : host ≡ [] → Course host port reader (closes_client ∷ [])
    unresolved :
        host ≢ []
        → resolve host ≡ none
        → Course host port reader (resolves host ∷ closes_client ∷ [])
    undialed :
        (target : Bytes)
        → host ≢ []
        → resolve host ≡ some target
        → dial (join_host_port target (itoa port)) ≡ false
        → Course host port reader
            (resolves host ∷ dials (join_host_port target (itoa port)) ∷ closes_client ∷ [])
    relayed :
        (target : Bytes)
        → host ≢ []
        → resolve host ≡ some target
        → dial (join_host_port target (itoa port)) ≡ true
        → Course host port reader (
            resolves host
            ∷ dials (join_host_port target (itoa port))
            ∷ splices reader
            ∷ closes_upstream
            ∷ closes_client
            ∷ [])

  resolve_host-Course :
      (reader : Reader) (host : Bytes) (port : ℕ)
      → Course host port reader (resolve_host resolve dial reader host port ++ closes_client ∷ [])
  unfolding resolve_host dial_target
  resolve_host-Course reader [] port = no_host refl
  resolve_host-Course reader (c ∷ s) port = elim (Option-cases (resolve (c ∷ s))) [
    | inl lost ↦ rw lost (unresolved (λ e. cc) lost)
    | inr (target, found) ↦ elim (Bool-cases (dial (join_host_port target (itoa port)))) [
      | inl up ↦ rw (found, up) (relayed target (λ e. cc) found up)
      | inr down ↦ rw (found, down) (undialed target (λ e. cc) found down)
    ]
  ]

  pub relay_conn-Course :
      (in_time : Bool) (pieces : List Bytes) (fallback : Bytes) (port : ℕ)
      → Course
          (pick_host (peek_hostname in_time pieces).1 fallback)
          port
          (peek_hostname in_time pieces).0
          (relay_conn resolve dial in_time pieces fallback port)
        × (content (peek_hostname in_time pieces).0 ≡ flat pieces)
  unfolding relay_conn
  relay_conn-Course in_time pieces fallback port = (
    resolve_host-Course _ (pick_host (peek_hostname in_time pieces).1 fallback) port,
    content-peek_hostname in_time pieces,
  )

-- The order in which a connection does things.
abbrev pub rank : Action → ℕ
rank (resolves host) = 0
rank (dials target) = 1
rank (splices reader) = 2
rank closes_upstream = 3
rank closes_client = 4

-- Each action stands before the later ones, and none is done twice.
abbrev pub Rises : List Action → Type 0
Rises [] = Unit
Rises (a ∷ as') = All (λ b. rank a < rank b) as' × Rises as'

-- The host of a connection: the sniffed one, or the fallback where nothing was sniffed.
abbrev pub IsPicked : Bytes → Bytes → Bytes → Type 0
IsPicked sniffed fallback host =
    ((sniffed ≢ []) × (host ≡ sniffed)) ⊎ ((sniffed ≡ []) × (host ≡ fallback))

pick_host-IsPicked :
    (sniffed fallback : Bytes) → IsPicked sniffed fallback (pick_host sniffed fallback)
pick_host-IsPicked [] fallback = inr (refl, refl)
pick_host-IsPicked (c ∷ s) fallback = inl ((λ e. cc e), refl)

module _ (resolve : Bytes → Option Bytes) (dial : Bytes → Bool) (host : Bytes) (port : ℕ)
    (sent : Bytes) where
  -- The upstream that a dial reaches, or does not.
  abbrev pub Leads : Bool → Type 0
  Leads up =
      (host ≢ [])
      × ((target : Bytes) × (resolve host ≡ some target)
          × (dial (join_host_port target (itoa port)) ≡ up))

  -- What the connection may do, and what it then does it with.
  abbrev pub IsAllowed : Action → Type 0
  IsAllowed (resolves name) = (name ≡ host) × (host ≢ [])
  IsAllowed (dials dst) =
      (target : Bytes) × (resolve host ≡ some target) × (dst ≡ join_host_port target (itoa port))
  IsAllowed (splices reader) = (content reader ≡ sent) × Leads true
  IsAllowed closes_upstream = Leads true
  IsAllowed closes_client = Unit

  -- The actions lead to a spliced upstream that is closed, or there is a reason why not.
  abbrev pub IsExplained : List Action → Type 0
  IsExplained as' =
      ((reader : Reader) × Memᴰ (splices reader) as' × Memᴰ closes_upstream as')
      ⊎ ((host ≡ []) ⊎ ((resolve host ≡ none) ⊎ Leads false))

  abbrev pub IsOrderly : List Action → Type 0
  IsOrderly as' =
      Rises as'
      × ((before : List Action) × (as' ≡ before ++ closes_client ∷ []))
      × All IsAllowed as'
      × IsExplained as'

  Course-IsOrderly :
      (reader : Reader) {as' : List Action}
      → content reader ≡ sent
      → Course resolve dial host port reader as'
      → IsOrderly as'
  Course-IsOrderly reader whole (no_host e) = ((tt, tt), ([], refl), (tt, tt), inr (inl e))
  Course-IsOrderly reader whole (unresolved h lost) =
      ((omega arith, (tt, tt)), (_ ∷ [], refl), ((refl, h), (tt, tt)), inr (inr (inl lost)))
  Course-IsOrderly reader whole (undialed target h found down) = (
    (omega arith, (omega arith, (tt, tt))),
    (_ ∷ _ ∷ [], refl),
    ((refl, h), ((target, found, refl), (tt, tt))),
    inr (inr (inr (h, (target, found, down)))),
  )
  Course-IsOrderly reader whole (relayed target h found up) =
      let leads : Leads true = (h, (target, found, up)) in
      (
        (omega arith, (omega arith, (omega arith, (omega arith, (tt, tt))))),
        (_ ∷ _ ∷ _ ∷ _ ∷ [], refl),
        ((refl, h), ((target, found, refl), ((whole, leads), (leads, (tt, tt))))),
        inl (
          reader,
          Memᴰ.tail (Memᴰ.tail (Memᴰ.head refl)),
          Memᴰ.tail (Memᴰ.tail (Memᴰ.tail (Memᴰ.head refl))),
        ),
      )

-- For every client, fallback, resolver and network: the host of a connection is the sniffed one, or the
-- fallback where nothing was sniffed. The connection resolves, dials, splices, closes the upstream and
-- closes the client in this order, each at most once; the client is closed on every path, and last. Only
-- that host is resolved, only its address is dialed, at the listener's port, and only a successful dial is
-- spliced and closed; what is spliced delivers all that the client sent, with the bytes that were peeked
-- at. And where nothing is spliced and closed, there is no host, it is not resolved, or its dial fails.
pub relay_conn-IsOrderly :
    (resolve : Bytes → Option Bytes) (dial : Bytes → Bool) (in_time : Bool) (pieces : List Bytes)
    (fallback : Bytes) (port : ℕ)
    → (host : Bytes) × IsPicked (peek_hostname in_time pieces).1 fallback host
      × IsOrderly resolve dial host port
          (flat pieces)
          (relay_conn resolve dial in_time pieces fallback port)
relay_conn-IsOrderly resolve dial in_time pieces fallback port =
    let (course, whole) = relay_conn-Course resolve dial in_time pieces fallback port in
    let sniffed = (peek_hostname in_time pieces).1 in
    (
      pick_host sniffed fallback,
      pick_host-IsPicked sniffed fallback,
      Course-IsOrderly resolve dial (pick_host sniffed fallback) port (flat pieces) _ whole course,
    )
