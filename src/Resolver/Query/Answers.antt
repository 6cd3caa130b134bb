-- ===== src/Resolver/Query/Answers.antt =====
-- What `queryDNS` accepts: a response with the query's id and success, and its address records.
use mathlib.Core.Path.{subst}
use vpnproxy.Base.{
  ℕ, ◌^◌, ◌<◌, List, [], ◌∷◌, ◌++◌, Option, none, some, ◌≡◌, ◌↔◌, refl, sym, ap, arith, Bytes, All,
}
use vpnproxy.Go.Duration.{Duration, IsPositive, times}
use vpnproxy.Resolver.Query.{
  Kind, Body, a_record, aaaa_record, other_record, Resource, Message, Dns, Wire, received, Attempt,
  DnsError, Queried, gave, failed_with, ◌>>=◌, or_err, Answer, seconds, addresses, received_bytes,
  check_response, query_dns,
}

-- A TTL is a uint32.
abbrev pub IsTtl : Resource → Type 0
IsTtl r = r.ttl < 2 ^ 32

seconds-IsPositive : (n : ℕ) → n < 2 ^ 32 → IsPositive (seconds n)
unfolding times
seconds-IsPositive n h = omega arith

addresses-IsPositive :
    (rs : List Resource) → All IsTtl rs → All (λ a. IsPositive a.ttl) (addresses rs)
unfolding addresses
addresses-IsPositive [] h = tt
addresses-IsPositive (r ∷ rs) (hr, h) =
    by_body r.body (seconds-IsPositive r.ttl hr) (addresses-IsPositive rs h)
  where
    by_body :
        (b : Body)
        → IsPositive (seconds r.ttl)
        → All (λ a. IsPositive a.ttl) (addresses rs)
        → All
            (λ a. IsPositive a.ttl)
            (elim b [
              | a_record ip ↦ (record { ip = ip; ttl = seconds r.ttl }) ∷ addresses rs
              | aaaa_record ip ↦ (record { ip = ip; ttl = seconds r.ttl }) ∷ addresses rs
              | other_record ↦ addresses rs
            ])
    by_body (a_record ip) p q = (p, q)
    by_body (aaaa_record ip) p q = (p, q)
    by_body other_record p q = q

or_err-gave {ℓ} :
    {A : Type ℓ} (o : Option A) (e : DnsError) {a : A} → or_err o e ≡ gave a → o ≡ some a
or_err-gave none e h = cc
or_err-gave (some b) e h = cc

-- A chain that gives a value has given one at its first step.
>>=-gave {ℓ κ} :
    {A : Type ℓ} (first : Queried A) {B : Type κ} (next : A → Queried B) {value : B}
    → (first >>= next) ≡ gave value
    → (a : A) × (first ≡ gave a) × (next a ≡ gave value)
>>=-gave (failed_with e) next h = cc
>>=-gave (gave a) next h = (a, refl, h)

received_bytes-gave : (w : Wire) {b : Bytes} → received_bytes w ≡ gave b → w ≡ received b
received_bytes-gave (received b) h = cc
received_bytes-gave _ h = cc

check_response-gave :
    (id : ℕ) (m : Message) {as' : List Answer}
    → check_response id m ≡ gave as'
    → (m.id ≡ id) × (m.rcode ≡ 0) × (as' ≡ addresses m.answers)
unfolding check_response
check_response-gave id m h = ground arith

-- The addresses that the records of a response list, in their order: the A and the AAAA records, each
-- with as many seconds as its TTL, and no other record.
pub data Lists : List Resource → List Answer → Type 0 where
  none_left : Lists [] []
  ipv4 :
      (ip : Bytes) (n : ℕ) {rs : List Resource} {as' : List Answer}
      → Lists rs as'
      → Lists
          ((record { ttl = n; body = a_record ip }) ∷ rs)
          ((record { ip = ip; ttl = times n 1_000_000_000 }) ∷ as')
  ipv6 :
      (ip : Bytes) (n : ℕ) {rs : List Resource} {as' : List Answer}
      → Lists rs as'
      → Lists
          ((record { ttl = n; body = aaaa_record ip }) ∷ rs)
          ((record { ip = ip; ttl = times n 1_000_000_000 }) ∷ as')
  other :
      (n : ℕ) {rs : List Resource} {as' : List Answer}
      → Lists rs as'
      → Lists ((record { ttl = n; body = other_record }) ∷ rs) as'

addresses-Lists : (rs : List Resource) → Lists rs (addresses rs)
unfolding addresses
addresses-Lists [] = none_left
addresses-Lists (r ∷ rs) = by_body r.body (addresses-Lists rs)
  where
    by_body :
        (b : Body)
        → Lists rs (addresses rs)
        → Lists ((record { ttl = r.ttl; body = b }) ∷ rs) (elim b [
          | a_record ip ↦ (record { ip = ip; ttl = seconds r.ttl }) ∷ addresses rs
          | aaaa_record ip ↦ (record { ip = ip; ttl = seconds r.ttl }) ∷ addresses rs
          | other_record ↦ addresses rs
        ])
    by_body (a_record ip) l = ipv4 ip r.ttl l
    by_body (aaaa_record ip) l = ipv6 ip r.ttl l
    by_body other_record l = other r.ttl l

Lists-addresses : {rs : List Resource} {as' : List Answer} → Lists rs as' → as' ≡ addresses rs
unfolding addresses
Lists-addresses none_left = refl
Lists-addresses (ipv4 ip n l) = rw (Lists-addresses l) refl
Lists-addresses (ipv6 ip n l) = rw (Lists-addresses l) refl
Lists-addresses (other n l) = Lists-addresses l

check_response-give :
    (id : ℕ) (m : Message)
    → m.id ≡ id
    → m.rcode ≡ 0
    → check_response id m ≡ gave (addresses m.answers)
unfolding check_response
check_response-give id m h k = ground arith

module _ (dns : Dns) (env : Attempt) (server name : Bytes) (kind : Kind) (timeout : Duration) where
  -- What an answer rests on.
  pub record Succeeds (as' : List Answer) : Type 0 where
    pub qname : Bytes
    pub id : ℕ
    pub packet : Bytes
    pub response : Bytes
    pub message : Message
    pub named : dns.new_name (name ++ b'.' ∷ []) ≡ some qname
    pub drawn : env.random_id ≡ some id
    pub packed : dns.pack id qname kind ≡ some packet
    pub answered : env.exchange server timeout packet ≡ received response
    pub parsed : dns.unpack response ≡ some message
    pub same_id : message.id ≡ id
    pub success : message.rcode ≡ 0
    pub all : Lists message.answers as'

  succeeds :
      {as' : List Answer} → query_dns dns env server name kind timeout ≡ gave as' → Succeeds as'
  unfolding query_dns
  succeeds h =
      let (qname, e₁, h₁) = >>=-gave (or_err (dns.new_name (name ++ b'.' ∷ [])) _) _ h in
      let (id, e₂, h₂) = >>=-gave (or_err env.random_id _) _ h₁ in
      let (packet, e₃, h₃) = >>=-gave (or_err (dns.pack id qname kind) _) _ h₂ in
      let (response, e₄, h₄) =
        >>=-gave (received_bytes (env.exchange server timeout packet)) _ h₃ in
      let (message, e₅, h₅) = >>=-gave (or_err (dns.unpack response) _) _ h₄ in
      let (same, code, all) = check_response-gave id message h₅ in
      record {
        qname = qname;
        id = id;
        packet = packet;
        response = response;
        message = message;
        named = or_err-gave _ _ e₁;
        drawn = or_err-gave _ _ e₂;
        packed = or_err-gave _ _ e₃;
        answered = received_bytes-gave _ e₄;
        parsed = or_err-gave _ _ e₅;
        same_id = same;
        success = code;
        all = subst (Lists message.answers) (sym all) (addresses-Lists message.answers);
      }

  gives : {as' : List Answer} → Succeeds as' → query_dns dns env server name kind timeout ≡ gave as'
  unfolding query_dns
  gives s =
      rw
        (
          s.named,
          s.drawn,
          s.packed,
          s.answered,
          s.parsed,
          check_response-give s.id s.message s.same_id s.success,
        )
        (ap gave (sym (Lists-addresses s.all)))

  -- A query gives these answers exactly when the name is valid, an id was drawn, and the query for the name
  -- with this id, sent to this server, was answered by a packet that parses whole as a message with the
  -- same id and the code of success, whose address records these are: all A and AAAA records in their
  -- order, each with its TTL in seconds, and no other.
  pub query_dns-ok :
      (as' : List Answer) → (query_dns dns env server name kind timeout ≡ gave as') ↔ Succeeds as'
  query_dns-ok as' = (succeeds, gives)

  pub query_dns-IsPositive :
      {as' : List Answer}
      → ((b : Bytes) (m : Message) → dns.unpack b ≡ some m → All IsTtl m.answers)
      → query_dns dns env server name kind timeout ≡ gave as'
      → All (λ a. IsPositive a.ttl) as'
  query_dns-IsPositive law h =
      let s = succeeds h in
      rw (Lists-addresses s.all)
        (addresses-IsPositive s.message.answers (law s.response s.message s.parsed))
