-- ===== src/Resolver/Query.antt =====
-- `queryDNS` of resolver.go: one query to one server. The package dnsmessage is not part of the
-- repository: its operations are parameters. The network and the random source are the environment of
-- an attempt.
pub mod Answers
use vpnproxy.Base.{
  ℕ, ◌+◌, ◌*◌, Bool, true, false, not, List, [], ◌∷◌, ◌++◌, Option, none, some, Bytes, ◌==◌,
  if◌then◌else◌,
}
use vpnproxy.Go.Duration.{Duration, times}
use vpnproxy.Resolver.Ip.{Ip}

-- dnsmessage.TypeA and dnsmessage.TypeAAAA.
pub data Kind : Type 0 where
  type_a type_aaaa : Kind

-- The body of a resource record in a response.
pub data Body : Type 0 where
  a_record aaaa_record : Bytes → Body
  other_record : Body

pub record Resource : Type 0 where
  pub ttl : ℕ
  pub body : Body

pub record Message : Type 0 where
  pub id : ℕ
  pub rcode : ℕ
  pub answers : List Resource

-- `dnsmessage.NewName`, `Message.Pack` of a recursive query with this id, and `Message.Unpack`.
pub record Dns : Type 0 where
  pub new_name : Bytes → Option Bytes
  pub pack : ℕ → Bytes → Kind → Option Bytes
  pub unpack : Bytes → Option Message

-- How far an exchange with a server gets.
pub data Wire : Type 0 where
  undialed unsent unread : Wire
  received : Bytes → Wire

-- The environment of one attempt: the random id, and what the server, given so long, answers to
-- a packet.
pub record Attempt : Type 0 where
  pub random_id : Option ℕ
  pub exchange : Bytes → Duration → Bytes → Wire

pub data DnsError : Type 0 where
  invalid_hostname no_random not_built not_dialed not_sent not_read not_parsed mismatched_id :
      DnsError
  bad_rcode : ℕ → DnsError

-- A value, or the error of the first step that failed.
pub data Queried {ℓ} (A : Type ℓ) : Type ℓ where
  failed_with : DnsError → Queried A
  gave : A → Queried A

infixl 5 ◌>>=◌
abbrev pub ◌>>=◌ {ℓ κ} : {A : Type ℓ} → Queried A → {B : Type κ} → (A → Queried B) → Queried B
failed_with e >>= next = failed_with e
gave value >>= next = next value

abbrev pub or_err {ℓ} : {A : Type ℓ} → Option A → DnsError → Queried A
or_err none e = failed_with e
or_err (some a) e = gave a

pub record Answer : Type 0 where
  pub ip : Ip
  pub ttl : Duration

-- `time.Duration(ans.Header.TTL) * time.Second`
abbrev pub seconds : ℕ → Duration
seconds n = times n 1_000_000_000

-- The loop over `resp.Answers`.
unfoldable pub addresses : List Resource → List Answer
addresses [] = []
addresses (r ∷ rs) = elim r.body [
  | a_record ip ↦ (record { ip = ip; ttl = seconds r.ttl }) ∷ addresses rs
  | aaaa_record ip ↦ (record { ip = ip; ttl = seconds r.ttl }) ∷ addresses rs
  | other_record ↦ addresses rs
]

abbrev pub received_bytes : Wire → Queried Bytes
received_bytes undialed = failed_with not_dialed
received_bytes unsent = failed_with not_sent
received_bytes unread = failed_with not_read
received_bytes (received b) = gave b

-- The checks on a response, in their order.
unfoldable pub check_response : ℕ → Message → Queried (List Answer)
unfolding addresses
check_response id m =
    if not (m.id == id)
    then failed_with mismatched_id
    else if not (m.rcode == 0)
    then failed_with (bad_rcode m.rcode)
    else gave (addresses m.answers)

module _ (dns : Dns) where
  unfoldable pub query_dns : Attempt → Bytes → Bytes → Kind → Duration → Queried (List Answer)
  unfolding check_response
  query_dns env server name kind timeout = do
    qname ← or_err (dns.new_name (name ++ b'.' ∷ [])) invalid_hostname
    id ← or_err env.random_id no_random
    packed ← or_err (dns.pack id qname kind) not_built
    response ← received_bytes (env.exchange server timeout packed)
    message ← or_err (dns.unpack response) not_parsed
    check_response id message
