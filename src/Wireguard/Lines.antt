-- ===== src/Wireguard/Lines.antt =====
-- The lines of a report are lines of one field each, none of which starts a peer but the first.
use vpnproxy.Base.{
  ℕ, false, List, [], ◌∷◌, map, Option, none, some, ◌≡◌, ◌≢◌, refl, arith, Bytes, codes, All,
  All-append,
}
use vpnproxy.Go.Text.{equal}
use vpnproxy.Go.Text.Laws.{Lacks}
use vpnproxy.Go.Strconv.{itoa}
use vpnproxy.Go.Strconv.Laws.{IsDigit, itoa-IsDigit}
use vpnproxy.Wireguard.{Prefix}
use vpnproxy.Wireguard.Report.{
  field, IsField, Allowed, Report, endpoint_fields, counter_fields, allowed_field, peer_fields,
  endpoint_of, IsReport,
}

module _ (parse_prefix : Bytes → Option Prefix) where
  field-IsField :
      (key val : Bytes)
      → Lacks b'=' key
      → Lacks b'\n' key
      → equal key (codes "public_key") ≡ false
      → Lacks b'\n' val
      → IsField (field key val)
  field-IsField key val ends whole other one = record {
    key_ends = ends;
    no_peer = other;
    one_line = All-append (λ c. c ≢ b'\n') key (b'=' ∷ val) whole (omega arith, one);
  }

  itoa-Lacks : (n : ℕ) → Lacks b'\n' (itoa n)
  itoa-Lacks n = digits-Lacks (itoa n) (itoa-IsDigit n)
    where
      digits-Lacks : (s : Bytes) → All IsDigit s → Lacks b'\n' s
      digits-Lacks [] h = tt
      digits-Lacks (c ∷ s) (hc, h) = (omega arith, digits-Lacks s h)

  counter-IsField :
      (key : Bytes) (n : ℕ)
      → Lacks b'=' key
      → Lacks b'\n' key
      → equal key (codes "public_key") ≡ false
      → IsField (field key (itoa n))
  counter-IsField key n ends whole other =
      field-IsField key (itoa n) ends whole other (itoa-Lacks n)

  counter_fields-IsField : (r : Report) → All IsField (counter_fields r)
  unfolding equal
  counter_fields-IsField r = (
    counter-IsField _ _ (omega arith) (omega arith) refl,
    (
      counter-IsField _ _ (omega arith) (omega arith) refl,
      (
        counter-IsField _ _ (omega arith) (omega arith) refl,
        (
          counter-IsField _ _ (omega arith) (omega arith) refl,
          (counter-IsField _ _ (omega arith) (omega arith) refl, tt),
        ),
      ),
    ),
  )

  endpoint_fields-IsField :
      (e : Option Bytes) → Lacks b'\n' (endpoint_of e) → All IsField (endpoint_fields e)
  unfolding equal
  endpoint_fields-IsField none h = tt
  endpoint_fields-IsField (some e) h = (field-IsField _ _ (omega arith) (omega arith) refl h, tt)

  allowed-IsField :
      (as' : List Allowed)
      → All (λ a. Lacks b'\n' a.cidr × (parse_prefix a.cidr ≡ some a.prefix)) as'
      → All IsField (map allowed_field as')
  unfolding equal
  allowed-IsField [] h = tt
  allowed-IsField (a ∷ as') ((one, _), h) =
      (field-IsField _ _ (omega arith) (omega arith) refl one, allowed-IsField as' h)

  pub peer_fields-IsField : (r : Report) → IsReport parse_prefix r → All IsField (peer_fields r)
  unfolding equal
  peer_fields-IsField r h =
      let counters = counter_fields-IsField r in
      let prefixes = allowed-IsField r.allowed h.allowed_lines in
      let endpoints = endpoint_fields-IsField r.endpoint h.endpoint_line in
      (
        field-IsField _ _ (omega arith) (omega arith) refl h.preshared_line,
        (
          field-IsField _ _ (omega arith) (omega arith) refl (omega arith),
          All-append IsField (endpoint_fields r.endpoint) _ endpoints
              (All-append IsField (counter_fields r) _ counters prefixes),
        ),
      )
