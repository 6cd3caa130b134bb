-- ===== src/Vault/Client/Served.antt =====
-- Which requests of `vaultClient.do` get a reply (vault.go).
use vpnproxy.Base.{
  ◌≤◌, none, some, ◌≡◌, inl, inr, arith, Bytes, Bool-cases, Option-cases, ltb, ◌||◌,
}
use vpnproxy.Vault.Client.{
  Client, Pairs, Request, Response, VaultResponse, replied, Web, url, read_response, request,
  send_body, do_request,
}

-- The server has answered this very request, with a status of success.
abbrev pub IsServed : Web → Request → Type 0
IsServed web r =
    (answer : Response) × (web.send r ≡ some answer) × (200 ≤ answer.status) × (answer.status ≤ 299)

module _ (web : Web) (c : Client) (method path : Bytes) where
  read_response-success :
      (r : Response) (v : VaultResponse)
      → read_response web c method path r ≡ replied v
      → (200 ≤ r.status) × (r.status ≤ 299)
  unfolding read_response
  read_response-success r v h = elim (Option-cases r.body) [
    | inl gone ↦ absurd (cc (rw gone at h))
    | inr (whole, got) ↦ elim (Bool-cases (ltb r.status 200 || ltb 299 r.status)) [
      | inl out ↦ absurd (cc (rw (got, out) at h))
      | inr within ↦ (ground arith, ground arith)
    ]
  ]

  pub do_request-IsServed :
      (query : Pairs) (v : VaultResponse)
      → do_request web c method path query none ≡ replied v
      → IsServed web (request web c method path query none)
  unfolding do_request send_body
  do_request-IsServed query v h = elim (Bool-cases (web.accepts (url web c method path query))) [
    | inr refused ↦ absurd (cc (rw refused at h))
    | inl accepted ↦ elim (Option-cases (web.send (request web c method path query none))) [
      | inl lost ↦ absurd (cc (rw (accepted, lost) at h))
      | inr (r, sent) ↦
          let (low, high) = read_response-success r v (rw (accepted, sent) at h) in
          (r, sent, low, high)
    ]
  ]
