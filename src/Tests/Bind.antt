-- ===== src/Tests/Bind.antt =====
-- The bind is opened twice, closed, and opened again, and sends two datagrams (bind_darwin.go).
use vpnproxy.Base.{Bool, ℕ, false, List, [], ◌∷◌, none, some, ◌≡◌, refl, Bytes, codes}
use vpnproxy.Go.Text.{equal, has_prefix}
use vpnproxy.Resolver.Ip.{to4}
use vpnproxy.Bind.{
  new_bind, close_socket, open_at, close_at, std_endpoint, write_failed, write_all, send, receive,
}
use vpnproxy.Bind.Sockets.{Op, opens, closes, run_op, run_ops, IsTidy, Fits, run_op-run_ops-IsTidy}
use vpnproxy.Bind.Sent.{Sends, datagrams_to, send-Sends}

abbrev ops : List Op
ops = opens (some 51820) ∷ opens (some 1) ∷ closes false ∷ opens (some 2) ∷ []

ops_run : run_ops ops new_bind ≡ record { conn = some 1; sockets = 1 ∷ []; next = 2 }
unfolding open_at close_at close_socket
ops_run = refl

run_op-run_ops-IsTidy_example :
    IsTidy (run_ops ops new_bind)
    × IsTidy (run_op (opens none) (run_ops ops new_bind)).0
    × Fits (run_ops ops new_bind) (opens none) (run_op (opens none) (run_ops ops new_bind))
run_op-run_ops-IsTidy_example = run_op-run_ops-IsTidy ops (opens none)

abbrev write : ℕ → Bytes → Bool
write c b = equal b (codes "a")

sends_one :
    send write
      (some 1)
      (std_endpoint (192 ∷ 0 ∷ 2 ∷ 1 ∷ []) 51820)
      (codes "a" ∷ codes "b" ∷ codes "a" ∷ [])
    ≡ (datagrams_to 1 (192 ∷ 0 ∷ 2 ∷ 1 ∷ []) 51820 (codes "a" ∷ []), write_failed (codes "b"))
unfolding send write_all equal
sends_one = refl

unmaps :
    receive (
      some (
        codes "a",
        ((0 ∷ 0 ∷ 0 ∷ 0 ∷ 0 ∷ 0 ∷ 0 ∷ 0 ∷ 0 ∷ 0 ∷ 255 ∷ 255 ∷ 192 ∷ 0 ∷ 2 ∷ 1 ∷ []), 7),
      ))
    ≡ some (codes "a", std_endpoint (192 ∷ 0 ∷ 2 ∷ 1 ∷ []) 7)
unfolding receive to4 has_prefix
unmaps = refl

send-Sends_example :
    Sends write
      (some 1)
      (std_endpoint (192 ∷ 0 ∷ 2 ∷ 1 ∷ []) 7)
      (codes "a" ∷ codes "b" ∷ [])
      (send write (some 1) (std_endpoint (192 ∷ 0 ∷ 2 ∷ 1 ∷ []) 7) (codes "a" ∷ codes "b" ∷ []))
send-Sends_example =
    send-Sends write (some 1) (std_endpoint (192 ∷ 0 ∷ 2 ∷ 1 ∷ []) 7) (codes "a" ∷ codes "b" ∷ [])
