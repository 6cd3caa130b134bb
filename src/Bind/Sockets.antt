-- ===== src/Bind/Sockets.antt =====
-- The open sockets of the bind (bind_darwin.go).
use vpnproxy.Base.{
  ℕ, Bool, true, false, List, [], ◌∷◌, Option, none, some, ◌≡◌, ◌≢◌, refl, sym, ap, ◌∙◌, arith,
}
use vpnproxy.Bind.{
  State, new_bind, Result, opened, close_socket, open_bind, close_bind, open_at, close_at,
  already_open, listen_failed, closed, close_failed,
}

-- A call of the bind, with what the system gives.
pub data Op : Type 0 where
  opens : Option ℕ → Op
  closes : Bool → Op

abbrev pub run_op : Op → State → State × Result
run_op (opens listened) s = open_bind listened s
run_op (closes ok_) s = close_bind ok_ s

abbrev pub run_ops : List Op → State → State
run_ops [] s = s
run_ops (op ∷ ops) s = run_ops ops (run_op op s).0

abbrev pub held : Option ℕ → List ℕ
held none = []
held (some id) = id ∷ []

-- The sockets that are open are the one of the bind, if it has one.
abbrev pub IsTidy : State → Type 0
IsTidy s = s.sockets ≡ held s.conn

close_socket-held : (id : ℕ) → close_socket id (id ∷ []) ≡ []
unfolding close_socket
close_socket-held id = ground arith

-- What an operation returns, behind these sockets: the bind opens where it had none, and closes.
abbrev pub Fits : State → Op → State × Result → Type 0
Fits s (opens listened) (t, opened port) =
    (s.conn ≡ none) × (listened ≡ some port) × (t.conn ≡ some s.next)
Fits s (opens listened) (t, already_open) = (s.conn ≢ none) × (t ≡ s)
Fits s (opens listened) (t, listen_failed) = (s.conn ≡ none) × (listened ≡ none) × (t ≡ s)
Fits s (closes ok_) (t, closed) = t.conn ≡ none
Fits s (closes ok_) (t, close_failed) = (ok_ ≡ false) × (t.conn ≡ none)
Fits s op (t, other) = ⊥

open_at-IsTidy :
    (conn listened : Option ℕ) (s : State)
    → s.conn ≡ conn
    → IsTidy s
    → IsTidy (open_at conn listened s).0 × Fits s (opens listened) (open_at conn listened s)
unfolding open_at
open_at-IsTidy (some id) listened s e h = (h, ((λ n. cc (sym e ∙ n)), refl))
open_at-IsTidy none none s e h = (h, (e, refl, refl))
open_at-IsTidy none (some port) s e h = (ap (λ js. s.next ∷ js) (h ∙ ap held e), (e, refl, refl))

close_at-IsTidy :
    (conn : Option ℕ) (ok_ : Bool) (s : State)
    → s.conn ≡ conn
    → IsTidy s
    → IsTidy (close_at conn ok_ s).0 × Fits s (closes ok_) (close_at conn ok_ s)
unfolding close_at
close_at-IsTidy none ok_ s e h = (h, e)
close_at-IsTidy (some id) true s e h =
    (ap (close_socket id) (h ∙ ap held e) ∙ close_socket-held id, refl)
close_at-IsTidy (some id) false s e h =
    (ap (close_socket id) (h ∙ ap held e) ∙ close_socket-held id, (refl, refl))

run_op-IsTidy : (op : Op) (s : State) → IsTidy s → IsTidy (run_op op s).0 × Fits s op (run_op op s)
run_op-IsTidy (opens listened) s h = open_at-IsTidy s.conn listened s refl h
run_op-IsTidy (closes ok_) s h = close_at-IsTidy s.conn ok_ s refl h

run_ops-IsTidy : (ops : List Op) (s : State) → IsTidy s → IsTidy (run_ops ops s)
run_ops-IsTidy [] s h = h
run_ops-IsTidy (op ∷ ops) s h = run_ops-IsTidy ops (run_op op s).0 (run_op-IsTidy op s h).0

-- However often the bind is opened and closed, in whatever order, and whichever of the system's calls fail,
-- the only socket that is open is the one of the bind: none is leaked, and what is closed was open. One more call
-- keeps it so: it opens a socket exactly when the bind has none and the system gives one, refuses, without
-- a change, when the bind has one, and behind a close, also one that fails, the bind has none.
pub run_op-run_ops-IsTidy :
    (ops : List Op) (op : Op)
    → IsTidy (run_ops ops new_bind)
      × IsTidy (run_op op (run_ops ops new_bind)).0
      × Fits (run_ops ops new_bind) op (run_op op (run_ops ops new_bind))
run_op-run_ops-IsTidy ops op =
    let h = run_ops-IsTidy ops new_bind refl in
    let (tidy, fits) = run_op-IsTidy op (run_ops ops new_bind) h in (h, tidy, fits)
