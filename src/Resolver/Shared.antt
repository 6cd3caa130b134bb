-- ===== src/Resolver/Shared.antt =====
-- The rest of `Resolve`, and `lookupShared` of resolver.go: the cache and the lookups in flight, shared
-- by the goroutines of all connections. Each step is what one goroutine does under one lock of `mu`, or
-- on one channel; a run is any interleaving of such steps.
pub mod Keys
pub mod Inv
pub mod Callers
pub mod Lands
pub mod Steps
use vpnproxy.Base.{
  ℕ, ◌+◌, Bool, true, false, List, [], ◌∷◌, Option, none, some, ◌≡◌, Bytes, ltb, ◌==◌,
  if◌then◌else◌,
}
use vpnproxy.Go.Text.{equal}
use vpnproxy.Go.Duration.{Duration, add}
use vpnproxy.Resolver.Lookup.{LookupError, context_ended}

pub record Entry : Type 0 where
  pub ip : Bytes
  pub expiry : ℕ

-- What a lookup gave.
pub data Found : Type 0 where
  got : Bytes → Duration → Found
  missed : LookupError → Found

-- A lookup runs; it has filled the cache and left the table of those in flight, but its waiters do not
-- know; its channel is closed.
pub data Status : Type 0 where
  running : Status
  landed closed : Found → Status

-- `lookupCall`, with the key and the host that its goroutine has in scope.
pub record Call : Type 0 where
  pub key : Bytes
  pub host : Bytes
  pub status : Status

pub data Reply : Type 0 where
  resolved : Bytes → Reply
  failed : LookupError → Reply

-- Where a call of `Resolve` for a name stands; `cached` is the entry that it read.
pub data Phase : Type 0 where
  starting : Phase
  uncached : Option Entry → Phase
  waiting : Option Entry → ℕ → Phase
  replied : Reply → Phase

-- The maps of `resolver`, the heap of `lookupCall` objects, and the callers.
pub record State : Type 0 where
  pub cache : Bytes → Option Entry
  pub inflight : Bytes → Option ℕ
  pub call : ℕ → Option Call
  pub next : ℕ
  pub phase : ℕ → Phase

abbrev pub put_key {ℓ} : {A : Type ℓ} → Bytes → A → (Bytes → A) → Bytes → A
put_key k v f j = if equal j k then v else f j

abbrev pub put {ℓ} : {A : Type ℓ} → ℕ → A → (ℕ → A) → ℕ → A
put i v f j = if j == i then v else f j

-- `cached && time.Now().Before(entry.expiry)`
unfoldable pub check_cache : ℕ → Option Entry → Phase
check_cache now none = uncached none
check_cache now (some e) = if ltb now e.expiry then replied (resolved e.ip) else uncached (some e)

-- `if failed_with == nil { r.cache[key] = … }`
unfoldable pub fill : ℕ → Bytes → Found → (Bytes → Option Entry) → Bytes → Option Entry
fill now key (got ip ttl) cache =
    put_key key (some (record { ip = ip; expiry = add now ttl })) cache
fill now key (missed e) cache = cache

-- A failed lookup falls back on the expired entry, if there was one.
unfoldable pub conclude : Option Entry → Found → Reply
conclude cached (got ip ttl) = resolved ip
conclude none (missed e) = failed e
conclude (some old) (missed e) = resolved old.ip

-- `call, running := r.inflight[key]`, and a new call where there is none.
unfoldable pub join : State → ℕ → Bytes → Bytes → Option Entry → Option ℕ → State
join s i key host cached (some id) = record s { phase = put i (waiting cached id) s.phase }
join s i key host cached none = record s {
  inflight = put_key key (some s.next) s.inflight;
  call = put s.next (some (record { key = key; host = host; status = running })) s.call;
  next = s.next + 1;
  phase = put i (waiting cached s.next) s.phase;
}

abbrev pub set_status : State → ℕ → Call → Status → ℕ → Option Call
set_status s id c status = put id (some (record c { status = status })) s.call

unfoldable pub land : State → ℕ → Call → Found → ℕ → State
unfolding fill
land s id c r now = record s {
  cache = fill now c.key r s.cache;
  inflight = put_key c.key none s.inflight;
  call = set_status s id c (landed r);
}

-- `key` and `host` of each caller.
module _ (key host : ℕ → Bytes) where
  pub data Step (s : State) : State → Type 0 where
    checks :
        (i now : ℕ)
        → s.phase i ≡ starting
        → Step s (record s { phase = put i (check_cache now (s.cache (key i))) s.phase })
    joins :
        (i : ℕ) (cached : Option Entry)
        → s.phase i ≡ uncached cached
        → Step s (join s i (key i) (host i) cached (s.inflight (key i)))
    lands :
        (id now : ℕ) (c : Call) (r : Found)
        → s.call id ≡ some c
        → c.status ≡ running
        → Step s (land s id c r now)
    closes :
        (id : ℕ) (c : Call) (r : Found)
        → s.call id ≡ some c
        → c.status ≡ landed r
        → Step s (record s { call = set_status s id c (closed r) })
    wakes :
        (i id : ℕ) (cached : Option Entry) (c : Call) (r : Found)
        → s.phase i ≡ waiting cached id
        → s.call id ≡ some c
        → c.status ≡ closed r
        → Step s (record s { phase = put i (replied (conclude cached r)) s.phase })
    gives_up :
        (i id : ℕ) (cached : Option Entry)
        → s.phase i ≡ waiting cached id
        → Step s
            (record s { phase = put i (replied (conclude cached (missed context_ended))) s.phase })

  pub data Reach (s : State) : State → Type 0 where
    here : Reach s s
    next_step : {t u : State} → Reach s t → Step t u → Reach s u

abbrev pub initial : State
initial = record {
  cache = λ _. none;
  inflight = λ _. none;
  call = λ _. none;
  next = 0;
  phase = λ _. starting;
}
