-- ===== src/Resolver/Service.antt =====
-- The resolver as a whole: the shared state of `Resolve` and `lookupShared` (resolver.go), whose
-- lookups run the `lookup` of the same file.
pub mod Results
pub mod Answered
pub mod Sums
pub mod Ends
use vpnproxy.Base.{ℕ, Option, none, some, ◌≡◌, Bytes}
use vpnproxy.Resolver.Ip.{Ip}
use vpnproxy.Resolver.Query.{Dns}
use vpnproxy.Resolver.Lookup.{Config, Lookup, found, lost, panicked, World, lookup}
use vpnproxy.Resolver.Literal.{to_lower}
use vpnproxy.Resolver.Shared.{
  Found, got, missed, State, Step, checks, joins, lands, closes, wakes, gives_up, Reach, here,
  next_step,
}

-- What the goroutine of a lookup carries on with; a panic would end the program.
unfoldable pub result : Lookup → Option Found
result (found ip ttl) = some (got ip ttl)
result (lost e) = some (missed e)
result panicked = none

-- `key := strings.ToLower(host)` of each caller.
abbrev pub keys : (Bytes → Bytes) → (ℕ → Bytes) → ℕ → Bytes
keys unicode_lower host i = to_lower unicode_lower (host i)

module _ (key host : ℕ → Bytes) where
  -- Every step of a run has a property.
  abbrev pub Each :
      ((s t : State) → Step key host s t → Type 0) → {s t : State} → Reach key host s t → Type 0
  Each P here = Unit
  Each P (next_step {t} {u} r st) = Each P r × P t u st

  -- The caller waits until the lookup that it joined has ended.
  abbrev pub IsPatient : (s t : State) → Step key host s t → Type 0
  IsPatient s t (gives_up i id cached at_i) = ⊥
  IsPatient s t (checks i now at_i) = Unit
  IsPatient s t (joins i cached at_i) = Unit
  IsPatient s t (lands id now c r made runs) = Unit
  IsPatient s t (closes id c r made done) = Unit
  IsPatient s t (wakes i id cached c r at_i made done) = Unit

  -- `ip, ttl, err := r.lookup(lctx, host)`: what lands is what `lookup` returns for the call's host
  -- in a possible world.
  abbrev pub LooksUp :
      (Ip → Bytes) → Dns → Config → (World → Type 0) → (s t : State) → Step key host s t → Type 0
  LooksUp show_ip dns cfg IsPossible s t (lands id now c r made runs) =
      (world : World) × IsPossible world × (result (lookup show_ip dns cfg world c.host) ≡ some r)
  LooksUp show_ip dns cfg IsPossible s t (checks i now at_i) = Unit
  LooksUp show_ip dns cfg IsPossible s t (joins i cached at_i) = Unit
  LooksUp show_ip dns cfg IsPossible s t (closes id c r made done) = Unit
  LooksUp show_ip dns cfg IsPossible s t (wakes i id cached c r at_i made done) = Unit
  LooksUp show_ip dns cfg IsPossible s t (gives_up i id cached at_i) = Unit
