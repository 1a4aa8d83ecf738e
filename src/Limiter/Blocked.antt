-- ===== src/Limiter/Blocked.antt =====
-- src/network_security.cpp, `NetworkSecurityMonitor`: which addresses are blocked.
use rtes.Prelude.{
  ℕ, ◌+◌, ◌%◌, ◌≡◌, refl, sym, ◌∙◌, Option, none, some, List, [], ◌∷◌, arith, ltb, ◌==◌, ◌||◌,
  if◌then◌else◌, Bool-cases, inl, inr, add32, u32_mod,
}
use rtes.Book.Lookup.{lookup, lookup-insert}
use rtes.Limiter.Monitor.{
  ClientMetrics, IpMetrics, SecurityStats, NetworkSecurityMonitor, ip_of, record_connection,
  record_authentication_failure, over_limits, should_block_connection,
}

-- What happens at an address: a connection or a failed authentication, with its time.
pub data Event : Type 0 where
  connected failed : (now ip : ℕ) → Event

unfoldable pub observe : Event → NetworkSecurityMonitor → NetworkSecurityMonitor
observe (connected now ip) s = record_connection s now ip
observe (failed now ip) s = record_authentication_failure s now ip

unfoldable pub observe_all : List Event → NetworkSecurityMonitor → NetworkSecurityMonitor
observe_all [] s = s
observe_all (e ∷ es) s = observe_all es (observe e s)

-- How often the address has connected, and has failed.
abbrev pub connections : ℕ → List Event → ℕ
connections ip [] = 0
connections ip (connected now i ∷ es) = (if i == ip then 1 else 0) + connections ip es
connections ip (failed now i ∷ es) = connections ip es

abbrev pub failures : ℕ → List Event → ℕ
failures ip [] = 0
failures ip (connected now i ∷ es) = failures ip es
failures ip (failed now i ∷ es) = (if i == ip then 1 else 0) + failures ip es

-- The counts of an address, as they are to be: `c` connections and `f` failures, as words.
abbrev Counts : ℕ → ℕ → Option IpMetrics → Type 0
Counts c f m = ((ip_of m).connection_count ≡ c % u32_mod) × ((ip_of m).auth_failures ≡ f % u32_mod)

add32_step : (x n : ℕ) → x ≡ n % u32_mod → add32 x 1 ≡ (n + 1) % u32_mod
add32_step x n h = omega arith

same-Counts : (c f d g : ℕ) (m : Option IpMetrics) → c ≡ d → f ≡ g → Counts c f m → Counts d g m
same-Counts c f d g m p q h = rw (sym p, sym q) h

record_connection-Counts :
    (s : NetworkSecurityMonitor) (now i ip c f : ℕ)
    → Counts c f (lookup ip s.ip_metrics)
    → Counts (c + (if i == ip then 1 else 0)) f (lookup ip (record_connection s now i).ip_metrics)
unfolding record_connection ip_of
record_connection-Counts s now i ip c f h = elim (Bool-cases (i == ip)) [
  | inl same ↦
      let q : i ≡ ip = ground arith in
      rw (lookup-insert i ip _ s.ip_metrics, same) (rw q (add32_step _ c h.0, h.1))
  | inr differs ↦
      rw (lookup-insert i ip _ s.ip_metrics, differs)
        (same-Counts c f (c + 0) f (lookup ip s.ip_metrics) (omega arith) refl h)
]

record_failure-Counts :
    (s : NetworkSecurityMonitor) (now i ip c f : ℕ)
    → Counts c f (lookup ip s.ip_metrics)
    → Counts c
        (f + (if i == ip then 1 else 0))
        (lookup ip (record_authentication_failure s now i).ip_metrics)
unfolding record_authentication_failure ip_of
record_failure-Counts s now i ip c f h = elim (Bool-cases (i == ip)) [
  | inl same ↦
      let q : i ≡ ip = ground arith in
      rw (lookup-insert i ip _ s.ip_metrics, same) (rw q (h.0, add32_step _ f h.1))
  | inr differs ↦
      rw (lookup-insert i ip _ s.ip_metrics, differs)
        (same-Counts c f c (f + 0) (lookup ip s.ip_metrics) refl (omega arith) h)
]

observe_all-Counts :
    (es : List Event) (s : NetworkSecurityMonitor) (ip c f : ℕ)
    → Counts c f (lookup ip s.ip_metrics)
    → Counts (c + connections ip es) (f + failures ip es) (lookup ip (observe_all es s).ip_metrics)
unfolding observe_all observe
observe_all-Counts [] s ip c f h =
    same-Counts c f (c + 0) (f + 0) (lookup ip s.ip_metrics) (omega arith) (omega arith) h
observe_all-Counts (connected now i ∷ es) s ip c f h =
    same-Counts ((c + (if i == ip then 1 else 0)) + connections ip es) (f + failures ip es)
      (c + ((if i == ip then 1 else 0) + connections ip es)) (f + failures ip es)
      (lookup ip (observe_all es (record_connection s now i)).ip_metrics) (omega arith) refl
      (observe_all-Counts es (record_connection s now i) ip (c + (if i == ip then 1 else 0)) f
        (record_connection-Counts s now i ip c f h))
observe_all-Counts (failed now i ∷ es) s ip c f h =
    same-Counts (c + connections ip es) ((f + (if i == ip then 1 else 0)) + failures ip es)
      (c + connections ip es) (f + ((if i == ip then 1 else 0) + failures ip es))
      (lookup ip (observe_all es (record_authentication_failure s now i)).ip_metrics) refl
      (omega arith)
      (observe_all-Counts es (record_authentication_failure s now i) ip c
        (f + (if i == ip then 1 else 0)) (record_failure-Counts s now i ip c f h))

over_limits-Counts :
    (m : Option IpMetrics) (c f : ℕ)
    → Counts c f m
    → over_limits m ≡ (ltb 10 (c % u32_mod) || ltb 5 (f % u32_mod))
unfolding over_limits ip_of
over_limits-Counts none c f h = rw (sym h.0, sym h.1) refl
over_limits-Counts (some m) c f h = rw (sym h.0, sym h.1) refl

block_answer :
    (s : NetworkSecurityMonitor) (ip : ℕ)
    → (should_block_connection s ip).0 ≡ over_limits (lookup ip s.ip_metrics)
unfolding should_block_connection
block_answer s ip = elim (Bool-cases (over_limits (lookup ip s.ip_metrics))) [
  | inl e ↦ rw e refl
  | inr e ↦ rw e refl
]

-- A monitor that starts without any address blocks an address exactly where the connections from it,
-- counted as a word of 32 bits, are more than 10, or the failed authentications more than 5.
pub should_block_connection-counts :
    (clients : List (ℕ × ClientMetrics)) (stats : SecurityStats) (es : List Event) (ip : ℕ)
    → (should_block_connection
        (observe_all es (record { client_metrics = clients; ip_metrics = []; stats = stats }))
        ip).0
      ≡ (ltb 10 (connections ip es % u32_mod) || ltb 5 (failures ip es % u32_mod))
unfolding should_block_connection lookup ip_of
should_block_connection-counts clients stats es ip =
    let start : NetworkSecurityMonitor = record {
      client_metrics = clients;
      ip_metrics = [];
      stats = stats;
    } in
    let h : Counts (connections ip es) (failures ip es)
        (lookup ip (observe_all es start).ip_metrics) =
      same-Counts (0 + connections ip es) (0 + failures ip es) (connections ip es) (failures ip es)
        (lookup ip (observe_all es start).ip_metrics) (omega arith) (omega arith)
        (observe_all-Counts es start ip 0 0 (refl, refl)) in
    block_answer (observe_all es start) ip
    ∙ over_limits-Counts (lookup ip (observe_all es start).ip_metrics) (connections ip es)
        (failures ip es) h
