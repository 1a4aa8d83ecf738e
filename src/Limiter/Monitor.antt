-- ===== src/Limiter/Monitor.antt =====
-- src/network_security.cpp, `NetworkSecurityMonitor`: the counts of connections, failures and messages.
-- Addresses and clients are named by numbers; locks and logs are left out.
use rtes.Prelude.{
  ℕ, ◌-◌, ◌/◌, Bool, true, false, Option, none, some, List, ltb, ◌==◌, ◌||◌, if◌then◌else◌, add32,
  add64, u64_mod,
}
use rtes.Book.Lookup.{lookup, insert}

pub record ClientMetrics : Type 0 where
  pub message_count : ℕ
  pub total_bytes : ℕ
  pub first_seen : ℕ
  pub last_activity : ℕ

pub record IpMetrics : Type 0 where
  pub connection_count : ℕ
  pub auth_failures : ℕ
  pub first_seen : ℕ
  pub last_failure : ℕ

pub record SecurityStats : Type 0 where
  pub total_connections : ℕ
  pub blocked_connections : ℕ
  pub auth_failures : ℕ
  pub anomalies_detected : ℕ

pub record NetworkSecurityMonitor : Type 0 where
  pub client_metrics : List (ℕ × ClientMetrics)
  pub ip_metrics : List (ℕ × IpMetrics)
  pub stats : SecurityStats

-- `ip_metrics_[client_ip]` and `client_metrics_[client_id]`
unfoldable pub ip_of : Option IpMetrics → IpMetrics
ip_of (some m) = m
ip_of none = record { connection_count = 0; auth_failures = 0; first_seen = 0; last_failure = 0 }

unfoldable pub client_of : Option ClientMetrics → ClientMetrics
client_of (some m) = m
client_of none = record { message_count = 0; total_bytes = 0; first_seen = 0; last_activity = 0 }

-- `record_connection`
unfoldable pub record_connection : NetworkSecurityMonitor → ℕ → ℕ → NetworkSecurityMonitor
record_connection s now ip =
    let m = ip_of (lookup ip s.ip_metrics) in
    record s {
      ip_metrics =
          insert ip
            (record m {
              connection_count = add32 m.connection_count 1;
              first_seen = if m.first_seen == 0 then now else m.first_seen;
            })
            s.ip_metrics;
      stats = record (s.stats) { total_connections = add64 s.stats.total_connections 1 };
    }

-- `record_authentication_failure`
unfoldable pub record_authentication_failure :
    NetworkSecurityMonitor → ℕ → ℕ → NetworkSecurityMonitor
record_authentication_failure s now ip =
    let m = ip_of (lookup ip s.ip_metrics) in
    record s {
      ip_metrics =
          insert ip (record m { auth_failures = add32 m.auth_failures 1; last_failure = now })
            s.ip_metrics;
      stats = record (s.stats) { auth_failures = add64 s.stats.auth_failures 1 };
    }

-- The counts of `record_message`, behind its guards.
unfoldable pub count_message : ClientMetrics → ℕ → ℕ → ClientMetrics
count_message m now message_size = record {
  message_count = add64 m.message_count 1;
  total_bytes = add64 m.total_bytes message_size;
  last_activity = now;
  first_seen = if m.first_seen == 0 then now else m.first_seen;
}

-- The guards: what would overflow is not counted.
unfoldable pub guard_message : ClientMetrics → ℕ → ℕ → ClientMetrics
guard_message m now message_size =
    if m.message_count == (u64_mod - 1)
    then m
    else if ltb (u64_mod - 1 - message_size) m.total_bytes
    then m
    else count_message m now message_size

-- `record_message`
unfoldable pub record_message : NetworkSecurityMonitor → ℕ → ℕ → ℕ → NetworkSecurityMonitor
record_message s now client message_size =
    if ltb 1048576 message_size
    then record s {
      stats = record (s.stats) { anomalies_detected = add64 s.stats.anomalies_detected 1 };
    }
    else record s {
      client_metrics =
          insert client
            (guard_message (client_of (lookup client s.client_metrics)) now message_size)
            s.client_metrics;
    }

-- The rates of `detect_anomalous_traffic_patterns`, over the minutes since the client was first seen.
unfoldable pub exceeds_rates : ClientMetrics → ℕ → Bool
exceeds_rates m now =
    let minutes = (now - m.first_seen) / 60000000000 in
    if ltb 0 minutes
    then ltb 10000 (m.message_count / minutes) || ltb 1048576 (m.total_bytes / minutes)
    else false

unfoldable pub has_anomaly : Option ClientMetrics → ℕ → Bool
has_anomaly none now = false
has_anomaly (some m) now = exceeds_rates m now

-- `detect_anomalous_traffic_patterns`
unfoldable pub detect_anomalous_traffic_patterns :
    NetworkSecurityMonitor → ℕ → ℕ → Bool × NetworkSecurityMonitor
detect_anomalous_traffic_patterns s now client =
    if has_anomaly (lookup client s.client_metrics) now
    then (
      true,
      record s {
        stats = record (s.stats) { anomalies_detected = add64 s.stats.anomalies_detected 1 };
      },
    )
    else (false, s)

unfoldable pub over_limits : Option IpMetrics → Bool
over_limits none = false
over_limits (some m) = ltb 10 m.connection_count || ltb 5 m.auth_failures

-- `should_block_connection`
unfoldable pub should_block_connection : NetworkSecurityMonitor → ℕ → Bool × NetworkSecurityMonitor
should_block_connection s ip =
    if over_limits (lookup ip s.ip_metrics)
    then (
      true,
      record s {
        stats = record (s.stats) { blocked_connections = add64 s.stats.blocked_connections 1 };
      },
    )
    else (false, s)
