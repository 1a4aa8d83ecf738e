-- ===== src/Errors.antt =====
-- include/rtes/error_handling.hpp: the error codes and the result type.
use rtes.Prelude.{◌≡◌, refl, ◌⊎◌, inl, inr}

pub data ErrorCode : Type 0 where
  success : ErrorCode
  network_connection_failed network_timeout network_disconnected network_invalid_message : ErrorCode
  memory_allocation_failed memory_buffer_overflow memory_pool_exhausted : ErrorCode
  file_not_found file_permission_denied file_corrupted file_disk_full : ErrorCode
  order_invalid order_duplicate order_not_found risk_limit_exceeded : ErrorCode
  invalid_configuration invalid_argument : ErrorCode
  system_shutdown system_overload system_corrupted_state : ErrorCode
  deployment_already_active deployment_failed deployment_rollback_failed : ErrorCode
  encryption_failed decryption_failed encryption_key_not_found : ErrorCode
  config_key_not_found config_parse_error config_type_mismatch config_file_not_found : ErrorCode
  invalid_environment : ErrorCode
  health_check_failed backup_failed backup_verification_failed : ErrorCode
  config_validation_failed : ErrorCode

pub data Result {ℓ} (A : Type ℓ) : Type ℓ where
  ok : A → Result A
  err : ErrorCode → Result A

pub Result-cases {ℓ} :
    {A : Type ℓ} (r : Result A) → ((a : A) × (r ≡ ok a)) ⊎ ((code : ErrorCode) × (r ≡ err code))
Result-cases (ok a) = inl (a, refl)
Result-cases (err code) = inr (code, refl)
