-- ===== src/Store/Errors.antt =====
-- internal/httpx/error.go (the kinds) and the classification of driver errors in
-- internal/store/store.go. A driver error is what go-sql-driver reports for a statement that it
-- did not carry out.
use incident_diag.Base.{ℕ, Bool, true, false, ◌||◌, ◌==◌, if◌then◌else◌}

-- httpx.Kind.
pub data Kind : Type 0 where
  internal invalid not_found conflict unavailable : Kind

-- Kind.Status.
unfoldable pub status : Kind → ℕ
status invalid = 400
status not_found = 404
status conflict = 409
status unavailable = 503
status internal = 500

pub data Result {ℓ} (A : Type ℓ) : Type ℓ where
  ok : A → Result A
  err : Kind → Result A

-- The unique keys that a statement of the package can violate.
pub data UniqueKey : Type 0 where
  primary uniq_active_run uniq_step_number : UniqueKey

pub data DriverError : Type 0 where
  bad_conn invalid_conn net_error : DriverError
  duplicate_entry : UniqueKey → DriverError
  mysql_error : ℕ → DriverError
  other_error : DriverError

abbrev pub err_too_many_conns : ℕ
err_too_many_conns = 1040

abbrev pub err_server_shutdown : ℕ
err_server_shutdown = 1053

abbrev pub err_cannot_connect_now : ℕ
err_cannot_connect_now = 1203

unfoldable pub is_unavailable : DriverError → Bool
is_unavailable bad_conn = true
is_unavailable invalid_conn = true
is_unavailable net_error = true
is_unavailable (mysql_error n) =
    n == err_too_many_conns || n == err_server_shutdown || n == err_cannot_connect_now
is_unavailable (duplicate_entry k) = false
is_unavailable other_error = false

unfoldable pub db_error : DriverError → Kind
unfolding is_unavailable
db_error e = if is_unavailable e then unavailable else internal

-- isDuplicateKey(err, keyActiveRun).
unfoldable pub is_active_run_key : DriverError → Bool
is_active_run_key (duplicate_entry uniq_active_run) = true
is_active_run_key _ = false
