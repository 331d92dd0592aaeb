-- ===== src/Errors.antt =====
-- pkg/errors/errors.go: the error values of the program and their API codes and statuses.
use gomembase.Prelude.{ℕ, Bool, true, false, ◌||◌, Str, if◌then◌else◌}

-- The package's sentinel errors.
pub data Sentinel : Type 0 where
  key_not_found key_expired key_not_integer : Sentinel
  wal_failed_to_create wal_failed_to_write wal_failed_to_read wal_failed_to_recover : Sentinel
  wal_failed_to_close wal_failed_to_sync wal_failed_to_truncate : Sentinel
  invalid_snapshot_magic invalid_snapshot_version : Sentinel
  snapshot_write_failed snapshot_read_failed regexp_error : Sentinel

-- A Go error value: a sentinel, one of the package's structs, or an error of a library.
pub data Error : Type 0 where
  sentinel : Sentinel → Error
  key_error : (key : Str) → (err : Error) → (value operation : Str) → Error
  wal_error : (path : Str) → (err : Error) → (operation : Str) → Error
  snapshot_error : (path : Str) → (err : Error) → (operation : Str) → Error
  regex_error : (regex_expr : Str) → (err : Error) → Error
  -- fmt.Errorf with `%w`, and errors.Join
  wrapped : (text : Str) → Error → Error
  joined : Error → Error → Error
  foreign : (text : Str) → Error

unfoldable pub same_sentinel : Sentinel → Sentinel → Bool
same_sentinel key_not_found key_not_found = true
same_sentinel key_expired key_expired = true
same_sentinel key_not_integer key_not_integer = true
same_sentinel wal_failed_to_create wal_failed_to_create = true
same_sentinel wal_failed_to_write wal_failed_to_write = true
same_sentinel wal_failed_to_read wal_failed_to_read = true
same_sentinel wal_failed_to_recover wal_failed_to_recover = true
same_sentinel wal_failed_to_close wal_failed_to_close = true
same_sentinel wal_failed_to_sync wal_failed_to_sync = true
same_sentinel wal_failed_to_truncate wal_failed_to_truncate = true
same_sentinel invalid_snapshot_magic invalid_snapshot_magic = true
same_sentinel invalid_snapshot_version invalid_snapshot_version = true
same_sentinel snapshot_write_failed snapshot_write_failed = true
same_sentinel snapshot_read_failed snapshot_read_failed = true
same_sentinel regexp_error regexp_error = true
same_sentinel _ _ = false

-- errors.Is: the error itself or one that it unwraps to.
unfoldable pub is_error : Error → Sentinel → Bool
unfolding same_sentinel
is_error (sentinel s) t = same_sentinel s t
is_error (key_error key err value operation) t = is_error err t
is_error (wal_error path err operation) t = is_error err t
is_error (snapshot_error path err operation) t = is_error err t
is_error (regex_error regex_expr err) t = is_error err t
is_error (wrapped text err) t = is_error err t
is_error (joined first second) t = is_error first t || is_error second t
is_error (foreign text) t = false

-- The string constants `Code…`, and the default "KEY_ERROR".
pub data Code : Type 0 where
  code_key_not_found code_key_expired code_key_not_integer code_key_error : Code
  code_invalid_regexp code_wal_error code_snapshot_error : Code

unfoldable pub key_error_code : Error → Code
key_error_code err =
    if is_error err key_not_found
    then code_key_not_found
    else if is_error err key_expired
    then code_key_expired
    else if is_error err key_not_integer
    then code_key_not_integer
    else code_key_error

unfoldable pub key_http_status : Error → ℕ
key_http_status err =
    if is_error err key_not_found
    then 404
    else if is_error err key_expired
    then 410
    else if is_error err key_not_integer
    then 400
    else 500

-- A call that returns a value or an error.
pub data Result {ℓ} (A : Type ℓ) : Type ℓ where
  ok : A → Result A
  err : Error → Result A
