-- ===== src/Reconnect/Errors.antt =====
-- Which failures the classification calls terminal.
use obsidian_couchsync.Prelude.{◌≡◌, Bool, true, false, ◌&&◌, ◌||◌, not, arith}
use obsidian_couchsync.Reconnect.{
  SyncErrorKind, auth, schema_mismatch, encryption_paused, Failure, has_status, classify_error,
}

-- The kinds that only the user can act on.
abbrev pub needs_user : SyncErrorKind → Bool
needs_user auth = true
needs_user schema_mismatch = true
needs_user encryption_paused = true
needs_user _ = false

-- A failure is classified as one that only the user can mend exactly if it is marked as not
-- retriable, as a pause of the encryption or as a fatal encryption error, or its status is 401 or
-- 403 and it does not look aborted.
pub classify_error_iff :
    (e : Failure)
    → needs_user (classify_error e).kind ≡ (
        e.non_retriable
        || e.paused
        || e.fatal_encryption
        || (not e.looks_aborted && (has_status 401 e.status || has_status 403 e.status)))
unfolding classify_error
classify_error_iff e = ground arith
