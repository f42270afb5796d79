-- ===== src/Redaction.antt =====
-- `redactSecrets` of plugin/worker-lifecycle/cf-deploy.ts.
-- A match of `[A-Za-z0-9_-]{32,}` is a whole run of these units, since it starts at the first and takes all.
pub mod Runs
use bb_shared.Base.{
  ℕ, Bool, true, false, ◌&&◌, List, [], ◌∷◌, ◌++◌, Text, codes, is_base64url, starts_with, drop,
  length, if◌then◌else◌, leb,
}

abbrev pub redacted : Text
redacted = codes "[redacted]"

-- What becomes of a whole run.
abbrev pub flush : Text → Text
flush run = if leb 32 (length run) then redacted else run

-- `s.replace(/[A-Za-z0-9_-]{32,}/g, "[redacted]")`, after the run that has been read.
unfoldable pub redact_run : Text → Text → Text
redact_run run [] = flush run
redact_run run (c ∷ s) =
    let inside = redact_run (run ++ c ∷ []) s in
    let outside = flush run ++ (c ∷ redact_run [] s) in if is_base64url c then inside else outside

abbrev starts_unit : Text → Bool
starts_unit [] = false
starts_unit (c ∷ s) = is_base64url c

-- `s.replace(/bbsh_[A-Za-z0-9_-]+/g, "[redacted]")`, for this prefix or another; the flag tells that the units
-- of a match are left out.
unfoldable pub redact_prefixed : Text → Bool → Text → Text
redact_prefixed prefix skipping [] = []
redact_prefixed prefix skipping (c ∷ s) =
    let skipped = redact_prefixed prefix true s in
    let kept = redact_prefixed prefix false s in
    if skipping && is_base64url c
    then skipped
    else if starts_with (c ∷ s) prefix && starts_unit (drop (length prefix) (c ∷ s))
    then redacted ++ skipped
    else c ∷ kept

unfoldable pub redact_secrets : Text → Text
redact_secrets text =
    redact_run []
      (redact_prefixed (codes "bbcm_") false (redact_prefixed (codes "bbsh_") false text))
