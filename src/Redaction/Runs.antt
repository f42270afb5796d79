-- ===== src/Redaction/Runs.antt =====
-- What `redactSecrets` of plugin/worker-lifecycle/cf-deploy.ts leaves.
use bb_shared.Base.{
  ℕ, suc, ◌+◌, ◌≤◌, ◌<◌, ◌≡◌, refl, sym, subst, inl, inr, Bool, true, false, ◌&&◌, all, [], ◌∷◌,
  ◌++◌, Text, codes, is_base64url, starts_with, length, append_nil, arith, Bool-cases,
  if◌then◌else◌, leb, ltb,
}
use bb_shared.Gateway.Requests.{contains}
use bb_shared.Redaction.{flush, redact_run, redact_prefixed, redact_secrets}

-- No run reaches 32 units, where `n` units of one have been read.
short_runs : ℕ → Text → Bool
short_runs n [] = true
short_runs n (c ∷ s) =
    let longer = short_runs (suc n) s in
    let anew = short_runs 0 s in if is_base64url c then ltb (suc n) 32 && longer else anew

short_runs_less : (m n : ℕ) (s : Text) → m ≤ n → short_runs n s ≡ true → short_runs m s ≡ true
unfolding short_runs
short_runs_less m n [] h e = refl
short_runs_less m n (c ∷ s) h e = ground (arith, short_runs_less (suc m) (suc n) s)

-- A run of units in front of the rest.
short_runs-append :
    (n : ℕ) (run rest : Text)
    → all is_base64url run ≡ true
    → n + length run < 32
    → short_runs (n + length run) rest ≡ true
    → short_runs n (run ++ rest) ≡ true
unfolding short_runs
short_runs-append n [] rest a h e = subst (λ m. short_runs m rest ≡ true) (omega arith) e
short_runs-append n (c ∷ run) rest a h e =
    let moved : n + length (c ∷ run) ≡ suc n + length run = omega arith in
    let more : short_runs (suc n) (run ++ rest) ≡ true =
      short_runs-append (suc n) run rest (ground arith) (omega arith)
        (subst (λ m. short_runs m rest ≡ true) moved e) in
    ground (arith, more)

-- The rest of a text after a run.
abbrev ends_run : Text → Bool
ends_run [] = true
ends_run (c ∷ s) = if is_base64url c then false else true

ends_run-short :
    (m n : ℕ) (s : Text) → ends_run s ≡ true → short_runs m s ≡ true → short_runs n s ≡ true
unfolding short_runs
ends_run-short m n [] e h = refl
ends_run-short m n (c ∷ s) e h = ground arith

flush-short :
    (run rest : Text)
    → all is_base64url run ≡ true
    → ends_run rest ≡ true
    → short_runs 0 rest ≡ true
    → short_runs 0 (flush run ++ rest) ≡ true
unfolding short_runs
flush-short run rest a e h = elim (Bool-cases (leb 32 (length run))) [
  | inl long ↦ rw long (ends_run-short 0 0 rest e h)
  | inr short ↦ rw short (
      short_runs-append 0 run rest a (ground (arith, short))
        (ends_run-short 0 (0 + length run) rest e h))
]

all-snoc :
    (run : Text) (c : ℕ)
    → all is_base64url run ≡ true
    → is_base64url c ≡ true
    → all is_base64url (run ++ c ∷ []) ≡ true
all-snoc [] c a h = ground arith
all-snoc (d ∷ run) c a h = ground (arith, all-snoc run c)

redact_run-short :
    (run s : Text) → all is_base64url run ≡ true → short_runs 0 (redact_run run s) ≡ true
unfolding redact_run short_runs
redact_run-short run [] a =
    subst (λ t. short_runs 0 t ≡ true) (append_nil (flush run)) (flush-short run [] a refl refl)
redact_run-short run (c ∷ s) a = elim (Bool-cases (is_base64url c)) [
  | inl unit ↦ rw unit (redact_run-short (run ++ c ∷ []) s (all-snoc run c a unit))
  | inr other ↦
      let rest : short_runs 0 (c ∷ redact_run [] s) ≡ true =
        rw other (redact_run-short [] s refl) in
      rw other (flush-short run (c ∷ redact_run [] s) a (rw other refl) rest)
]

starts_with-short :
    (n : ℕ) (s secret : Text)
    → short_runs n s ≡ true
    → all is_base64url secret ≡ true
    → n < 32
    → starts_with s secret ≡ true
    → n + length secret < 32
unfolding short_runs starts_with
starts_with-short n s [] h a k e = omega arith
starts_with-short n [] (d ∷ secret) h a k e = absurd cc
starts_with-short n (c ∷ s) (d ∷ secret) h a k e =
    let equal : c ≡ d = ground arith in
    let unit : is_base64url c ≡ true =
      subst (λ x. is_base64url x ≡ true) (sym equal) (ground arith) in
    let fits : (suc n < 32) × (short_runs (suc n) s ≡ true) = ground (arith, unit) in
    let rest = starts_with-short (suc n) s secret fits.1 (ground arith) fits.0 (ground arith) in
    omega (arith, rest)

contains-short :
    (s secret : Text)
    → short_runs 0 s ≡ true
    → 32 ≤ length secret
    → all is_base64url secret ≡ true
    → contains secret s ≡ false
unfolding contains short_runs starts_with
contains-short [] [] h long a = absurd (omega (arith, long))
contains-short [] (d ∷ secret) h long a = refl
contains-short (c ∷ s) secret h long a = elim (Bool-cases (starts_with (c ∷ s) secret)) [
  | inl found ↦
      absurd (omega (arith, long, starts_with-short 0 (c ∷ s) secret h a (omega arith) found))
  | inr other ↦
      let rest : short_runs 0 s ≡ true = ground (arith, short_runs_less 0 1 s) in
      ground (arith, other, contains-short s secret rest long a)
]

-- No text of 32 or more base64url units is found in what is left, whatever the text was: no secret of a tunnel.
pub contains-redact_secrets :
    (text secret : Text)
    → 32 ≤ length secret
    → all is_base64url secret ≡ true
    → contains secret (redact_secrets text) ≡ false
unfolding redact_secrets
contains-redact_secrets text secret long a =
    contains-short (redact_secrets text) secret
      (redact_run-short []
        (redact_prefixed (codes "bbcm_") false (redact_prefixed (codes "bbsh_") false text)) refl)
      long a
