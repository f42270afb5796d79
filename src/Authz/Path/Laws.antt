-- ===== src/Authz/Path/Laws.antt =====
-- What `classifyPath` of plugin/authz/authz.ts says of the path that it classifies.
use mathlib.Core.List.{append-nil}
use bb_shared.Base.{
  ℕ, ◌≡◌, ◌≢◌, refl, sym, ap, ◌∙◌, ◌⊎◌, inl, inr, true, false, ◌&&◌, List, [], ◌∷◌, ◌++◌, some,
  Text, codes, same, same_iff, split, join, cons_head, any, All, arith, Bool-cases, ◌==◌, ==_iff,
  and-eq-true_iff, subst,
}
use bb_shared.Authz.Path.{
  thread, normalize_path, classify_path, classify_other, match_thread, thread_at, rest_of,
  is_refused, is_forbidden, is_dots,
}

join-cons_head :
    (at c : ℕ) (parts : List Text) → parts ≢ [] → join at (cons_head c parts) ≡ c ∷ join at parts
unfolding join
join-cons_head at c [] h = absurd (h refl)
join-cons_head at c (p ∷ []) h = refl
join-cons_head at c (p ∷ q ∷ ps) h = refl

split-ne-nil : (at : ℕ) (s : Text) → split at s ≢ []
unfolding split
split-ne-nil at [] = cc
split-ne-nil at (c ∷ s) = ground arith

join-nil_cons :
    (at : ℕ) (parts : List Text) → parts ≢ [] → join at ([] ∷ parts) ≡ at ∷ join at parts
unfolding join
join-nil_cons at [] h = absurd (h refl)
join-nil_cons at (p ∷ ps) h = refl

pub join-split : (at : ℕ) (s : Text) → join at (split at s) ≡ s
unfolding split join
join-split at [] = refl
join-split at (c ∷ s) = elim (Bool-cases (c == at)) [
  | inl hit ↦ rw hit (
      join-nil_cons at (split at s) (split-ne-nil at s)
      ∙ (ap (◌∷◌ at) (join-split at s) ∙ ap (λ d. d ∷ s) (sym ((==_iff c at).0 hit))))
  | inr miss ↦
      rw miss (join-cons_head at c (split at s) (split-ne-nil at s) ∙ ap (◌∷◌ c) (join-split at s))
]

-- A part holds no character at which the text is cut.
abbrev IsWhole : ℕ → Text → Type 0
IsWhole at part = any (λ c. c == at) part ≡ false

cons_head-All :
    (at c : ℕ) (parts : List Text)
    → (c == at) ≡ false
    → All (IsWhole at) parts
    → All (IsWhole at) (cons_head c parts)
cons_head-All at c [] h k = ((ground arith), tt)
cons_head-All at c (p ∷ ps) h (q, k) = ((ground arith), k)

split-IsWhole : (at : ℕ) (s : Text) → All (IsWhole at) (split at s)
unfolding split
split-IsWhole at [] = (refl, tt)
split-IsWhole at (c ∷ s) = elim (Bool-cases (c == at)) [
  | inl hit ↦ rw hit (refl, split-IsWhole at s)
  | inr miss ↦ rw miss (cons_head-All at c (split at s) miss (split-IsWhole at s))
]

rest_of_lem : (part : Text) (more : List Text) → join b'/' (part ∷ more) ≡ part ++ rest_of more
unfolding join
rest_of_lem part [] = sym (append-nil part)
rest_of_lem part (p ∷ ps) = refl

thread_at_sound :
    (c : Text) (more : List Text) {id rest : Text}
    → thread_at c more ≡ some (id, rest)
    → (c ≡ id) × (rest_of more ≡ rest) × (c ≢ [])
unfolding thread_at
thread_at_sound c more e = elim (Bool-cases (same c [])) [
  | inl empty ↦ ground arith
  | inr filled ↦ ground (arith, same_iff c [])
]

-- The texts that the regular expression of threads matches.
abbrev pub IsThreadPath : Text → Text → Text → Type 0
IsThreadPath path id rest =
    (path ≡ codes "/threads/" ++ (id ++ rest))
    ⊎ ((project_id : Text) × (project_id ≢ [])
        × (path ≡ codes "/projects/" ++ (project_id ++ (codes "/threads/" ++ (id ++ rest)))))

-- The two shapes of the parts of such a path.
bare_thread :
    (a b c : Text) (more : List Text) {id rest : Text}
    → a ≡ []
    → b ≡ codes "threads"
    → thread_at c more ≡ some (id, rest)
    → IsThreadPath (join b'/' (a ∷ b ∷ c ∷ more)) id rest
unfolding join
bare_thread a b c more ea eb e =
    let (ec, er, _) = thread_at_sound c more e in
    rw (ea, eb) (inl (ap (◌++◌ (codes "/threads/")) (rest_of_lem c more ∙ ground arith)))

project_thread :
    (a b c d x : Text) (more : List Text) {id rest : Text}
    → a ≡ []
    → b ≡ codes "projects"
    → c ≢ []
    → d ≡ codes "threads"
    → thread_at x more ≡ some (id, rest)
    → IsThreadPath (join b'/' (a ∷ b ∷ c ∷ d ∷ x ∷ more)) id rest
unfolding join
project_thread a b c d x more {id} {rest} ea eb hc ed e =
    let (ex, er, _) = thread_at_sound x more e in
    let tail : join b'/' (x ∷ more) ≡ id ++ rest = rest_of_lem x more ∙ ground arith in
    rw (ea, eb, ed)
      (inr (c, hc, ap (λ t. codes "/projects/" ++ (c ++ (codes "/threads/" ++ t))) tail))

-- Both tests of the first two parts.
both : (a s b t : Text) → (same a s && same b t) ≡ true → (a ≡ s) × (b ≡ t)
both a s b t h = let (p, q) = (and-eq-true_iff _ _).0 h in ((same_iff a s).0 p, (same_iff b t).0 q)

pub match_thread_sound :
    (parts : List Text) {id rest : Text}
    → match_thread parts ≡ some (id, rest)
    → IsThreadPath (join b'/' parts) id rest
unfolding match_thread
match_thread_sound [] e = cc
match_thread_sound (a ∷ []) e = cc
match_thread_sound (a ∷ b ∷ []) e = cc
match_thread_sound (a ∷ b ∷ c ∷ []) e = elim (Bool-cases (same a [] && same b (codes "threads"))) [
  | inl h ↦ let (p, q) = both a [] b (codes "threads") h in bare_thread a b c [] p q (rw h at e)
  | inr h ↦ absurd (ground (arith, h))
]
match_thread_sound (a ∷ b ∷ c ∷ d ∷ []) e =
    elim (Bool-cases (same a [] && same b (codes "threads"))) [
      | inl h ↦
          let (p, q) = both a [] b (codes "threads") h in bare_thread a b c (d ∷ []) p q (rw h at e)
      | inr h ↦ absurd (ground (arith, h))
    ]
match_thread_sound (a ∷ b ∷ c ∷ d ∷ x ∷ more) {id} {rest} e =
    elim (Bool-cases (same a [] && same b (codes "threads"))) [
      | inl h ↦
          let (p, q) = both a [] b (codes "threads") h in
          bare_thread a b c (d ∷ x ∷ more) p q (rw h at e)
      | inr h ↦
          project_thread a b c d x more {id = id} {rest = rest} (ground (arith, h, same_iff a []))
            (ground (arith, h, same_iff b (codes "projects"))) (ground (arith, h, same_iff c []))
            (ground (arith, h, same_iff d (codes "threads"))) (ground (arith, h))
    ]

-- A path is classified as a thread only if it is clean (no `%`, backslash, blank or control
-- character, and no part "." or "..") and reads `/threads/ID REST` or
-- `/projects/P/threads/ID REST` after the query, the API prefix and the trailing slashes are cut.
pub classify_path-thread :
    (raw id rest : Text)
    → classify_path raw ≡ thread id rest
    → (any is_forbidden (normalize_path raw) ≡ false)
      × (any is_dots (split b'/' (normalize_path raw)) ≡ false)
      × IsThreadPath (normalize_path raw) id rest
unfolding classify_path classify_other
classify_path-thread raw id rest e =
    let path = normalize_path raw in
    let clean : is_refused path ≡ false = ground arith in
    let matched : match_thread (split b'/' path) ≡ some (id, rest) = ground arith in
    (
      ground (arith, clean),
      ground (arith, clean),
      subst (λ p. IsThreadPath p id rest) (join-split b'/' path)
          (match_thread_sound (split b'/' path) matched),
    )
