-- ===== src/Authz/Decision.antt =====
-- Which requests plugin/authz/authz.ts allows.
use bb_shared.Base.{
  ◌≡◌, ◌≢◌, ◌↔◌, refl, ◌⊎◌, inl, inr, true, false, List, [], ◌∷◌, none, some, Text, codes, same,
  same_iff, to_upper_case, find?, arith, Bool-cases, Option-cases,
}
use bb_shared.TokenStore.{write, Share, Token, has_thread}
use bb_shared.TokenStore.Grants.{perm_of}
use bb_shared.Authz.Path.{PathClass, non_thread, thread, project, invalid, classify_path}
use bb_shared.Authz.{
  is_mutating_method, is_supported_method, is_read_endpoint, is_send, authz_class, authz_thread,
  compute_authz,
}
use bb_shared.Authz.Scope.{InProject, project_scope_iff}

-- The verb of a request, by its upper-case name.
abbrev pub Reads : Text → Type 0
Reads method = (to_upper_case method ≡ codes "GET") ⊎ (to_upper_case method ≡ codes "HEAD")

abbrev pub Posts : Text → Type 0
Posts method = to_upper_case method ≡ codes "POST"

Reads-iff :
    (method : Text)
    → ((is_supported_method method ≡ true) × (is_mutating_method method ≡ false)) ↔ Reads method
unfolding is_supported_method is_mutating_method same
Reads-iff method = (
  λ h.
      let u = to_upper_case method in
      ground (arith, same_iff u (codes "GET"), same_iff u (codes "HEAD"), h.0, h.1),
  λ r. elim r [ inl e ↦ rw e (refl, refl) | inr e ↦ rw e (refl, refl) ],
)

Posts-supported :
    (method : Text)
    → Posts method
    → (is_supported_method method ≡ true) × (is_mutating_method method ≡ true)
unfolding is_supported_method is_mutating_method same
Posts-supported method e = rw e (refl, refl)

is_send_iff :
    (method rest : Text) → (is_send method rest ≡ true) ↔ (Posts method × (rest ≡ codes "/send"))
unfolding is_send
is_send_iff method rest =
    ground (arith, same_iff (to_upper_case method) (codes "POST"), same_iff rest (codes "/send"))

perm_of-find? :
    (id : Text) (ss : List Share)
    → perm_of id ss ≡ elim (find? (has_thread id) ss) [ none ↦ none | some s ↦ some s.perm ]
unfolding perm_of
perm_of-find? id [] = refl
perm_of-find? id (s ∷ ss) = ground (arith, perm_of-find? id ss)

-- What an invitation permits, by the class of the path.
abbrev pub Permits : Token → Text → PathClass → Type 0
Permits t method invalid = ⊥
Permits t method non_thread = Reads method
Permits t method (project id) = Reads method × InProject id t.shares
Permits t method (thread id rest) =
    (Reads method × (perm_of id t.shares ≢ none) × (is_read_endpoint rest ≡ true))
    ⊎ (Posts method × (rest ≡ codes "/send") × (perm_of id t.shares ≡ some write))

Permits-supported :
    (t : Token) (method : Text) (c : PathClass)
    → Permits t method c
    → is_supported_method method ≡ true
Permits-supported t method invalid p = absurd p
Permits-supported t method non_thread p = ((Reads-iff method).1 p).0
Permits-supported t method (project id) p = ((Reads-iff method).1 p.0).0
Permits-supported t method (thread id rest) (inl p) = ((Reads-iff method).1 p.0).0
Permits-supported t method (thread id rest) (inr p) = (Posts-supported method p.0).0

authz_thread_iff :
    (t : Token) (method id rest : Text)
    → is_supported_method method ≡ true
    → ((authz_thread t method id rest).allowed ≡ true) ↔ Permits t method (thread id rest)
unfolding authz_thread
authz_thread_iff t method id rest s = elim (Option-cases (find? (has_thread id) t.shares)) [
  | inl missing ↦ ground (arith, perm_of-find? id t.shares)
  | inr (share, found) ↦ ground (
    arith,
    perm_of-find? id t.shares,
    Reads-iff method,
    Posts-supported method,
    is_send_iff method rest,
  )
]

authz_class_iff :
    (t : Token) (path method : Text) (c : PathClass)
    → is_supported_method method ≡ true
    → ((authz_class t path method c).allowed ≡ true) ↔ Permits t method c
unfolding authz_class
authz_class_iff t path method invalid s = ground arith
authz_class_iff t path method non_thread s = ground (arith, Reads-iff method)
authz_class_iff t path method (project id) s =
    ground (arith, Reads-iff method, project_scope_iff t id)
authz_class_iff t path method (thread id rest) s = authz_thread_iff t method id rest s

-- For a known token, exactly the permitted requests are allowed. GET and HEAD read the bootstrap
-- routes, the projects of the token's shares, and the transcript endpoints of its threads; POST
-- writes only to `/send` of a thread that is shared for writing; nothing else is allowed.
pub compute_authz_iff :
    (t : Token) (path method : Text)
    → ((compute_authz (some t) path method).allowed ≡ true) ↔ Permits t method (classify_path path)
unfolding compute_authz
compute_authz_iff t path method = elim (Bool-cases (is_supported_method method)) [
  | inl s ↦ rw s (authz_class_iff t path method (classify_path path) s)
  | inr u ↦
      rw u (
        λ h. cc,
        λ p. absurd (ground (arith, u, Permits-supported t method (classify_path path) p)),
      )
]
