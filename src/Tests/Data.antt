-- ===== src/Tests/Data.antt =====
-- A store with two invitations, and the sessions and scope of a guest.
use bb_shared.Base.{[], ◌∷◌, ◌++◌, Text, codes}
use bb_shared.TokenStore.{read, write, Share, Token, Tokens, AddShareInput, Draws}
use bb_shared.Sessions.{Session, Rows}
use bb_shared.Frames.{GuestScope}

-- A hash for the tests.
abbrev pub tag : Text → Text
tag raw = codes "#" ++ raw

abbrev pub alpha : Share
alpha = record {
  thread_id = codes "thr_a";
  project_id = codes "proj_1";
  perm = read;
  added_at = 10;
}

abbrev pub beta : Share
beta = record {
  thread_id = codes "thr_b";
  project_id = codes "proj_1";
  perm = write;
  added_at = 11;
}

abbrev pub reader : Token
reader = record {
  id = codes "bbsh_r";
  hash = tag (codes "raw_r");
  label = codes "swift-fox";
  shares = alpha ∷ [];
  created_at = 1;
}

abbrev pub writer : Token
writer = record {
  id = codes "bbsh_w";
  hash = tag (codes "raw_w");
  label = codes "ruby-owl";
  shares = alpha ∷ beta ∷ [];
  created_at = 2;
}

abbrev pub store : Tokens
store = (codes "bbsh_r", reader) ∷ (codes "bbsh_w", writer) ∷ []

abbrev pub gamma : AddShareInput
gamma = record { thread_id = codes "thr_c"; project_id = codes "proj_2"; perm = write }

abbrev pub draws : Draws
draws = record { raw_token = codes "raw_n"; ids = λ k. codes "bbsh_n"; rng = λ k. 0; fuel = 3 }

abbrev pub visit : Session
visit = record {
  id = codes "sess";
  grants = codes "bbsh_r" ∷ codes "bbsh_gone" ∷ [];
  expires = 900;
}

abbrev pub rows : Rows
rows = (codes "sess", visit) ∷ []

abbrev pub scope : GuestScope
scope = record { thread_ids = codes "thr_a" ∷ []; project_ids = codes "proj_1" ∷ [] }
