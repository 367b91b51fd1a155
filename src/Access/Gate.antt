-- ===== src/Access/Gate.antt =====
-- middleware/auth.js and middleware/storageCheck.js: which requests go on.
use azan_dashboard.Prelude.{
  ℕ, ◌+◌, ◌≤◌, String, ◌≡◌, refl, true, Option, some, List, [], ◌∷◌, ◌++◌, arith, inl, inr, ◌↔◌,
  Option-cases,
}
use azan_dashboard.Access.{
  User, next, filled, authenticate_token, Node, unreadable, symbolic_link, plain_file, directory,
  Listing, no_more, entry, node_size, get_dir_size, limit_bytes, check_quota, storage_check,
}

-- A session that may go on: a token that verifies under the configured secret to this user, whose
-- token version is the present one.
pub record IsAuthentic (verify : String → String → Option User) (token secret : Option String)
    (version : ℕ) (user : User) : Type 0 where
  pub token_text : String
  pub secret_text : String
  pub sent : filled token ≡ some token_text
  pub configured : filled secret ≡ some secret_text
  pub verified : verify token_text secret_text ≡ some user
  pub current : user.token_version ≡ some version

-- A request is let through as a user only with a token that is not empty and verifies, under a secret
-- that is configured, to that user with the present token version.
pub authenticate_token-IsAuthentic :
    (verify : String → String → Option User) (token secret : Option String) (version : ℕ)
    (user : User)
    → authenticate_token verify token secret version ≡ next user
    → IsAuthentic verify token secret version user
unfolding authenticate_token
authenticate_token-IsAuthentic verify token secret version user e =
    elim (Option-cases (filled token)) [
      | inl anonymous ↦ absurd (ground arith)
      | inr (t, sent) ↦ elim (Option-cases (filled secret)) [
        | inl unset ↦ absurd (ground arith)
        | inr (s, configured) ↦ elim (Option-cases (verify t s)) [
          | inl forged ↦ absurd (ground arith)
          | inr (u, verified) ↦ record {
            token_text = t;
            secret_text = s;
            sent = sent;
            configured = configured;
            verified = ground arith;
            current = ground arith;
          }
        ]
      ]
    ]

-- The sizes of the files that are reached without following links
unfoldable mutual
  pub node_files : Node → List ℕ
  node_files unreadable = []
  node_files symbolic_link = []
  node_files (plain_file n) = n ∷ []
  node_files (directory l) = files l

  pub files : Listing → List ℕ
  files no_more = []
  files (entry name n l) = node_files n ++ files l

abbrev pub sum : List ℕ → ℕ
sum [] = 0
sum (n ∷ ns) = n + sum ns

sum-append : (xs ys : List ℕ) → sum (xs ++ ys) ≡ sum xs + sum ys
sum-append [] ys = omega arith
sum-append (x ∷ xs) ys = omega (arith, sum-append xs ys)

mutual
  unfolding get_dir_size node_files

  node_size-sum : (n : Node) → node_size n ≡ sum (node_files n)
  node_size-sum unreadable = refl
  node_size-sum symbolic_link = refl
  node_size-sum (plain_file n) = omega arith
  node_size-sum (directory l) = get_dir_size-sum l

  get_dir_size-sum : (l : Listing) → get_dir_size l ≡ sum (files l)
  get_dir_size-sum no_more = refl
  get_dir_size-sum (entry name n l) =
      omega (arith, node_size-sum n, get_dir_size-sum l, sum-append (node_files n) (files l))

-- Where the quota can be checked, an upload of a known length is let through exactly if it fits: the
-- files of the two directories, at any depth but not behind links, and the upload together do not
-- exceed the limit.
pub storage_check-fits :
    (limit : Option ℕ) (custom cache : Listing) (n : ℕ)
    → (storage_check limit custom cache (some n) true ≡ true)
      ↔ (sum (files custom) + sum (files cache) + n ≤ limit_bytes limit)
unfolding storage_check check_quota
storage_check-fits limit custom cache n =
    ground (arith, get_dir_size-sum custom, get_dir_size-sum cache)
