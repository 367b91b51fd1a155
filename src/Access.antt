-- ===== src/Access.antt =====
-- What stands before a request: middleware/auth.js, and middleware/storageCheck.js with checkQuota and
-- getDirSize of services/system/storageService.js. The token library and the file system answer
-- through arguments. Sizes and limits are whole numbers.
pub mod Gate
mod Tests
use azan_dashboard.Prelude.{
  ℕ, ◌+◌, ◌*◌, ◌==◌, ltb, String, Bool, true, false, Option, none, some, List, [], ◌∷◌, ◌++◌,
  str_eq, if◌then◌else◌,
}

-- The payload of a token
pub record User : Type 0 where
  pub name : String
  pub token_version : Option ℕ

pub data Reply : Type 0 where
  unauthorized misconfigured forbidden session_expired : Reply
  next : User → Reply

abbrev pub filled : Option String → Option String
filled none = none
filled (some s) = if str_eq s "" then none else some s

abbrev same_version : Option ℕ → ℕ → Bool
same_version none n = false
same_version (some m) n = m == n

-- authenticateToken; `verify token secret` is jwt.verify, `none` an error.
unfoldable pub authenticate_token :
    (String → String → Option User) → (token secret : Option String) → ℕ → Reply
authenticate_token verify token secret version = elim (filled token) [
  | none ↦ unauthorized
  | some t ↦ elim (filled secret) [
    | none ↦ misconfigured
    | some s ↦ elim (verify t s) [
      | none ↦ forbidden
      | some user ↦ if same_version user.token_version version then next user else session_expired
    ]
  ]
]

-- What fs.lstat finds: an entry that cannot be read, a symbolic link, a file of a size, a directory.
-- Without links a directory is never met twice, so that `visitedPaths` skips nothing.
mutual
  pub data Node : Type 0 where
    unreadable symbolic_link : Node
    plain_file : ℕ → Node
    directory : Listing → Node

  -- The entries of a directory, where it can be read
  pub data Listing : Type 0 where
    no_more : Listing
    entry : String → Node → Listing → Listing

unfoldable mutual
  pub node_size : Node → ℕ
  node_size unreadable = 0
  node_size symbolic_link = 0
  node_size (plain_file n) = n
  node_size (directory l) = get_dir_size l

  pub get_dir_size : Listing → ℕ
  get_dir_size no_more = 0
  get_dir_size (entry name n l) = node_size n + get_dir_size l

-- `(config.data?.storageLimit || 1.0)` gigabytes
abbrev pub limit_bytes : Option ℕ → ℕ
limit_bytes none = 1 * 1024 * 1024 * 1024
limit_bytes (some g) = (if g == 0 then 1 else g) * 1024 * 1024 * 1024

-- getUsage: the custom files and the cache
abbrev pub usage : Listing → Listing → ℕ
usage custom cache = get_dir_size custom + get_dir_size cache

-- `success` of checkQuota
unfoldable pub check_quota : Option ℕ → (custom cache : Listing) → ℕ → Bool
unfolding get_dir_size
check_quota limit custom cache bytes =
    if ltb (limit_bytes limit) (usage custom cache + bytes) then false else true

-- storageCheck: `true` is next(), `false` the status 413. `content_length` is NaN for `none`, and
-- `checked` is false where checkQuota throws.
unfoldable pub storage_check :
    Option ℕ → (custom cache : Listing) → (content_length : Option ℕ) → (checked : Bool) → Bool
unfolding check_quota
storage_check limit custom cache none checked = true
storage_check limit custom cache (some n) checked =
    if checked then check_quota limit custom cache n else true
