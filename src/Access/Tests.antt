-- ===== src/Access/Tests.antt =====
-- A session with the present version, and an upload into a directory with a link.
use azan_dashboard.Prelude.{◌+◌, ◌≤◌, ◌↔◌, String, ◌≡◌, refl, true, Option, none, some}
use azan_dashboard.Access.{
  User, authenticate_token, symbolic_link, plain_file, directory, Listing, no_more, entry,
  limit_bytes, storage_check,
}
use azan_dashboard.Access.Gate.{
  IsAuthentic, authenticate_token-IsAuthentic, files, sum, storage_check-fits,
}

abbrev admin : User
admin = record { name = "admin"; token_version = some 3 }

abbrev verify : String → String → Option User
verify token secret = some admin

authenticate_token-IsAuthentic_sample : IsAuthentic verify (some "token") (some "secret") 3 admin
unfolding authenticate_token
authenticate_token-IsAuthentic_sample =
    authenticate_token-IsAuthentic verify (some "token") (some "secret") 3 admin refl

abbrev custom : Listing
custom = entry "azan.mp3" (plain_file 3000) (
    entry "old" (directory (entry "again" symbolic_link (entry "a.mp3" (plain_file 20) no_more)))
      no_more)

storage_check-fits_sample :
    (storage_check none custom no_more (some 5) true ≡ true)
    ↔ (sum (files custom) + sum (files no_more) + 5 ≤ limit_bytes none)
storage_check-fits_sample = storage_check-fits none custom no_more 5
