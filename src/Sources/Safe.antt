-- ===== src/Sources/Safe.antt =====
-- normalizeSource of utils/normalizeSource.js: where its results point to.
use azan_dashboard.Prelude.{
  String, ◌≡◌, refl, true, false, Option, none, some, arith, inl, inr, ◌⊎◌, Option-cases,
  Bool-cases,
}
use mathlib.Core.Path.{subst}
use mathlib.Core.Option.{some-injective}
use azan_dashboard.Text.{concat}
use azan_dashboard.Sources.{
  Paths, Raw, ExecutionSource, file, link, has_protocol, is_http, is_within_root, relative_path,
  absolute_path, url_of, is_allowed, checked_link, build_file_source, public_prefix,
  normalize_source, filled, is_type, typed_file, untyped,
}

abbrev pub IsSafeUrl : String → Type 0
IsSafeUrl url = (has_protocol url ≡ false) ⊎ (is_http url ≡ true)

-- A file lies within the audio directory, and a url with a scheme is http or https.
abbrev pub IsSafe : Paths → ExecutionSource → Type 0
IsSafe p (file target url) = (is_within_root p p.audio_root target ≡ true) × IsSafeUrl url
IsSafe p (link url) = is_http url ≡ true

public-relative : (rel : String) → has_protocol (concat public_prefix rel) ≡ false
unfolding has_protocol concat
public-relative rel = refl

url_of-IsSafeUrl :
    (url : Option String) (rel : String) → is_allowed url ≡ true → IsSafeUrl (url_of url rel)
url_of-IsSafeUrl none rel h = inl (public-relative rel)
url_of-IsSafeUrl (some u) rel h = ground arith

build_file_source-IsSafe :
    (p : Paths) (path file_path url : Option String) (out : ExecutionSource)
    → is_allowed url ≡ true
    → build_file_source p path file_path url ≡ some out
    → IsSafe p out
unfolding build_file_source
build_file_source-IsSafe p path file_path url out h e =
    elim (Option-cases (relative_path p path file_path url)) [
      | inl lost ↦ absurd (ground arith)
      | inr (raw, found) ↦
          let rel = p.with_slashes raw in
          let target = absolute_path p file_path rel in
          elim (Bool-cases (is_within_root p p.audio_root target)) [
            | inr outside ↦ absurd (ground arith)
            | inl inside ↦
                let same : file target (url_of url rel) ≡ out = some-injective _ _ (ground arith) in
                subst (IsSafe p) same (inside, url_of-IsSafeUrl url rel h)
          ]
    ]

checked_link-IsSafe :
    (p : Paths) (url : Option String) (out : ExecutionSource)
    → checked_link url ≡ some out
    → IsSafe p out
checked_link-IsSafe p none out e = absurd (ground arith)
checked_link-IsSafe p (some u) out e = elim (Bool-cases (is_http u)) [
  | inr refused ↦ absurd (ground arith)
  | inl web ↦
      let same : link u ≡ out = some-injective _ _ (ground arith) in subst (IsSafe p) same web
]

typed_file-IsSafe :
    (p : Paths) (file_path url : Option String) (out : ExecutionSource)
    → typed_file p file_path url ≡ some out
    → IsSafe p out
typed_file-IsSafe p none none out e = absurd (ground arith)
typed_file-IsSafe p file_path url out e =
    build_file_source-IsSafe p none file_path url out (ground arith) (ground arith)

untyped-IsSafe :
    (p : Paths) (path file_path url : Option String) (out : ExecutionSource)
    → untyped p path file_path url ≡ some out
    → IsSafe p out
untyped-IsSafe p path file_path none out e =
    build_file_source-IsSafe p path file_path none out refl e
untyped-IsSafe p path file_path (some u) out e = elim (Bool-cases (has_protocol u)) [
  | inl remote ↦ checked_link-IsSafe p (some u) out (ground arith)
  | inr here ↦ build_file_source-IsSafe p path file_path (some u) out (ground arith) (ground arith)
]

-- Whatever a caller passes as a source, what is played is a file that lies within the audio directory
-- or an http or https address; a file's address has no other scheme either.
pub normalize_source-IsSafe :
    (p : Paths) (raw : Raw) (out : ExecutionSource)
    → normalize_source p raw ≡ some out
    → IsSafe p out
unfolding normalize_source
normalize_source-IsSafe p raw out e = elim (Bool-cases (is_type "file" raw.type)) [
  | inl typed ↦ typed_file-IsSafe p (filled raw.file_path) (filled raw.url) out (ground arith)
  | inr other ↦ elim (Bool-cases (is_type "url" raw.type)) [
    | inl web ↦ checked_link-IsSafe p (filled raw.url) out (ground arith)
    | inr free ↦
        untyped-IsSafe p (filled raw.path) (filled raw.file_path) (filled raw.url) out
          (ground arith)
  ]
]
