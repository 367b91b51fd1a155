-- ===== src/Playback/Played.antt =====
-- What outputs/BaseOutput.js lets an output play.
use azan_dashboard.Prelude.{
  true, false, ◌≡◌, Option, none, some, arith, inl, inr, Bool-cases, Option-cases,
}
use mathlib.Core.Path.{subst}
use azan_dashboard.Settings.{member as contains}
use azan_dashboard.Sources.{Paths, Raw, ExecutionSource, file, link, normalize_source}
use azan_dashboard.Sources.Safe.{IsSafe, normalize_source-IsSafe}
use azan_dashboard.Playback.{
  Output, Files, is_incompatible, failed, skipped, played, type_of, dispatch, execute,
}

-- A file that is there and whose sidecar does not refuse the output
abbrev pub IsReady : Paths → Files → Output → ExecutionSource → Type 0
IsReady p files output (link url) = Unit
IsReady p files output (file target url) =
    (files.exists target ≡ true) × (is_incompatible p files output target ≡ false)

pub record IsPlayable (p : Paths) (files : Files) (output : Output) (source : ExecutionSource)
    : Type 0 where
  pub safe : IsSafe p source
  pub supported : contains (type_of source) output.supported ≡ true
  pub ready : IsReady p files output source

played-injective : {a b : ExecutionSource} → played a ≡ played b → a ≡ b
played-injective e = ground arith

not_played : {b : ExecutionSource} → failed ≡ played b → ⊥
not_played e = absurd (ground arith)

not_skipped : {b : ExecutionSource} → skipped ≡ played b → ⊥
not_skipped e = absurd (ground arith)

dispatch-IsReady :
    (p : Paths) (files : Files) (output : Output) (source out : ExecutionSource)
    → dispatch p files output source ≡ played out
    → IsReady p files output source × (source ≡ out)
dispatch-IsReady p files output (link url) out e = (tt, played-injective e)
dispatch-IsReady p files output (file target url) out e = elim (Bool-cases (files.exists target)) [
  | inr lost ↦ absurd (not_played (rw lost at e))
  | inl there ↦ elim (Bool-cases (is_incompatible p files output target)) [
    | inl refused ↦ absurd (not_skipped (rw (there, refused) at e))
    | inr fine ↦ ((there, fine), played-injective (rw (there, fine) at e))
  ]
]

-- Whatever source an execution is given, what is played is safe, of a type that the output supports,
-- and if it is a file, one that is there and that no readable sidecar refuses to the output.
pub execute-IsPlayable :
    (p : Paths) (files : Files) (output : Output) (raw : Option Raw) (out : ExecutionSource)
    → execute p files output raw ≡ played out
    → IsPlayable p files output out
unfolding execute
execute-IsPlayable p files output none out e = absurd (not_played e)
execute-IsPlayable p files output (some raw) out e = elim (Option-cases (normalize_source p raw)) [
  | inl bad ↦ absurd (not_played (rw (bad, execute) at e))
  | inr (source, found) ↦ elim (Bool-cases (contains (type_of source) output.supported)) [
    | inr other ↦ absurd (not_played (rw (found, other, execute) at e))
    | inl known ↦
        let done = dispatch-IsReady p files output source out (rw (found, known, execute) at e) in
        subst (IsPlayable p files output) done.1 (record {
          safe = normalize_source-IsSafe p raw source found;
          supported = known;
          ready = done.0;
        })
  ]
]
