-- ===== src/Controllers/Listing/Pages.antt =====
-- A client that turns the pages of the list of audio files: controllers/systemController.js.
use azan_dashboard.Prelude.{
  ℕ, zero, suc, ◌-◌, ◌+◌, ◌*◌, ◌/◌, ◌≤◌, ◌<◌, String, Bool, false, if◌then◌else◌, ◌≡◌, refl, ap,
  sym, ◌∙◌, Option, none, some, List, [], ◌∷◌, ◌++◌, length, drop, take, All, arith, ℤ, pos, ◌+ℤ◌,
  ◌-ℤ◌, ◌*ℤ◌, take-drop_whole, drop-drop, drop-all,
}
use mathlib.Core.Path.{subst}
use native.Mathlib.Nat.{div-add-mod, mod-lt, mul-le-mul_right, mul_comm}
use azan_dashboard.Result.{Result, ok, ◌>>=◌}
use azan_dashboard.Controllers.Listing.{
  Site, AudioFile, Scan, invalidate_file_cache, all_results, filter_shown, slice, Page, paginate,
  Cached, cache_ttl, cached_files, get_audio_files_with_metadata, get_audio_files,
}

-- A request for a page: when it comes, what the directories hold by then and how they answer, and
-- whether an upload, a deletion or a revalidation has dropped the list since the request before
pub record Visit : Type 0 where
  pub now : ℕ
  pub site : Site
  pub scan : Scan
  pub dropped : Bool

abbrev pub cache_at : Visit → Option Cached → Option Cached
cache_at v cached = if v.dropped then invalidate_file_cache else cached

-- The files of the pages from `k + 1` on, one request for each
unfoldable pub browse :
    (String → String) → ℕ → ℕ → List Visit → Option Cached → Result (List AudioFile)
unfolding get_audio_files
browse extname limit k [] cached = ok []
browse extname limit k (v ∷ vs) cached =
    let answer =
      get_audio_files extname v.scan v.site v.now (some (pos (suc k))) (some (pos limit))
        (cache_at v cached) in
    answer.1 >>= λ (p : Page).
    browse extname limit (suc k) vs answer.0 >>= λ (rest : List AudioFile). ok (p.files ++ rest)

start_of : (k limit : ℕ) → (pos (suc k) -ℤ pos 1) *ℤ pos limit ≡ pos (k * limit)
unfolding ◌-ℤ◌ ◌*ℤ◌
start_of k limit =
    let one : pos (suc k) -ℤ pos 1 ≡ pos k = ground arith in
    ap (λ (z : ℤ). z *ℤ pos limit) one ∙ ground arith

end_of : (n limit : ℕ) → pos n +ℤ pos limit ≡ pos (n + limit)
unfolding ◌+ℤ◌
end_of n limit = ground arith

slice-pos :
    (n limit : ℕ) (all : List AudioFile)
    → slice (pos n) (pos (n + limit)) all ≡ take limit (drop n all)
unfolding slice
slice-pos n limit all =
    let same : n + limit - n ≡ limit = omega arith in ap (λ (m : ℕ). take m (drop n all)) same

page_files :
    (k limit : ℕ) (all : List AudioFile)
    → (paginate (pos (suc k)) (pos limit) all).files ≡ take limit (drop (k * limit) all)
unfolding paginate
page_files k limit all =
    ap (λ (s : ℤ). slice s (s +ℤ pos limit) all) (start_of k limit)
    ∙ ap (λ (e : ℤ). slice (pos (k * limit)) e all) (end_of (k * limit) limit)
    ∙ slice-pos (k * limit) limit all

-- The last page that is announced reaches the last file.
enough :
    (total limit count : ℕ)
    → 0 < limit
    → (total + (limit - 1)) / limit ≤ count
    → total ≤ count * limit
enough total limit count h e =
    let q = (total + (limit - 1)) / limit in
    let whole = div-add-mod (total + (limit - 1)) limit in
    let part = mod-lt (total + (limit - 1)) h in
    let most = mul-le-mul_right limit e in
    let turned : limit * q ≡ q * limit = mul_comm limit q in omega arith

next_page : (k limit : ℕ) → k * limit + limit ≡ suc k * limit
next_page k limit = ground arith

visits_left : (k n limit total : ℕ) → total ≤ (k + suc n) * limit → total ≤ (suc k + n) * limit
visits_left k n limit total h =
    let same : k + suc n ≡ suc k + n = omega arith in subst (λ (m : ℕ). total ≤ m * limit) same h

none_left : (k limit total : ℕ) → total ≤ (k + 0) * limit → total ≤ k * limit
none_left k limit total h =
    let same : k + 0 ≡ k = omega arith in subst (λ (m : ℕ). total ≤ m * limit) same h

module _ (extname : String → String) (l at : ℕ) (all : List AudioFile) where
  abbrev held : Option Cached
  held = some (record { timestamp = at; data_of = all })

  -- The list is less than a minute old and was not dropped.
  abbrev IsFresh : Visit → Type 0
  IsFresh v = (v.now - at < cache_ttl) × (v.dropped ≡ false)

  -- The cache answers while it is fresh.
  from_cache :
      (k : ℕ) (v : Visit)
      → IsFresh v
      → get_audio_files extname v.scan v.site v.now
          (some (pos (suc k)))
          (some (pos (suc l)))
          (cache_at v held)
        ≡ (held, ok (paginate (pos (suc k)) (pos (suc l)) all))
  unfolding get_audio_files get_audio_files_with_metadata
  from_cache k v (young, undropped) =
      let fresh : cached_files v.now held ≡ some all = ground arith in
      let same : cache_at v held ≡ held =
        ap (λ (b : Bool). if b then invalidate_file_cache else held) undropped in
      ap (get_audio_files extname v.scan v.site v.now (some (pos (suc k))) (some (pos (suc l))))
        same
      ∙ rw (fresh, get_audio_files, get_audio_files_with_metadata) refl

  page_and_rest :
      (k : ℕ)
      → (paginate (pos (suc k)) (pos (suc l)) all).files ++ drop (suc k * suc l) all
        ≡ drop (k * suc l) all
  page_and_rest k =
      ap (λ (xs : List AudioFile). xs ++ drop (suc k * suc l) all) (page_files k (suc l) all)
      ∙ ap (λ (n : ℕ). take (suc l) (drop (k * suc l) all) ++ drop n all)
          (sym (next_page k (suc l)))
      ∙ ap (λ (xs : List AudioFile). take (suc l) (drop (k * suc l) all) ++ xs)
          (sym (drop-drop (suc l) (k * suc l) all))
      ∙ take-drop_whole (suc l) (drop (k * suc l) all)

  browse-fresh :
      (k : ℕ) (vs : List Visit)
      → All IsFresh vs
      → length all ≤ (k + length vs) * suc l
      → browse extname (suc l) k vs held ≡ ok (drop (k * suc l) all)
  unfolding browse
  browse-fresh k [] fresh fits =
      ap ok (sym (drop-all (k * suc l) all (none_left k (suc l) (length all) fits)))
  browse-fresh k (v ∷ vs) (young, fresh) fits =
      let rest =
        browse-fresh (suc k) vs fresh (visits_left k (length vs) (suc l) (length all) fits) in
      rw (from_cache k v young, rest, browse) (ap ok (page_and_rest k))

-- The first request scans.
from_scan :
    (extname : String → String) (l : ℕ) (v : Visit) (cached : Option Cached)
    (shown : List AudioFile)
    → cached_files v.now (cache_at v cached) ≡ none
    → filter_shown (all_results extname v.scan v.site) ≡ ok shown
    → get_audio_files extname v.scan v.site v.now
        (some (pos 1))
        (some (pos (suc l)))
        (cache_at v cached)
      ≡ (held extname l v.now shown, ok (paginate (pos 1) (pos (suc l)) shown))
unfolding get_audio_files get_audio_files_with_metadata
from_scan extname l v cached shown stale scan =
    rw (stale, scan, get_audio_files, get_audio_files_with_metadata) refl

pos-injective : {a b : ℕ} → pos a ≡ pos b → a ≡ b
pos-injective e = ground arith

-- Who turns the pages of the list within a minute of its first scan, from the first page to the last
-- one that is announced or beyond, gets each file that the scan showed once and in its order, if no
-- upload, deletion or revalidation drops the list meanwhile.
pub browse-whole :
    (extname : String → String) (limit : ℕ) (v : Visit) (vs : List Visit) (cached : Option Cached)
    (shown : List AudioFile) (pages : ℕ)
    → 0 < limit
    → cached_files v.now (cache_at v cached) ≡ none
    → filter_shown (all_results extname v.scan v.site) ≡ ok shown
    → All (λ (w : Visit). (w.now - v.now < cache_ttl) × (w.dropped ≡ false)) vs
    → (paginate (pos 1) (pos limit) shown).total_pages ≡ pos pages
    → pages ≤ length (v ∷ vs)
    → browse extname limit 0 (v ∷ vs) cached ≡ ok shown
unfolding browse paginate
browse-whole extname zero v vs cached shown pages h stale scan fresh announced all_turned =
    absurd (omega arith)
browse-whole extname (suc l) v vs cached shown pages h stale scan fresh announced all_turned =
    let fits : length shown ≤ (1 + length vs) * suc l =
      enough (length shown) (suc l) (1 + length vs) h
        (subst (λ (n : ℕ). n ≤ 1 + length vs) (sym (pos-injective announced)) (omega arith)) in
    let first = from_scan extname l v cached shown stale scan in
    let rest = browse-fresh extname l v.now shown 1 vs fresh fits in
    let whole : 0 * suc l ≡ 0 = omega arith in
    rw (first, rest, browse)
      (ap ok (page_and_rest extname l v.now shown 0 ∙ ap (λ (n : ℕ). drop n shown) whole))
