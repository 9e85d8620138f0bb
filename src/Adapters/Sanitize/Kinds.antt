-- ===== src/Adapters/Sanitize/Kinds.antt =====
-- The kinds that a scan for secrets reports.
use kumomiru.Prelude.{
  ◌≡◌, refl, arith, eq_iff, String, Bool, ◌&&◌, ◌||◌, List, [], ◌∷◌, foldl, any, ◌==◌,
}
use kumomiru.JsSet.{has, has-append, Distinct, Distinct-concat}
use kumomiru.Adapters.Regex.{test}
use kumomiru.Adapters.Sanitize.{Detector, detect, is_cons, detectors, scan_text}

-- The pattern of a detector of the kind is found.
unfoldable pub is_found : String → String → Detector → Bool
is_found x text d = d.kind == x && test d.re text

has-detect :
    (x text : String) (s : List String) (d : Detector)
    → has x (detect text s d) ≡ (has x s || is_found x text d)
unfolding detect has is_found
has-detect x text s d = ground (arith, has-append x s (d.kind ∷ []), eq_iff d.kind x)

has-foldl-detect :
    (x text : String) (s : List String) (ds : List Detector)
    → has x (foldl (detect text) s ds) ≡ (has x s || any (is_found x text) ds)
unfolding any
has-foldl-detect x text s [] = ground arith
has-foldl-detect x text s (d ∷ ds) =
    ground (arith, has-foldl-detect x text (detect text s d) ds, has-detect x text s d)

Distinct-detect :
    (text : String) (s : List String) (d : Detector) → Distinct s → Distinct (detect text s d)
unfolding detect
Distinct-detect text s d distinct = ground (arith, Distinct-concat s d.kind distinct)

Distinct-foldl-detect :
    (text : String) (s : List String) (ds : List Detector)
    → Distinct s
    → Distinct (foldl (detect text) s ds)
Distinct-foldl-detect text s [] distinct = distinct
Distinct-foldl-detect text s (d ∷ ds) distinct =
    Distinct-foldl-detect text (detect text s d) ds (Distinct-detect text s d distinct)

pub scan_text-kinds_distinct : (text : String) → Distinct (scan_text text).kinds
unfolding scan_text has
scan_text-kinds_distinct text = Distinct-foldl-detect text [] detectors tt

pub has-scan_text :
    (x text : String) → has x (scan_text text).kinds ≡ any (is_found x text) detectors
unfolding scan_text has
has-scan_text x text = has-foldl-detect x text [] detectors

is_cons-detect :
    (text : String) (s : List String) (d : Detector)
    → is_cons (detect text s d) ≡ (is_cons s || test d.re text)
unfolding detect has
is_cons-detect text [] d = ground arith
is_cons-detect text (x ∷ s) d = ground arith

is_cons-foldl-detect :
    (text : String) (s : List String) (ds : List Detector)
    → is_cons (foldl (detect text) s ds) ≡ (is_cons s || any (λ d. test d.re text) ds)
unfolding any
is_cons-foldl-detect text s [] = ground arith
is_cons-foldl-detect text s (d ∷ ds) =
    ground (arith, is_cons-foldl-detect text (detect text s d) ds, is_cons-detect text s d)

pub scan_text-found : (text : String) → (scan_text text).found ≡ any (λ d. test d.re text) detectors
unfolding scan_text
scan_text-found text = is_cons-foldl-detect text [] detectors

pub found-eq-is_cons : (text : String) → (scan_text text).found ≡ is_cons (scan_text text).kinds
unfolding scan_text
found-eq-is_cons text = refl
