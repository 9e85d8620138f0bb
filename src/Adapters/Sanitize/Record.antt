-- ===== src/Adapters/Sanitize/Record.antt =====
-- What a scan of a record marks: the entries that hold a secret, and the kinds of the secrets.
use kumomiru.Prelude.{
  ◌≡◌, refl, sym, ap, ◌∙◌, arith, if◌then◌else◌, String, Bool, true, false, ◌||◌, List, [], ◌∷◌,
  ◌++◌, ◌+ₛ◌, map, foldl, any, keep_if,
}
use mathlib.Core.List.{append-nil, append_assoc}
use kumomiru.JsSet.{has, add_all, has-add_all, Distinct, Distinct-add_all}
use kumomiru.Graph.Schema.{Json, Attributes}
use kumomiru.Adapters.Regex.{test}
use kumomiru.Adapters.Sanitize.{is_cons, ScanResult, detectors, scan_text, scan_entry, scan_record}
use kumomiru.Adapters.Sanitize.Kinds.{is_found, has-scan_text, scan_text-found, found-eq-is_cons}

abbrev pub Entry : Type 0
Entry = String × Json

-- The value is a text, and some detector finds its pattern in the name, an equals sign and the value.
unfoldable pub is_secret : Entry → Bool
is_secret (k, Json.str v) = any (λ d. test d.re (k +ₛ "=" +ₛ v)) detectors
is_secret (k, _) = false

-- Some detector of the kind does.
unfoldable pub has_secret : String → Entry → Bool
has_secret x (k, Json.str v) = any (is_found x (k +ₛ "=" +ₛ v)) detectors
has_secret x (k, _) = false

abbrev name : Entry → String
name e = e.0

abbrev Marks : Type 0
Marks = List String × List String

abbrev mark : Marks → String → ScanResult → Marks
mark acc k res = if res.found then (acc.0 ++ k ∷ [], add_all acc.1 res.kinds) else acc

has-mark :
    (x k : String) (acc : Marks) (kinds : List String)
    → has x (mark acc k (record { found = is_cons kinds; kinds = kinds })).1
      ≡ (has x acc.1 || has x kinds)
unfolding has
has-mark x k acc [] = ground arith
has-mark x k acc (y ∷ ys) = has-add_all x acc.1 (y ∷ ys)

Distinct-mark :
    (k : String) (acc : Marks) (res : ScanResult) → Distinct acc.1 → Distinct (mark acc k res).1
Distinct-mark k acc res d = ground (arith, Distinct-add_all acc.1 res.kinds d)

keys-mark :
    (k : String) (acc : Marks) (res : ScanResult)
    → (mark acc k res).0 ≡ (if res.found then acc.0 ++ k ∷ [] else acc.0)
keys-mark k acc res = ground arith

has-scan_entry :
    (x : String) (acc : Marks) (e : Entry)
    → has x (scan_entry acc e).1 ≡ (has x acc.1 || has_secret x e)
unfolding scan_entry has_secret
has-scan_entry x acc (k, Json.str v) =
    let text = k +ₛ "=" +ₛ v in
    let kinds = (scan_text text).kinds in
    ap (λ b. has x (mark acc k (record { found = b; kinds = kinds })).1) (found-eq-is_cons text)
    ∙ has-mark x k acc kinds
    ∙ ap (λ b. has x acc.1 || b) (has-scan_text x text)
has-scan_entry x acc (k, _) = ground arith

Distinct-scan_entry : (acc : Marks) (e : Entry) → Distinct acc.1 → Distinct (scan_entry acc e).1
unfolding scan_entry
Distinct-scan_entry acc (k, Json.str v) d = Distinct-mark k acc (scan_text (k +ₛ "=" +ₛ v)) d
Distinct-scan_entry acc (k, _) d = d

keys-scan_entry :
    (acc : Marks) (e : Entry)
    → (scan_entry acc e).0 ≡ (if is_secret e then acc.0 ++ e.0 ∷ [] else acc.0)
unfolding scan_entry is_secret
keys-scan_entry acc (k, Json.str v) =
    keys-mark k acc (scan_text (k +ₛ "=" +ₛ v))
    ∙ ap (λ b. if b then acc.0 ++ k ∷ [] else acc.0) (scan_text-found (k +ₛ "=" +ₛ v))
keys-scan_entry acc (k, _) = refl

append-keep :
    (b : Bool) (s : List String) (e : Entry) (es : List Entry)
    → ((if b then s ++ e.0 ∷ [] else s) ++ map name es) ≡ (s ++ map name (if b then e ∷ es else es))
append-keep true s e es = append_assoc s (e.0 ∷ []) (map name es)
append-keep false s e es = refl

is_cons-keep :
    (b : Bool) (e : Entry) (es : List Entry)
    → is_cons (map name (if b then e ∷ es else es)) ≡ (b || is_cons (map name es))
is_cons-keep true e es = refl
is_cons-keep false e es = refl

is_cons-keep_if : (es : List Entry) → is_cons (map name (keep_if is_secret es)) ≡ any is_secret es
unfolding keep_if any
is_cons-keep_if [] = refl
is_cons-keep_if (e ∷ es) =
    is_cons-keep (is_secret e) e (keep_if is_secret es)
    ∙ ap (λ b. is_secret e || b) (is_cons-keep_if es)

keys-after :
    (acc : Marks) (es : List Entry)
    → (foldl scan_entry acc es).0 ≡ (acc.0 ++ map name (keep_if is_secret es))
unfolding keep_if
keys-after acc [] = sym (append-nil acc.0)
keys-after acc (e ∷ es) =
    keys-after (scan_entry acc e) es
    ∙ ap (λ s. s ++ map name (keep_if is_secret es)) (keys-scan_entry acc e)
    ∙ append-keep (is_secret e) acc.0 e (keep_if is_secret es)

has-after :
    (x : String) (acc : Marks) (es : List Entry)
    → has x (foldl scan_entry acc es).1 ≡ (has x acc.1 || any (has_secret x) es)
unfolding any
has-after x acc [] = ground arith
has-after x acc (e ∷ es) = ground (arith, has-after x (scan_entry acc e) es, has-scan_entry x acc e)

Distinct-after :
    (acc : Marks) (es : List Entry) → Distinct acc.1 → Distinct (foldl scan_entry acc es).1
Distinct-after acc [] d = d
Distinct-after acc (e ∷ es) d = Distinct-after (scan_entry acc e) es (Distinct-scan_entry acc e d)

-- The scan marks the entries in which a detector finds its pattern, in their order, and no others; it
-- reports the kinds of the detectors that do, each once; and it finds a secret exactly if it marks an entry.
pub scan_record-Exact :
    (es : Attributes)
    → ((scan_record es).keys ≡ map name (keep_if is_secret es))
      × (((x : String) → has x (scan_record es).kinds ≡ any (has_secret x) es)
          × (Distinct (scan_record es).kinds × ((scan_record es).found ≡ any is_secret es)))
unfolding scan_record has
scan_record-Exact es = (
  keys-after ([], []) es,
  (
    λ x. has-after x ([], []) es,
    (Distinct-after ([], []) es tt, ap is_cons (keys-after ([], []) es) ∙ is_cons-keep_if es),
  ),
)
