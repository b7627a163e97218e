-- ===== src/Model.antt =====
-- code/model/torch_model.cpp: the labels of the network, and the first three of an answer. What the
-- network says of a picture is a parameter.
pub mod Numbers
pub mod Labels
pub mod Tests
use torch_server.Base.{
  ℕ, zero, suc, ◌+◌, ◌-◌, ◌/◌, ◌%◌, ◌≡◌, ℤ, pos, negsuc, Bool, true, false, Bytes, codes, List, [],
  ◌∷◌, ◌++◌, length, take, drop, set, get_elem?, replicate, Option, some, none, Run, ok, fault,
  out_of_bounds, uncaught, assert, or_fault, ◌>>=◌, ◌>>◌, ltb, leb, ◌*◌, ◌==◌, if◌then◌else◌,
}
use torch_server.Http.Lines.{atoi}

-- `getline`
unfoldable pub first_line : Bytes → Bytes
first_line [] = []
first_line (c ∷ s) = let rest = first_line s in if c == b'\n' then [] else c ∷ rest

-- The positions of the quotation marks, from the `i`-th character on.
unfoldable pub quotes : ℕ → Bytes → List ℕ
quotes i [] = []
quotes i (c ∷ s) = let rest = quotes (i + 1) s in if c == b'"' then i ∷ rest else rest

-- `idx_to_label_[idx] = label`
unfoldable pub set_label : ℤ → Bytes → List Bytes → Run (List Bytes)
set_label (negsuc n) label labels = fault out_of_bounds
set_label (pos idx) label labels =
    if ltb idx (length labels) then ok (set labels idx label) else fault out_of_bounds

-- The loop over the positions, four at a time.
unfoldable pub store_labels : Bytes → List ℕ → List Bytes → Run (List Bytes)
store_labels json [] labels = ok labels
store_labels json (p₀ ∷ []) labels = ok labels
store_labels json (p₀ ∷ p₁ ∷ []) labels = ok labels
store_labels json (p₀ ∷ p₁ ∷ p₂ ∷ []) labels = ok labels
store_labels json (p₀ ∷ p₁ ∷ p₂ ∷ p₃ ∷ later) labels = do
  let idx = atoi (drop (p₀ + 1) json)
  labels' ← set_label idx (take (p₃ - p₂ - 1) (drop (p₂ + 1) json)) labels
  store_labels json later labels'

unfoldable pub get_idx_to_label : Bytes → Run (List Bytes)
get_idx_to_label file =
    let json = first_line file in
    let found = quotes 0 json in
    do assert (length found % 4 == 0); store_labels json found (replicate (length found / 4) [])

module _ {Prob : Type 0} where
  -- The label of one index.
  unfoldable pub emplace : List Bytes → ℕ × Prob → Run (Bytes × Prob)
  emplace labels (idx, prob) = do
    label ← or_fault (get_elem? labels idx) out_of_bounds
    ok (label, prob)

  -- `n` more of the sorted indices; with fewer of them the access to the tensor throws.
  unfoldable pub first_labels : ℕ → List Bytes → List (ℕ × Prob) → Run (List (Bytes × Prob))
  first_labels zero labels ranked = ok []
  first_labels (suc n) labels [] = fault uncaught
  first_labels (suc n) labels (best ∷ ranked) = do
    one ← emplace labels best
    more ← first_labels n labels ranked
    ok (one ∷ more)

-- What the libraries do with a picture: OpenCV decodes it into numbers, or throws, and torch runs the
-- network on them and sorts its answer, or throws.
pub record Vision (Prob : Type 0) : Type 1 where
  pub Number : Type 0
  pub decode : Bytes → Option (List Number)
  pub forward : List Number → Option (List (ℕ × Prob))

abbrev img_width : ℕ
img_width = 448

abbrev img_height : ℕ
img_height = 448

-- `from_blob`: a tensor of this size on the memory of the picture, whatever its size.
unfoldable pub from_blob : {A : Type 0} → List A → Run (List A)
from_blob pixels =
    let size = img_height * img_width * 3 in
    if leb size (length pixels) then ok (take size pixels) else fault out_of_bounds

module _ {Prob : Type 0} (vision : Vision Prob) where
  open vision use {decode, forward}

  unfoldable pub classify : List Bytes → Bytes → Run (List (Bytes × Prob))
  classify labels img_str = do
    pixels ← or_fault (decode img_str) uncaught
    tensor ← from_blob pixels
    ranked ← or_fault (forward tensor) uncaught
    first_labels 3 labels ranked
