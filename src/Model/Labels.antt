-- ===== src/Model/Labels.antt =====
-- code/model/torch_model.cpp, `get_idx_to_label_`: it reads what a table of labels is written as.
use torch_server.Base.{
  ℕ, zero, suc, ◌+◌, ◌-◌, ◌*◌, ◌/◌, ◌%◌, ◌<◌, ◌≡◌, refl, sym, ◌∙◌, ap, pos, Bool, true, false, not,
  ◌&&◌, Bytes, codes, List, [], ◌∷◌, ◌++◌, length, take, drop, set, replicate, append_assoc,
  length-append, take-length-append, drop-length-append, ok, arith, ◌==◌, Bool-cases, inl, inr,
  lt→ltb,
}
use torch_server.Http.Lines.{atoi}
use torch_server.Http.Response.{decimal, to_string}
use torch_server.Model.{first_line, quotes, set_label, store_labels, get_idx_to_label}
use torch_server.Model.Numbers.{atoi-to_string}

-- Neither a quotation mark nor an end of line.
unfoldable pub is_plain : Bytes → Bool
is_plain [] = true
is_plain (c ∷ s) = (not (c == 34) && not (c == 10)) && is_plain s

quotes-append :
    (i : ℕ) (s t : Bytes) → is_plain s ≡ true → quotes i (s ++ t) ≡ quotes (i + length s) t
unfolding quotes is_plain
quotes-append i [] t p = ap (λ k. quotes k t) (omega arith)
quotes-append i (c ∷ s) t p =
    let other : (c == 34) ≡ false = ground arith in
    let rest : is_plain s ≡ true = ground arith in
    rw other (quotes-append (i + 1) s t rest ∙ ap (λ k. quotes k t) (omega arith))

is_plain-decimal :
    (fuel n : ℕ) (tail : Bytes) → is_plain tail ≡ true → is_plain (decimal fuel n tail) ≡ true
unfolding is_plain decimal
is_plain-decimal zero n tail p = p
is_plain-decimal (suc fuel) n tail p =
    let p' : is_plain ((48 + n % 10) ∷ tail) ≡ true = ground arith in
    elim (Bool-cases (n / 10 == 0)) [
      | inl e ↦ rw e p'
      | inr e ↦ rw e (is_plain-decimal fuel (n / 10) ((48 + n % 10) ∷ tail) p')
    ]

is_plain-to_string : (n : ℕ) → is_plain (to_string n) ≡ true
unfolding to_string is_plain
is_plain-to_string n = is_plain-decimal (suc n) n [] refl

-- `"0": "cat"`, in front of `tail`.
abbrev head_of : ℕ → Bytes
head_of i = 34 ∷ (to_string i ++ (34 ∷ 58 ∷ 32 ∷ 34 ∷ []))

abbrev labelled : ℕ → Bytes → Bytes → Bytes
labelled i label tail = 34 ∷ (to_string i ++ (34 ∷ 58 ∷ 32 ∷ 34 ∷ (label ++ (34 ∷ tail))))

labelled_split :
    (i : ℕ) (label tail : Bytes) → labelled i label tail ≡ head_of i ++ (label ++ (34 ∷ tail))
labelled_split i label tail =
    ap (λ s. 34 ∷ s)
      (sym (append_assoc (to_string i) (34 ∷ 58 ∷ 32 ∷ 34 ∷ []) (label ++ (34 ∷ tail))))

-- Where the label's own marks stand, and where the tail begins.
abbrev mark_2 : ℕ → ℕ → ℕ
mark_2 p i = p + 1 + length (to_string i) + 3

abbrev mark_3 : ℕ → ℕ → Bytes → ℕ
mark_3 p i label = mark_2 p i + 1 + length label

quotes-labelled :
    (p i : ℕ) (label tail : Bytes)
    → is_plain label ≡ true
    → quotes p (labelled i label tail)
      ≡ p
        ∷ (p + 1 + length (to_string i))
        ∷ mark_2 p i
        ∷ mark_3 p i label
        ∷ quotes (mark_3 p i label + 1) tail
unfolding quotes
quotes-labelled p i label tail plain =
    ap (λ s. p ∷ s)
      (quotes-append (p + 1) (to_string i) _ (is_plain-to_string i)
        ∙ ap (λ s. (p + 1 + length (to_string i)) ∷ s)
            (ap (λ k. k ∷ quotes (k + 1) (label ++ (34 ∷ tail))) (omega arith)
              ∙ ap (λ s. mark_2 p i ∷ s) (quotes-append (mark_2 p i + 1) label (34 ∷ tail) plain)))

-- What stands between two entries.
unfoldable pub separator : List Bytes → Bytes
separator [] = []
separator (label ∷ labels) = codes ", "

-- A table of labels as an object, the labels under their indices from `i` on.
unfoldable pub entries : ℕ → List Bytes → Bytes
entries i [] = codes "}"
entries i (label ∷ labels) = labelled i label (separator labels ++ entries (i + 1) labels)

unfoldable pub render : List Bytes → Bytes
render labels = codes "{" ++ entries 0 labels

abbrev pub ArePlain : List Bytes → Type 0
ArePlain [] = Unit {0}
ArePlain (label ∷ labels) = (is_plain label ≡ true) × ArePlain labels

is_plain-separator : (labels : List Bytes) → is_plain (separator labels) ≡ true
unfolding separator is_plain
is_plain-separator [] = refl
is_plain-separator (label ∷ labels) = refl

quotes-entries :
    (p i : ℕ) (label : Bytes) (labels : List Bytes)
    → is_plain label ≡ true
    → quotes p (entries i (label ∷ labels))
      ≡ p
        ∷ (p + 1 + length (to_string i))
        ∷ mark_2 p i
        ∷ mark_3 p i label
        ∷ quotes (mark_3 p i label + 1 + length (separator labels)) (entries (i + 1) labels)
unfolding entries
quotes-entries p i label labels plain =
    quotes-labelled p i label (separator labels ++ entries (i + 1) labels) plain
    ∙ ap (λ s. p ∷ (p + 1 + length (to_string i)) ∷ mark_2 p i ∷ mark_3 p i label ∷ s)
        (quotes-append (mark_3 p i label + 1) (separator labels) (entries (i + 1) labels)
          (is_plain-separator labels))

length-quotes-entries :
    (p i : ℕ) (labels : List Bytes)
    → ArePlain labels
    → length (quotes p (entries i labels)) ≡ 4 * length labels
unfolding quotes entries
length-quotes-entries p i [] plain = refl
length-quotes-entries p i (label ∷ labels) (plain, more) =
    ap length (quotes-entries p i label labels plain)
    ∙ omega (
      arith,
      length-quotes-entries (mark_3 p i label + 1 + length (separator labels)) (i + 1) labels more,
    )

set-append_end :
    (done : List Bytes) (x label : Bytes) (rest : List Bytes)
    → set (done ++ x ∷ rest) (length done) label ≡ (done ++ label ∷ []) ++ rest
set-append_end [] x label rest = refl
set-append_end (d ∷ done) x label rest = ap (λ s. d ∷ s) (set-append_end done x label rest)

module _ (json before : Bytes) (p i : ℕ) (label tail : Bytes)
    (split : json ≡ before ++ labelled i label tail) (size : p ≡ length before) where
  index_read : atoi (drop (p + 1) json) ≡ pos i
  index_read =
      let rest = to_string i ++ (34 ∷ 58 ∷ 32 ∷ 34 ∷ (label ++ (34 ∷ tail))) in
      ap (λ s. atoi (drop (p + 1) s)) (split ∙ sym (append_assoc before (34 ∷ []) rest))
      ∙ ap atoi (
          drop-length-append (p + 1) (before ++ 34 ∷ []) rest
            (omega (arith, length-append before (34 ∷ []))))
      ∙ atoi-to_string i (58 ∷ 32 ∷ 34 ∷ (label ++ (34 ∷ tail)))

  label_read : take (mark_3 p i label - mark_2 p i - 1) (drop (mark_2 p i + 1) json) ≡ label
  label_read =
      let rest = label ++ (34 ∷ tail) in
      let whole : json ≡ (before ++ head_of i) ++ rest =
        split
        ∙ ap (λ s. before ++ s) (labelled_split i label tail)
        ∙ sym (append_assoc before (head_of i) rest) in
      let size : mark_2 p i + 1 ≡ length (before ++ head_of i) = omega (
        arith,
        length-append before (head_of i),
        length-append (to_string i) (34 ∷ 58 ∷ 32 ∷ 34 ∷ []),
      ) in
      ap (take (mark_3 p i label - mark_2 p i - 1)) (
        ap (drop (mark_2 p i + 1)) whole
        ∙ drop-length-append (mark_2 p i + 1) (before ++ head_of i) rest size)
      ∙ take-length-append (mark_3 p i label - mark_2 p i - 1) label (34 ∷ tail) (omega arith)

-- What has been read when the tail of an labelled begins.
abbrev before_next : Bytes → ℕ → Bytes → List Bytes → Bytes
before_next before i label labels = before ++ (head_of i ++ (label ++ (34 ∷ separator labels)))

length-before_next :
    (before : Bytes) (i : ℕ) (label : Bytes) (labels : List Bytes)
    → length (before_next before i label labels)
      ≡ length before + length (to_string i) + length label + length (separator labels) + 6
length-before_next before i label labels =
    let marked = 34 ∷ separator labels in
    omega (
      arith,
      length-append before (head_of i ++ (label ++ marked)),
      length-append (head_of i) (label ++ marked),
      length-append (to_string i) (34 ∷ 58 ∷ 32 ∷ 34 ∷ []),
      length-append label marked,
    )

split_next :
    (before : Bytes) (i : ℕ) (label : Bytes) (labels : List Bytes) (rest : Bytes)
    → before ++ labelled i label (separator labels ++ rest)
      ≡ before_next before i label labels ++ rest
split_next before i label labels rest =
    let marked = 34 ∷ separator labels in
    ap (λ s. before ++ s)
      (labelled_split i label (separator labels ++ rest)
        ∙ ap (λ s. head_of i ++ s) (sym (append_assoc label marked rest))
        ∙ sym (append_assoc (head_of i) (label ++ marked) rest))
    ∙ sym (append_assoc before (head_of i ++ (label ++ marked)) rest)

store_labels-entries :
    (labels : List Bytes) (json before : Bytes) (p i : ℕ) (done : List Bytes)
    → json ≡ before ++ entries i labels
    → p ≡ length before
    → i ≡ length done
    → ArePlain labels
    → store_labels json (quotes p (entries i labels)) (done ++ replicate (length labels) [])
      ≡ ok (done ++ labels)
unfolding store_labels set_label quotes entries
store_labels-entries [] json before p i done split size count plain = refl
store_labels-entries (label ∷ labels) json before p i done split size count (plain, more) =
    let tail = separator labels ++ entries (i + 1) labels in
    let room : i < length (done ++ [] ∷ replicate (length labels) []) =
      omega (arith, length-append done ([] ∷ replicate (length labels) [])) in
    let at_end : set (done ++ [] ∷ replicate (length labels) []) i label
        ≡ (done ++ label ∷ []) ++ replicate (length labels) [] =
      ap (λ k. set (done ++ [] ∷ replicate (length labels) []) k label) count
      ∙ set-append_end done [] label (replicate (length labels) []) in
    let next =
      store_labels-entries labels json (before_next before i label labels)
        (mark_3 p i label + 1 + length (separator labels)) (i + 1) (done ++ label ∷ [])
        (split ∙ split_next before i label labels (entries (i + 1) labels))
        (omega (arith, size, length-before_next before i label labels))
        (omega (arith, length-append done (label ∷ []))) more in
    rw
      (
        quotes-entries p i label labels plain,
        index_read json before p i label tail split size,
        lt→ltb i (length (done ++ [] ∷ replicate (length labels) [])) room,
        label_read json before p i label tail split size,
        at_end,
      )
      (next ∙ ap ok (append_assoc done (label ∷ []) labels))

-- A table of labels without quotation marks and ends of lines, in the first line of the file, is
-- read as exactly those labels, each under its index.
pub get_idx_to_label-render :
    (labels : List Bytes) (file : Bytes)
    → ArePlain labels
    → first_line file ≡ render labels
    → get_idx_to_label file ≡ ok labels
unfolding get_idx_to_label render quotes
get_idx_to_label-render labels file plain line =
    let marks = quotes 1 (entries 0 labels) in
    let count : length marks ≡ 4 * length labels = length-quotes-entries 1 0 labels plain in
    let even : (length marks % 4 == 0) ≡ true = ground (arith, count) in
    let size : length marks / 4 ≡ length labels = omega (arith, count) in
    rw (line, even, size)
      (store_labels-entries labels (render labels) (codes "{") 1 0 [] refl refl refl plain)
