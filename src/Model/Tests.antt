-- ===== src/Model/Tests.antt =====
-- A table of two labels, and an instance of the theorem on it.
use torch_server.Base.{ℕ, ◌≡◌, refl, Bytes, codes, List, [], ◌∷◌, some, ok, fault, out_of_bounds}
use torch_server.Http.Response.{to_string, decimal}
use torch_server.Model.{
  first_line, Vision, get_idx_to_label, classify, from_blob, first_labels, emplace,
}
use torch_server.Model.Labels.{
  ArePlain, is_plain, render, entries, separator, get_idx_to_label-render,
}

abbrev animals : List Bytes
animals = codes "cat" ∷ codes "dog" ∷ []

abbrev animals_file : Bytes
animals_file = codes "{\"0\": \"cat\", \"1\": \"dog\"}\n"

animals-ArePlain : ArePlain animals
unfolding is_plain
animals-ArePlain = (refl, (refl, tt))

animals_line : first_line animals_file ≡ render animals
unfolding first_line render entries separator to_string decimal
animals_line = refl

get_idx_to_label-render_example : get_idx_to_label animals_file ≡ ok animals
get_idx_to_label-render_example =
    get_idx_to_label-render animals animals_file animals-ArePlain animals_line

-- The first three of four.
first_three :
    first_labels {Prob = ℕ} 3 animals ((1, 90) ∷ (0, 7) ∷ (1, 2) ∷ (0, 1) ∷ [])
    ≡ ok ((codes "dog", 90) ∷ (codes "cat", 7) ∷ (codes "dog", 2) ∷ [])
unfolding first_labels emplace
first_three = refl

-- Pictures of one pixel.
abbrev one_pixel : Vision ℕ
one_pixel = record {
  Number = ℕ;
  decode = λ img. some (1 ∷ 2 ∷ 3 ∷ []);
  forward = λ tensor. some [];
}

classify_run : classify one_pixel animals (codes "img") ≡ fault out_of_bounds
unfolding classify from_blob
classify_run = refl
