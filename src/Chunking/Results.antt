-- ===== src/Chunking/Results.antt =====
-- `create_chunk_results`: one result for each chunk, in order.
use graphloom.Base.{
  ℕ, suc, ◌≡◌, refl, List, [], ◌∷◌, Option, none, some, Text, ok, length, >>=-eq-ok, ok-injective,
  subst, ◌>>=◌,
}
use graphloom.Chunking.{TokenChunk, TextChunk, TokenEncode, create_chunk_results, transformed}

abbrev result_of : TokenChunk → Text → (index tokens : ℕ) → TextChunk
result_of c text index tokens = record {
  original = c.text;
  text = text;
  index = index;
  start_char = none;
  end_char = none;
  start_token = some c.start_token;
  end_token = some c.end_token;
  token_count = some tokens;
}

-- Each result describes its chunk: the raw and the transformed text, the position, the token span,
-- and the number of tokens of the transformed text.
abbrev pub Describes :
    TokenEncode → Option (Text → Text) → ℕ → List TokenChunk → List TextChunk → Type 0
Describes encode transform index [] [] = Unit
Describes encode transform index [] (r ∷ rs) = ⊥
Describes encode transform index (c ∷ cs) [] = ⊥
Describes encode transform index (c ∷ cs) (r ∷ rs) =
    (r.original ≡ c.text)
    × (r.text ≡ transformed transform c.text)
    × (r.index ≡ index)
    × (r.start_token ≡ some c.start_token)
    × (r.end_token ≡ some c.end_token)
    × ((tokens : List ℕ) × (encode r.text ≡ ok tokens) × (r.token_count ≡ some (length tokens)))
    × Describes encode transform (suc index) cs rs

-- When the results are made, there is one for each chunk, numbered in order from the first index,
-- with the chunk's text and span and with the token count of the text after the transformation.
pub create_chunk_results-Describes :
    (encode : TokenEncode) (transform : Option (Text → Text)) (index : ℕ) (chunks : List TokenChunk)
    (results : List TextChunk)
    → create_chunk_results index chunks transform encode ≡ ok results
    → Describes encode transform index chunks results
unfolding create_chunk_results
create_chunk_results-Describes encode transform index [] results h =
    subst (Describes encode transform index []) (ok-injective h) tt
create_chunk_results-Describes encode transform index (c ∷ cs) results h =
    let text = transformed transform c.text in
    let (tokens, encoded, made) =
      >>=-eq-ok (encode text)
        (λ tokens. create_chunk_results (suc index) cs transform encode >>= λ rest.
          ok (result_of c text index (length tokens) ∷ rest))
        h in
    let (rest, later, whole) =
      >>=-eq-ok (create_chunk_results (suc index) cs transform encode)
        (λ rest. ok (result_of c text index (length tokens) ∷ rest)) made in
    subst (Describes encode transform index (c ∷ cs)) (ok-injective whole) (
      refl,
      refl,
      refl,
      refl,
      refl,
      (tokens, encoded, refl),
      create_chunk_results-Describes encode transform (suc index) cs rest later,
    )
