-- ===== src/Chunking/Examples.antt =====
-- The chunker on a text whose tokens are its bytes, and the theorems there.
use graphloom.Base.{ℕ, ◌≡◌, ◌⊎◌, refl, List, [], ◌∷◌, none, some, Text, ok, err, codes, arith}
use graphloom.Chunking.{
  ChunkingError, TokenChunk, TextChunk, TokenEncode, TokenDecode, returned, slice, token_chunk,
  chunk_loop, split_text_on_tokens_with_spans, split_text_on_tokens, create_chunk_results, chunk,
  validate, invalid_config, token_overlap,
}
use graphloom.Chunking.Windows.{IsWindows, split_text_on_tokens_ends}
use graphloom.Chunking.Join.{joined, joined-split_text}
use graphloom.Chunking.Results.{Describes, create_chunk_results-Describes}

abbrev bytes : TokenEncode
bytes text = ok text

abbrev text_of : TokenDecode
text_of tokens = ok tokens

program : Unit {0}
unfolding chunk_loop split_text_on_tokens_with_spans split_text_on_tokens create_chunk_results chunk
    validate
program = tt

abbrev alphabet : Text
alphabet = codes "abcdefg"

abbrev spans : List TokenChunk
spans = token_chunk (codes "abcd") 0 4 ∷ token_chunk (codes "defg") 3 7 ∷ []

split_alphabet : split_text_on_tokens_with_spans alphabet 4 1 bytes text_of ≡ returned (ok spans)
unfolding program
split_alphabet = refl

texts_alphabet :
    split_text_on_tokens alphabet 3 0 bytes text_of
    ≡ returned (ok (codes "abc" ∷ codes "def" ∷ codes "g" ∷ []))
unfolding program
texts_alphabet = refl

overlap_refused :
    validate (record {
      chunker_type = token_overlap;
      encoding_model = [];
      size = 4;
      overlap = 4;
      prepend_metadata = [];
    })
    ≡ err (invalid_config 4 4)
unfolding program
overlap_refused = refl

split_text_on_tokens_ends_example :
    ((chunks : List TokenChunk) × (split_text_on_tokens_with_spans alphabet 4 1 bytes text_of
        ≡ returned (ok chunks))
      × IsWindows alphabet 4 1 text_of 0 chunks)
    ⊎ ((a b : ℕ) × (e : ChunkingError) × (split_text_on_tokens_with_spans alphabet 4 1 bytes text_of
          ≡ returned (err e))
        × (text_of (slice alphabet a b) ≡ err e))
split_text_on_tokens_ends_example =
    split_text_on_tokens_ends alphabet 4 1 bytes text_of alphabet (omega arith) refl (omega arith)

joined-split_text_example : joined alphabet 4 1 text_of 0 spans ≡ alphabet
joined-split_text_example =
    joined-split_text alphabet 4 1 bytes text_of alphabet spans (omega arith) refl (omega arith)
      split_alphabet

abbrev tagged : Text → Text
tagged t = b'>' ∷ t

abbrev result : TokenChunk → ℕ → TextChunk
result c i = record {
  original = c.text;
  text = tagged c.text;
  index = i;
  start_char = none;
  end_char = none;
  start_token = some c.start_token;
  end_token = some c.end_token;
  token_count = some 5;
}

abbrev results : List TextChunk
results = result (token_chunk (codes "abcd") 0 4) 0 ∷ result (token_chunk (codes "defg") 3 7) 1 ∷ []

results_made : create_chunk_results 0 spans (some tagged) bytes ≡ ok results
unfolding program
results_made = refl

create_chunk_results-Describes_example : Describes bytes (some tagged) 0 spans results
create_chunk_results-Describes_example =
    create_chunk_results-Describes bytes (some tagged) 0 spans results results_made
