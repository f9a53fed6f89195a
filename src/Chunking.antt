-- ===== src/Chunking.antt =====
-- crates/graphloom-chunking/src/token_chunker.rs and config.rs: chunks of a text as windows of its
-- tokens. The tokenizer's `encode` and `decode` are the caller's, so they are parameters. Every
-- number is a `usize`, whose saturating sum is written out.
pub mod Windows
pub mod Join
pub mod Results
mod Examples
use Prim.Native.String.{String}
use graphloom.Base.{
  ℕ, zero, suc, ◌-◌, Bool, true, false, Option, none, some, List, [], ◌∷◌, ◌++◌, Text, Result, ok,
  err, leb, ltb, min, length, take, drop, if◌then◌else◌, saturating_add, ◌==◌, nat_eq, ◌>>=◌, ◌>>◌,
  guard, map,
}

pub data ChunkerType : Type 0 where
  token_overlap semantic_text : ChunkerType

-- `ChunkingError`: the two variants that the chunker itself makes or passes on.
pub data ChunkingError : Type 0 where
  invalid_config : (overlap size : ℕ) → ChunkingError
  tokenizer : Text → ChunkingError

pub record ChunkingConfig : Type 0 where
  pub chunker_type : ChunkerType
  pub encoding_model : Text
  pub size : ℕ
  pub overlap : ℕ
  pub prepend_metadata : List Text

unfoldable pub validate : ChunkingConfig → Result ChunkingError (Unit {0})
validate c = if leb c.size c.overlap then err (invalid_config c.overlap c.size) else ok tt

pub record TokenChunk : Type 0 where
  pub text : Text
  pub start_token : ℕ
  pub end_token : ℕ

pub record TextChunk : Type 0 where
  pub original : Text
  pub text : Text
  pub index : ℕ
  pub start_char : Option ℕ
  pub end_char : Option ℕ
  pub start_token : Option ℕ
  pub end_token : Option ℕ
  pub token_count : Option ℕ

abbrev pub TokenEncode : Type 0
TokenEncode = Text → Result ChunkingError (List ℕ)

abbrev pub TokenDecode : Type 0
TokenDecode = List ℕ → Result ChunkingError Text

-- `&tokens[start..end]`
abbrev pub slice : List ℕ → ℕ → ℕ → List ℕ
slice tokens start end = take (end - start) (drop start tokens)

-- A call with a loop in it: it returned, or the fuel of its loop ran out.
pub data Loop (A : Type 0) : Type 0 where
  returned : Result ChunkingError A → Loop A
  out_of_fuel : Loop A

abbrev pub after_loop : {A B : Type 0} → Loop A → (A → Result ChunkingError B) → Loop B
after_loop (returned r) f = returned (r >>= f)
after_loop out_of_fuel f = out_of_fuel

abbrev pub token_chunk : Text → (start_idx cur_idx : ℕ) → TokenChunk
token_chunk text start_idx cur_idx = record {
  text = text;
  start_token = start_idx;
  end_token = cur_idx - 1;
}

module _ (tokens : List ℕ) (size overlap : ℕ) (decode : TokenDecode) where
  -- `start_idx.saturating_add(chunk_size).min(input_tokens.len())`
  abbrev pub window_end : ℕ → ℕ
  window_end start_idx = min (saturating_add start_idx size) (length tokens)

  -- The `while` loop. `acc` holds the chunks pushed so far.
  unfoldable pub chunk_loop : ℕ → (start_idx cur_idx : ℕ) → List TokenChunk → Loop (List TokenChunk)
  chunk_loop zero start_idx cur_idx acc = out_of_fuel
  chunk_loop (suc fuel) start_idx cur_idx acc = elim (ltb start_idx (length tokens)) [
    | false ↦ returned (ok acc)
    | true ↦ elim (decode (slice tokens start_idx cur_idx)) [
      | err e ↦ returned (err e)
      | ok text ↦ elim (cur_idx == length tokens) [
        | true ↦ returned (ok (acc ++ token_chunk text start_idx cur_idx ∷ []))
        | false ↦
            chunk_loop fuel (saturating_add start_idx (size - overlap))
              (window_end (saturating_add start_idx (size - overlap)))
              (acc ++ token_chunk text start_idx cur_idx ∷ [])
      ]
    ]
  ]

-- The fuel is one more than the tokens: each round moves `start_idx` on.
unfoldable pub split_text_on_tokens_with_spans :
    Text → (chunk_size chunk_overlap : ℕ) → TokenEncode → TokenDecode → Loop (List TokenChunk)
split_text_on_tokens_with_spans text chunk_size chunk_overlap encode decode =
    if leb chunk_size chunk_overlap
    then returned (err (invalid_config chunk_overlap chunk_size))
    else elim (encode text) [
      | err e ↦ returned (err e)
      | ok tokens ↦
          chunk_loop tokens chunk_size chunk_overlap decode (suc (length tokens)) 0
            (window_end tokens chunk_size chunk_overlap decode 0) []
    ]

unfoldable pub split_text_on_tokens :
    Text → (chunk_size chunk_overlap : ℕ) → TokenEncode → TokenDecode → Loop (List Text)
split_text_on_tokens text chunk_size chunk_overlap encode decode =
    after_loop (split_text_on_tokens_with_spans text chunk_size chunk_overlap encode decode)
      (λ chunks. ok (map (λ c. c.text) chunks))

-- `transform.map_or_else(|| text.clone(), |transform| transform(&text))`
abbrev pub transformed : Option (Text → Text) → Text → Text
transformed none text = text
transformed (some f) text = f text

-- The loop of `create_chunk_results` from index `index` on.
unfoldable pub create_chunk_results :
    ℕ → List TokenChunk → Option (Text → Text) → TokenEncode → Result ChunkingError (List TextChunk)
create_chunk_results index [] transform encode = ok []
create_chunk_results index (chunk ∷ chunks) transform encode = do
  let text = transformed transform chunk.text
  tokens ← encode text
  rest ← create_chunk_results (suc index) chunks transform encode
  ok (
      record {
        original = chunk.text;
        text = text;
        index = index;
        start_char = none;
        end_char = none;
        start_token = some chunk.start_token;
        end_token = some chunk.end_token;
        token_count = some (length tokens);
      }
      ∷ rest)

-- `TokenOverlapChunker::chunk`, for a chunker that `TokenOverlapChunker::new` returned.
unfoldable pub chunk :
    ChunkingConfig → TokenEncode → TokenDecode → Text → Option (Text → Text) → Loop (List TextChunk)
chunk config encode decode text transform =
    after_loop (split_text_on_tokens_with_spans text config.size config.overlap encode decode)
      (λ chunks. create_chunk_results 0 chunks transform encode)
