-- ===== src/Chunking/Join.antt =====
-- Windows that overlap hold each token once, if a window leaves out what the one before it had.
use graphloom.Base.{
  ℕ, ◌+◌, ◌-◌, ◌≤◌, ◌<◌, ◌≡◌, sym, ◌∙◌, ap, List, [], ◌∷◌, ◌++◌, length, take, drop, drop-drop,
  drop_all, take_all, drop-take-append, length-drop, arith, ok, Result, Text, usize_max, subst, inl,
  inr, ok≢err, ok-injective,
}
use mathlib.Core.List.{append-nil}
use graphloom.Chunking.{
  TokenChunk, ChunkingError, TokenEncode, TokenDecode, returned, split_text_on_tokens_with_spans,
  slice,
}
use graphloom.Chunking.Windows.{IsWindows, split_text_on_tokens_ends}

returned-injective : {A : Type 0} {a b : Result ChunkingError A} → returned a ≡ returned b → a ≡ b
returned-injective h = cc

module _ (tokens : List ℕ) (size overlap : ℕ) (decode : TokenDecode) where
  -- The tokens of the chunks in order; the first chunk leaves out `skip` tokens, each later one the
  -- overlap.
  abbrev pub joined : (skip : ℕ) → List TokenChunk → List ℕ
  joined skip [] = []
  joined skip (c ∷ rest) =
      drop skip (slice tokens c.start_token (c.end_token + 1)) ++ joined overlap rest

  joined-IsWindows :
      (start skip : ℕ) (chunks : List TokenChunk)
      → overlap < size
      → skip ≤ overlap
      → IsWindows tokens size overlap decode start chunks
      → joined skip chunks ≡ drop (start + skip) tokens
  joined-IsWindows start skip [] o k h = sym (drop_all (start + skip) tokens (omega arith))
  joined-IsWindows start skip (c ∷ []) o k (begins, inside, whole, ends, _) =
      append-nil _
      ∙ ap (λ n. drop skip (slice tokens n (c.end_token + 1))) begins
      ∙ ap (λ n. drop skip (slice tokens start n)) ends
      ∙ ap (drop skip) (
          take_all (length tokens - start) (drop start tokens)
            (omega (arith, length-drop start tokens)))
      ∙ drop-drop skip start tokens
  joined-IsWindows start skip (c ∷ d ∷ rest) o k (begins, more, ends, _, later) =
      ap (λ n. drop skip (slice tokens n (c.end_token + 1)) ++ joined overlap (d ∷ rest)) begins
      ∙ ap (λ n. drop skip (slice tokens start n) ++ joined overlap (d ∷ rest)) ends
      ∙ ap (λ n. drop skip (take n (drop start tokens)) ++ joined overlap (d ∷ rest)) (omega arith)
      ∙ ap (λ l. drop skip (take size (drop start tokens)) ++ l)
          (joined-IsWindows (start + (size - overlap)) overlap (d ∷ rest) o (omega arith) later
            ∙ ap (λ n. drop n tokens) (omega arith)
            ∙ sym (drop-drop size start tokens))
      ∙ drop-take-append skip size (drop start tokens) (omega arith)
      ∙ drop-drop skip start tokens

-- Chunking loses nothing and repeats nothing but the overlap. If the overlap is smaller than the
-- size and the text encodes to at most `usize::MAX` tokens, then the windows that the chunker
-- returns, each without the `overlap` tokens that the one before it ended with, are together the
-- tokens of the text.
pub joined-split_text :
    (text : Text) (size overlap : ℕ) (encode : TokenEncode) (decode : TokenDecode) (tokens : List ℕ)
    (chunks : List TokenChunk)
    → overlap < size
    → encode text ≡ ok tokens
    → length tokens ≤ usize_max
    → split_text_on_tokens_with_spans text size overlap encode decode ≡ returned (ok chunks)
    → joined tokens size overlap decode 0 chunks ≡ tokens
joined-split_text text size overlap encode decode tokens chunks o h u done =
    elim (split_text_on_tokens_ends text size overlap encode decode tokens o h u) [
      | inr (a, b, e, stopped, _) ↦
          absurd (ok≢err chunks e (returned-injective (sym done ∙ stopped)))
      | inl (windows, finished, good) ↦
          subst (λ l. joined tokens size overlap decode 0 l ≡ tokens)
            (ok-injective (returned-injective (sym finished ∙ done)))
            (joined-IsWindows tokens size overlap decode 0 0 windows o (omega arith) good)
    ]
