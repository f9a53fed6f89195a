-- ===== src/Chunking/Windows.antt =====
-- The windows that the chunker cuts: which they are, that the loop ends, and that together they are
-- the tokens.
use graphloom.Base.{
  ℕ, zero, suc, ◌+◌, ◌-◌, ◌≤◌, ◌<◌, ◌≡◌, ◌≢◌, ◌⊎◌, inl, inr, refl, sym, ◌∙◌, ap, subst, true, false,
  List, [], ◌∷◌, ◌++◌, Text, ok, err, leb, length, saturating_add, usize_max, ◌==◌, nat_eq, arith,
  Bool-cases, Result-cases, lt→ltb, eqb_iff,
}
use mathlib.Core.Bool.{false≢true}
use mathlib.Core.List.{append_assoc}
use graphloom.Chunking.{
  ChunkingError, TokenChunk, TokenEncode, TokenDecode, Loop, returned, slice, token_chunk,
  window_end, chunk_loop, split_text_on_tokens_with_spans,
}

module _ (tokens : List ℕ) (size overlap : ℕ) (decode : TokenDecode) where
  -- `chunks` are the windows from token `start` on: each takes `size` tokens and the next one begins
  -- `size - overlap` tokens later, until a window reaches the last token.
  abbrev pub IsWindows : ℕ → List TokenChunk → Type 0
  IsWindows start [] = length tokens ≤ start
  IsWindows start (c ∷ []) =
      (c.start_token ≡ start)
      × (start < length tokens)
      × (length tokens ≤ start + size)
      × (c.end_token + 1 ≡ length tokens)
      × (decode (slice tokens start (length tokens)) ≡ ok c.text)
  IsWindows start (c ∷ d ∷ rest) =
      (c.start_token ≡ start)
      × (start + size < length tokens)
      × (c.end_token + 1 ≡ start + size)
      × (decode (slice tokens start (start + size)) ≡ ok c.text)
      × IsWindows (start + (size - overlap)) (d ∷ rest)

  abbrev start_round : ℕ → List TokenChunk → ℕ → Loop (List TokenChunk)
  start_round fuel acc start =
      chunk_loop tokens size overlap decode fuel start (window_end tokens size overlap decode start)
        acc

  -- The loop from token `start` on returned all its windows, or the error of one `decode` call.
  abbrev Ends : (start : ℕ) → List TokenChunk → Loop (List TokenChunk) → Type 0
  Ends start acc l =
      ((chunks : List TokenChunk) × (l ≡ returned (ok (acc ++ chunks))) × IsWindows start chunks)
      ⊎ ((a b : ℕ) × (e : ChunkingError) × (l ≡ returned (err e))
          × (decode (slice tokens a b) ≡ err e))

  module _ (fuel start cur : ℕ) (acc : List TokenChunk) (inside : start < length tokens) where
    abbrev round_of : Loop (List TokenChunk)
    round_of = chunk_loop tokens size overlap decode (suc fuel) start cur acc

    round_err :
        (e : ChunkingError) → decode (slice tokens start cur) ≡ err e → round_of ≡ returned (err e)
    unfolding chunk_loop
    round_err e h = rw (lt→ltb start (length tokens) inside, chunk_loop) (rw h)

    round_last :
        (text : Text)
        → decode (slice tokens start cur) ≡ ok text
        → (cur == length tokens) ≡ true
        → round_of ≡ returned (ok (acc ++ token_chunk text start cur ∷ []))
    unfolding chunk_loop
    round_last text h last = rw (lt→ltb start (length tokens) inside, chunk_loop) (rw h (rw last))

    round_next :
        (text : Text)
        → decode (slice tokens start cur) ≡ ok text
        → (cur == length tokens) ≡ false
        → round_of
          ≡ start_round fuel
              (acc ++ token_chunk text start cur ∷ [])
              (saturating_add start (size - overlap))
    unfolding chunk_loop
    round_next text h more = rw (lt→ltb start (length tokens) inside, chunk_loop) (rw h (rw more))

  cons_window :
      (start : ℕ) (c : TokenChunk) (chunks : List TokenChunk)
      → c.start_token ≡ start
      → start + size < length tokens
      → c.end_token + 1 ≡ start + size
      → decode (slice tokens start (start + size)) ≡ ok c.text
      → start + (size - overlap) < length tokens
      → IsWindows (start + (size - overlap)) chunks
      → IsWindows start (c ∷ chunks)
  cons_window start c [] p q r d inside h = absurd (omega arith)
  cons_window start c (d' ∷ rest) p q r d inside h = (p, q, r, d, h)

  chunk_loop_returns :
      (fuel start : ℕ) (acc : List TokenChunk)
      → overlap < size
      → length tokens ≤ usize_max
      → start < length tokens
      → length tokens - start < fuel
      → Ends start acc (start_round fuel acc start)
  chunk_loop_returns zero start acc o u inside enough = absurd (omega arith)
  chunk_loop_returns (suc fuel) start acc o u inside enough =
      let cur = window_end tokens size overlap decode start in
      elim (Result-cases (decode (slice tokens start cur))) [
        | inr (e, failed) ↦
            inr (start, cur, e, round_err fuel start cur acc inside e failed, failed)
        | inl (text, decoded) ↦ elim (Bool-cases (cur == length tokens)) [
          | inl last ↦
              let whole : cur ≡ length tokens = (eqb_iff cur (length tokens)).0 last in
              inl (
                token_chunk text start cur ∷ [],
                round_last fuel start cur acc inside text decoded last,
                (
                  refl,
                  inside,
                  omega arith,
                  omega arith,
                  subst (λ n. decode (slice tokens start n) ≡ ok text) whole decoded,
                ),
              )
          | inr more ↦
              let apart : cur ≢ length tokens =
                λ e. false≢true (sym more ∙ (eqb_iff cur (length tokens)).1 e) in
              let end : cur ≡ start + size = omega arith in
              let next : saturating_add start (size - overlap) ≡ start + (size - overlap) =
                omega arith in
              let c = token_chunk text start cur in
              let first =
                round_next fuel start cur acc inside text decoded more
                ∙ ap (start_round fuel (acc ++ c ∷ [])) next in
              elim (chunk_loop_returns fuel (start + (size - overlap)) (acc ++ c ∷ []) o u
                (omega arith) (omega arith)) [
                  | inr (a, b, e, stopped, failed) ↦ inr (a, b, e, first ∙ stopped, failed)
                  | inl (chunks, finished, windows) ↦ inl (
                    c ∷ chunks,
                    first ∙ finished ∙ ap (λ l. returned (ok l)) (append_assoc acc (c ∷ []) chunks),
                    cons_window start c chunks refl (omega arith) (omega arith)
                        (subst (λ n. decode (slice tokens start n) ≡ ok text) end decoded)
                        (omega arith) windows,
                  )
                ]
        ]
      ]

split_start :
    (text : Text) (size overlap : ℕ) (encode : TokenEncode) (decode : TokenDecode) (tokens : List ℕ)
    → overlap < size
    → encode text ≡ ok tokens
    → split_text_on_tokens_with_spans text size overlap encode decode
      ≡ chunk_loop tokens size overlap decode
          (suc (length tokens))
          0
          (window_end tokens size overlap decode 0)
          []
unfolding split_text_on_tokens_with_spans
split_start text size overlap encode decode tokens o h =
    let allowed : leb size overlap ≡ false = ground arith in
    rw (allowed, split_text_on_tokens_with_spans) (rw h)

chunk_loop_empty :
    (size overlap : ℕ) (decode : TokenDecode)
    → chunk_loop [] size overlap decode 1 0 (window_end [] size overlap decode 0) []
      ≡ returned (ok [])
unfolding chunk_loop
chunk_loop_empty size overlap decode = refl

-- If the overlap is smaller than the size and the text encodes to at most `usize::MAX` tokens, the
-- chunker returns: either exactly the windows of the tokens (each of `size` tokens, `size - overlap`
-- after the one before, the last one ending at the last token) with their decoded texts, or the
-- error of a `decode` call on a slice of the tokens.
pub split_text_on_tokens_ends :
    (text : Text) (size overlap : ℕ) (encode : TokenEncode) (decode : TokenDecode) (tokens : List ℕ)
    → overlap < size
    → encode text ≡ ok tokens
    → length tokens ≤ usize_max
    → ((chunks : List TokenChunk) × (split_text_on_tokens_with_spans text size overlap encode decode
          ≡ returned (ok chunks))
        × IsWindows tokens size overlap decode 0 chunks)
      ⊎ ((a b : ℕ) × (e : ChunkingError) × (split_text_on_tokens_with_spans text size overlap encode
              decode
            ≡ returned (err e))
          × (decode (slice tokens a b) ≡ err e))
unfolding split_text_on_tokens_with_spans
split_text_on_tokens_ends text size overlap encode decode [] o h u = inl (
  [],
  split_start text size overlap encode decode [] o h ∙ chunk_loop_empty size overlap decode,
  omega arith,
)
split_text_on_tokens_ends text size overlap encode decode (t ∷ ts) o h u =
    let start = split_start text size overlap encode decode (t ∷ ts) o h in
    elim (chunk_loop_returns (t ∷ ts) size overlap decode (suc (length (t ∷ ts))) 0 [] o u
      (omega arith) (omega arith)) [
        | inl (chunks, finished, windows) ↦ inl (chunks, start ∙ finished, windows)
        | inr (a, b, e, stopped, failed) ↦ inr (a, b, e, start ∙ stopped, failed)
      ]
