-- ===== src/Storage/Memory/Laws.antt =====
-- The laws of MemoryStorage: it is a map from component lists to bytes.
use graphloom.Base.{
  ℕ, ◌≡◌, refl, ap, sym, ◌∙◌, Bool, true, false, none, some, List, [], ◌∷◌, Text, text_eq, ◌==◌, ok,
  ◌>>=◌, ◌↔◌, lookup-insert, lookup-remove, if◌then◌else◌, arith, Bool-cases, inl, inr, PartialEq,
  append-nil, ◌&&◌,
}
use mathlib.Core.List.{append_cancel_left}
use graphloom.Storage.Path.{validate_logical_path, path_to_logical}
use graphloom.Storage.Path.Components.{path_to_logical-injective, validate_logical_path-All}
use graphloom.Storage.Memory.{Bytes, MemoryStorage, joined_key, key, get, set, delete}

true≢false : ¬ (true ≡ false)
true≢false h = cc

nil_cons : (c : ℕ) (cs : Text) → ¬ (◌≡◌ {A = Text} [] (b'/' ∷ c ∷ cs))
nil_cons c cs h = cc

joined_key-injective :
    (namespace a b : Text) → joined_key namespace a ≡ joined_key namespace b → a ≡ b
joined_key-injective [] a b h = h
joined_key-injective (n ∷ ns) [] [] h = refl
joined_key-injective (n ∷ ns) [] (c ∷ cs) h =
    absurd
      (nil_cons c cs (append_cancel_left (n ∷ ns) [] (b'/' ∷ c ∷ cs) (append-nil (n ∷ ns) ∙ h)))
joined_key-injective (n ∷ ns) (c ∷ cs) [] h =
    absurd
      (nil_cons c cs (append_cancel_left (n ∷ ns) [] (b'/' ∷ c ∷ cs) (append-nil (n ∷ ns) ∙ sym h)))
joined_key-injective (n ∷ ns) (c ∷ cs) (d ∷ ds) h =
    (let inner = append_cancel_left (n ∷ ns) (b'/' ∷ c ∷ cs) (b'/' ∷ d ∷ ds) h in cc)

-- Equality of the paths that names are validated to.
unfoldable pub path_beq : List Text → List Text → Bool
path_beq [] [] = true
path_beq (a ∷ rest) (b ∷ bs) = a == b && path_beq rest bs
path_beq _ _ = false

pub path_beq_iff : (a b : List Text) → (path_beq a b ≡ true) ↔ (a ≡ b)
unfolding path_beq
path_beq_iff [] [] = ground arith
path_beq_iff [] (b ∷ bs) = ground arith
path_beq_iff (a ∷ rest) [] = ground arith
path_beq_iff (a ∷ rest) (b ∷ bs) = ground (arith, path_beq_iff rest bs, text_eq.eq_test_iff a b)

instance abbrev pub path_eq : PartialEq (List Text)
path_eq = record { eq_test = path_beq; eq_test_iff = path_beq_iff }

-- The key of the validated path `parts`.
abbrev key_of : MemoryStorage → List Text → Text
key_of s parts = joined_key s.namespace (path_to_logical parts)

key_of_iff :
    (s : MemoryStorage) (a b : Text) (p q : List Text)
    → validate_logical_path a ≡ ok p
    → validate_logical_path b ≡ ok q
    → (key_of s p == key_of s q) ≡ (p == q)
key_of_iff s a b p q ha hb =
    let sp = validate_logical_path-All a p ha in
    let sq = validate_logical_path-All b q hb in
    let injective : key_of s p ≡ key_of s q → p ≡ q = λ e.
      path_to_logical-injective p q sp sq
        (joined_key-injective s.namespace (path_to_logical p) (path_to_logical q) e) in
    elim (Bool-cases (p == q)) [
      | inl e ↦
          (let same = (path_eq.eq_test_iff p q).0 e in
            (text_eq.eq_test_iff (key_of s p) (key_of s q)).1 (ap (key_of s) same) ∙ sym e)
      | inr e ↦ elim (Bool-cases (key_of s p == key_of s q)) [
        | inl f ↦
            (let same = injective ((text_eq.eq_test_iff (key_of s p) (key_of s q)).0 f) in
              absurd (true≢false (sym ((path_eq.eq_test_iff p q).1 same) ∙ e)))
        | inr f ↦ f ∙ sym e
      ]
    ]

key_valid :
    (s : MemoryStorage) (a : Text) (p : List Text)
    → validate_logical_path a ≡ ok p
    → key s a ≡ ok (key_of s p)
unfolding key
key_valid s a p h = rw (h, key) refl

-- For any storage, any two names that validate_logical_path accepts, and any bytes: get, after a set or a
-- delete of the first name, gives for a second name with the same components the bytes, or nothing,
-- and for any other name what it gave before.
pub get-set-delete :
    (s : MemoryStorage) (a b : Text) (p q : List Text) (bytes : Bytes)
    → validate_logical_path a ≡ ok p
    → validate_logical_path b ≡ ok q
    → (get b (set a bytes s).1 ≡ (get b s >>= λ old. ok (if p == q then some bytes else old)))
      × (get b (delete a s).1 ≡ (get b s >>= λ old. ok (if p == q then none else old)))
unfolding get set delete
get-set-delete s a b p q bytes ha hb =
    let same = key_of_iff s a b p q ha hb in
    ground (
      arith,
      key_valid s a p ha,
      key_valid s b q hb,
      key_valid (set a bytes s).1 b q hb,
      key_valid (delete a s).1 b q hb,
      lookup-insert (key_of s p) (key_of s q) bytes s.storage,
      lookup-remove (key_of s p) (key_of s q) s.storage,
    )
