-- ===== src/Storage/Memory/Clear.antt =====
-- What clear of storage/memory.rs removes, with a namespace and without one.
use graphloom.Base.{
  ℕ, ◌≡◌, refl, ap, ◌∙◌, Bool, true, false, ◌||◌, ◌&&◌, none, some, List, [], ◌∷◌, ◌++◌, map, Text,
  text_eq, ◌==◌, ok, lookup, remove, lookup-remove, filter, if◌then◌else◌, arith, Bool-cases, inl,
  inr, any, text_beq, beq_refl, append_assoc,
}
use graphloom.Storage.Path.{validate_logical_path, path_to_logical, strip_prefix}
use graphloom.Storage.Memory.{
  Bytes, MemoryStorage, joined_key, key, get, clear, in_namespace, remove_all,
}

lookup-remove_all :
    (k : Text) (ks : List Text) (m : List (Text × Bytes))
    → lookup k (remove_all ks m) ≡ (if any (λ j. j == k) ks then none else lookup k m)
lookup-remove_all k [] m = refl
lookup-remove_all k (j ∷ ks) m =
    ground (arith, lookup-remove_all k ks (remove j m), lookup-remove j k m)

any-filter :
    (p : Text → Bool) (k : Text) (ks : List Text)
    → any (λ j. j == k) (filter p ks) ≡ (p k && any (λ j. j == k) ks)
any-filter p k [] = ground arith
any-filter p k (j ∷ ks) = elim (Bool-cases (j == k)) [
  | inl e ↦
      (let same = (text_eq.eq_test_iff j k).0 e in ground (arith, any-filter p k ks, ap p same))
  | inr e ↦ ground (arith, any-filter p k ks)
]

lookup-any :
    (k : Text) (m : List (Text × Bytes))
    → any (λ j. j == k) (map (λ e. e.0) m) ≡ false
    → lookup k m ≡ none
unfolding lookup
lookup-any k [] h = refl
lookup-any k (e ∷ m) h = ground (arith, lookup-any k m)

lookup-clear :
    (s : MemoryStorage) (k : Text)
    → lookup k (clear s).1.storage
      ≡ (if (s.namespace == []) || in_namespace s.namespace k then none else lookup k s.storage)
unfolding clear text_beq lookup
lookup-clear s k =
    elim s.namespace
      as (λ n.
        lookup k (clear (record s { namespace = n })).1.storage
        ≡ (if (n == []) || in_namespace n k then none else lookup k s.storage)) [
          | [] ↦ refl
          | n ∷ ns ↦
              (let keys = map (λ e. e.0) s.storage in
                ground (
                  arith,
                  lookup-remove_all k (filter (in_namespace (n ∷ ns)) keys) s.storage,
                  any-filter (in_namespace (n ∷ ns)) k keys,
                  lookup-any k s.storage,
                ))
        ]

strip_prefix-append : (prefix rest : Text) → strip_prefix prefix (prefix ++ rest) ≡ some rest
unfolding strip_prefix
strip_prefix-append [] rest = refl
strip_prefix-append (c ∷ cs) rest = ground (arith, strip_prefix-append cs rest)

in_namespace-joined_key :
    (n : ℕ) (ns name : Text) → in_namespace (n ∷ ns) (joined_key (n ∷ ns) name) ≡ true
in_namespace-joined_key n ns [] = ground (arith, beq_refl (n ∷ ns))
in_namespace-joined_key n ns (c ∷ cs) = ground (
  arith,
  ap (strip_prefix ((n ∷ ns) ++ b'/' ∷ [])) (append_assoc (n ∷ ns) (b'/' ∷ []) (c ∷ cs)),
  strip_prefix-append ((n ∷ ns) ++ b'/' ∷ []) (c ∷ cs),
)

clear-namespace : (s : MemoryStorage) → (clear s).1.namespace ≡ s.namespace
unfolding clear
clear-namespace s =
    elim s.namespace as (λ n. (clear (record s { namespace = n })).1.namespace ≡ n) [
      | [] ↦ refl
      | n ∷ ns ↦ refl
    ]

in_namespace_key :
    (s : MemoryStorage) (name : Text)
    → ((s.namespace == []) || in_namespace s.namespace (joined_key s.namespace name)) ≡ true
unfolding text_beq
in_namespace_key s name =
    elim s.namespace as (λ n. ((n == []) || in_namespace n (joined_key n name)) ≡ true) [
      | [] ↦ refl
      | n ∷ ns ↦ in_namespace-joined_key n ns name
    ]

-- For any storage, key and name that validate_logical_path accepts: after a clear, the key is gone if
-- the storage has no namespace or the key is the namespace or starts with the namespace and a slash,
-- and any other key has its bytes as before; and get finds nothing for the name.
pub get-clear :
    (s : MemoryStorage) (k a : Text) (p : List Text)
    → validate_logical_path a ≡ ok p
    → (lookup k (clear s).1.storage
        ≡ (if (s.namespace == []) || in_namespace s.namespace k then none else lookup k s.storage))
      × (get a (clear s).1 ≡ ok none)
unfolding get key
get-clear s k a p h =
    let kept = joined_key s.namespace (path_to_logical p) in
    (
      lookup-clear s k,
      rw h (
          ap ok (
            ap (λ n. lookup (joined_key n (path_to_logical p)) (clear s).1.storage)
              (clear-namespace s)
            ∙ lookup-clear s kept
            ∙ ground (arith, in_namespace_key s (path_to_logical p)))),
    )
