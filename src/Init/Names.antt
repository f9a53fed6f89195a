-- ===== src/Init/Names.antt =====
-- The names of temporary files: `temporary_sibling`, where UUIDs are texts of one length that do not
-- repeat.
use graphloom.Base.{
  ℕ, suc, ◌≡◌, ◌≢◌, ◌∙◌, sym, ap, refl, List, [], ◌∷◌, ◌++◌, Text, codes, ok, length, length-append,
  append_assoc, arith, Option-cases, inl, inr,
}
use graphloom.Init.Disk.{FilePath, split_last, Disk}
use graphloom.Init.Transaction.{temporary_name, temporary_sibling}

abbrev first_byte : Text → ℕ
first_byte [] = 0
first_byte (c ∷ cs) = c

-- The end of a list is fixed by its length.
suffix-eq {ℓ} :
    {A : Type ℓ} (xs ys us vs : List A) → xs ++ us ≡ ys ++ vs → length us ≡ length vs → us ≡ vs
suffix-eq [] [] us vs h n = h
suffix-eq [] (y ∷ ys) us vs h n = absurd (omega (arith, ap length h, length-append ys vs))
suffix-eq (x ∷ xs) [] us vs h n = absurd (omega (arith, ap length h, length-append xs us))
suffix-eq (x ∷ xs) (y ∷ ys) us vs h n = suffix-eq xs ys us vs (cc) n

prefix-eq {ℓ} :
    {A : Type ℓ} (xs ys us vs : List A) → xs ++ us ≡ ys ++ vs → length xs ≡ length ys → xs ≡ ys
prefix-eq [] [] us vs h n = refl
prefix-eq [] (y ∷ ys) us vs h n = absurd (omega arith)
prefix-eq (x ∷ xs) [] us vs h n = absurd (omega arith)
prefix-eq (x ∷ xs) (y ∷ ys) us vs h n =
    let e : xs ≡ ys = prefix-eq xs ys us vs (cc) (omega arith) in cc

module _ (uuid : ℕ → Text) where
  -- A path that the code drew for a temporary file, as the UUID of a number and for a purpose.
  abbrev pub IsSibling : (kind : Text) → ℕ → FilePath → Type 0
  IsSibling kind n path =
      (parent : FilePath) × (name : Text) × (path ≡ parent ++ temporary_name uuid name n kind ∷ [])

  pub IsSibling-temporary_sibling :
      (target : FilePath) (kind : Text) (d : Disk) (path : FilePath)
      → (temporary_sibling uuid target kind d).0 ≡ ok path
      → IsSibling kind d.next_uuid path
        × ((temporary_sibling uuid target kind d).1.files ≡ d.files)
        × ((temporary_sibling uuid target kind d).1.next_uuid ≡ suc d.next_uuid)
  unfolding temporary_sibling
  IsSibling-temporary_sibling target kind d path h = elim (Option-cases (split_last target)) [
    | inl e ↦ ground (arith, e)
    | inr ((parent, name), e) ↦
        ((parent, name, ground (arith, e)), ground (arith, e), ground (arith, e))
  ]

  pub files-temporary_sibling :
      (target : FilePath) (kind : Text) (d : Disk)
      → ((temporary_sibling uuid target kind d).1.files ≡ d.files)
  unfolding temporary_sibling
  files-temporary_sibling target kind d = ground arith

  module _ (width : (n m : ℕ) → length (uuid n) ≡ length (uuid m))
      (unique : (n m : ℕ) → uuid n ≡ uuid m → n ≡ m) where
    -- The backups of two draws are different.
    pub IsSibling-unique :
        (kind : Text) (n m : ℕ) (path : FilePath)
        → IsSibling kind n path
        → IsSibling kind m path
        → n ≡ m
    IsSibling-unique kind n m path (p, a, e) (q, b, f) =
        let last =
          suffix-eq p q (temporary_name uuid a n kind ∷ []) (temporary_name uuid b m kind ∷ [])
            (sym e ∙ f) refl in
        let same : temporary_name uuid a n kind ≡ temporary_name uuid b m kind = cc in
        let tail : uuid n ++ (b'.' ∷ kind) ≡ uuid m ++ (b'.' ∷ kind) =
          suffix-eq (b'.' ∷ (a ++ b'.' ∷ [])) (b'.' ∷ (b ++ b'.' ∷ [])) (uuid n ++ (b'.' ∷ kind))
            (uuid m ++ (b'.' ∷ kind)) (simp append_assoc same)
            (omega (
              arith,
              width n m,
              length-append (uuid n) (b'.' ∷ kind),
              length-append (uuid m) (b'.' ∷ kind),
            )) in
        unique n m (prefix-eq (uuid n) (uuid m) (b'.' ∷ kind) (b'.' ∷ kind) tail (width n m))

  -- A backup is no staged file.
  pub staged≢backup :
      (n m : ℕ) (path : FilePath)
      → IsSibling (codes "tmp") n path
      → ¬ (IsSibling (codes "backup") m path)
  staged≢backup n m path (p, a, e) (q, b, f) =
      let last =
        suffix-eq p q (temporary_name uuid a n (codes "tmp") ∷ [])
          (temporary_name uuid b m (codes "backup") ∷ []) (sym e ∙ f) refl in
      let same : temporary_name uuid a n (codes "tmp") ≡ temporary_name uuid b m (codes "backup") =
        cc in
      let tail : codes "tmp" ≡ codes "kup" =
        suffix-eq (b'.' ∷ (a ++ (b'.' ∷ (uuid n ++ b'.' ∷ []))))
          (b'.' ∷ (b ++ (b'.' ∷ (uuid m ++ codes ".bac")))) (codes "tmp") (codes "kup")
          (simp append_assoc same) refl in
      absurd (omega (arith, ap first_byte tail))

  -- The name of a temporary file ends in its kind.
  pub sibling_end :
      (kind : Text) (n : ℕ) (parent : FilePath) (name : Text)
      → IsSibling kind n (parent ++ name ∷ [])
      → (stem : Text) × (name ≡ stem ++ kind)
  sibling_end kind n parent name (p, a, e) =
      let last = suffix-eq parent p (name ∷ []) (temporary_name uuid a n kind ∷ []) e refl in
      let same : name ≡ temporary_name uuid a n kind = cc in
      (b'.' ∷ (a ++ (b'.' ∷ (uuid n ++ b'.' ∷ []))), same ∙ simp append_assoc refl)

  not_temporary_end :
      (kind : Text) (n : ℕ) (parent : FilePath) (stem end stem' end' : Text)
      → kind ≡ stem' ++ end'
      → length end ≡ length end'
      → end ≢ end'
      → ¬ (IsSibling kind n (parent ++ (stem ++ end) ∷ []))
  not_temporary_end kind n parent stem end stem' end' k l ne s =
      let (front, e) = sibling_end kind n parent (stem ++ end) s in
      ne (
        suffix-eq stem (front ++ stem') end end'
          (e ∙ ap (λ t. front ++ t) k ∙ sym (append_assoc front stem' end')) l)

  -- A name whose last three bytes are those of neither kind.
  pub not_temporary :
      (parent : FilePath) (stem end : Text)
      → length end ≡ 3
      → end ≢ codes "tmp"
      → end ≢ codes "kup"
      → ((n : ℕ) → ¬ (IsSibling (codes "tmp") n (parent ++ (stem ++ end) ∷ [])))
        × ((n : ℕ) → ¬ (IsSibling (codes "backup") n (parent ++ (stem ++ end) ∷ [])))
  not_temporary parent stem end l a b = (
    λ n. not_temporary_end (codes "tmp") n parent stem end [] (codes "tmp") refl l a,
    λ n. not_temporary_end (codes "backup") n parent stem end (codes "bac") (codes "kup") refl l b,
  )
